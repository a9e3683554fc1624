-- ===== src/Services/Gather.antt =====
-- services/gather.ts: parts of a group are held until the group is whole. The clock's reading is an
-- argument; what a step logs and notifies is returned beside the new state. The pipeline that a whole
-- group is given to is the host's: `none` where there is no pipeline or it is empty.
pub mod Bounds
pub mod Reassembly
pub mod Arrival
pub mod RoundTrip
pub mod Inputs
use hkp_node.Shared.{
  ℕ, zero, suc, ◌+◌, ◌-◌, String, Bool, true, false, not, ◌&&◌, ◌||◌, List, [], ◌∷◌, ◌++◌, map,
  Option, none, some, leb, ltb, length, if◌then◌else◌, string_eq, nat_eq, ◌==◌, truthy,
}
use hkp_node.Shared.Json.{Json, Number, Js, property?}
use hkp_node.Shared.Json
use hkp_node.Shared.OrderedMap.{OrderedMap, get, has, set, delete}

abbrev pub max_refused : ℕ
max_refused = 1024

abbrev pub max_group_length : ℕ
max_group_length = 256

-- `Part`
pub record Part : Type 0 where
  pub item : Json
  pub group : String
  pub index : ℕ
  pub total : ℕ

-- A group that is arriving: its items by index.
pub record Collecting : Type 0 where
  pub items : OrderedMap ℕ Json
  pub total : ℕ
  pub bytes : ℕ
  pub started_at : ℕ

-- What is said of a group that is given up: the message's facts.
pub data Trouble : Type 0 where
  too_many_groups : String → ℕ → Trouble
  totals_differ : String → ℕ → ℕ → Trouble
  too_large : String → ℕ → Trouble
  timed_out : String → ℕ → ℕ → Trouble

pub data Event : Type 0 where
  progress : String → ℕ → ℕ → ℕ → Event
  trouble : Trouble → ℕ → Event

pub record Settings : Type 0 where
  pub max_bytes : ℕ
  pub max_groups : ℕ
  pub timeout_ms : ℕ
  pub bypass : Bool
  pub stop_propagation : Bool

pub record Gather : Type 0 where
  pub settings : Settings
  pub last_error : Option Trouble
  pub collecting : OrderedMap String Collecting
  pub refused : OrderedMap String ℕ

-- What a call answers: nothing, its input, a whole group as an array, or what the pipeline made of it.
pub data Answer : Type 0 where
  stopped : Answer
  passed : Json → Answer
  gathered : List (Option Json) → Answer
  made : Json → Answer

abbrev pub text? : Option Json → Option String
text? (some (Json.str s)) = some s
text? _ = none

abbrev pub nat? : Option Json → Option ℕ
nat? (some (Json.number (Number.nat n))) = some n
nat? _ = none

unfoldable pub part_of_fields : Js → Json → Option String → Option ℕ → Option ℕ → Option Part
part_of_fields js item (some group) (some total) (some index) =
    if truthy group
      && leb (js.utf16_length group) max_group_length
      && ltb 0 total
      && ltb index total
    then some (record { item = item; group = group; index = index; total = total })
    else none
part_of_fields js item _ _ _ = none

-- `isPart`, with the part that it recognises.
unfoldable pub part? : Js → Json → Option Part
unfolding property? part_of_fields
part? js value = elim (property? "item" value) [
  | none ↦ none
  | some item ↦
      part_of_fields js item (text? (property? "group" value)) (nat? (property? "total" value))
        (nat? (property? "index" value))
]

-- `sizeOf`
unfoldable pub size_of : Js → Json → ℕ
size_of js (Json.str s) = js.utf8_length s
size_of js (Json.bytes b) = length b
size_of js Json.null = 0
size_of js Json.undefined = 0
size_of js item = elim (js.stringify item) [ none ↦ 0 | some s ↦ js.utf8_length s ]

-- The `while` of `refuse`: the oldest refusals past the limit are forgotten.
unfoldable pub forget_oldest : OrderedMap String ℕ → OrderedMap String ℕ
forget_oldest [] = []
forget_oldest (oldest ∷ m) =
    let rest = forget_oldest m in if ltb max_refused (length (oldest ∷ m)) then rest else oldest ∷ m

unfoldable pub refuse : String → ℕ → Trouble → Gather → Gather × List Event
unfolding forget_oldest
refuse group now reason st =
    let collecting = delete group st.collecting in
    (
      record st {
        collecting = collecting;
        refused = forget_oldest (set group now st.refused);
        last_error = some reason;
      },
      trouble reason (length collecting) ∷ [],
    )

-- A refusal that ends the call.
unfoldable pub refusing : String → ℕ → Trouble → Gather → Gather × List Event × Answer
unfolding refuse
refusing group now reason st =
    ((refuse group now reason st).0, (refuse group now reason st).1, stopped)

abbrev pub is_stale : ℕ → Settings → ℕ → Bool
is_stale now settings since = ltb settings.timeout_ms (now - since)

-- One round of the first loop of `letGoOfStale`.
unfoldable pub drop_if_stale : ℕ → String → Collecting → Gather → Gather × List Event
drop_if_stale now group c st =
    if is_stale now st.settings c.started_at
    then (
      record st {
        collecting = delete group st.collecting;
        last_error = some (timed_out group (length c.items) c.total);
      },
      trouble (timed_out group (length c.items) c.total) (length (delete group st.collecting)) ∷ [],
    )
    else (st, [])

-- The loop, over the groups that there were when it began.
unfoldable pub drop_stale_groups : ℕ → List (String × Collecting) → Gather → Gather × List Event
unfolding drop_if_stale
drop_stale_groups now [] st = (st, [])
drop_stale_groups now ((group, c) ∷ rest) st =
    let (st', here) = drop_if_stale now group c st in
    let (st'', later) = drop_stale_groups now rest st' in (st'', here ++ later)

-- Its second loop.
unfoldable pub drop_stale_refusals : ℕ → Settings → OrderedMap String ℕ → OrderedMap String ℕ
drop_stale_refusals now settings [] = []
drop_stale_refusals now settings ((group, at) ∷ m) =
    let rest = drop_stale_refusals now settings m in
    if is_stale now settings at then rest else (group, at) ∷ rest

-- `letGoOfStale`
unfoldable pub let_go_of_stale : ℕ → Gather → Gather × List Event
unfolding drop_stale_groups drop_stale_refusals
let_go_of_stale now st =
    let (st', events) = drop_stale_groups now st.collecting st in
    (record st' { refused = drop_stale_refusals now st'.settings st'.refused }, events)

-- `Array.from({ length: total }, (_, i) => items.get(i))`, from index `i` on.
unfoldable pub items_from : ℕ → ℕ → OrderedMap ℕ Json → List (Option Json)
items_from i zero items = []
items_from i (suc n) items = get i items ∷ items_from (i + 1) n items

unfoldable pub whole :
    Option (String → List (Option Json) → Json) → Settings → String → List (Option Json) → Answer
whole pipeline settings group items =
    if settings.stop_propagation
    then stopped
    else (elim pipeline [ none ↦ gathered items | some run ↦ made (run group items) ])

-- A group of which nothing has arrived yet.
unfoldable pub new_group : ℕ → Part → Collecting
new_group now part = record { items = []; total = part.total; bytes = 0; started_at = now }

module _ (js : Js) (pipeline : Option (String → List (Option Json) → Json)) where
  -- A part that its group takes: the group goes on arriving, or is whole.
  unfoldable pub store_part : ℕ → Part → Collecting → Gather → Gather × List Event × Answer
  unfolding whole items_from size_of
  store_part bytes part c st =
      let items = set part.index part.item c.items in
      let filled = set part.group (record c { items = items; bytes = bytes }) st.collecting in
      let told = progress part.group (length items) part.total (length filled) ∷ [] in
      if ltb (length items) part.total
      then (record st { collecting = filled }, told, stopped)
      else (
        record st { collecting = delete part.group filled },
        told,
        whole pipeline st.settings part.group (items_from 0 part.total items),
      )

  -- The rest of `process`, once the part's group is found or begun.
  unfoldable pub add_part : ℕ → Part → Collecting → Gather → Gather × List Event × Answer
  unfolding refusing store_part
  add_part now part c st =
      if not (c.total == part.total)
      then refusing part.group now (totals_differ part.group c.total part.total) st
      else if has part.index c.items
      then (st, [], stopped)
      else if ltb st.settings.max_bytes (c.bytes + size_of js part.item)
      then refusing part.group now (too_large part.group st.settings.max_bytes) st
      else store_part (c.bytes + size_of js part.item) part c st

  -- `process` of a part, after `letGoOfStale`.
  unfoldable pub take_part : ℕ → Part → Gather → Gather × List Event × Answer
  unfolding add_part new_group refusing
  take_part now part st =
      if has part.group st.refused
      then (st, [], stopped)
      else (elim (get part.group st.collecting) [
        | some c ↦ add_part now part c st
        | none ↦
            if leb st.settings.max_groups (length st.collecting)
            then refusing part.group now (too_many_groups part.group st.settings.max_groups) st
            else add_part now part (new_group now part)
                (record st { collecting = set part.group (new_group now part) st.collecting })
      ])

  unfoldable pub process_part : ℕ → Part → Gather → Gather × List Event × Answer
  unfolding let_go_of_stale take_part
  process_part now part st =
      let (st', dropped) = let_go_of_stale now st in
      let (st'', events, answer) = take_part now part st' in (st'', dropped ++ events, answer)

  -- `process`
  unfoldable pub process : ℕ → Json → Gather → Gather × List Event × Answer
  unfolding part? process_part
  process now input st =
      if st.settings.bypass then (st, [], passed input) else (elim (part? js input) [
        | none ↦ (st, [], passed input)
        | some part ↦ process_part now part st
      ])

-- `destroy`, without the base's.
unfoldable pub destroy : Gather → Gather
destroy st = record st { collecting = []; refused = [] }

abbrev pub positive : Option ℕ → ℕ → ℕ
positive none old = old
positive (some n) old = if ltb 0 n then n else old

-- `settle`, on the whole numbers of a configuration.
unfoldable pub settle : Option ℕ → Option ℕ → Option ℕ → Settings → Settings
settle max_bytes max_groups timeout_ms s = record s {
  max_bytes = positive max_bytes s.max_bytes;
  max_groups = positive max_groups s.max_groups;
  timeout_ms = positive timeout_ms s.timeout_ms;
}
