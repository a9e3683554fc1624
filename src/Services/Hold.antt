-- ===== src/Services/Hold.antt =====
-- services/hold.ts: a value kept between calls, in a slot of the host's or in the service. The host's
-- slots are `none` where it has none; how a value is reported in state is the host's, a parameter.
-- Looking up a property of bytes answers nothing here.
pub mod Latest
use hkp_node.Shared.{
  ℕ, ◌+◌, String, Bool, true, false, not, List, [], ◌∷◌, ◌++◌, Option, none, some, if◌then◌else◌,
  string_eq, ◌==◌, truthy, or_else,
}
use hkp_node.Shared.OrderedMap.{OrderedMap, get, set}
use hkp_node.Shared.Json.{Json, Fields, is_nullish, property?}
use hkp_node.Shared.Json

pub data Op : Type 0 where
  reads writes : Op

-- `HoldService`
pub record Hold : Type 0 where
  pub property : String
  pub slot : String
  pub op : Op
  pub own : Json
  pub read_count : ℕ
  pub write_count : ℕ

-- `SlotStore`
abbrev pub Slots : Type 0
Slots = OrderedMap String Json

-- `getState`; `which` is the slot with its role, or the property.
pub data Which : Type 0 where
  by_slot : String → Op → Which
  by_property : String → Which

pub record State : Type 0 where
  pub which : Which
  pub held : Json
  pub read_count : ℕ
  pub write_count : ℕ

-- `value ?? null`
abbrev pub or_null : Option Json → Json
or_null none = Json.null
or_null (some value) = if is_nullish value then Json.null else value

-- `read`
unfoldable pub read : Hold → Option Slots → Json
read hold slots =
    if truthy hold.slot
    then (elim slots [
      | none ↦ or_null (some hold.own)
      | some store ↦ or_null (get hold.slot store)
    ])
    else hold.own

-- `write`
unfoldable pub write : Json → Hold → Option Slots → Hold × Option Slots
write value hold none = (record hold { own = value }, none)
write value hold (some store) =
    if truthy hold.slot
    then (hold, some (set hold.slot value store))
    else (record hold { own = value }, some store)

-- `carriedValue`, then `!== null && !== undefined`.
unfoldable pub carried_value : Json → String → Option Json
carried_value input property = elim (property? property input) [
  | none ↦ none
  | some value ↦ if is_nullish value then none else some value
]

-- `forget`
unfoldable pub forget : Hold → Option Slots → Hold × Option Slots
forget hold none = (record hold { own = Json.null; read_count = 0; write_count = 0 }, none)
forget hold (some store) = (
  record hold { own = Json.null; read_count = 0; write_count = 0 },
  some (if truthy hold.slot then set hold.slot Json.null store else store),
)

-- `destroy`: the slot stays.
unfoldable pub destroy : Hold → Hold
destroy hold = record hold { own = Json.null; read_count = 0; write_count = 0 }

-- The fields of a configuration that `configure` reads.
pub record Config : Type 0 where
  pub property : Option String
  pub slot : Option String
  pub op : Option Op
  pub clears : Bool

unfoldable pub configure_property : Option String → Hold → Option Slots → Hold × Option Slots
unfolding forget
configure_property none hold slots = (hold, slots)
configure_property (some property) hold slots =
    let (forgot, slots') = forget hold slots in
    if property == hold.property
    then (hold, slots)
    else (record forgot { property = property }, slots')

unfoldable pub configure_slot : Option String → Hold → Hold
unfolding destroy
configure_slot none hold = hold
configure_slot (some slot) hold =
    if slot == hold.slot then hold else record (destroy hold) { slot = slot }

abbrev pub configure_op : Option Op → Hold → Hold
configure_op none hold = hold
configure_op (some op) hold = record hold { op = op }

module _ (report : Json → Json) where
  unfoldable pub get_state : Hold → Option Slots → State
  unfolding read
  get_state hold slots = record {
    which = if truthy hold.slot then by_slot hold.slot hold.op else by_property hold.property;
    held = report (read hold slots);
    read_count = hold.read_count;
    write_count = hold.write_count;
  }

  -- `configure`, with the state that it notifies and answers.
  unfoldable pub configure : Config → Hold → Option Slots → Hold × Option Slots × State
  unfolding configure_property configure_slot forget get_state
  configure config hold slots =
      let (h, slots') = configure_property config.property hold slots in
      let h' = configure_op config.op (configure_slot config.slot h) in
      let (cleared, slots'') = forget h' slots' in
      if config.clears
      then (cleared, slots'', get_state cleared slots'')
      else (h', slots', get_state h' slots')

  -- A call: the service and the slots after it, what it notifies, and its answer.
  abbrev pub Call : Type 0
  Call = Hold × Option Slots × List State × Json

  -- `useSlot`, by its role.
  unfoldable pub use_slot : Op → Json → Hold → Option Slots → Call
  unfolding write read get_state
  use_slot writes input hold slots =
      let (h, slots') = write input hold slots in
      let h' = record h { write_count = h.write_count + 1 } in
      (h', slots', get_state h' slots' ∷ [], input)
  use_slot reads input hold slots =
      let h = record hold { read_count = hold.read_count + 1 } in
      (h, slots, get_state h slots ∷ [], or_null (some (read h slots)))

  -- What a call by property answers.
  abbrev pub answered : String → Json → Json
  answered property Json.null = Json.null
  answered property held = Json.obj (Fields.field property held Fields.end)

  unfoldable pub use_property : Option Json → Hold → Option Slots → Call
  unfolding write read get_state
  use_property (some value) hold slots =
      let (h, slots') = write value hold slots in
      let h' = record h { write_count = h.write_count + 1 } in
      (h', slots', get_state h' slots' ∷ [], answered h'.property (read h' slots'))
  use_property none hold slots =
      let h = record hold { read_count = hold.read_count + 1 } in
      (h, slots, get_state h slots ∷ [], answered h.property (read h slots))

  -- `process`
  unfoldable pub process : Json → Hold → Option Slots → Call
  unfolding use_slot use_property carried_value
  process input hold slots =
      if truthy hold.slot
      then use_slot hold.op input hold slots
      else if truthy hold.property
      then use_property (carried_value input hold.property) hold slots
      else (hold, slots, [], input)
