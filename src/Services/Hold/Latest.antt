-- ===== src/Services/Hold/Latest.antt =====
-- What a Hold answers is what was last written to it.
use hkp_node.Shared.{
  ◌≡◌, refl, ap, ◌∙◌, String, true, false, List, [], ◌∷◌, Option, none, some, if◌then◌else◌,
  string_eq, ◌==◌, truthy, or_else, arith, All,
}
use hkp_node.Shared.OrderedMap.{get, set, get-set}
use hkp_node.Shared.Json.{Json}
use hkp_node.Services.Hold.{
  Op, reads, writes, Hold, Slots, or_null, read, write, carried_value, use_slot, use_property,
  process, answered, Call,
}

module _ (report : Json → Json) where
  -- Calls of services that hold in slots of one host, each service with its input.
  unfoldable pub use_all : List (Hold × Json) → Slots → Option Slots
  use_all [] store = some store
  use_all ((hold, input) ∷ uses) store = elim (process report input hold (some store)).1 [
    | none ↦ none
    | some store' ↦ use_all uses store'
  ]

  -- The value last written to a slot, over what it held before.
  abbrev pub last_written : String → List (Hold × Json) → Option Json → Option Json
  last_written slot [] value = value
  last_written slot ((hold, input) ∷ uses) value =
      last_written slot uses
        (elim hold.op [ reads ↦ value | writes ↦ if hold.slot == slot then some input else value ])

  -- The slots after one of these calls.
  stored : Op → String → Json → Slots → Slots
  stored reads slot value store = store
  stored writes slot value store = set slot value store

  use_slot-stored :
      (op : Op) (input : Json) (hold : Hold) (store : Slots)
      → truthy hold.slot ≡ true
      → (use_slot report op input hold (some store)).1 ≡ some (stored op hold.slot input store)
  unfolding use_slot write stored
  use_slot-stored reads input hold store full = refl
  use_slot-stored writes input hold store full = ground (arith, full)

  process-stored :
      (input : Json) (hold : Hold) (store : Slots)
      → truthy hold.slot ≡ true
      → (process report input hold (some store)).1 ≡ some (stored hold.op hold.slot input store)
  unfolding process
  process-stored input hold store full =
      rw (full, process) (use_slot-stored hold.op input hold store full)

  get-stored :
      (op : Op) (slot j : String) (value : Json) (store : Slots)
      → get j (stored op slot value store) ≡ (elim op as (λ x. Option Json) [
        | reads ↦ get j store
        | writes ↦ if slot == j then some value else get j store
      ])
  unfolding stored
  get-stored reads slot j value store = refl
  get-stored writes slot j value store = get-set slot j value store

  use_all-get :
      (slot : String) (uses : List (Hold × Json)) (store : Slots)
      → All (λ (u : Hold × Json). truthy u.0.slot ≡ true) uses
      → (store' : Slots) × (use_all uses store ≡ some store')
        × (get slot store' ≡ last_written slot uses (get slot store))
  unfolding use_all
  use_all-get slot [] store full = (store, refl, refl)
  use_all-get slot ((hold, input) ∷ uses) store full =
      let later = stored hold.op hold.slot input store in
      let (store', ran, held) = use_all-get slot uses later full.1 in
      (
        store',
        rw (process-stored input hold store full.0, use_all) ran,
        held ∙ ap (last_written slot uses) (get-stored hold.op hold.slot slot input store),
      )

  or_null-or_null : (value : Option Json) → or_null (some (or_null value)) ≡ or_null value
  or_null-or_null none = refl
  or_null-or_null (some Json.null) = refl
  or_null-or_null (some Json.undefined) = refl
  or_null-or_null (some (Json.flag b)) = refl
  or_null-or_null (some (Json.number n)) = refl
  or_null-or_null (some (Json.str s)) = refl
  or_null-or_null (some (Json.bytes b)) = refl
  or_null-or_null (some (Json.arr items)) = refl
  or_null-or_null (some (Json.obj fields)) = refl

  use_slot_reads :
      (input : Json) (hold : Hold) (store : Slots)
      → truthy hold.slot ≡ true
      → (use_slot report reads input hold (some store)).3 ≡ or_null (get hold.slot store)
  unfolding use_slot read
  use_slot_reads input hold store full =
      rw (full, use_slot, read) (or_null-or_null (get hold.slot store))

  -- Services that name one slot are the two ends of it: after any calls of services that hold in slots
  -- of one host, a service that reads a slot answers the value last written to that slot, by whichever
  -- of them, and null where there is none or what is held is null.
  pub process-use_all :
      (uses : List (Hold × Json)) (store : Slots) (reader : Hold) (input : Json)
      → All (λ (u : Hold × Json). truthy u.0.slot ≡ true) uses
      → truthy reader.slot ≡ true
      → reader.op ≡ reads
      → (process report input reader (use_all uses store)).3
        ≡ or_null (last_written reader.slot uses (get reader.slot store))
  unfolding process
  process-use_all uses store reader input full named reading =
      let (store', ran, held) = use_all-get reader.slot uses store full in
      rw (ran, named, reading, process) (use_slot_reads input reader store' named ∙ ap or_null held)

  -- Calls of one service that holds by property, which leaves the slots alone.
  unfoldable pub hold_all : List Json → Hold → Option Slots → Hold
  hold_all [] hold slots = hold
  hold_all (input ∷ inputs) hold slots = hold_all inputs (process report input hold slots).0 slots

  -- The value of the property that inputs carried last, over one held before.
  abbrev pub last_carried : String → List Json → Json → Json
  last_carried property [] held = held
  last_carried property (input ∷ inputs) held =
      last_carried property inputs (or_else (carried_value input property) held)

  use_property_holds :
      (value : Option Json) (hold : Hold) (slots : Option Slots)
      → truthy hold.slot ≡ false
      → ((use_property report value hold slots).0.own ≡ or_else value hold.own)
        × ((use_property report value hold slots).0.slot ≡ hold.slot)
        × ((use_property report value hold slots).0.property ≡ hold.property)
        × ((use_property report value hold slots).3
            ≡ answered report hold.property (or_else value hold.own))
  unfolding use_property write read
  use_property_holds none hold slots off = ground (arith, off)
  use_property_holds (some value) hold none off = ground (arith, off)
  use_property_holds (some value) hold (some store) off = ground (arith, off)

  process_holds :
      (input : Json) (hold : Hold) (slots : Option Slots)
      → truthy hold.slot ≡ false
      → truthy hold.property ≡ true
      → process report input hold slots
        ≡ use_property report (carried_value input hold.property) hold slots
  unfolding process
  process_holds input hold slots off named = rw (off, named, process) refl

  -- What a call answers after others, by the property and what was held.
  abbrev said_after : List Json → Json → String → Json → Json
  said_after inputs input property held =
      answered report property
        (or_else (carried_value input property) (last_carried property inputs held))

  -- A service that holds by property and not in a slot answers every call with the value that its
  -- inputs carried last, this call's included, under the property, and with null while nothing is
  -- held.
  process-hold_all :
      (inputs : List Json) (input : Json) (hold : Hold) (slots : Option Slots)
      → truthy hold.slot ≡ false
      → truthy hold.property ≡ true
      → (process report input (hold_all inputs hold slots) slots).3
        ≡ answered report hold.property (
            or_else
              (carried_value input hold.property)
              (last_carried hold.property inputs hold.own))
  unfolding hold_all
  process-hold_all [] input hold slots off named =
      ap (λ (c : Call report). c.3) (process_holds input hold slots off named)
      ∙ (use_property_holds (carried_value input hold.property) hold slots off).3
  process-hold_all (first ∷ inputs) input hold slots off named =
      let next : Hold = (process report first hold slots).0 in
      let step = ap (λ (c : Call report). c.0) (process_holds first hold slots off named) in
      let (own, slot, property, answer) =
        use_property_holds (carried_value first hold.property) hold slots off in
      let same : next.property ≡ hold.property = ap (λ (h : Hold). h.property) step ∙ property in
      process-hold_all inputs input next slots
        (ap (λ (h : Hold). truthy h.slot) step ∙ ap truthy slot ∙ off) (ap truthy same ∙ named)
      ∙ ap (λ p. said_after inputs input p next.own) same
      ∙ ap (said_after inputs input hold.property) (ap (λ (h : Hold). h.own) step ∙ own)
