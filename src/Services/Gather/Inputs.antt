-- ===== src/Services/Gather/Inputs.antt =====
-- The round trip of services/spread.ts and services/gather.ts on the values that cross between them.
use hkp_node.Shared.{
  ℕ, ◌≤◌, ◌<◌, ◌≡◌, refl, sym, ap, subst, ◌∙◌, String, true, false, List, [], ◌∷◌, map, Option,
  none, some, arith, length, string_eq, nat_eq, truthy, All,
}
use hkp_node.Shared.OrderedMap.{get, has, set, Distinct}
use hkp_node.Shared.Json.{Json, Js}
use hkp_node.Services.Gather.{
  Part, Collecting, Event, Settings, Gather, Answer, part?, refusing, drop_if_stale,
  drop_stale_groups, let_go_of_stale, whole, add_part, new_group, take_part, process_part, process,
  max_group_length,
}
use hkp_node.Shared.Json.{Number, Fields}
use hkp_node.Services.Spread.{sent_parts}
use hkp_node.Services.Gather.RoundTrip.{
  run, expected, Apart, IsSent, size_parts, run-sent_parts, part-placed, get_elem?-lt,
}

-- `{ item, group, index, total }`, as Spread sends a part.
unfoldable pub part_json : Part → Json
part_json part = Json.obj (
    Fields.field "item" part.item (
      Fields.field "group" (Json.str part.group) (
        Fields.field "index" (Json.number (Number.nat part.index))
          (Fields.field "total" (Json.number (Number.nat part.total)) Fields.end))))

part?-part_json :
    (js : Js) (part : Part)
    → truthy part.group ≡ true
    → js.utf16_length part.group ≤ max_group_length
    → part.index < part.total
    → part? js (part_json part) ≡ some part
unfolding part? part_json
part?-part_json js part full short inside = ground (arith, full)

module _ (js : Js) (pipeline : Option (String → List (Option Json) → Json)) where
  settings-drop_stale_groups :
      (now : ℕ) (es : List (String × Collecting)) (st : Gather)
      → (drop_stale_groups now es st).0.settings ≡ st.settings
  unfolding drop_stale_groups
  settings-drop_stale_groups now [] st = refl
  settings-drop_stale_groups now ((group, c) ∷ es) st =
      settings-drop_stale_groups now es (drop_if_stale now group c st).0 ∙ one
    where
      one : (drop_if_stale now group c st).0.settings ≡ st.settings
      one = ground arith

  settings-add_part :
      (now : ℕ) (part : Part) (c : Collecting) (st : Gather)
      → (add_part js pipeline now part c st).0.settings ≡ st.settings
  unfolding add_part
  settings-add_part now part c st = ground arith

  settings-take_part :
      (now : ℕ) (part : Part) (st : Gather)
      → (take_part js pipeline now part st).0.settings ≡ st.settings
  unfolding take_part refusing
  settings-take_part now part st = ground (
    arith,
    settings-add_part now part (new_group now part)
        (record st { collecting = set part.group (new_group now part) st.collecting }),
    found,
  )
    where
      found : (c : Collecting) → (add_part js pipeline now part c st).0.settings ≡ st.settings
      found c = settings-add_part now part c st

  -- The calls of a history of inputs, each at its time: their answers.
  pub run_inputs : List (ℕ × Json) → Gather → List Answer
  run_inputs [] st = []
  run_inputs ((now, input) ∷ es) st =
      let (st', events, answer) = process js pipeline now input st in answer ∷ run_inputs es st'

  settings-process_part :
      (now : ℕ) (part : Part) (st : Gather)
      → (process_part js pipeline now part st).0.settings ≡ st.settings
  unfolding process_part let_go_of_stale
  settings-process_part now part st =
      settings-take_part now part (let_go_of_stale now st).0
      ∙ settings-drop_stale_groups now st.collecting st

  process-part_json :
      (now : ℕ) (part : Part) (st : Gather)
      → st.settings.bypass ≡ false
      → part? js (part_json part) ≡ some part
      → process js pipeline now (part_json part) st ≡ process_part js pipeline now part st
  unfolding process
  process-part_json now part st off found = simp (off, found)

  -- The inputs of a history of parts.
  abbrev pub inputs : List (ℕ × Part) → List (ℕ × Json)
  inputs [] = []
  inputs ((now, part) ∷ es) = (now, part_json part) ∷ inputs es

  run_inputs-run :
      (es : List (ℕ × Part)) (st : Gather)
      → st.settings.bypass ≡ false
      → All (λ e. part? js (part_json e.1) ≡ some e.1) es
      → run_inputs (inputs es) st ≡ (run js pipeline es st).1
  unfolding run_inputs run
  run_inputs-run [] st off h = refl
  run_inputs-run ((now, part) ∷ es) st off h =
      let st' : Gather = (process_part js pipeline now part st).0 in
      subst
        (λ (r : Gather × List Event × Answer).
          r.2 ∷ run_inputs (inputs es) r.0
          ≡ (process_part js pipeline now part st).2 ∷ (run js pipeline es st').1)
        (sym (process-part_json now part st off h.0))
        (ap (λ rs. (process_part js pipeline now part st).2 ∷ rs)
          (run_inputs-run es st'
            (ap (λ (s : Settings). s.bypass) (settings-process_part now part st) ∙ off) h.1))

  recognised :
      (g : String) (xs : List Json) (start timeout : ℕ) (es : List (ℕ × Part))
      → truthy g ≡ true
      → js.utf16_length g ≤ max_group_length
      → All (IsSent js pipeline g xs start timeout) es
      → All (λ e. part? js (part_json e.1) ≡ some e.1) es
  unfolding sent_parts
  recognised g xs start timeout [] full short h = tt
  recognised g xs start timeout ((now, part) ∷ es) full short h =
      let (group, total, item) = part-placed g (length xs) 0 part.index xs part h.0.0 in
      (
        part?-part_json js part (ap truthy group ∙ full)
            (subst (λ k. js.utf16_length k ≤ max_group_length) (sym group) short)
            (subst (λ n. part.index < n) (sym total) (get_elem?-lt xs part.index part.item item)),
        recognised g xs start timeout es full short h.1,
      )

  -- What Spread sends of the items `xs`, Gather puts back together. The parts may arrive in any
  -- order, each once and all within the timeout of the first; the group must be new and its name of
  -- legal length, there must be room for one more, the items must fit the byte limit, and Gather must
  -- not be bypassed. Then every call but the last answers nothing, and the last hands on exactly `xs`,
  -- in the order in which they were spread.
  pub run_inputs-sent_parts :
      (g : String) (xs : List Json) (start : ℕ) (part : Part) (es : List (ℕ × Part)) (st : Gather)
      → st.settings.bypass ≡ false
      → truthy g ≡ true
      → js.utf16_length g ≤ max_group_length
      → get g st.collecting ≡ none
      → has g st.refused ≡ false
      → Distinct st.collecting
      → length st.collecting < st.settings.max_groups
      → All (IsSent js pipeline g xs start st.settings.timeout_ms) ((start, part) ∷ es)
      → Apart ((start, part) ∷ es)
      → length ((start, part) ∷ es) ≡ length xs
      → size_parts js pipeline ((start, part) ∷ es) ≤ st.settings.max_bytes
      → run_inputs (inputs ((start, part) ∷ es)) st
        ≡ expected ((start, part) ∷ es) (whole pipeline st.settings g (map some xs))
  run_inputs-sent_parts g xs start part es st off full short new free distinct room sent apart count
        fits =
      run_inputs-run ((start, part) ∷ es) st off
        (recognised g xs start st.settings.timeout_ms ((start, part) ∷ es) full short sent)
      ∙ run-sent_parts js pipeline g xs start part es st new free distinct room sent apart count
          fits
