-- ===== src/Tests/Gather.antt =====
-- The theorems on services/gather.ts at a group of two parts that arrive out of order.
use hkp_node.Shared.{
  ℕ, ◌≡◌, refl, String, false, List, [], ◌∷◌, map, Option, none, some, arith, string_eq, nat_eq,
}
use hkp_node.Shared.OrderedMap.{get, has, set}
use hkp_node.Shared.Json.{Json, Js}
use hkp_node.Services.Gather.{Part, Settings, Gather, gathered, part?, size_of, whole, process}
use hkp_node.Services.Spread.{sent_parts}
use hkp_node.Services.Gather.Bounds.{IsValid, process-IsValid}
use hkp_node.Services.Gather.Reassembly.{process-IsWhole, IsWhole}
use hkp_node.Services.Gather.RoundTrip.{expected, size_parts}
use hkp_node.Services.Gather.Inputs.{run_inputs, inputs, part_json, run_inputs-sent_parts}

abbrev js : Js
js = record { utf16_length = λ s. 1; utf8_length = λ s. 1; stringify = λ v. none }

abbrev no_pipeline : Option (String → List (Option Json) → Json)
no_pipeline = none

abbrev settings : Settings
settings = record {
  max_bytes = 10;
  max_groups = 2;
  timeout_ms = 100;
  bypass = false;
  stop_propagation = false;
}

abbrev fresh_gather : Gather
fresh_gather = record { settings = settings; last_error = none; collecting = []; refused = [] }

abbrev two_items : List Json
two_items = Json.str "a" ∷ Json.str "b" ∷ []

abbrev part_at : ℕ → String → Part
part_at i text = record { item = Json.str text; group = "g"; index = i; total = 2 }

abbrev arrivals : List (ℕ × Part)
arrivals = (5, part_at 1 "b") ∷ (9, part_at 0 "a") ∷ []

run_inputs-sent_parts_example :
    run_inputs js no_pipeline (inputs js no_pipeline arrivals) fresh_gather
    ≡ expected arrivals (gathered (map some two_items))
unfolding get has size_parts sent_parts whole size_of
run_inputs-sent_parts_example =
    run_inputs-sent_parts js no_pipeline "g" two_items 5 (part_at 1 "b") ((9, part_at 0 "a") ∷ [])
      fresh_gather refl refl (omega arith) refl refl tt (omega arith)
      ((refl, omega arith), ((refl, omega arith), tt)) ((omega arith, tt), (tt, tt)) refl
      (omega arith)

fresh_gather-IsValid : IsValid js fresh_gather
fresh_gather-IsValid = record {
  distinct = tt;
  few = omega arith;
  refusals = omega arith;
  arriving = tt;
}

process-IsValid_example :
    IsValid js (process js no_pipeline 5 (part_json (part_at 1 "b")) fresh_gather).0
process-IsValid_example =
    process-IsValid js no_pipeline 5 (part_json (part_at 1 "b")) fresh_gather fresh_gather-IsValid

abbrev single : Part
single = record { item = Json.str "a"; group = "g"; index = 0; total = 1 }

single_gathered :
    (process js no_pipeline 5 (part_json single) fresh_gather).2
    ≡ gathered (some (Json.str "a") ∷ [])
unfolding process part_json has get set
single_gathered = refl

process-IsWhole_example :
    (part : Part) × (part? js (part_json single) ≡ some part)
    × IsWhole js no_pipeline part.total (some (Json.str "a") ∷ [])
process-IsWhole_example =
    process-IsWhole js no_pipeline 5 (part_json single) fresh_gather (some (Json.str "a") ∷ [])
      fresh_gather-IsValid single_gathered
