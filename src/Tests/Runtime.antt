-- ===== src/Tests/Runtime.antt =====
-- The theorems on runtime.ts at concrete inputs.
use hkp_node.Shared.{ℕ, ◌+◌, ◌≡◌, ◌≢◌, refl, String, true, List, [], ◌∷◌, none, some, string_eq}
use hkp_node.Shared.OrderedMap.{get, has}
use hkp_node.Shared.Json.{Json, Fields, nat}
use hkp_node.Server.Auth.{AuthenticatedUser, anonymous_sub}
use hkp_node.Runtime.Context.{
  Context, Caller, person, owner, context_for_client, context_from_link, context_to_wire,
  run_expired, default_person_run_ttl_ms, nobody,
}
use hkp_node.Runtime.Context.Callers.{context_for_client_sound}
use hkp_node.Runtime.Context.Links.{context_object, context_from_link-context_to_wire}
use hkp_node.Runtime.Registry.{
  Spaces, board_space, get_runtime, get_runtimes, get_board_runtimes, count_runtimes,
}
use hkp_node.Runtime.Registry.Isolation.{
  Call, creates, removes, clears, run_calls, count_runtimes-run_calls,
}
use hkp_node.Runtime.Pipeline.{
  Hosting, Runtime, Progress, run_services, process_runtime, process_from,
}
use hkp_node.Runtime.Pipeline.Stages.{process_runtime-process_from}
use hkp_node.Runtime.Pipeline.Order.{
  adds, removes as takes, rearranges, IsConsistent, edit_all, edit_all-IsConsistent,
}

abbrev ann : AuthenticatedUser
ann = record { sub = "ann"; email = some "ann@x" }

abbrev ann_caller : Caller
ann_caller = record { sub = "ann"; email = some "ann@x"; name = none; role = some owner }

-- A client that says it is somebody else.
abbrev forged : Json
forged =
    Json.obj
      (Fields.field "runId" (Json.str "r") (Fields.field "actor" (Json.str "bob") Fields.end))

forged_actor : (context_for_client "d" 0 forged (some ann)).actor ≡ person (nat 900_000) ann_caller
unfolding context_for_client
forged_actor = refl

context_for_client_sound_example :
    ((u : AuthenticatedUser) × (some ann ≡ some u) × ("ann" ≡ u.sub) × (u.sub ≢ anonymous_sub))
    × (some owner ≡ some owner)
    × (nat 900_000 ≡ nat (0 + default_person_run_ttl_ms))
context_for_client_sound_example =
    context_for_client_sound "d" 0 forged (some ann) (nat 900_000) ann_caller forged_actor

abbrev run : Context
run = record {
  run_id = "r";
  parent_run_id = some "p";
  request_id = some "q";
  actor = person (nat 9) ann_caller;
}

context_from_link-context_to_wire_example :
    context_from_link "d" (context_object (record run { request_id = none }))
    ≡ some (record run { request_id = none })
unfolding context_to_wire
context_from_link-context_to_wire_example =
    context_from_link-context_to_wire "d" run (record run { request_id = none }) refl refl refl refl

abbrev unnamed : Json
unnamed = Json.obj (
    Fields.field "actor" (Json.obj (Fields.field "kind" (Json.str "person") Fields.end)) Fields.end)

abbrev unnamed_run : Context
unnamed_run = record {
  run_id = "d";
  parent_run_id = none;
  request_id = none;
  actor = person (nat 0) nobody;
}

unnamed_read : context_from_link "d" unnamed ≡ some unnamed_run
unfolding context_from_link
unnamed_read = refl

abbrev spaces : Spaces ℕ
spaces = ("ann", ("r", 1) ∷ []) ∷ []

abbrev calls : List (Call ℕ)
calls = creates "bob" "r" (some 2) ∷ removes "bob" "r" ∷ clears "bob" ∷ []

count_runtimes-run_calls_example :
    (get_runtime "ann" "r" (run_calls calls spaces) ≡ get_runtime "ann" "r" spaces)
    × (get_runtimes "ann" (run_calls calls spaces) ≡ get_runtimes "ann" spaces)
    × (get_board_runtimes "ann" (run_calls calls spaces) ≡ get_board_runtimes "ann" spaces)
    × (count_runtimes "ann" (run_calls calls spaces) ≡ count_runtimes "ann" spaces)
unfolding board_space
count_runtimes-run_calls_example =
    count_runtimes-run_calls "ann" "r" calls spaces (refl, (refl, (refl, tt)))

abbrev ann_name : String
ann_name = "ann"

abbrev board_name : String
board_name = "b"

-- Services that put their own name after what they are given.
abbrev hosting : Hosting
hosting = record {
  Service = String;
  Config = String;
  World = ℕ;
  uuid = λ u. u;
  config_uuid = λ u. u;
  create = λ u. some u;
  process = λ u value world. (world + 1, [], Json.str u);
}

abbrev runtime : Runtime hosting
runtime = record { services = ("a", "a") ∷ ("b", "b") ∷ []; service_order = "a" ∷ "b" ∷ [] }

abbrev clock : ℕ → ℕ
clock n = n

abbrev after_a : Progress hosting
after_a = run_services hosting runtime.services run clock 0 ("a" ∷ []) (Json.flag true) 0

process_runtime-process_from_example :
    ((process_runtime hosting runtime run clock (Json.flag true) 0).0
      ≡ (process_from hosting runtime run (λ n. clock (1 + n)) "a" after_a.2 after_a.0).0)
    × ((process_runtime hosting runtime run clock (Json.flag true) 0).2
        ≡ (process_from hosting runtime run (λ n. clock (1 + n)) "a" after_a.2 after_a.0).2)
unfolding run_services get run_expired
process_runtime-process_from_example =
    process_runtime-process_from hosting runtime run clock [] ("b" ∷ []) "a" (Json.flag true) 0
      after_a refl refl refl refl refl

empty_runtime : IsConsistent hosting (record { services = []; service_order = [] })
unfolding has
empty_runtime = record { distinct = tt; apart = tt; same = λ u. refl }

created : (c s : String) → some c ≡ some s → s ≡ c
created c s h = cc

edit_all-IsConsistent_example : IsConsistent hosting (
    edit_all hosting
      (adds "a" ∷ adds "b" ∷ rearranges ("b" ∷ "a" ∷ []) ∷ takes "a" ∷ [])
      (record { services = []; service_order = [] }))
edit_all-IsConsistent_example =
    edit_all-IsConsistent hosting
      (adds "a" ∷ adds "b" ∷ rearranges ("b" ∷ "a" ∷ []) ∷ takes "a" ∷ [])
      (record { services = []; service_order = [] }) created
      (tt, (tt, ((refl, (refl, tt)), (tt, tt)))) empty_runtime
