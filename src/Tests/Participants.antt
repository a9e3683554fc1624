-- ===== src/Tests/Participants.antt =====
-- The theorems on coordinator/participants.ts at concrete inputs.
use Prim.Native.String
use text.Mathlib.TextLemmas.{cons-append}
use hkp_node.Shared.{
  arith, ap, ◌≡◌, ◌≢◌, refl, String, true, List, [], ◌∷◌, ◌++◌, some, truthy, string_eq,
}
use hkp_node.Shared.OrderedMap.{get, has, set, delete}
use hkp_node.Shared.Json.{Json}
use hkp_node.Shared.Json
use hkp_node.Coordinator.Participants.{
  Binding, closed, close_ticket_revoked, empty, runtime_key, holds, present, drop_pending,
}
use hkp_node.Coordinator.Participants.Operations.{
  issue, revoke, resolve, forget_current, promote, succeed, pending_of, promote_board, settle, each,
}
use hkp_node.Coordinator.Participants.Connections.{hello, participant_of, close_participant}
use hkp_node.Coordinator.Participants.Histories.{
  Event, issued, registered, said_hello, went_away, step, run,
}
use hkp_node.Coordinator.Participants.Revocation.{resolve-run-revoke, hello-run-revoke}
use hkp_node.Coordinator.Participants.Requests.{Link, response}
use hkp_node.Coordinator.Participants.Requests.Settling.{
  asked, timed_out, arrived, lost, settlements, requests, settlements-run_lost,
}
use hkp_node.Coordinator.Participants.Requests.Settling as settling

-- A hash of sorts: a text behind a letter.
abbrev hash_of : String → String
hash_of text = String.◌++◌ "#" text

hash_of-truthy : (text : String) → truthy (hash_of text) ≡ true
hash_of-truthy text = ap truthy (cons-append "#" "" text)

abbrev mine : Binding
mine = record { user_id = "ann"; board_name = "b"; runtime_id = "r" }

abbrev other_one : Binding
other_one = record { user_id = "ann"; board_name = "b"; runtime_id = "q" }

-- Two runtimes are given tickets, and the one a second one.
abbrev before : List Event
before =
    issued mine "#hkpt_one" 1
    ∷ issued other_one "#hkpt_two" 2
    ∷ issued mine "#hkpt_three" 3
    ∷ said_hello 7 mine "#hkpt_one" (Json.obj Json.end)
    ∷ []

-- The board is registered, and a socket goes.
abbrev later : List Event
later = registered "ann" "b" ∷ went_away 7 mine ∷ issued other_one "#hkpt_four" 4 ∷ []

resolve-run-revoke_example : runtime_key other_one ≢ runtime_key mine
unfolding runtime_key resolve run step get set has delete issue revoke drop_pending forget_current
    present holds promote_board pending_of each settle hello close_participant participant_of
    promote succeed
resolve-run-revoke_example =
    resolve-run-revoke hash_of hash_of-truthy before mine later refl (some "hkpt_two") other_one
      refl

hello-run-revoke_example :
    hello 9 mine "#hkpt_one" (Json.obj Json.end) (run later (revoke mine (run before empty)).0)
    ≡ (run later (revoke mine (run before empty)).0, closed 9 close_ticket_revoked ∷ [])
unfolding runtime_key
hello-run-revoke_example =
    hello-run-revoke hash_of hash_of-truthy (run before empty) mine later refl 9 "hkpt_one"
      (Json.obj Json.end)

abbrev link : Link
link = record { is_open = true; has_listener = true; pending = [] }

settlements-run_lost_example :
    settlements "one"
      (settling.run
        ((asked "one" "describe"
            ∷ asked "two" "remove"
            ∷ arrived "x" (response "two" true Json.null "")
            ∷ timed_out "two"
            ∷ [])
          ++ lost ∷ [])
        link).1
    ≡ 1
settlements-run_lost_example =
    settlements-run_lost "one"
      (asked "one" "describe"
        ∷ asked "two" "remove"
        ∷ arrived "x" (response "two" true Json.null "")
        ∷ timed_out "two"
        ∷ [])
      link refl (omega arith)
