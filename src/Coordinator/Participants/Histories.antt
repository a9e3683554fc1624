-- ===== src/Coordinator/Participants/Histories.antt =====
-- Every history of the registry.
use hkp_node.Shared.{
  ℕ, String, Bool, false, List, [], ◌∷◌, string_eq, nat_eq, ◌==◌, any, Bool-cases, inl, inr,
}
use hkp_node.Shared.OrderedMap.{has}
use hkp_node.Shared.Json.{Json}
use hkp_node.Coordinator.Participants.{
  Binding, TicketRecord, StoredTicket, Registry, Effect, runtime_key, holds, drop_pending,
}
use hkp_node.Coordinator.Participants.Operations.{
  issue, settle, each, pending_of, promote_board, cancel_pending, revoke, records_but, revoke_board,
  import_tickets,
}
use hkp_node.Coordinator.Participants.Connections.{
  is_held, arrive_pending, hello, close_participant,
}
use hkp_node.Coordinator.Participants.Forgetting.{
  IsSound, first_ticket-IsSound, drop_pending-IsSound, issue-IsSound, promote-IsSound,
  revoke-IsSound,
}

-- What happens to the registry: its methods, and the hello and the close of a socket.
pub data Event : Type 0 where
  issued : Binding → String → ℕ → Event
  registered cancelled : String → String → Event
  revoked : Binding → Event
  board_revoked : String → String → List String → Event
  restored : String → String → List StoredTicket → Event
  said_hello : ℕ → Binding → String → Json → Event
  went_away : ℕ → Binding → Event

unfoldable pub step : Event → Registry → Registry
unfolding issue promote_board cancel_pending revoke revoke_board import_tickets hello
    close_participant
step (issued binding hash now) s = (issue binding hash now s).0
step (registered user_id board_name) s = (promote_board user_id board_name s).0
step (cancelled user_id board_name) s = (cancel_pending user_id board_name s).0
step (revoked binding) s = (revoke binding s).0
step (board_revoked user_id board_name kept) s = (revoke_board user_id board_name kept s).0
step (restored user_id board_name tickets) s = import_tickets user_id board_name tickets s
step (said_hello socket binding hash message) s = (hello socket binding hash message s).0
step (went_away socket binding) s = (close_participant socket binding s).0

unfoldable pub run : List Event → Registry → Registry
unfolding step
run [] s = s
run (event ∷ events) s = run events (step event s)

-- The events that give a runtime a ticket.
abbrev pub grants : String → Event → Bool
grants key (issued binding hash now) = runtime_key binding == key
grants key (restored user_id board_name tickets) =
    any
      (λ (ticket : StoredTicket).
        runtime_key
          (record { user_id = user_id; board_name = board_name; runtime_id = ticket.runtime_id })
        == key)
      tickets
grants key (registered user_id board_name) = false
grants key (cancelled user_id board_name) = false
grants key (revoked binding) = false
grants key (board_revoked user_id board_name kept) = false
grants key (said_hello socket binding hash message) = false
grants key (went_away socket binding) = false

-- What a loop keeps, if its body does.
pub each-keeps {ℓ} :
    (P : Registry → Type ℓ) (body : TicketRecord → Registry → Registry × List Effect)
    → ((r : TicketRecord) (s : Registry) → P s → P (body r s).0)
    → (records : List TicketRecord) (s : Registry) → P s
    → P (each body records s).0
unfolding each
each-keeps P body keeps [] s p = p
each-keeps P body keeps (r ∷ records) s p =
    each-keeps P body keeps records (body r s).0 (keeps r s p)

settle-IsSound : (r : TicketRecord) (s : Registry) → IsSound s → IsSound (settle r s).0
unfolding settle
settle-IsSound r s sound = elim (Bool-cases (has (runtime_key r.binding) s.waiting)) [
  | inl waits ↦ rw (waits, settle) (promote-IsSound r.binding s sound)
  | inr nobody ↦ rw (nobody, settle) (drop_pending-IsSound (runtime_key r.binding) s sound)
]

arrive_pending-IsSound :
    (binding : Binding) (s : Registry) → IsSound s → IsSound (arrive_pending binding s).0
unfolding arrive_pending
arrive_pending-IsSound binding s sound =
    elim (Bool-cases (has (runtime_key binding) s.connections)) [
      | inl there ↦ rw (there, arrive_pending) sound
      | inr free ↦ rw (free, arrive_pending) (promote-IsSound binding s sound)
    ]

hello-IsSound :
    (socket : ℕ) (binding : Binding) (hash : String) (message : Json) (s : Registry)
    → IsSound s
    → IsSound (hello socket binding hash message s).0
unfolding hello
hello-IsSound socket binding hash message s sound =
    elim (Bool-cases (holds (runtime_key binding) hash s.pending_by_runtime)) [
      | inl pending ↦ rw (pending, hello) (arrive_pending-IsSound binding _ sound)
      | inr absent ↦ elim (Bool-cases (holds (runtime_key binding) hash s.hash_by_runtime)) [
        | inl counts ↦ rw (absent, counts, hello) sound
        | inr none_left ↦ rw (absent, none_left, hello) sound
      ]
    ]

close_participant-IsSound :
    (socket : ℕ) (binding : Binding) (s : Registry)
    → IsSound s
    → IsSound (close_participant socket binding s).0
unfolding close_participant
close_participant-IsSound socket binding s sound =
    elim (Bool-cases (is_held (runtime_key binding) socket s.waiting)) [
      | inl waits ↦ rw (waits, close_participant) sound
      | inr elsewhere ↦ elim (Bool-cases (is_held (runtime_key binding) socket s.connections)) [
        | inl connected ↦ rw (elsewhere, connected, close_participant) sound
        | inr gone ↦ rw (elsewhere, gone, close_participant) sound
      ]
    ]

import_tickets-IsSound :
    (user_id board_name : String) (tickets : List StoredTicket) (s : Registry)
    → IsSound s
    → IsSound (import_tickets user_id board_name tickets s)
unfolding import_tickets
import_tickets-IsSound user_id board_name [] s sound = sound
import_tickets-IsSound user_id board_name (ticket ∷ tickets) s sound =
    let binding : Binding = record {
      user_id = user_id;
      board_name = board_name;
      runtime_id = ticket.runtime_id;
    } in
    elim (Bool-cases (has (runtime_key binding) s.hash_by_runtime)) [
      | inl held ↦
          rw (held, import_tickets) (import_tickets-IsSound user_id board_name tickets s sound)
      | inr without ↦
          rw (without, import_tickets)
            (import_tickets-IsSound user_id board_name tickets _
              (first_ticket-IsSound binding ticket.hash ticket.issued_at s without sound))
    ]

step-IsSound : (event : Event) (s : Registry) → IsSound s → IsSound (step event s)
unfolding step promote_board cancel_pending revoke_board
step-IsSound (issued binding hash now) s sound = issue-IsSound binding hash now s sound
step-IsSound (registered user_id board_name) s sound =
    each-keeps IsSound settle settle-IsSound (pending_of user_id board_name s) s sound
step-IsSound (cancelled user_id board_name) s sound =
    each-keeps IsSound (λ r. drop_pending (runtime_key r.binding))
      (λ r. drop_pending-IsSound (runtime_key r.binding)) (pending_of user_id board_name s) s sound
step-IsSound (revoked binding) s sound = revoke-IsSound binding s sound
step-IsSound (board_revoked user_id board_name kept) s sound =
    each-keeps IsSound (λ r. revoke r.binding) (λ r. revoke-IsSound r.binding)
      (records_but user_id board_name kept s) s sound
step-IsSound (restored user_id board_name tickets) s sound =
    import_tickets-IsSound user_id board_name tickets s sound
step-IsSound (said_hello socket binding hash message) s sound =
    hello-IsSound socket binding hash message s sound
step-IsSound (went_away socket binding) s sound = close_participant-IsSound socket binding s sound

pub run-IsSound : (events : List Event) (s : Registry) → IsSound s → IsSound (run events s)
unfolding run
run-IsSound [] s sound = sound
run-IsSound (event ∷ events) s sound =
    run-IsSound events (step event s) (step-IsSound event s sound)
