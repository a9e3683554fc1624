-- ===== src/Coordinator/Participants/Unticketed.antt =====
-- A runtime without a ticket stays without one, until it is given one.
use hkp_node.Shared.{
  ℕ, String, false, List, [], ◌∷◌, none, string_eq, nat_eq, ◌==◌, any, Option-cases, Bool-cases,
  arith, eq_iff, ◌≡◌, inl, inr, ap, ◌∙◌,
}
use hkp_node.Shared.OrderedMap.{OrderedMap, get, has, set, delete, get-set, get-delete}
use hkp_node.Shared.Json.{Json}
use hkp_node.Coordinator.Participants.{
  Binding, TicketRecord, StoredTicket, Registry, Effect, runtime_key, present, holds, drop_pending,
}
use hkp_node.Coordinator.Participants.Operations.{
  issue, succeed, promote, settle, pending_of, promote_board, cancel_pending, forget_current,
  revoke, records_but, revoke_board, import_tickets,
}
use hkp_node.Coordinator.Participants.Connections.{
  is_held, arrive_pending, hello, close_participant,
}
use hkp_node.Coordinator.Participants.Forgetting.{new, HasNone}
use hkp_node.Coordinator.Participants.Histories.{
  Event, issued, registered, cancelled, revoked, board_revoked, restored, said_hello, went_away,
  step, run, grants, each-keeps,
}

-- What stays without a ticket.
present-set :
    (j k v : String) (m : OrderedMap String String)
    → (j == k) ≡ false
    → present (get k (set j v m)) ≡ present (get k m)
present-set j k v m other = ground (arith, get-set j k v m)

present-delete :
    (j k : String) (m : OrderedMap String String)
    → present (get k m) ≡ none
    → present (get k (delete j m)) ≡ none
unfolding present
present-delete j k m h = ground (arith, get-delete j k m)

drop_pending-HasNone :
    (key j : String) (s : Registry) → HasNone key s → HasNone key (drop_pending j s).0
unfolding drop_pending
drop_pending-HasNone key j s (h, p) = elim (Option-cases (present (get j s.pending_by_runtime))) [
  | inl nothing ↦ rw (nothing, drop_pending) (h, p)
  | inr (hash, found) ↦ rw (found, drop_pending) (h, present-delete j key s.pending_by_runtime p)
]

succeed-HasNone :
    (key : String) (binding : Binding) (s : Registry)
    → HasNone key s
    → HasNone key (succeed binding s).0
unfolding succeed
succeed-HasNone key binding s h = elim (Option-cases (get (runtime_key binding) s.waiting)) [
  | inl nobody ↦ rw (nobody, succeed) h
  | inr (successor, waits) ↦ rw (waits, succeed) h
]

promote-HasNone :
    (key : String) (binding : Binding) (s : Registry)
    → HasNone key s
    → HasNone key (promote binding s).0
unfolding promote
promote-HasNone key binding s (h, p) =
    let j = runtime_key binding in
    elim (Option-cases (present (get j s.pending_by_runtime))) [
      | inl nothing ↦ rw (nothing, promote) (h, p)
      | inr (hash, found) ↦
          let other : (j == key) ≡ false = elim (Bool-cases (j == key)) [
            | inr other ↦ other
            | inl same ↦ absurd (
                ground
                  (arith, ap (λ x. present (get x s.pending_by_runtime)) ((eq_iff j key).0 same)))
          ] in
          rw (found, promote)
            (succeed-HasNone key binding _ (
              present-set j key hash s.hash_by_runtime other ∙ h,
              present-delete j key s.pending_by_runtime p,
            ))
    ]

forget_current-HasNone :
    (key j : String) (effects : List Effect) (s : Registry)
    → HasNone key s
    → HasNone key (forget_current j effects s).0
unfolding forget_current
forget_current-HasNone key j effects s (h, p) =
    elim (Option-cases (present (get j s.hash_by_runtime))) [
      | inl nothing ↦ rw (nothing, forget_current) (h, p)
      | inr (hash, found) ↦ rw (found, forget_current) (present-delete j key s.hash_by_runtime h, p)
    ]

revoke-HasNone :
    (key : String) (binding : Binding) (s : Registry)
    → HasNone key s
    → HasNone key (revoke binding s).0
unfolding revoke
revoke-HasNone key binding s h =
    forget_current-HasNone key (runtime_key binding) _ _
      (drop_pending-HasNone key (runtime_key binding) s h)

settle-HasNone :
    (key : String) (r : TicketRecord) (s : Registry) → HasNone key s → HasNone key (settle r s).0
unfolding settle
settle-HasNone key r s h = elim (Bool-cases (has (runtime_key r.binding) s.waiting)) [
  | inl waits ↦ rw (waits, settle) (promote-HasNone key r.binding s h)
  | inr nobody ↦ rw (nobody, settle) (drop_pending-HasNone key (runtime_key r.binding) s h)
]

issue-HasNone :
    (key : String) (binding : Binding) (hash : String) (now : ℕ) (s : Registry)
    → (runtime_key binding == key) ≡ false
    → HasNone key s
    → HasNone key (issue binding hash now s).0
unfolding issue
issue-HasNone key binding hash now s other (h, p) =
    let j = runtime_key binding in
    let kept : Registry = record s {
      tickets_by_hash = set hash (new binding hash now) s.tickets_by_hash;
    } in
    elim (Bool-cases (has j s.hash_by_runtime)) [
      | inr without ↦ rw (without, issue) (present-set j key hash s.hash_by_runtime other ∙ h, p)
      | inl held ↦
          let dropped = drop_pending-HasNone key j kept (h, p) in
          rw (held, issue)
            (
              dropped.0,
              present-set j key hash (drop_pending j kept).0.pending_by_runtime other ∙ dropped.1,
            )
    ]

import_tickets-HasNone :
    (key user_id board_name : String) (tickets : List StoredTicket) (s : Registry)
    → grants key (restored user_id board_name tickets) ≡ false
    → HasNone key s
    → HasNone key (import_tickets user_id board_name tickets s)
unfolding import_tickets
import_tickets-HasNone key user_id board_name [] s apart h = h
import_tickets-HasNone key user_id board_name (ticket ∷ tickets) s apart (h, p) =
    let binding : Binding = record {
      user_id = user_id;
      board_name = board_name;
      runtime_id = ticket.runtime_id;
    } in
    let other : (runtime_key binding == key) ≡ false = ground (arith, apart) in
    let later : grants key (restored user_id board_name tickets) ≡ false =
      ground (arith, apart, other) in
    elim (Bool-cases (has (runtime_key binding) s.hash_by_runtime)) [
      | inl held ↦
          rw (held, import_tickets)
            (import_tickets-HasNone key user_id board_name tickets s later (h, p))
      | inr without ↦
          rw (without, import_tickets)
            (import_tickets-HasNone key user_id board_name tickets _ later
              (present-set (runtime_key binding) key ticket.hash s.hash_by_runtime other ∙ h, p))
    ]

arrive_pending-HasNone :
    (key : String) (binding : Binding) (s : Registry)
    → HasNone key s
    → HasNone key (arrive_pending binding s).0
unfolding arrive_pending
arrive_pending-HasNone key binding s h =
    elim (Bool-cases (has (runtime_key binding) s.connections)) [
      | inl there ↦ rw (there, arrive_pending) h
      | inr free ↦ rw (free, arrive_pending) (promote-HasNone key binding s h)
    ]

hello-HasNone :
    (key : String) (socket : ℕ) (binding : Binding) (hash : String) (message : Json) (s : Registry)
    → HasNone key s
    → HasNone key (hello socket binding hash message s).0
unfolding hello
hello-HasNone key socket binding hash message s h =
    elim (Bool-cases (holds (runtime_key binding) hash s.pending_by_runtime)) [
      | inl pending ↦ rw (pending, hello) (arrive_pending-HasNone key binding _ h)
      | inr absent ↦ elim (Bool-cases (holds (runtime_key binding) hash s.hash_by_runtime)) [
        | inl counts ↦ rw (absent, counts, hello) h
        | inr none_left ↦ rw (absent, none_left, hello) h
      ]
    ]

close_participant-HasNone :
    (key : String) (socket : ℕ) (binding : Binding) (s : Registry)
    → HasNone key s
    → HasNone key (close_participant socket binding s).0
unfolding close_participant
close_participant-HasNone key socket binding s h =
    elim (Bool-cases (is_held (runtime_key binding) socket s.waiting)) [
      | inl waits ↦ rw (waits, close_participant) h
      | inr elsewhere ↦ elim (Bool-cases (is_held (runtime_key binding) socket s.connections)) [
        | inl connected ↦ rw (elsewhere, connected, close_participant) h
        | inr gone ↦ rw (elsewhere, gone, close_participant) h
      ]
    ]

step-HasNone :
    (key : String) (event : Event) (s : Registry)
    → grants key event ≡ false
    → HasNone key s
    → HasNone key (step event s)
unfolding step promote_board cancel_pending revoke_board
step-HasNone key (issued binding hash now) s apart h = issue-HasNone key binding hash now s apart h
step-HasNone key (registered user_id board_name) s apart h =
    each-keeps (HasNone key) settle (settle-HasNone key) (pending_of user_id board_name s) s h
step-HasNone key (cancelled user_id board_name) s apart h =
    each-keeps (HasNone key) (λ r. drop_pending (runtime_key r.binding))
      (λ r. drop_pending-HasNone key (runtime_key r.binding)) (pending_of user_id board_name s) s h
step-HasNone key (revoked binding) s apart h = revoke-HasNone key binding s h
step-HasNone key (board_revoked user_id board_name kept) s apart h =
    each-keeps (HasNone key) (λ r. revoke r.binding) (λ r. revoke-HasNone key r.binding)
      (records_but user_id board_name kept s) s h
step-HasNone key (restored user_id board_name tickets) s apart h =
    import_tickets-HasNone key user_id board_name tickets s apart h
step-HasNone key (said_hello socket binding hash message) s apart h =
    hello-HasNone key socket binding hash message s h
step-HasNone key (went_away socket binding) s apart h =
    close_participant-HasNone key socket binding s h

pub run-HasNone :
    (key : String) (events : List Event) (s : Registry)
    → any (grants key) events ≡ false
    → HasNone key s
    → HasNone key (run events s)
unfolding run
run-HasNone key [] s apart h = h
run-HasNone key (event ∷ events) s apart h =
    run-HasNone key events (step event s) (ground (arith, apart))
      (step-HasNone key event s (ground (arith, apart)) h)
