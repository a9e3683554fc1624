-- ===== src/Coordinator/Participants/Operations.antt =====
-- coordinator/participants.ts: what is done to the registry. `hash_of` is SHA-256 in hexadecimal digits.
use text.Mathlib.Text.{starts_with}
use hkp_node.Shared.{
  ℕ, String, not, ◌&&◌, List, [], ◌∷◌, ◌++◌, Option, none, some, if◌then◌else◌, string_eq, nat_eq,
  ◌==◌, truthy, keep, any, map,
}
use hkp_node.Shared.OrderedMap.{OrderedMap, get, has, set, delete, values}
use hkp_node.Coordinator.Participants.{
  Binding, TicketRecord, StoredTicket, Registry, Effect, joined, ticket_prefix,
  close_ticket_revoked, close_replaced, runtime_key, present, holds, close_of, drop_pending,
}

abbrev pub forget : Option String → OrderedMap String TicketRecord → OrderedMap String TicketRecord
forget none tickets = tickets
forget (some hash) tickets = delete hash tickets

-- `issue`, with the hash of the ticket that was drawn.
unfoldable pub issue : Binding → String → ℕ → Registry → Registry × List Effect
unfolding drop_pending runtime_key
issue binding hash now s =
    let key = runtime_key binding in
    let entry : TicketRecord = record { binding = binding; hash = hash; issued_at = now } in
    let kept : Registry = record s { tickets_by_hash = set hash entry s.tickets_by_hash } in
    let dropped = drop_pending key kept in
    if not (has key s.hash_by_runtime)
    then (record kept { hash_by_runtime = set key hash s.hash_by_runtime }, [])
    else (
      record (dropped.0) { pending_by_runtime = set key hash (dropped.0).pending_by_runtime },
      dropped.1,
    )

-- The second half of `promote`: the server that waits takes over.
unfoldable pub succeed : Binding → Registry → Registry × List Effect
unfolding runtime_key
succeed binding s =
    let key = runtime_key binding in
    elim (get key s.waiting) [
      | none ↦ (s, [])
      | some successor ↦ (
        record s { waiting = delete key s.waiting; connections = set key successor s.connections },
        close_of close_replaced (get key s.connections) ++ joined binding successor ∷ [],
      )
    ]

-- `promote`
unfoldable pub promote : Binding → Registry → Registry × List Effect
unfolding succeed present runtime_key
promote binding s =
    let key = runtime_key binding in
    elim (present (get key s.pending_by_runtime)) [
      | none ↦ (s, [])
      | some pending ↦ succeed binding (record s {
        tickets_by_hash = forget (present (get key s.hash_by_runtime)) s.tickets_by_hash;
        hash_by_runtime = set key pending s.hash_by_runtime;
        pending_by_runtime = delete key s.pending_by_runtime;
      })
    ]

-- `pendingOf`
unfoldable pub pending_of : String → String → Registry → List TicketRecord
unfolding holds runtime_key
pending_of user_id board_name s =
    keep
      (λ (r : TicketRecord).
        r.binding.user_id == user_id
        && r.binding.board_name == board_name
        && holds (runtime_key r.binding) r.hash s.pending_by_runtime)
      (values s.tickets_by_hash)

-- What the loop of `promoteBoard` does for one record.
unfoldable pub settle : TicketRecord → Registry → Registry × List Effect
unfolding promote drop_pending runtime_key
settle r s =
    let key = runtime_key r.binding in
    if has key s.waiting then promote r.binding s else drop_pending key s

-- A loop over records.
unfoldable pub each :
    (TicketRecord → Registry → Registry × List Effect)
    → List TicketRecord
    → Registry
    → Registry × List Effect
each body [] s = (s, [])
each body (r ∷ records) s =
    let rest = each body records (body r s).0 in (rest.0, (body r s).1 ++ rest.1)

-- `promoteBoard`
unfoldable pub promote_board : String → String → Registry → Registry × List Effect
unfolding each pending_of settle
promote_board user_id board_name s = each settle (pending_of user_id board_name s) s

-- `cancelPending`
unfoldable pub cancel_pending : String → String → Registry → Registry × List Effect
unfolding each pending_of drop_pending runtime_key
cancel_pending user_id board_name s =
    each (λ r. drop_pending (runtime_key r.binding)) (pending_of user_id board_name s) s

-- The second half of `revoke`: the ticket that counts is forgotten.
unfoldable pub forget_current : String → List Effect → Registry → Registry × List Effect
unfolding present
forget_current key effects s = elim (present (get key s.hash_by_runtime)) [
  | none ↦ (s, effects)
  | some hash ↦ (
    record s {
      tickets_by_hash = delete hash s.tickets_by_hash;
      hash_by_runtime = delete key s.hash_by_runtime;
    },
    effects,
  )
]

-- `revoke`
unfoldable pub revoke : Binding → Registry → Registry × List Effect
unfolding drop_pending forget_current runtime_key
revoke binding s =
    let key = runtime_key binding in
    let dropped = drop_pending key s in
    forget_current key
      (dropped.1 ++ close_of close_ticket_revoked (get key (dropped.0).connections)) (dropped.0)

-- The records of a board, but for those of the runtimes that are kept.
unfoldable pub records_but : String → String → List String → Registry → List TicketRecord
records_but user_id board_name kept s =
    keep
      (λ (r : TicketRecord).
        r.binding.user_id == user_id
        && r.binding.board_name == board_name
        && not (any (λ id. id == r.binding.runtime_id) kept))
      (values s.tickets_by_hash)

-- `revokeBoard`
unfoldable pub revoke_board : String → String → List String → Registry → Registry × List Effect
unfolding each revoke records_but
revoke_board user_id board_name kept s =
    each (λ r. revoke r.binding) (records_but user_id board_name kept s) s

module _ (hash_of : String → String) where
  -- `resolve`
  unfoldable pub resolve : Option String → Registry → Option Binding
  resolve none s = none
  resolve (some ticket) s =
      if truthy ticket && starts_with ticket ticket_prefix
      then elim (get (hash_of ticket) s.tickets_by_hash) [ none ↦ none | some r ↦ some r.binding ]
      else none

  -- The first lines of `accept`: what the socket stands for, or `none` where it is refused.
  unfoldable pub accept : String → Registry → Option (Binding × String)
  unfolding resolve
  accept ticket s = elim (resolve (some ticket) s) [
    | none ↦ none
    | some binding ↦ some (binding, hash_of ticket)
  ]

-- `exportTickets`
unfoldable pub export_tickets : String → String → Registry → List StoredTicket
unfolding holds runtime_key
export_tickets user_id board_name s =
    map
      (λ (r : TicketRecord). record {
        runtime_id = r.binding.runtime_id;
        hash = r.hash;
        issued_at = r.issued_at;
      })
      (keep
        (λ (r : TicketRecord).
          r.binding.user_id == user_id
          && r.binding.board_name == board_name
          && holds (runtime_key r.binding) r.hash s.hash_by_runtime)
        (values s.tickets_by_hash))

-- `importTickets`
unfoldable pub import_tickets : String → String → List StoredTicket → Registry → Registry
unfolding runtime_key
import_tickets user_id board_name [] s = s
import_tickets user_id board_name (ticket ∷ tickets) s =
    let binding : Binding = record {
      user_id = user_id;
      board_name = board_name;
      runtime_id = ticket.runtime_id;
    } in
    let key = runtime_key binding in
    let entry : TicketRecord = record {
      binding = binding;
      hash = ticket.hash;
      issued_at = ticket.issued_at;
    } in
    import_tickets user_id board_name tickets (
      if has key s.hash_by_runtime then s else record s {
        tickets_by_hash = set ticket.hash entry s.tickets_by_hash;
        hash_by_runtime = set key ticket.hash s.hash_by_runtime;
      })
