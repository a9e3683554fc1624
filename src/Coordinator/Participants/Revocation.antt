-- ===== src/Coordinator/Participants/Revocation.antt =====
-- A revoked ticket is forgotten for good.
use hkp_node.Shared.{
  ℕ, String, true, false, ◌&&◌, ◌||◌, List, [], ◌∷◌, Option, none, some, or_else, string_eq, nat_eq,
  truthy, any, Option-cases, Bool-cases, arith, eq_iff, ◌≡◌, ◌≢◌, refl, subst, inl, inr, ap, ◌∙◌,
}
use text.Mathlib.Text.{starts_with}
use hkp_node.Shared.OrderedMap.{OrderedMap, get, delete, get-delete}
use hkp_node.Shared.Json.{Json}
use hkp_node.Coordinator.Participants.{
  Binding, TicketRecord, Registry, Effect, closed, close_ticket_revoked, empty, runtime_key,
  present, holds, drop_pending, ticket_prefix,
}
use hkp_node.Coordinator.Participants.Operations.{forget_current, revoke, resolve}
use hkp_node.Coordinator.Participants.Connections.{hello}
use hkp_node.Coordinator.Participants.Forgetting.{IsSound, HasNone, holds_of_none, revoke-IsSound}
use hkp_node.Coordinator.Participants.Histories.{Event, run, grants, run-IsSound}
use hkp_node.Coordinator.Participants.Unticketed.{run-HasNone}

deleted-none :
    (key : String) (m : OrderedMap String String) → present (get key (delete key m)) ≡ none
unfolding present
deleted-none key m = ground (arith, eq_iff key key, get-delete key key m)

drop_pending-none :
    (key : String) (s : Registry)
    → present (get key (drop_pending key s).0.pending_by_runtime) ≡ none
unfolding drop_pending
drop_pending-none key s = elim (Option-cases (present (get key s.pending_by_runtime))) [
  | inl nothing ↦ rw (nothing, drop_pending) nothing
  | inr (hash, found) ↦ rw (found, drop_pending) (deleted-none key s.pending_by_runtime)
]

forget_current-none :
    (key : String) (effects : List Effect) (s : Registry)
    → present (get key s.pending_by_runtime) ≡ none
    → HasNone key (forget_current key effects s).0
unfolding forget_current
forget_current-none key effects s p = elim (Option-cases (present (get key s.hash_by_runtime))) [
  | inl nothing ↦ rw (nothing, forget_current) (nothing, p)
  | inr (hash, found) ↦ rw (found, forget_current) (deleted-none key s.hash_by_runtime, p)
]

HasNone-revoke :
    (binding : Binding) (s : Registry) → HasNone (runtime_key binding) (revoke binding s).0
unfolding revoke
HasNone-revoke binding s =
    let key = runtime_key binding in
    forget_current-none key _ (drop_pending key s).0 (drop_pending-none key s)

-- Who a ticket resolves to stands in a record under its hash.
resolve-record :
    (hash_of : String → String) (ticket : String) (b : Binding) (s : Registry)
    → resolve hash_of (some ticket) s ≡ some b
    → (r : TicketRecord) × (get (hash_of ticket) s.tickets_by_hash ≡ some r) × (r.binding ≡ b)
unfolding resolve
resolve-record hash_of ticket b s found =
    elim (Bool-cases (truthy ticket && starts_with ticket ticket_prefix)) [
      | inr malformed ↦ absurd (ground (arith, malformed, found))
      | inl formed ↦ elim (Option-cases (get (hash_of ticket) s.tickets_by_hash)) [
        | inl unknown ↦ absurd (ground (arith, formed, found, unknown))
        | inr (r, at) ↦
            let both : some r.binding ≡ some b = ground (arith, formed, found, at) in
            (r, at, ap (λ o. or_else o b) both)
      ]
    ]

-- What the registry says of a runtime without a ticket.
resolve-HasNone :
    (hash_of : String → String) (key : String) (s : Registry)
    → ((text : String) → truthy (hash_of text) ≡ true)
    → IsSound s
    → HasNone key s
    → (ticket : Option String) (b : Binding) → resolve hash_of ticket s ≡ some b
    → runtime_key b ≢ key
unfolding resolve
resolve-HasNone hash_of key s hashes sound (h, p) none b found same = absurd (cc)
resolve-HasNone hash_of key s hashes sound (h, p) (some ticket) b found same =
    let (r, at, whose) = resolve-record hash_of ticket b s found in
    let held = sound (hash_of ticket) r (hashes ticket) at in
    let key_r : runtime_key r.binding ≡ key = ap runtime_key whose ∙ same in
    let held' =
      subst
        (λ k.
          (holds k (hash_of ticket) s.hash_by_runtime
            || holds k (hash_of ticket) s.pending_by_runtime)
          ≡ true)
        key_r held in
    absurd (
      ground (
        arith,
        held',
        holds_of_none key (hash_of ticket) s.hash_by_runtime h (hashes ticket),
        holds_of_none key (hash_of ticket) s.pending_by_runtime p (hashes ticket),
      ))

hello-HasNone_refused :
    (socket : ℕ) (binding : Binding) (hash : String) (message : Json) (s : Registry)
    → truthy hash ≡ true
    → HasNone (runtime_key binding) s
    → hello socket binding hash message s ≡ (s, closed socket close_ticket_revoked ∷ [])
unfolding hello
hello-HasNone_refused socket binding hash message s t (h, p) =
    rw
      (
        holds_of_none (runtime_key binding) hash s.pending_by_runtime p t,
        holds_of_none (runtime_key binding) hash s.hash_by_runtime h t,
        hello,
      )
      refl

empty-IsSound : IsSound empty
unfolding get
empty-IsSound hash r t at = absurd (cc)

module _ (hash_of : String → String) (hashes : (text : String) → truthy (hash_of text) ≡ true) where
  -- A revocation is final: from an empty registry, after every history, a revocation of a runtime's
  -- tickets and every further history in which that runtime is neither issued a ticket nor restored
  -- one, no text resolves to the runtime, as long as hashes are not the empty text.
  pub resolve-run-revoke :
      (before : List Event) (binding : Binding) (later : List Event)
      → any (grants (runtime_key binding)) later ≡ false
      → (ticket : Option String) (b : Binding)
      → resolve hash_of ticket (run later (revoke binding (run before empty)).0) ≡ some b
      → runtime_key b ≢ runtime_key binding
  resolve-run-revoke before binding later apart =
      let key = runtime_key binding in
      let s = run before empty in
      resolve-HasNone hash_of key (run later (revoke binding s).0) hashes
        (run-IsSound later (revoke binding s).0
          (revoke-IsSound binding s (run-IsSound before empty empty-IsSound)))
        (run-HasNone key later (revoke binding s).0 apart (HasNone-revoke binding s))

  -- A socket that was let in with a ticket before that ticket was revoked says its hello in vain: after
  -- a revocation of a runtime's tickets in any registry, and every history in which the runtime is
  -- neither issued a ticket nor restored one, a hello with any ticket's hash closes the socket with the
  -- code for a revoked ticket and changes nothing, as long as hashes are not the empty text.
  pub hello-run-revoke :
      (s : Registry) (binding : Binding) (later : List Event)
      → any (grants (runtime_key binding)) later ≡ false
      → (socket : ℕ) (ticket : String) (message : Json)
      → hello socket binding (hash_of ticket) message (run later (revoke binding s).0)
        ≡ (run later (revoke binding s).0, closed socket close_ticket_revoked ∷ [])
  hello-run-revoke s binding later apart socket ticket message =
      hello-HasNone_refused socket binding (hash_of ticket) message _ (hashes ticket) (
        run-HasNone (runtime_key binding) later (revoke binding s).0 apart
          (HasNone-revoke binding s))
