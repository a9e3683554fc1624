-- ===== src/Coordinator/Participants/Forgetting.antt =====
-- A record of a ticket answers only while its runtime holds the ticket.
use hkp_node.Shared.{
  ℕ, String, Bool, true, false, ◌||◌, List, Option, none, some, if◌then◌else◌, string_eq, nat_eq,
  ◌==◌, truthy, Option-cases, Bool-cases, arith, eq_iff, ◌≡◌, ◌⊎◌, refl, inl, inr, ap,
}
use hkp_node.Shared.OrderedMap.{OrderedMap, get, has, set, delete, get-set, get-delete, has-get}
use hkp_node.Coordinator.Participants.{
  Binding, TicketRecord, Registry, Effect, runtime_key, present, holds, drop_pending,
}
use hkp_node.Coordinator.Participants.Operations.{
  issue, forget, succeed, promote, forget_current, revoke,
}

-- A record answers to a hash only while its runtime holds that hash.
abbrev pub IsSound : Registry → Type 0
IsSound s =
    (hash : String) (r : TicketRecord)
    → truthy hash ≡ true
    → get hash s.tickets_by_hash ≡ some r
    → (holds (runtime_key r.binding) hash s.hash_by_runtime
        || holds (runtime_key r.binding) hash s.pending_by_runtime)
      ≡ true

-- A runtime without a ticket.
abbrev pub HasNone : String → Registry → Type 0
HasNone key s =
    (present (get key s.hash_by_runtime) ≡ none) × (present (get key s.pending_by_runtime) ≡ none)

holds-set :
    (key k hash h : String) (m : OrderedMap String String)
    → holds k h (set key hash m) ≡ (if key == k then hash == h else holds k h m)
unfolding holds
holds-set key k hash h m = ground (arith, get-set key k hash m)

holds-delete :
    (key k h : String) (m : OrderedMap String String)
    → holds k h (delete key m) ≡ (if key == k then false else holds k h m)
unfolding holds
holds-delete key k h m = ground (arith, get-delete key k m)

holds_of_present :
    (key h p : String) (m : OrderedMap String String)
    → present (get key m) ≡ some p
    → holds key h m ≡ (p == h)
unfolding holds present
holds_of_present key h p m e = ground arith

pub holds_of_none :
    (key h : String) (m : OrderedMap String String)
    → present (get key m) ≡ none
    → truthy h ≡ true
    → holds key h m ≡ false
unfolding holds present
holds_of_none key h m e t = elim (Option-cases (get key m)) [
  | inl nothing ↦ ground arith
  | inr (x, found) ↦ elim (Bool-cases (x == h)) [
    | inl same ↦ let t' = ap truthy ((eq_iff x h).0 same) in ground (arith, t')
    | inr other ↦ ground arith
  ]
]

abbrev holds_hash : Option String → String → Bool
holds_hash none hash = false
holds_hash (some other) hash = other == hash

present_of_missing :
    (key : String) (m : OrderedMap String String) → has key m ≡ false → present (get key m) ≡ none
unfolding present
present_of_missing key m missing = ground (arith, has-get key m)

pub drop_pending-IsSound :
    (key : String) (s : Registry) → IsSound s → IsSound (drop_pending key s).0
unfolding drop_pending
drop_pending-IsSound key s sound = elim (Option-cases (present (get key s.pending_by_runtime))) [
  | inl nothing ↦ rw (nothing, drop_pending) sound
  | inr (p, found) ↦
      rw (found, drop_pending)
        (λ hash r t at. ground (
          arith,
          eq_iff p hash,
          eq_iff key (runtime_key r.binding),
          get-delete p hash s.tickets_by_hash,
          holds-delete key (runtime_key r.binding) hash s.pending_by_runtime,
          holds_of_present key hash p s.pending_by_runtime found,
          sound hash r t,
        ))
]

new_or_old :
    (hash h : String) (entry r : TicketRecord) (m : OrderedMap String TicketRecord)
    → get h (set hash entry m) ≡ some r
    → ((hash ≡ h) × (runtime_key entry.binding ≡ runtime_key r.binding))
      ⊎ (((hash == h) ≡ false) × (get h m ≡ some r))
new_or_old hash h entry r m at = elim (Bool-cases (hash == h)) [
  | inl same ↦
      let both : some entry ≡ some r = ground (arith, same, get-set hash h entry m, at) in
      inl ((eq_iff hash h).0 same, ap key_of both)
  | inr other ↦ inr (other, ground (arith, other, get-set hash h entry m, at))
]
  where
    key_of : Option TicketRecord → String
    key_of none = ""
    key_of (some r) = runtime_key r.binding

abbrev pub new : Binding → String → ℕ → TicketRecord
new binding hash now = record { binding = binding; hash = hash; issued_at = now }

-- The ticket of a runtime that had none.
pub first_ticket-IsSound :
    (binding : Binding) (hash : String) (now : ℕ) (s : Registry)
    → has (runtime_key binding) s.hash_by_runtime ≡ false
    → IsSound s
    → IsSound (record s {
      tickets_by_hash = set hash (new binding hash now) s.tickets_by_hash;
      hash_by_runtime = set (runtime_key binding) hash s.hash_by_runtime;
    })
first_ticket-IsSound binding hash now s without sound h r t at =
    let key = runtime_key binding in
    let set_key = holds-set key (runtime_key r.binding) hash h s.hash_by_runtime in
    elim (new_or_old hash h (new binding hash now) r s.tickets_by_hash at) [
      | inl (same, key_r) ↦
          ground (arith, eq_iff hash h, eq_iff key (runtime_key r.binding), set_key)
      | inr (other, old) ↦ ground (
        arith,
        eq_iff key (runtime_key r.binding),
        set_key,
        holds_of_none key h s.hash_by_runtime,
        present_of_missing key s.hash_by_runtime without,
        sound h r t old,
      )
    ]

pub issue-IsSound :
    (binding : Binding) (hash : String) (now : ℕ) (s : Registry)
    → IsSound s
    → IsSound (issue binding hash now s).0
unfolding issue drop_pending
issue-IsSound binding hash now s sound =
    elim (Bool-cases (has (runtime_key binding) s.hash_by_runtime)) [
      | inr without ↦ rw (without, issue) (first_ticket-IsSound binding hash now s without sound)
      | inl held ↦ elim (Option-cases (present (get (runtime_key binding) s.pending_by_runtime))) [
        | inl nothing ↦
            rw (held, nothing, drop_pending, issue)
              (λ h r t at. elim (new_or_old hash h _ r s.tickets_by_hash at) [
                | inl (same, key) ↦ ground (
                  arith,
                  eq_iff hash h,
                  eq_iff (runtime_key binding) (runtime_key r.binding),
                  holds-set (runtime_key binding) (runtime_key r.binding) hash h
                      s.pending_by_runtime,
                )
                | inr (other, old) ↦ ground (
                  arith,
                  eq_iff (runtime_key binding) (runtime_key r.binding),
                  holds-set (runtime_key binding) (runtime_key r.binding) hash h
                      s.pending_by_runtime,
                  holds_of_none (runtime_key binding) h s.pending_by_runtime,
                  sound h r t old,
                )
              ])
        | inr (p, found) ↦
            rw (held, found, drop_pending, issue)
              (λ h r t at.
                elim (new_or_old hash h (new binding hash now) r s.tickets_by_hash (
                  ground
                    (arith, get-delete p h (set hash (new binding hash now) s.tickets_by_hash)))) [
                      | inl (same, key) ↦ ground (
                        arith,
                        eq_iff hash h,
                        eq_iff (runtime_key binding) (runtime_key r.binding),
                        holds-set (runtime_key binding) (runtime_key r.binding) hash h
                            (delete (runtime_key binding) s.pending_by_runtime),
                      )
                      | inr (other, old) ↦ ground (
                        arith,
                        eq_iff p h,
                        get-delete p h (set hash (new binding hash now) s.tickets_by_hash),
                        eq_iff (runtime_key binding) (runtime_key r.binding),
                        holds-set (runtime_key binding) (runtime_key r.binding) hash h
                            (delete (runtime_key binding) s.pending_by_runtime),
                        holds-delete (runtime_key binding) (runtime_key r.binding) h
                            s.pending_by_runtime,
                        holds_of_present (runtime_key binding) h p s.pending_by_runtime found,
                        sound h r t old,
                      )
                    ])
      ]
    ]

succeed-IsSound : (binding : Binding) (s : Registry) → IsSound s → IsSound (succeed binding s).0
unfolding succeed
succeed-IsSound binding s sound = elim (Option-cases (get (runtime_key binding) s.waiting)) [
  | inl nobody ↦ rw (nobody, succeed) sound
  | inr (successor, waits) ↦ rw (waits, succeed) sound
]

get-forget :
    (o : Option String) (h : String) (m : OrderedMap String TicketRecord)
    → get h (forget o m) ≡ (if holds_hash o h then none else get h m)
get-forget none h m = refl
get-forget (some hash) h m = get-delete hash h m

held_hash :
    (key h : String) (m : OrderedMap String String)
    → truthy h ≡ true
    → holds_hash (present (get key m)) h ≡ holds key h m
held_hash key h m t = elim (Option-cases (present (get key m))) [
  | inl nothing ↦ ground (arith, nothing, holds_of_none key h m nothing t)
  | inr (p, found) ↦ ground (arith, found, holds_of_present key h p m found)
]

pub promote-IsSound : (binding : Binding) (s : Registry) → IsSound s → IsSound (promote binding s).0
unfolding promote
promote-IsSound binding s sound =
    elim (Option-cases (present (get (runtime_key binding) s.pending_by_runtime))) [
      | inl nothing ↦ rw (nothing, promote) sound
      | inr (p, found) ↦
          rw (found, promote)
            (succeed-IsSound binding _ (λ h r t at. ground (
              arith,
              eq_iff (runtime_key binding) (runtime_key r.binding),
              eq_iff p h,
              get-forget (present (get (runtime_key binding) s.hash_by_runtime)) h
                  s.tickets_by_hash,
              held_hash (runtime_key binding) h s.hash_by_runtime t,
              holds-set (runtime_key binding) (runtime_key r.binding) p h s.hash_by_runtime,
              holds-delete (runtime_key binding) (runtime_key r.binding) h s.pending_by_runtime,
              holds_of_present (runtime_key binding) h p s.pending_by_runtime found,
              sound h r t,
            )))
    ]

forget_current-IsSound :
    (key : String) (effects : List Effect) (s : Registry)
    → IsSound s
    → IsSound (forget_current key effects s).0
unfolding forget_current
forget_current-IsSound key effects s sound =
    elim (Option-cases (present (get key s.hash_by_runtime))) [
      | inl nothing ↦ rw (nothing, forget_current) sound
      | inr (p, found) ↦
          rw (found, forget_current)
            (λ hash r t at. ground (
              arith,
              eq_iff p hash,
              eq_iff key (runtime_key r.binding),
              get-delete p hash s.tickets_by_hash,
              holds-delete key (runtime_key r.binding) hash s.hash_by_runtime,
              holds_of_present key hash p s.hash_by_runtime found,
              sound hash r t,
            ))
    ]

pub revoke-IsSound : (binding : Binding) (s : Registry) → IsSound s → IsSound (revoke binding s).0
unfolding revoke
revoke-IsSound binding s sound =
    let key = runtime_key binding in
    forget_current-IsSound key _ (drop_pending key s).0 (drop_pending-IsSound key s sound)
