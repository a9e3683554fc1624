-- ===== src/Coordinator/Participants/Requests/Settling.antt =====
-- Every request of a runtime server is settled, and once.
use hkp_node.Shared.{
  ℕ, ◌+◌, ◌≡◌, refl, String, true, false, List, [], ◌∷◌, ◌++◌, if◌then◌else◌, ◌≤◌, subst, string_eq,
  ◌==◌, arith, eq_iff, Option-cases, Bool-cases, inl, inr, sym, ap,
}
use hkp_node.Shared.OrderedMap.{
  OrderedMap, get, has, Distinct, Absent, has-set, has-delete, has_of_get, set-Distinct,
  delete-Distinct, get_of_Absent, has_eq_false_of_get,
}
use hkp_node.Runtime.Context.{context_from_link}
use hkp_node.Coordinator.Participants.Requests.{
  Heard, heard_result, heard_notification, heard_log, Effect, settled, sent, told, Message,
  response, result, notification, log_entry, unread, Link, request, expire, receive, reject_all,
  abandon, tell,
}

-- What happens to a connection.
pub data Event : Type 0 where
  asked : String → String → Event
  timed_out : String → Event
  arrived : String → Message → Event
  lost : Event

unfoldable pub step : Event → Link → Link × List Effect
unfolding request expire receive abandon
step (asked id op) s = request id op s
step (timed_out id) s = expire id s
step (arrived drawn message) s = receive drawn message s
step lost s = abandon s

unfoldable pub run : List Event → Link → Link × List Effect
unfolding step
run [] s = (s, [])
run (event ∷ events) s =
    let rest = run events (step event s).0 in (rest.0, (step event s).1 ++ rest.1)

-- How often a request was settled, and asked.
abbrev pub settlements : String → List Effect → ℕ
settlements id [] = 0
settlements id (settled other outcome ∷ effects) =
    (if other == id then 1 else 0) + settlements id effects
settlements id (sent other op ∷ effects) = settlements id effects
settlements id (told heard ∷ effects) = settlements id effects

abbrev pub asks : String → Event → ℕ
asks id (asked other op) = if other == id then 1 else 0
asks id (timed_out other) = 0
asks id (arrived drawn message) = 0
asks id lost = 0

abbrev pub requests : String → List Event → ℕ
requests id [] = 0
requests id (event ∷ events) = asks id event + requests id events

abbrev waits : String → Link → ℕ
waits id s = if has id s.pending then 1 else 0

settlements-append :
    (id : String) (xs ys : List Effect)
    → settlements id (xs ++ ys) ≡ settlements id xs + settlements id ys
settlements-append id [] ys = omega arith
settlements-append id (settled other outcome ∷ xs) ys = ground (arith, settlements-append id xs ys)
settlements-append id (sent other op ∷ xs) ys = settlements-append id xs ys
settlements-append id (told heard ∷ xs) ys = settlements-append id xs ys

settlements-reject_all :
    (id : String) (pending : OrderedMap String String)
    → Distinct pending
    → settlements id (reject_all pending) ≡ (if has id pending then 1 else 0)
unfolding reject_all has
settlements-reject_all id [] d = refl
settlements-reject_all id ((other, op) ∷ pending) d = ground (
  arith,
  eq_iff other id,
  settlements-reject_all id pending d.1,
  λ (same : (other == id) ≡ true).
      has_eq_false_of_get id pending
        (get_of_Absent id pending (subst (λ k. Absent k pending) ((eq_iff other id).0 same) d.0)),
)

step-Distinct : (event : Event) (s : Link) → Distinct s.pending → Distinct (step event s).0.pending
unfolding step request expire receive abandon tell
step-Distinct (asked id op) s d = elim (Bool-cases s.is_open) [
  | inl opened ↦ rw (opened, request) (set-Distinct id op s.pending d)
  | inr shut ↦ rw (shut, request) d
]
step-Distinct (timed_out id) s d = elim (Option-cases (get id s.pending)) [
  | inl gone ↦ rw (gone, expire) d
  | inr (op, there) ↦ rw (there, expire) (delete-Distinct id s.pending d)
]
step-Distinct (arrived drawn (response id ok answer error)) s d =
    elim (Bool-cases (has id s.pending)) [
      | inl there ↦ rw (there, receive) (delete-Distinct id s.pending d)
      | inr gone ↦ rw (gone, receive) d
    ]
step-Distinct (arrived drawn (result answer context)) s d = d
step-Distinct (arrived drawn (notification uuid payload context)) s d = d
step-Distinct (arrived drawn (log_entry entry)) s d = d
step-Distinct (arrived drawn unread) s d = d
step-Distinct lost s d = tt

none_waits : (id : String) → has {V = String} id [] ≡ false
unfolding has
none_waits id = refl

-- What the listener is told settles nothing.
settlements-tell : (id : String) (heard : Heard) (s : Link) → settlements id (tell heard s).1 ≡ 0
unfolding tell
settlements-tell id heard s = ground arith

-- One event settles, leaves waiting, or asks.
step-balance :
    (id : String) (event : Event) (s : Link)
    → Distinct s.pending
    → waits id s + asks id event ≤ 1
    → settlements id (step event s).1 + waits id (step event s).0 ≡ waits id s + asks id event
unfolding step request expire receive abandon
step-balance id (asked j op) s d once = ground (arith, eq_iff j id, has-set j id op s.pending)
step-balance id (timed_out j) s d once = elim (Option-cases (get j s.pending)) [
  | inl gone ↦ rw (gone, expire) (ground arith)
  | inr (op, there) ↦
      rw (there, expire)
        (ground (
          arith,
          has-delete j id s.pending,
          has_of_get j op s.pending there,
          eq_iff j id,
          λ (same : (j == id) ≡ true). ap (λ k. has k s.pending) ((eq_iff j id).0 same),
        ))
]
step-balance id (arrived drawn (response j ok answer error)) s d once = ground (
  arith,
  has-delete j id s.pending,
  eq_iff j id,
  λ (same : (j == id) ≡ true). ap (λ k. has k s.pending) ((eq_iff j id).0 same),
)
step-balance id (arrived drawn (result answer context)) s d once =
    ground (arith, settlements-tell id (heard_result answer (context_from_link drawn context)) s)
step-balance id (arrived drawn (notification uuid payload context)) s d once = ground (
  arith,
  settlements-tell id (heard_notification uuid payload (context_from_link drawn context)) s,
)
step-balance id (arrived drawn (log_entry entry)) s d once =
    ground (arith, settlements-tell id (heard_log entry) s)
step-balance id (arrived drawn unread) s d once = ground arith
step-balance id lost s d once = ground (arith, settlements-reject_all id s.pending d, none_waits id)

run-balance :
    (id : String) (events : List Event) (s : Link)
    → Distinct s.pending
    → waits id s + requests id events ≤ 1
    → settlements id (run events s).1 + waits id (run events s).0 ≡ waits id s + requests id events
unfolding run
run-balance id [] s d once = ground arith
run-balance id (event ∷ events) s d once =
    let here = step-balance id event s d (ground (arith, once)) in
    let there =
      run-balance id events (step event s).0 (step-Distinct event s d)
        (ground (arith, once, here)) in
    ground
      (arith, here, there, settlements-append id (step event s).1 (run events (step event s).0).1)

requests-append_lost :
    (id : String) (events : List Event) → requests id (events ++ lost ∷ []) ≡ requests id events
requests-append_lost id [] = omega arith
requests-append_lost id (event ∷ events) = omega (arith, requests-append_lost id events)

waits-run_lost :
    (id : String) (events : List Event) (s : Link) → waits id (run (events ++ lost ∷ []) s).0 ≡ 0
unfolding run step abandon
waits-run_lost id [] s = ground (arith, none_waits id)
waits-run_lost id (event ∷ events) s = waits-run_lost id events (step event s).0

-- Every request that a runtime server is sent is settled, and once: on a link on which nothing waits,
-- through every history in which the id of a request is drawn once at most, when the link is lost at
-- the end the request was settled exactly as often as it was asked, by its answer, its timer, the
-- closed socket or the loss.
pub settlements-run_lost :
    (id : String) (events : List Event) (s : Link)
    → s.pending ≡ []
    → requests id events ≤ 1
    → settlements id (run (events ++ lost ∷ []) s).1 ≡ requests id events
unfolding run
settlements-run_lost id events s fresh once =
    let idle : waits id s ≡ 0 = ground (arith, none_waits id, fresh) in
    let d : Distinct s.pending = subst Distinct (sym fresh) tt in
    let same = requests-append_lost id events in
    ground (
      arith,
      idle,
      same,
      waits-run_lost id events s,
      run-balance id (events ++ lost ∷ []) s d (ground (arith, idle, same, once)),
    )
