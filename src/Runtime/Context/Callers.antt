-- ===== src/Runtime/Context/Callers.antt =====
-- Who acts in a run that a client begins, and in the runs below it.
use hkp_node.Shared.{
  ℕ, ◌+◌, ◌≡◌, ◌≢◌, refl, String, List, [], ◌∷◌, Option, none, some, arith, eq_iff, Bool-cases, inl,
  inr, string_eq, ◌==◌,
}
use hkp_node.Shared.Json.{Json, Number, nat}
use hkp_node.Server.Auth.{AuthenticatedUser, anonymous_sub}
use hkp_node.Runtime.Context.{
  default_person_run_ttl_ms, owner, Caller, person, Context, caller_of, client_actor,
  context_for_client, child_run, run_expired,
}

-- Whatever a client sends as its run's context, the person it acts as is the one its token named:
-- the run's caller has the verified identity's `sub`, which is not the anonymous one, acts as an
-- owner, and may act until the time to live has passed.
pub context_for_client_sound :
    (drawn : String) (now : ℕ) (wire : Json) (user : Option AuthenticatedUser) (expires : Number)
    (caller : Caller)
    → (context_for_client drawn now wire user).actor ≡ person expires caller
    → ((u : AuthenticatedUser) × (user ≡ some u) × (caller.sub ≡ u.sub) × (u.sub ≢ anonymous_sub))
      × (caller.role ≡ some owner)
      × (expires ≡ nat (now + default_person_run_ttl_ms))
unfolding context_for_client caller_of client_actor
context_for_client_sound drawn now wire none expires caller h = cc
context_for_client_sound drawn now wire (some u) expires caller h =
    elim (Bool-cases (u.sub == anonymous_sub)) [
      | inl nameless ↦ absurd (ground (arith, nameless, h))
      | inr named ↦ (
        (u, refl, ground (arith, named, h), ground (arith, named, eq_iff u.sub anonymous_sub)),
        ground (arith, named, h),
        ground (arith, named, h),
      )
    ]

-- The runs below a run, each a child of the one before.
abbrev pub nested : List String → Context → Context
nested [] context = context
nested (drawn ∷ ids) context = nested ids (child_run drawn (some context))

-- However deep a run is nested, its actor is the first run's, and it expires exactly when that does.
run_expired-nested :
    (ids : List String) (context : Context) (now : ℕ)
    → ((nested ids context).actor ≡ context.actor)
      × (run_expired (some (nested ids context)) now ≡ run_expired (some context) now)
unfolding child_run run_expired
run_expired-nested [] context now = (refl, refl)
run_expired-nested (drawn ∷ ids) context now =
    run_expired-nested ids (child_run drawn (some context)) now
