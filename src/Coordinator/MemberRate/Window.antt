-- ===== src/Coordinator/MemberRate/Window.antt =====
-- How often a member is let through in a minute.
use hkp_node.Shared.{
  ℕ, ◌≤◌, ◌≡◌, refl, ap, subst, inl, inr, String, Bool, List, [], ◌∷◌, ◌++◌, leb, length, keep,
  or_else, if◌then◌else◌, string_eq, ◌==◌, arith, eq_iff, Bool-cases, length-append,
}
use hkp_node.Shared.OrderedMap.{OrderedMap, get, get-set, get-delete}
use hkp_node.Coordinator.MemberRate.{is_recent, over_member_rate, forget_times}

-- A member asks at a time, or is taken off the board.
pub data Event : Type 0 where
  asked : ℕ → String → Event
  evicted : String → Event

-- A session's count with the requests that it let through, oldest first, each since the member who made
-- it was last taken off the board.
abbrev pub Count : Type 0
Count = OrderedMap String (List ℕ) × List (String × ℕ)

-- The requests of the others.
abbrev pub of_others : String → List (String × ℕ) → List (String × ℕ)
of_others email [] = []
of_others email ((other, at) ∷ log) =
    let rest = of_others email log in if other == email then rest else (other, at) ∷ rest

unfoldable pub step : ℕ → Event → Count → Count
unfolding over_member_rate forget_times
step limit (asked now email) (times, log) =
    let answer = over_member_rate limit now email times in
    (answer.0, if answer.1 then log else log ++ (email, now) ∷ [])
step limit (evicted email) (times, log) = (forget_times email times, of_others email log)

unfoldable pub run : ℕ → List Event → Count → Count
unfolding step
run limit [] count = count
run limit (event ∷ events) count = run limit events (step limit event count)

-- Requests at or after a time, none before the one that stands before it.
abbrev pub InOrder : ℕ → List Event → Type 0
InOrder start [] = Unit
InOrder start (asked now email ∷ events) = (start ≤ now) × InOrder now events
InOrder start (evicted email ∷ events) = InOrder start events

-- The time of the last request.
abbrev pub last : ℕ → List Event → ℕ
last start [] = start
last start (asked now email ∷ events) = last now events
last start (evicted email ∷ events) = last start events

abbrev pub times_of : String → List (String × ℕ) → List ℕ
times_of email [] = []
times_of email ((other, at) ∷ log) =
    let rest = times_of email log in if other == email then at ∷ rest else rest

times_of-append :
    (email other : String) (at : ℕ) (log : List (String × ℕ))
    → times_of email (log ++ (other, at) ∷ [])
      ≡ (if other == email then times_of email log ++ at ∷ [] else times_of email log)
times_of-append email other at [] = refl
times_of-append email other at ((e, t) ∷ log) = ground (arith, times_of-append email other at log)

times_of-of_others :
    (email other : String) (log : List (String × ℕ))
    → times_of email (of_others other log) ≡ (if other == email then [] else times_of email log)
times_of-of_others email other [] = ground arith
times_of-of_others email other ((e, t) ∷ log) =
    ground (
      arith,
      eq_iff e other,
      eq_iff e email,
      eq_iff other email,
      times_of-of_others email other log,
    )

keep-append_one :
    (p : ℕ → Bool) (xs : List ℕ) (x : ℕ)
    → keep p (xs ++ x ∷ []) ≡ (if p x then keep p xs ++ x ∷ [] else keep p xs)
keep-append_one p [] x = refl
keep-append_one p (y ∷ xs) x = ground (arith, keep-append_one p xs x)

-- What is recent later was recent before.
keep-is_recent :
    (now later : ℕ) (xs : List ℕ)
    → now ≤ later
    → keep (is_recent later) (keep (is_recent now) xs) ≡ keep (is_recent later) xs
keep-is_recent now later [] le = refl
keep-is_recent now later (x ∷ xs) le = ground (arith, keep-is_recent now later xs le)

length-is_recent :
    (now later : ℕ) (xs : List ℕ)
    → now ≤ later
    → length (keep (is_recent later) xs) ≤ length (keep (is_recent now) xs)
length-is_recent now later [] le = omega arith
length-is_recent now later (x ∷ xs) le = ground (arith, length-is_recent now later xs le)

module _ (limit : ℕ) where
  abbrev Agrees : ℕ → Count → Type 0
  Agrees start (times, log) =
      (email : String) (t : ℕ)
      → start ≤ t
      → keep (is_recent t) (or_else (get email times) []) ≡ keep (is_recent t) (times_of email log)

  abbrev IsWithin : ℕ → Count → Type 0
  IsWithin start (times, log) =
      (email : String) (t : ℕ)
      → start ≤ t
      → length (keep (is_recent t) (times_of email log)) ≤ limit

  asked-Agrees :
      (start now : ℕ) (who : String) (count : Count)
      → start ≤ now
      → Agrees start count
      → Agrees now (step limit (asked now who) count)
  unfolding step over_member_rate
  asked-Agrees start now who (times, log) le agrees email t after =
      elim (Bool-cases (who == email)) [
        | inr other ↦
            let mine = keep (is_recent now) (or_else (get who times) []) in
            ground (
              arith,
              other,
              get-set who email mine times,
              get-set who email (mine ++ now ∷ []) times,
              times_of-append email who now log,
              agrees email t (omega (arith, le, after)),
            )
        | inl same ↦
            let whose : or_else (get who times) [] ≡ or_else (get email times) [] =
              ap (λ e. or_else (get e times) []) ((eq_iff who email).0 same) in
            let stored = or_else (get email times) [] in
            let recent = keep (is_recent now) stored in
            let facts = agrees email t (omega (arith, le, after)) in
            let later = keep-is_recent now t stored after in
            elim (Bool-cases (leb limit (length recent))) [
              | inl over ↦
                  rw (whose, over, over_member_rate)
                    (ground (arith, same, get-set who email recent times, facts, later))
              | inr under ↦
                  rw (whose, under, over_member_rate)
                    (ground (
                      arith,
                      same,
                      get-set who email (recent ++ now ∷ []) times,
                      facts,
                      later,
                      times_of-append email who now log,
                      keep-append_one (is_recent t) recent now,
                      keep-append_one (is_recent t) (times_of email log) now,
                    ))
            ]
      ]

  asked-IsWithin :
      (start now : ℕ) (who : String) (count : Count)
      → start ≤ now
      → Agrees start count
      → IsWithin start count
      → IsWithin now (step limit (asked now who) count)
  unfolding step over_member_rate
  asked-IsWithin start now who (times, log) le agrees within email t after =
      let before = within email t (omega (arith, le, after)) in
      let stored = or_else (get who times) [] in
      let recent = keep (is_recent now) stored in
      elim (Bool-cases (leb limit (length recent))) [
        | inl over ↦ rw (over, over_member_rate) before
        | inr under ↦ elim (Bool-cases (who == email)) [
          | inr other ↦
              rw (under, over_member_rate)
                (ground (arith, other, times_of-append email who now log, before))
          | inl same ↦
              let count : length recent ≡ length (keep (is_recent now) (times_of email log)) =
                ap length (
                  subst
                    (λ e.
                      keep (is_recent now) (or_else (get who times) [])
                      ≡ keep (is_recent now) (times_of e log))
                    ((eq_iff who email).0 same) (agrees who now le)) in
              rw (under, over_member_rate)
                (ground (
                  arith,
                  same,
                  under,
                  count,
                  times_of-append email who now log,
                  keep-append_one (is_recent t) (times_of email log) now,
                  length-append (keep (is_recent t) (times_of email log)) (now ∷ []),
                  length-is_recent now t (times_of email log) after,
                ))
        ]
      ]

  evicted-Agrees :
      (start : ℕ) (who : String) (count : Count)
      → Agrees start count
      → Agrees start (step limit (evicted who) count)
  unfolding step forget_times
  evicted-Agrees start who (times, log) agrees email t after =
      ground
        (arith, get-delete who email times, times_of-of_others email who log, agrees email t after)

  evicted-IsWithin :
      (start : ℕ) (who : String) (count : Count)
      → IsWithin start count
      → IsWithin start (step limit (evicted who) count)
  unfolding step
  evicted-IsWithin start who (times, log) within email t after =
      ground (arith, times_of-of_others email who log, within email t after)

  run-IsWithin :
      (start : ℕ) (events : List Event) (count : Count)
      → InOrder start events
      → Agrees start count
      → IsWithin start count
      → IsWithin (last start events) (run limit events count)
  unfolding run
  run-IsWithin start [] count order agrees within = within
  run-IsWithin start (asked now who ∷ events) count (le, order) agrees within =
      run-IsWithin now events (step limit (asked now who) count) order
        (asked-Agrees start now who count le agrees)
        (asked-IsWithin start now who count le agrees within)
  run-IsWithin start (evicted who ∷ events) count order agrees within =
      run-IsWithin start events (step limit (evicted who) count) order
        (evicted-Agrees start who count agrees) (evicted-IsWithin start who count within)

  -- Whoever asks and however often, in the order of the clock, and whoever is taken off the board in
  -- between: of the requests of one email since it was last taken off the board, at most `limit` that
  -- came in the minute up to a time were let through, for every time from the last request on.
  pub length-run :
      (events : List Event) (email : String) (t : ℕ)
      → InOrder 0 events
      → last 0 events ≤ t
      → length (keep (is_recent t) (times_of email (run limit events ([], [])).1)) ≤ limit
  unfolding get
  length-run events email t order after =
      run-IsWithin 0 events ([], []) order (λ e u le. refl) (λ e u le. omega arith) email t after
