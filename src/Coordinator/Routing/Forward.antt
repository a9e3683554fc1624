-- ===== src/Coordinator/Routing/Forward.antt =====
-- A result goes forward along the board, and its way ends.
use mathlib.Core.List.{append_assoc}
use hkp_node.Shared.{
  ℕ, zero, suc, ◌+◌, ◌<◌, ◌≡◌, refl, sym, ap, subst, ◌∙◌, inl, inr, String, Bool, true, false, ◌||◌,
  List, [], ◌∷◌, ◌++◌, Option, some, arith, eq_iff, length, any, string_eq, ◌==◌, Option-cases,
  Bool-cases, length-append,
}
use hkp_node.Shared.Json.{Json}
use hkp_node.Runtime.Context.{Context}
use hkp_node.Coordinator.Board.{RuntimeDescriptor, is_browser_runtime, is_remote_runtime}
use hkp_node.Coordinator.Routing.{
  run_may_continue, rest_of, after, first_hop, next_runtime, Hop, processed_by, asked_browser,
  hop_id, Surroundings, is_null, route_result,
}

abbrev pub names : String → List RuntimeDescriptor → Bool
names id runtimes = any (λ r. r.id == id) runtimes

-- No two runtimes have one id.
abbrev pub IsUnique : List RuntimeDescriptor → Type 0
IsUnique [] = Unit
IsUnique (runtime ∷ runtimes) = (names runtime.id runtimes ≡ false) × IsUnique runtimes

rest_of-append :
    (runtime : RuntimeDescriptor) (before tail : List RuntimeDescriptor)
    → IsUnique (before ++ runtime ∷ tail)
    → rest_of runtime.id (before ++ runtime ∷ tail) ≡ some tail
unfolding rest_of
rest_of-append runtime [] tail u = ground (arith, eq_iff runtime.id runtime.id)
rest_of-append runtime (r ∷ before) tail u = ground (
  arith,
  names-append runtime before tail,
  eq_iff r.id runtime.id,
  rest_of-append runtime before tail u.1,
)
  where
    names-append :
        (runtime : RuntimeDescriptor) (before tail : List RuntimeDescriptor)
        → names runtime.id (before ++ runtime ∷ tail) ≡ true
    names-append runtime [] tail = ground (arith, eq_iff runtime.id runtime.id)
    names-append runtime (q ∷ before) tail = ground (arith, names-append runtime before tail)

rest_of-splits :
    (id : String) (runtimes rest : List RuntimeDescriptor)
    → rest_of id runtimes ≡ some rest
    → (before : List RuntimeDescriptor) × (runtimes ≡ before ++ rest)
unfolding rest_of
rest_of-splits id [] rest h = cc
rest_of-splits id (runtime ∷ runtimes) rest h = elim (Bool-cases (runtime.id == id)) [
  | inl here ↦ (runtime ∷ [], ground (arith, here, h))
  | inr later ↦
      let (before, split) = rest_of-splits id runtimes rest (ground (arith, later, h)) in
      (runtime ∷ before, ap (◌∷◌ runtime) split)
]

after-splits :
    (id : String) (runtimes : List RuntimeDescriptor)
    → (before : List RuntimeDescriptor) × (runtimes ≡ before ++ after id runtimes)
unfolding after
after-splits id runtimes = elim (Option-cases (rest_of id runtimes)) [
  | inl unknown ↦ ([], rw (unknown, after) refl)
  | inr (rest, found) ↦
      let (before, split) = rest_of-splits id runtimes rest found in
      (before, split ∙ ap (◌++◌ before) (sym (ground (arith, found))))
]

first_hop-splits :
    (runtimes : List RuntimeDescriptor) (next : RuntimeDescriptor)
    → first_hop runtimes ≡ some next
    → (skipped tail : List RuntimeDescriptor) × (runtimes ≡ skipped ++ next ∷ tail)
unfolding first_hop
first_hop-splits [] next h = cc
first_hop-splits (runtime ∷ runtimes) next h =
    elim (Bool-cases (is_browser_runtime runtime || is_remote_runtime runtime)) [
      | inl here ↦ ([], runtimes, ground (arith, here, h))
      | inr later ↦
          let (skipped, tail, split) = first_hop-splits runtimes next (ground (arith, later, h)) in
          (runtime ∷ skipped, tail, ap (◌∷◌ runtime) split)
    ]

-- Hops that go along a row of runtimes: each to a runtime after the one before, none twice.
abbrev pub GoAlong : List Hop → List RuntimeDescriptor → Type 0
GoAlong [] runtimes = Unit
GoAlong (hop ∷ hops) runtimes =
    (skipped : List RuntimeDescriptor) × (next : RuntimeDescriptor) × (tail : List
      RuntimeDescriptor)
    × (runtimes ≡ skipped ++ next ∷ tail)
    × (hop_id hop ≡ next.id)
    × GoAlong hops tail

-- After a hop, what is left of the board is what stands behind the runtime of the hop.
after-hop :
    (from : String) (runtimes skipped tail : List RuntimeDescriptor) (next : RuntimeDescriptor)
    → IsUnique runtimes
    → after from runtimes ≡ skipped ++ next ∷ tail
    → after next.id runtimes ≡ tail
unfolding after
after-hop from runtimes skipped tail next u split =
    let (before, whole) = after-splits from runtimes in
    let parts : runtimes ≡ (before ++ skipped) ++ next ∷ tail =
      whole ∙ ap (◌++◌ before) split ∙ sym (append_assoc before skipped (next ∷ tail)) in
    let found : rest_of next.id runtimes ≡ some tail =
      ap (rest_of next.id) parts
      ∙ rest_of-append next (before ++ skipped) tail (subst IsUnique parts u) in
    ground (arith, found)

module _ (runtimes : List RuntimeDescriptor) (context : Option Context)
    (at : ℕ → Surroundings) where
  -- The result that leaves `from` runs out of runtimes, and its hops go along the rest of the board.
  abbrev pub Ends : ℕ → ℕ → String → Json → Type 0
  Ends fuel n from value =
      (hops : List Hop) × (route_result runtimes context at fuel n from value ≡ some hops)
      × GoAlong hops (after from runtimes)

module _ (runtimes : List RuntimeDescriptor) (context : Option Context) (at : ℕ → Surroundings)
    (u : IsUnique runtimes) where
  -- One hop, given the way of what comes after it.
  remote_hop :
      (fuel n : ℕ) (from : String) (value : Json) (next : RuntimeDescriptor)
      → run_may_continue (at n).may_act_as (at n).now context ≡ true
      → first_hop (after from runtimes) ≡ some next
      → is_remote_runtime next ≡ true
      → (skipped tail : List RuntimeDescriptor) × (after from runtimes ≡ skipped ++ next ∷ tail)
      → Ends runtimes context at (suc fuel) n from value
  unfolding route_result next_runtime
  remote_hop fuel n from value next may found remote (skipped, tail, split) =
      elim (Bool-cases ((at n).is_live next.id)) [
        | inl live ↦ (
          processed_by next.id value context ∷ [],
          rw (may, found, remote, live, route_result) refl,
          (skipped, next, tail, split, refl, tt),
        )
        | inr gone ↦ ([], rw (may, found, remote, gone, route_result) refl, tt)
      ]

  browser_hop :
      (fuel n : ℕ) (from : String) (value : Json) (next : RuntimeDescriptor)
      → run_may_continue (at n).may_act_as (at n).now context ≡ true
      → first_hop (after from runtimes) ≡ some next
      → is_remote_runtime next ≡ false
      → ((hop : ℕ) (id : String) (answer : Json)
          → length (after id runtimes) < fuel
          → Ends runtimes context at fuel hop id answer)
      → length (after from runtimes) < suc fuel
      → (skipped tail : List RuntimeDescriptor) × (after from runtimes ≡ skipped ++ next ∷ tail)
      → Ends runtimes context at (suc fuel) n from value
  unfolding route_result next_runtime
  browser_hop fuel n from value next may found browser later enough (skipped, tail, split) =
      elim (Bool-cases ((at n).is_hosted)) [
        | inr unhosted ↦ ([], rw (may, found, browser, unhosted, route_result) refl, tt)
        | inl hosted ↦ elim (Bool-cases (is_null ((at n).answer next.id value))) [
          | inl silent ↦ (
            asked_browser next.id value context ∷ [],
            rw (may, found, browser, hosted, silent, route_result) refl,
            (skipped, next, tail, split, refl, tt),
          )
          | inr answered ↦
              let rest = after-hop from runtimes skipped tail next u split in
              let shorter : length (after next.id runtimes) < fuel =
                ground (arith, rest, split, enough, length-append skipped (next ∷ tail)) in
              let (hops, run, along) =
                later (n + 1) next.id ((at n).answer next.id value) shorter in
              (
                asked_browser next.id value context ∷ hops,
                rw (may, found, browser, hosted, answered, run, route_result) refl,
                (skipped, next, tail, split, refl, subst (GoAlong hops) rest along),
              )
        ]
      ]

  route_result-GoAlong :
      (fuel n : ℕ) (from : String) (value : Json)
      → length (after from runtimes) < fuel
      → Ends runtimes context at fuel n from value
  unfolding route_result next_runtime
  route_result-GoAlong zero n from value enough = ground arith
  route_result-GoAlong (suc fuel) n from value enough =
      elim (Bool-cases (run_may_continue (at n).may_act_as (at n).now context)) [
        | inr refused ↦ ([], rw (refused, route_result) refl, tt)
        | inl may ↦ elim (Option-cases (first_hop (after from runtimes))) [
          | inl none_left ↦ ([], rw (may, none_left, route_result) refl, tt)
          | inr (next, found) ↦ elim (Bool-cases (is_remote_runtime next)) [
            | inl remote ↦
                remote_hop fuel n from value next may found remote
                  (first_hop-splits (after from runtimes) next found)
            | inr browser ↦
                browser_hop fuel n from value next may found browser (route_result-GoAlong fuel)
                  enough (first_hop-splits (after from runtimes) next found)
          ]
        ]
      ]

  -- On a board whose runtimes have different ids, a result that a runtime made comes to the end of its
  -- way, whatever the environment answers at each hop: with one unit of fuel for every runtime and one
  -- more, the hops are a list, each hop goes to a runtime of the board behind the one that the value
  -- came from, and none goes to one runtime twice.
  pub route_result-Ends :
      (from : String) (value : Json) → Ends runtimes context at (suc (length runtimes)) 0 from value
  route_result-Ends from value =
      let (before, split) = after-splits from runtimes in
      let total : length (before ++ after from runtimes) ≡ length runtimes =
        ap length (sym split) in
      route_result-GoAlong (suc (length runtimes)) 0 from value
        (ground (arith, total, length-append before (after from runtimes)))
