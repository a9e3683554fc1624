-- ===== src/Runtime/Registry/Isolation.antt =====
-- What an operation on one space leaves of the others.
use hkp_node.Shared.{
  ◌≡◌, refl, ap, ◌∙◌, ◌||◌, String, Bool, false, ◌&&◌, List, [], ◌∷◌, Option, none, some, length,
  if◌then◌else◌, string_eq, ◌==◌, is_some, arith, eq_iff, All, Option-cases, Bool-cases, inl, inr,
}
use hkp_node.Shared.OrderedMap.{
  OrderedMap, get, has, set, delete, values, get-set, get-delete, has-get,
}
use text.Mathlib.Text.{starts_with}
use hkp_node.Runtime.Registry.{
  Spaces, board_space, runtimes_under, get_board_runtimes, count_runtimes, owner_runtimes,
  create_runtime, get_runtime, get_runtimes, put_back, remove_runtime, remove_all_runtimes,
}

module _ {ℓ} {Runtime : Type ℓ} where
  -- Creating a runtime puts it in its space, in the place of one with its id, and changes no other
  -- entry of any space; where its constructor throws, every entry stays.
  get_runtime-create_runtime :
      (space id s i : String) (made : Option Runtime) (apps : Spaces Runtime)
      → get_runtime s i (create_runtime space id made apps).0
        ≡ (if space == s && id == i && is_some made then made else get_runtime s i apps)
  unfolding get_runtime create_runtime owner_runtimes get
  get_runtime-create_runtime space id s i none apps =
      ground (arith, eq_iff space s, get-set space s [] apps, has-get space apps)
  get_runtime-create_runtime space id s i (some runtime) apps =
      elim (Option-cases (get space apps)) [
        | inl new ↦ ground (
          arith,
          new,
          eq_iff space s,
          get-set space s (set id runtime []) apps,
          get-set id i runtime [],
        )
        | inr (owned, there) ↦ ground (
          arith,
          there,
          eq_iff space s,
          get-set space s (set id runtime owned) apps,
          get-set id i runtime owned,
        )
      ]

  get_runtime-put_back :
      (space s i : String) (owned : OrderedMap String Runtime) (apps : Spaces Runtime)
      → get_runtime s i (put_back space owned apps)
        ≡ (if space == s then get i owned else get_runtime s i apps)
  unfolding get_runtime put_back get
  get_runtime-put_back space s i [] apps = ground (arith, get-delete space s apps)
  get_runtime-put_back space s i (entry ∷ owned) apps =
      ground (arith, get-set space s (entry ∷ owned) apps)

  -- Removing a runtime takes it out of its space and changes no other entry of any space.
  get_runtime-remove_runtime :
      (space id s i : String) (apps : Spaces Runtime)
      → get_runtime s i (remove_runtime space id apps).0
        ≡ (if space == s && id == i then none else get_runtime s i apps)
  unfolding get_runtime remove_runtime
  get_runtime-remove_runtime space id s i apps = elim (Option-cases (get space apps)) [
    | inl none_there ↦ ground (arith, none_there, eq_iff space s)
    | inr (owned, there) ↦ ground (
      arith,
      there,
      eq_iff space s,
      get-delete id i owned,
      get_runtime-put_back space s i (delete id owned) apps,
    )
  ]

-- The spaces that `countRuntimes` counts: an owner's own, and those of the owner's boards.
abbrev pub is_of : String → String → Bool
is_of owner space = space == owner || starts_with space (board_space owner "")

-- A call on the registry, by the space it is about.
pub data Call {ℓ} (Runtime : Type ℓ) : Type ℓ where
  creates : String → String → Option Runtime → Call Runtime
  removes : String → String → Call Runtime
  clears : String → Call Runtime

module _ {ℓ} {Runtime : Type ℓ} where
  abbrev pub space_of : Call Runtime → String
  space_of (creates space id made) = space
  space_of (removes space id) = space
  space_of (clears space) = space

  unfoldable pub step : Call Runtime → Spaces Runtime → Spaces Runtime
  step (creates space id made) apps = (create_runtime space id made apps).0
  step (removes space id) apps = (remove_runtime space id apps).0
  step (clears space) apps = (remove_all_runtimes space apps).0

  unfoldable pub run_calls : List (Call Runtime) → Spaces Runtime → Spaces Runtime
  unfolding step
  run_calls [] apps = apps
  run_calls (call ∷ calls) apps = run_calls calls (step call apps)

  runtimes_under-set :
      (boards space : String) (owned : OrderedMap String Runtime) (apps : Spaces Runtime)
      → starts_with space boards ≡ false
      → runtimes_under boards (set space owned apps) ≡ runtimes_under boards apps
  unfolding runtimes_under set
  runtimes_under-set boards space owned [] h = ground (arith, h)
  runtimes_under-set boards space owned ((s, o) ∷ apps) h =
      ground (arith, h, eq_iff s space, runtimes_under-set boards space owned apps h)

  runtimes_under-delete :
      (boards space : String) (apps : Spaces Runtime)
      → starts_with space boards ≡ false
      → runtimes_under boards (delete space apps) ≡ runtimes_under boards apps
  unfolding runtimes_under delete
  runtimes_under-delete boards space [] h = refl
  runtimes_under-delete boards space ((s, o) ∷ apps) h =
      ground (arith, h, eq_iff s space, runtimes_under-delete boards space apps h)

  -- A call keeps what another owner's spaces are.
  abbrev pub Keeps : String → Spaces Runtime → Spaces Runtime → Type ℓ
  Keeps owner apps apps' =
      (get owner apps' ≡ get owner apps)
      × (runtimes_under (board_space owner "") apps' ≡ runtimes_under (board_space owner "") apps)

  set-Keeps :
      (owner space : String) (owned : OrderedMap String Runtime) (apps : Spaces Runtime)
      → is_of owner space ≡ false
      → Keeps owner apps (set space owned apps)
  set-Keeps owner space owned apps h = (
    ground (arith, h, get-set space owner owned apps),
    runtimes_under-set (board_space owner "") space owned apps (ground (arith, h)),
  )

  delete-Keeps :
      (owner space : String) (apps : Spaces Runtime)
      → is_of owner space ≡ false
      → Keeps owner apps (delete space apps)
  delete-Keeps owner space apps h = (
    ground (arith, h, get-delete space owner apps),
    runtimes_under-delete (board_space owner "") space apps (ground (arith, h)),
  )

  put_back-Keeps :
      (owner space : String) (owned : OrderedMap String Runtime) (apps : Spaces Runtime)
      → is_of owner space ≡ false
      → Keeps owner apps (put_back space owned apps)
  unfolding put_back
  put_back-Keeps owner space [] apps h = delete-Keeps owner space apps h
  put_back-Keeps owner space (entry ∷ owned) apps h = set-Keeps owner space (entry ∷ owned) apps h

  step-Keeps :
      (owner : String) (call : Call Runtime) (apps : Spaces Runtime)
      → is_of owner (space_of call) ≡ false
      → Keeps owner apps (step call apps)
  unfolding step create_runtime remove_runtime remove_all_runtimes
  step-Keeps owner (creates space id none) apps h = elim (Bool-cases (has space apps)) [
    | inl there ↦ rw there (refl, refl)
    | inr new ↦ rw new (set-Keeps owner space [] apps h)
  ]
  step-Keeps owner (creates space id (some runtime)) apps h =
      set-Keeps owner space (set id runtime (owner_runtimes space apps)) apps h
  step-Keeps owner (removes space id) apps h = elim (Option-cases (get space apps)) [
    | inl none_there ↦ rw (none_there, step, remove_runtime) (refl, refl)
    | inr (owned, there) ↦
        rw (there, step, remove_runtime) (put_back-Keeps owner space (delete id owned) apps h)
  ]
  step-Keeps owner (clears space) apps h = elim (Option-cases (get space apps)) [
    | inl none_there ↦ rw (none_there, step, remove_all_runtimes) (refl, refl)
    | inr (owned, there) ↦ rw (there, step, remove_all_runtimes) (delete-Keeps owner space apps h)
  ]

  run_calls-Keeps :
      (owner : String) (calls : List (Call Runtime)) (apps : Spaces Runtime)
      → All (λ call. is_of owner (space_of call) ≡ false) calls
      → Keeps owner apps (run_calls calls apps)
  unfolding run_calls
  run_calls-Keeps owner [] apps h = (refl, refl)
  run_calls-Keeps owner (call ∷ calls) apps h =
      let here = step-Keeps owner call apps h.0 in
      let later = run_calls-Keeps owner calls (step call apps) h.1 in
      (later.0 ∙ here.0, later.1 ∙ here.1)

  -- Tenants are isolated: whatever is created, removed or cleared in the spaces of others, an owner
  -- finds the same runtimes under the same ids, on boards too, and counts as many.
  pub count_runtimes-run_calls :
      (owner id : String) (calls : List (Call Runtime)) (apps : Spaces Runtime)
      → All (λ call. is_of owner (space_of call) ≡ false) calls
      → (get_runtime owner id (run_calls calls apps) ≡ get_runtime owner id apps)
        × (get_runtimes owner (run_calls calls apps) ≡ get_runtimes owner apps)
        × (get_board_runtimes owner (run_calls calls apps) ≡ get_board_runtimes owner apps)
        × (count_runtimes owner (run_calls calls apps) ≡ count_runtimes owner apps)
  unfolding get_runtime get_runtimes get_board_runtimes count_runtimes
  count_runtimes-run_calls owner id calls apps h =
      let kept = run_calls-Keeps owner calls apps h in
      let own =
        ap (λ o. elim o as (λ x. List Runtime) [ none ↦ [] | some owned ↦ values owned ]) kept.0 in
      (
        ap (λ o. elim o as (λ x. Option Runtime) [ none ↦ none | some owned ↦ get id owned ])
            kept.0,
        own,
        kept.1,
        omega (arith, ap length own, ap length kept.1),
      )
