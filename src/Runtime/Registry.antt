-- ===== src/Runtime/Registry.antt =====
-- runtime.ts, RuntimeApp: the runtimes of a server by space and id. What a runtime is comes from the
-- host; `destroy` is called on the runtimes that an operation returns for it.
pub mod Isolation
pub mod Spaces
use Prim.Native.String
use text.Mathlib.Text.{starts_with}
use hkp_node.Shared.{
  ℕ, ◌+◌, String, Bool, true, false, ◌&&◌, List, [], ◌∷◌, ◌++◌, Option, none, some, length,
  if◌then◌else◌, string_eq, ◌==◌, or_else, map, is_some, keep,
}
use hkp_node.Shared.OrderedMap.{OrderedMap, get, has, set, delete, values}

-- `boardSpace`: an owner and a board with a NUL between them.
unfoldable pub board_space : String → String → String
board_space owner board_name = String.◌++◌ owner (String.◌++◌ "\0" board_name)

abbrev pub Spaces {ℓ} : Type ℓ → Type ℓ
Spaces Runtime = OrderedMap String (OrderedMap String Runtime)

module _ {ℓ} {Runtime : Type ℓ} where
  -- What `ownerRuntimes` answers.
  unfoldable pub owner_runtimes : String → Spaces Runtime → OrderedMap String Runtime
  owner_runtimes space apps = or_else (get space apps) []

  abbrev pub one : Option Runtime → List Runtime
  one none = []
  one (some runtime) = runtime ∷ []

  -- `createRuntime`: `made` is the new runtime, or `none` where its constructor throws, which it does
  -- at a service that nobody registered. The runtimes destroyed come second.
  unfoldable pub create_runtime :
      String
      → String
      → Option Runtime
      → Spaces Runtime
      → Spaces Runtime × List Runtime × Option Runtime
  unfolding owner_runtimes
  create_runtime space id none apps = (
    if has space apps then apps else set space [] apps,
    one (get id (owner_runtimes space apps)),
    none,
  )
  create_runtime space id (some runtime) apps = (
    set space (set id runtime (owner_runtimes space apps)) apps,
    one (get id (owner_runtimes space apps)),
    some runtime,
  )

  unfoldable pub get_runtime : String → String → Spaces Runtime → Option Runtime
  get_runtime space id apps = elim (get space apps) [ none ↦ none | some owned ↦ get id owned ]

  unfoldable pub get_runtimes : String → Spaces Runtime → List Runtime
  get_runtimes space apps = elim (get space apps) [ none ↦ [] | some owned ↦ values owned ]

  -- `getBoardRuntimes`
  unfoldable pub runtimes_under : String → Spaces Runtime → List Runtime
  runtimes_under boards [] = []
  runtimes_under boards ((space, owned) ∷ apps) =
      let rest = runtimes_under boards apps in
      if starts_with space boards then values owned ++ rest else rest

  unfoldable pub get_board_runtimes : String → Spaces Runtime → List Runtime
  unfolding runtimes_under board_space
  get_board_runtimes owner apps = runtimes_under (board_space owner "") apps

  unfoldable pub count_runtimes : String → Spaces Runtime → ℕ
  unfolding get_runtimes get_board_runtimes
  count_runtimes owner apps =
      length (get_runtimes owner apps) + length (get_board_runtimes owner apps)

  -- What is left of a space: one that holds nothing is dropped.
  unfoldable pub put_back : String → OrderedMap String Runtime → Spaces Runtime → Spaces Runtime
  put_back space [] apps = delete space apps
  put_back space (entry ∷ owned) apps = set space (entry ∷ owned) apps

  unfoldable pub remove_runtime :
      String → String → Spaces Runtime → Spaces Runtime × List Runtime × Bool
  unfolding put_back
  remove_runtime space id apps = elim (get space apps) [
    | none ↦ (apps, [], false)
    | some owned ↦ (put_back space (delete id owned) apps, one (get id owned), has id owned)
  ]

  unfoldable pub remove_all_runtimes : String → Spaces Runtime → Spaces Runtime × List Runtime
  remove_all_runtimes owner apps = elim (get owner apps) [
    | none ↦ (apps, [])
    | some owned ↦ (delete owner apps, values owned)
  ]
