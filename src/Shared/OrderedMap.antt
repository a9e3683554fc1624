-- ===== src/Shared/OrderedMap.antt =====
-- The `Map` of JavaScript: its entries in the order in which their keys were first set. `set` on a
-- present key replaces the value in place; `delete` takes the entry out.
use Prim.Native.Nat.{suc, ◌≤◌}
use mathlib.Core.Path.{◌≡◌, refl, ap, subst}
use mathlib.Core.Logic.{◌≢◌, inl, inr}
use mathlib.Core.Bool.{Bool, true, false}
use mathlib.Core.List.{List, [], ◌∷◌, ◌++◌}
use mathlib.Core.Option.{Option, none, some}
use native.Mathlib.Omega.{arith}
use hkp_node.Shared.Tests.{Key, ◌==◌, if◌then◌else◌, Bool-cases, is_some}
use hkp_node.Shared.Lists.{length, All}

abbrev pub OrderedMap {ℓ κ} : Type ℓ → Type κ → Type (ℓ ⊔ κ)
OrderedMap K V = List (K × V)

module _ {ℓ κ} {K : Type ℓ} {V : Type κ} where
  -- No key stands in two entries.
  abbrev pub Absent : K → OrderedMap K V → Type ℓ
  Absent k = All (λ e. e.0 ≢ k)

  abbrev pub Distinct : OrderedMap K V → Type ℓ
  Distinct [] = Unit
  Distinct (e ∷ m) = Absent e.0 m × Distinct m

  abbrev pub values : OrderedMap K V → List V
  values [] = []
  values ((_, v) ∷ m) = v ∷ values m

  abbrev pub keys : OrderedMap K V → List K
  keys [] = []
  keys ((k, _) ∷ m) = k ∷ keys m

module _ {ℓ κ} {K : Type ℓ} {V : Type κ} ⦃e : Key K⦄ where
  unfoldable pub get : K → OrderedMap K V → Option V
  get k [] = none
  get k ((j, v) ∷ m) = if j == k then some v else get k m

  unfoldable pub has : K → OrderedMap K V → Bool
  has k [] = false
  has k ((j, v) ∷ m) = if j == k then true else has k m

  unfoldable pub set : K → V → OrderedMap K V → OrderedMap K V
  set k v [] = (k, v) ∷ []
  set k v ((j, w) ∷ m) = if j == k then (j, v) ∷ m else (j, w) ∷ set k v m

  unfoldable pub delete : K → OrderedMap K V → OrderedMap K V
  delete k [] = []
  delete k ((j, w) ∷ m) = if j == k then delete k m else (j, w) ∷ delete k m

  pub get-set :
      (k j : K) (v : V) (m : OrderedMap K V)
      → get j (set k v m) ≡ (if k == j then some v else get j m)
  unfolding get set
  get-set k j v [] = refl
  get-set k j v ((i, w) ∷ m) =
      ground (arith, e.same_iff k j, e.same_iff i k, e.same_iff i j, get-set k j v m)

  pub has-set :
      (k j : K) (v : V) (m : OrderedMap K V)
      → has j (set k v m) ≡ (if k == j then true else has j m)
  unfolding has set
  has-set k j v [] = refl
  has-set k j v ((i, w) ∷ m) =
      ground (arith, e.same_iff k j, e.same_iff i k, e.same_iff i j, has-set k j v m)

  pub get-delete :
      (k j : K) (m : OrderedMap K V) → get j (delete k m) ≡ (if k == j then none else get j m)
  unfolding get delete
  get-delete k j [] = ground arith
  get-delete k j ((i, w) ∷ m) =
      ground (arith, e.same_iff k j, e.same_iff i k, e.same_iff i j, get-delete k j m)

  pub has-delete :
      (k j : K) (m : OrderedMap K V) → has j (delete k m) ≡ (if k == j then false else has j m)
  unfolding has delete
  has-delete k j [] = ground arith
  has-delete k j ((i, w) ∷ m) =
      ground (arith, e.same_iff k j, e.same_iff i k, e.same_iff i j, has-delete k j m)

  pub has-get : (k : K) (m : OrderedMap K V) → has k m ≡ is_some (get k m)
  unfolding has get
  has-get k [] = refl
  has-get k ((i, w) ∷ m) = ground (arith, has-get k m)

  pub has_eq_false_of_get : (k : K) (m : OrderedMap K V) → get k m ≡ none → has k m ≡ false
  unfolding get has
  has_eq_false_of_get k [] h = refl
  has_eq_false_of_get k ((i, w) ∷ m) h = ground (arith, has_eq_false_of_get k m)

  pub has_of_get : (k : K) (v : V) (m : OrderedMap K V) → get k m ≡ some v → has k m ≡ true
  unfolding get has
  has_of_get k v [] h = cc
  has_of_get k v ((i, w) ∷ m) h = ground (arith, has_of_get k v m)

  pub get_of_Absent : (k : K) (m : OrderedMap K V) → Absent k m → get k m ≡ none
  unfolding get
  get_of_Absent k [] h = refl
  get_of_Absent k ((i, w) ∷ m) h = ground (arith, e.same_iff i k, get_of_Absent k m h.1)

  pub Absent-of_has : (k : K) (m : OrderedMap K V) → has k m ≡ false → Absent k m
  unfolding has
  Absent-of_has k [] h = tt
  Absent-of_has k ((i, w) ∷ m) h = ground (arith, e.same_iff i k, Absent-of_has k m)

  -- The size after a write and after a deletion.
  pub length-set :
      (k : K) (v : V) (m : OrderedMap K V)
      → length (set k v m) ≡ (if has k m then length m else suc (length m))
  unfolding has set
  length-set k v [] = refl
  length-set k v ((i, w) ∷ m) = ground (arith, length-set k v m)

  pub length-delete-le : (k : K) (m : OrderedMap K V) → length (delete k m) ≤ length m
  unfolding delete
  length-delete-le k [] = omega arith
  length-delete-le k ((i, w) ∷ m) = ground (arith, length-delete-le k m)

  pub length-delete_lt :
      (k : K) (m : OrderedMap K V) → has k m ≡ true → suc (length (delete k m)) ≤ length m
  unfolding has delete
  length-delete_lt k [] h = cc
  length-delete_lt k ((i, w) ∷ m) h = ground (arith, length-delete_lt k m, length-delete-le k m)

  pub delete-set_self : (k : K) (v : V) (m : OrderedMap K V) → delete k (set k v m) ≡ delete k m
  unfolding delete set
  delete-set_self k v [] = ground (arith, e.same_iff k k)
  delete-set_self k v ((i, w) ∷ m) = ground (arith, delete-set_self k v m)

  pub delete_of_Absent : (k : K) (m : OrderedMap K V) → Absent k m → delete k m ≡ m
  unfolding delete
  delete_of_Absent k [] h = refl
  delete_of_Absent k ((i, w) ∷ m) h = ground (arith, e.same_iff i k, delete_of_Absent k m h.1)

  -- A key stands in one entry at most, so a deletion takes one out at most.
  pub length-le-delete :
      (k : K) (m : OrderedMap K V) → Distinct m → length m ≤ suc (length (delete k m))
  unfolding delete
  length-le-delete k [] d = omega arith
  length-le-delete k ((i, w) ∷ m) d = elim (Bool-cases (i == k)) [
    | inl same ↦ rw same (
        omega (
          arith,
          ap length (delete_of_Absent k m (subst (λ j. Absent j m) ((e.same_iff i k).0 same) d.0)),
        ))
    | inr other ↦ rw other (omega (arith, length-le-delete k m d.1))
  ]

  -- A predicate of the entries.
  pub All-set {μ} :
      (P : K × V → Type μ) (k : K) (v : V) (m : OrderedMap K V)
      → P (k, v)
      → All P m
      → All P (set k v m)
  unfolding set
  All-set P k v [] p h = (p, tt)
  All-set P k v ((i, w) ∷ m) p h = elim (Bool-cases (i == k)) [
    | inl same ↦ rw (same, (e.same_iff i k).0 same) (p, h.1)
    | inr other ↦ rw other (h.0, All-set P k v m p h.1)
  ]

  pub All-delete {μ} :
      (P : K × V → Type μ) (k : K) (m : OrderedMap K V) → All P m → All P (delete k m)
  unfolding delete
  All-delete P k [] h = tt
  All-delete P k ((i, w) ∷ m) h = ground (arith, All-delete P k m h.1)

  pub All-get {μ} :
      (P : K × V → Type μ) (k : K) (v : V) (m : OrderedMap K V)
      → get k m ≡ some v
      → All P m
      → P (k, v)
  unfolding get
  All-get P k v [] q h = absurd (cc)
  All-get P k v ((i, w) ∷ m) q h = elim (Bool-cases (i == k)) [
    | inl same ↦ let vw : w ≡ v = ground arith in rw (← vw, ← (e.same_iff i k).0 same) h.0
    | inr other ↦ All-get P k v m (ground arith) h.1
  ]

  pub set-Absent :
      (k j : K) (v : V) (m : OrderedMap K V) → k ≢ j → Absent j m → Absent j (set k v m)
  set-Absent k j v m ne h = All-set (λ e. e.0 ≢ j) k v m ne h

  pub set-Distinct : (k : K) (v : V) (m : OrderedMap K V) → Distinct m → Distinct (set k v m)
  unfolding set
  set-Distinct k v [] d = (tt, tt)
  set-Distinct k v ((i, w) ∷ m) d = elim (Bool-cases (i == k)) [
    | inl same ↦ rw same d
    | inr other ↦
        rw other
          (set-Absent k i v m (λ p. ground (arith, e.same_iff i k)) d.0, set-Distinct k v m d.1)
  ]

  pub delete-Distinct : (k : K) (m : OrderedMap K V) → Distinct m → Distinct (delete k m)
  unfolding delete
  delete-Distinct k [] d = tt
  delete-Distinct k ((i, w) ∷ m) d =
      ground (arith, All-delete (λ (f : K × V). f.0 ≢ i) k m d.0, delete-Distinct k m d.1)

  -- A key that is not there is appended.
  pub set_of_Absent :
      (k : K) (v : V) (m : OrderedMap K V) → has k m ≡ false → set k v m ≡ m ++ (k, v) ∷ []
  unfolding has set
  set_of_Absent k v [] h = refl
  set_of_Absent k v ((i, w) ∷ m) h = ground (arith, set_of_Absent k v m)
