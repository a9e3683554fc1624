-- ===== src/Shared/Tables.antt =====
-- A table of a database as the list of its rows, and the SQL statements that the code makes.
use Prim.Native.Nat.{ℕ, zero, suc, ◌+◌, ◌≤◌}
use mathlib.Core.Path.{◌≡◌, refl, ap, subst, ◌∙◌}
use mathlib.Core.Logic.{inl, inr, ◌⊎◌}
use mathlib.Core.Bool.{Bool, true, false, ◌&&◌}
use mathlib.Core.Option.{Option, none, some}
use mathlib.Core.List.{List, [], ◌∷◌, ◌++◌}
use native.Mathlib.Omega.{arith}
use Prim.Native.String.{String}
use text.Mathlib.TextEquality.{eq_iff}
use hkp_node.Shared.Tests.{◌==◌, string_eq, if◌then◌else◌, is_some, Bool-cases}
use hkp_node.Shared.Lists.{All, keep, any, length, take, drop}

module _ {ℓ} {A : Type ℓ} where
  -- `SELECT … WHERE …`, its first row.
  unfoldable pub select : (A → Bool) → List A → Option A
  select p [] = none
  select p (row ∷ t) = let rest = select p t in if p row then some row else rest

  -- `UPDATE … SET … WHERE …`
  unfoldable pub update : (A → Bool) → (A → A) → List A → List A
  update p f [] = []
  update p f (row ∷ t) = (if p row then f row else row) ∷ update p f t

  -- The `changes` that an update reports.
  unfoldable pub changes : (A → Bool) → List A → ℕ
  changes p [] = 0
  changes p (row ∷ t) = (if p row then 1 else 0) + changes p t

  -- `ORDER BY …`, by insertion.
  unfoldable pub insert_sorted : (A → A → Bool) → A → List A → List A
  insert_sorted before row [] = row ∷ []
  insert_sorted before row (r ∷ t) =
      let rest = insert_sorted before row t in if before r row then r ∷ rest else row ∷ r ∷ t

  unfoldable pub order_by : (A → A → Bool) → List A → List A
  unfolding insert_sorted
  order_by before [] = []
  order_by before (row ∷ t) = insert_sorted before row (order_by before t)

  pub select-append :
      (p : A → Bool) (row : A) (t : List A)
      → select p (t ++ row ∷ [])
        ≡ (if any p t then select p t else if p row then some row else none)
  unfolding select
  select-append p row [] = refl
  select-append p row (r ∷ t) = ground (arith, select-append p row t)

  pub is_some-select : (p : A → Bool) (t : List A) → is_some (select p t) ≡ any p t
  unfolding select
  is_some-select p [] = refl
  is_some-select p (r ∷ t) = ground (arith, is_some-select p t)

  pub any-append :
      (p : A → Bool) (row : A) (t : List A)
      → any p (t ++ row ∷ []) ≡ (if any p t then true else p row)
  any-append p row [] = ground arith
  any-append p row (r ∷ t) = ground (arith, any-append p row t)

  -- An update that keeps what a test reads keeps the test.
  pub any-update :
      (p q : A → Bool) (f : A → A) (t : List A)
      → ((r : A) → p (f r) ≡ p r)
      → any p (update q f t) ≡ any p t
  unfolding update
  any-update p q f [] h = refl
  any-update p q f (r ∷ t) h = ground (arith, h r, any-update p q f t h)

  pub All-update {κ} :
      (P : A → Type κ) (p : A → Bool) (f : A → A) (t : List A)
      → ((r : A) → P r → p r ≡ true → P (f r))
      → All P t
      → All P (update p f t)
  unfolding update
  All-update P p f [] h k = tt
  All-update P p f (r ∷ t) h k = elim (Bool-cases (p r)) [
    | inl e ↦ (rw e (h r (k.0) e), All-update P p f t h (k.1))
    | inr e ↦ (rw e (k.0), All-update P p f t h (k.1))
  ]

  pub All-insert_sorted {κ} :
      (P : A → Type κ) (before : A → A → Bool) (row : A) (t : List A)
      → P row
      → All P t
      → All P (insert_sorted before row t)
  unfolding insert_sorted
  All-insert_sorted P before row [] h k = (h, tt)
  All-insert_sorted P before row (r ∷ t) h k = elim (Bool-cases (before r row)) [
    | inl e ↦ rw e (k.0, All-insert_sorted P before row t h (k.1))
    | inr e ↦ rw e (h, k)
  ]

  pub All-order_by {κ} :
      (P : A → Type κ) (before : A → A → Bool) (t : List A) → All P t → All P (order_by before t)
  unfolding order_by
  All-order_by P before [] h = tt
  All-order_by P before (r ∷ t) h =
      All-insert_sorted P before r (order_by before t) (h.0) (All-order_by P before t (h.1))

  pub All-take {κ} : (P : A → Type κ) (n : ℕ) (t : List A) → All P t → All P (take n t)
  All-take P zero t h = tt
  All-take P (suc n) [] h = tt
  All-take P (suc n) (r ∷ t) h = (h.0, All-take P n t (h.1))

  pub length-take-le : (n : ℕ) (t : List A) → length (take n t) ≤ n
  length-take-le zero t = omega arith
  length-take-le (suc n) [] = omega arith
  length-take-le (suc n) (r ∷ t) = omega (arith, length-take-le n t)

  pub All-select {κ} :
      (P : A → Type κ) (p : A → Bool) (row : A) (t : List A)
      → select p t ≡ some row
      → All P t
      → P row
  unfolding select
  All-select P p row [] e h = ground (arith, e)
  All-select P p row (r ∷ t) e h = elim (Bool-cases (p r)) [
    | inl met ↦ let same : r ≡ row = ground (arith, met, e) in rw (← same) (h.0)
    | inr unmet ↦ All-select P p row t (ground (arith, unmet, e)) (h.1)
  ]

  -- Rows that `WHERE` keeps meet its condition.
  pub keep-All : (p : A → Bool) (t : List A) → All (λ r. p r ≡ true) (keep p t)
  keep-All p [] = tt
  keep-All p (r ∷ t) = elim (Bool-cases (p r)) [
    | inl e ↦ rw e (e, keep-All p t)
    | inr e ↦ rw e (keep-All p t)
  ]

-- A column whose texts are all different, as a primary key is.
module _ {ℓ} {A : Type ℓ} (column : A → String) where
  abbrev pub Unique : List A → Type 0
  Unique [] = Unit
  Unique (row ∷ t) = (any (λ r. column r == column row) t ≡ false) × Unique t

  pub Unique-append :
      (row : A) (t : List A)
      → any (λ r. column r == column row) t ≡ false
      → Unique t
      → Unique (t ++ row ∷ [])
  Unique-append row [] h u = (refl, tt)
  Unique-append row (r ∷ t) h u = (
    ground (
      arith,
      any-append (λ q. column q == column r) row t,
      eq_iff (column r) (column row),
      eq_iff (column row) (column r),
      h,
      u.0,
    ),
    Unique-append row t (ground (arith, h)) u.1,
  )

  pub Unique-update :
      (p : A → Bool) (f : A → A) (t : List A)
      → ((r : A) → column (f r) ≡ column r)
      → Unique t
      → Unique (update p f t)
  unfolding update
  Unique-update p f [] h u = tt
  Unique-update p f (r ∷ t) h u =
      let same : column (if p r then f r else r) ≡ column r = ground (arith, h r) in
      let rest : any (λ q. column q == column r) (update p f t)
          ≡ any (λ q. column q == column r) t =
        any-update (λ q. column q == column r) p f t (λ q. rw (h q) refl) in
      (rw same (ground (arith, rest, u.0)), Unique-update p f t h u.1)

module _ {ℓ} {A : Type ℓ} where
  count-insert_sorted :
      (q : A → Bool) (before : A → A → Bool) (row : A) (t : List A)
      → length (keep q (insert_sorted before row t)) ≡ length (keep q (row ∷ t))
  unfolding insert_sorted
  count-insert_sorted q before row [] = refl
  count-insert_sorted q before row (r ∷ t) = ground (arith, count-insert_sorted q before row t)

  -- Sorting keeps the rows, each as often.
  pub count-order_by :
      (q : A → Bool) (before : A → A → Bool) (t : List A)
      → length (keep q (order_by before t)) ≡ length (keep q t)
  unfolding order_by
  count-order_by q before [] = refl
  count-order_by q before (r ∷ t) =
      count-insert_sorted q before r (order_by before t) ∙ ground (arith, count-order_by q before t)

  pub take-append-drop : (n : ℕ) (t : List A) → take n t ++ drop n t ≡ t
  take-append-drop zero t = refl
  take-append-drop (suc n) [] = refl
  take-append-drop (suc n) (r ∷ t) = ap (◌∷◌ r) (take-append-drop n t)

  -- What a limit takes is as long as it says, unless it leaves nothing.
  pub length-take-or : (n : ℕ) (t : List A) → (length (take n t) ≡ n) ⊎ (drop n t ≡ [])
  length-take-or zero t = inl refl
  length-take-or (suc n) [] = inr refl
  length-take-or (suc n) (r ∷ t) = ground (arith, length-take-or n t)

  -- Two conditions are one that holds where both do.
  pub count-keep :
      (p q : A → Bool) (t : List A) → length (keep q (keep p t)) ≡ length (keep (λ r. p r && q r) t)
  count-keep p q [] = refl
  count-keep p q (r ∷ t) = ground (arith, count-keep p q t)

  -- Conditions that agree on every row keep the same rows.
  pub keep-agree : (p q : A → Bool) (t : List A) → ((r : A) → p r ≡ q r) → keep p t ≡ keep q t
  keep-agree p q [] same = refl
  keep-agree p q (r ∷ t) same = ground (arith, same r, keep-agree p q t same)

  -- `ORDER BY` leaves no row right behind one that it comes before, where the order never holds both
  -- ways.
  abbrev pub IsOrdered : (A → A → Bool) → List A → Type 0
  IsOrdered before [] = Unit
  IsOrdered before (r ∷ []) = Unit
  IsOrdered before (r ∷ q ∷ t) = (before q r ≡ false) × IsOrdered before (q ∷ t)

  insert_sorted-IsOrdered :
      (before : A → A → Bool) (row : A) (t : List A)
      → ((a b : A) → before a b ≡ true → before b a ≡ false)
      → IsOrdered before t
      → IsOrdered before (insert_sorted before row t)
  unfolding insert_sorted
  insert_sorted-IsOrdered before row [] asym h = tt
  insert_sorted-IsOrdered before row (r ∷ []) asym h = elim (Bool-cases (before r row)) [
    | inl e ↦ rw e (asym r row e, tt)
    | inr e ↦ rw e (e, tt)
  ]
  insert_sorted-IsOrdered before row (r ∷ q ∷ t) asym h =
      let rest = insert_sorted-IsOrdered before row (q ∷ t) asym (h.1) in
      elim (Bool-cases (before r row)) [
        | inr e ↦ rw e (e, h)
        | inl e ↦ rw e (elim (Bool-cases (before q row)) [
          | inl e' ↦ rw e' (
            h.0,
            subst
                (λ b. IsOrdered before (if b then q ∷ insert_sorted before row t else row ∷ q ∷ t))
                e' rest,
          )
          | inr e' ↦ rw e' (asym r row e, (e', h.1))
        ])
      ]

  pub order_by-IsOrdered :
      (before : A → A → Bool) (t : List A)
      → ((a b : A) → before a b ≡ true → before b a ≡ false)
      → IsOrdered before (order_by before t)
  unfolding order_by
  order_by-IsOrdered before [] asym = tt
  order_by-IsOrdered before (r ∷ t) asym =
      insert_sorted-IsOrdered before r (order_by before t) asym (order_by-IsOrdered before t asym)
