-- ===== src/Services/Queue/Versions.antt =====
-- `attempts` as a row's version: whatever statements run, and in whatever order the processes that
-- share the file run them, one attempt of a message is claimed once.
use hkp_node.Shared.{
  ℕ, ◌+◌, ◌≤◌, ◌≡◌, ◌≢◌, refl, inl, inr, String, Bool, true, false, ◌&&◌, List, [], ◌∷◌, ◌++◌,
  Option, arith, eq_iff, ltb, any, if◌then◌else◌, string_eq, nat_eq, ◌==◌, Option-cases, ◌⊎◌,
}
use native.Mathlib.Nat.{le_refl}
use hkp_node.Services.Queue.Rows.{Status, Message, Table, find, insert_new, update_where, changes}
use hkp_node.Services.Queue.{Host, Outcome, close, set_closed, bury, may_claim, claim}

-- No two rows have one id, which the primary key keeps.
abbrev pub has_id : String → Table → Bool
has_id id = any (λ r. r.id == id)

abbrev pub Unique : Table → Type 0
Unique [] = Unit
Unique (row ∷ t) = (has_id row.id t ≡ false) × Unique t

-- Some row of the id is past its attempt `n`.
abbrev pub is_spent : String → ℕ → Table → Bool
is_spent id n = any (λ r. r.id == id && ltb n r.attempts)

-- An update that keeps ids keeps them unique.
pub has_id-update_where :
    (id : String) (p : Message → Bool) (f : Message → Message) (t : Table)
    → ((r : Message) → (f r).id ≡ r.id)
    → has_id id (update_where p f t) ≡ has_id id t
unfolding update_where
has_id-update_where id p f [] h = refl
has_id-update_where id p f (r ∷ t) h = ground (arith, h r, has_id-update_where id p f t h)

pub update_where-Unique :
    (p : Message → Bool) (f : Message → Message) (t : Table)
    → ((r : Message) → (f r).id ≡ r.id)
    → Unique t
    → Unique (update_where p f t)
unfolding update_where
update_where-Unique p f [] h u = tt
update_where-Unique p f (r ∷ t) h u =
    let ids = has_id-update_where r.id p f t h in
    ground (arith, h r, ids, update_where-Unique p f t h u.1)

has_id-append :
    (id : String) (row : Message) (t : Table)
    → has_id id (t ++ row ∷ []) ≡ (if has_id id t then true else row.id == id)
has_id-append id row [] = ground arith
has_id-append id row (r ∷ t) = ground (arith, has_id-append id row t)

append-Unique :
    (row : Message) (t : Table) → has_id row.id t ≡ false → Unique t → Unique (t ++ row ∷ [])
append-Unique row [] h u = (refl, tt)
append-Unique row (r ∷ t) h u =
    ground
      (arith, has_id-append r.id row t, eq_iff row.id r.id, eq_iff r.id row.id, append-Unique row t)

pub insert_new-Unique : (row : Message) (t : Table) → Unique t → Unique (insert_new row t)
unfolding insert_new
insert_new-Unique row t u = ground (arith, append-Unique row t)

-- Rows stay and their attempts do not fall.
spent-update_where :
    (id : String) (n : ℕ) (p : Message → Bool) (f : Message → Message) (t : Table)
    → ((r : Message) → (f r).id ≡ r.id)
    → ((r : Message) → p r ≡ true → r.attempts ≤ (f r).attempts)
    → is_spent id n t ≡ true
    → is_spent id n (update_where p f t) ≡ true
unfolding update_where
spent-update_where id n p f [] h k s = s
spent-update_where id n p f (r ∷ t) h k s =
    ground (arith, h r, k r, spent-update_where id n p f t h k)

spent-append :
    (id : String) (n : ℕ) (row : Message) (t : Table)
    → is_spent id n t ≡ true
    → is_spent id n (t ++ row ∷ []) ≡ true
spent-append id n row [] s = cc
spent-append id n row (r ∷ t) s = ground (arith, spent-append id n row t)

spent-insert_new :
    (id : String) (n : ℕ) (row : Message) (t : Table)
    → is_spent id n t ≡ true
    → is_spent id n (insert_new row t) ≡ true
unfolding insert_new
spent-insert_new id n row t s = ground (arith, spent-append id n row t)

spent-has_id : (id : String) (n : ℕ) (t : Table) → is_spent id n t ≡ true → has_id id t ≡ true
spent-has_id id n [] h = h
spent-has_id id n (r ∷ t) h = ground (arith, spent-has_id id n t)

-- The rows that a claim changes.
pub changes_of_absent :
    (now : ℕ) (row : Message) (t : Table)
    → has_id row.id t ≡ false
    → changes (may_claim now row) t ≡ 0
unfolding changes
changes_of_absent now row [] h = refl
changes_of_absent now row (r ∷ t) h = ground (arith, changes_of_absent now row t)

pub changes-le-one :
    (now : ℕ) (row : Message) (t : Table) → Unique t → changes (may_claim now row) t ≤ 1
unfolding changes
changes-le-one now row [] u = omega arith
changes-le-one now row (r ∷ t) u =
    ground (arith, eq_iff r.id row.id, changes_of_absent now row t, changes-le-one now row t u.1)

pub changes_of_spent :
    (now : ℕ) (row : Message) (t : Table)
    → Unique t
    → is_spent row.id row.attempts t ≡ true
    → changes (may_claim now row) t ≡ 0
unfolding changes
changes_of_spent now row [] u s = refl
changes_of_spent now row (r ∷ t) u s = ground (
  arith,
  eq_iff r.id row.id,
  changes_of_absent now row t,
  changes_of_spent now row t u.1,
  spent-has_id row.id row.attempts t,
)

-- The row that a claim changed is past the attempt that it was claimed at.
pub spent-claim :
    (now visibility : ℕ) (row : Message) (t : Table)
    → changes (may_claim now row) t ≢ 0
    → is_spent row.id row.attempts (claim now visibility row t).0 ≡ true
unfolding claim changes
spent-claim now visibility row [] h = absurd (h refl)
spent-claim now visibility row (r ∷ t) h = ground (arith, spent-claim now visibility row t)

-- The statements that write, as processes sharing the database may interleave them; `sets` is the
-- `UPDATE` of a close alone, with whatever status its `SELECT` led to.
pub data Statement : Type 0 where
  inserts : Message → Statement
  buries : ℕ → ℕ → Message → Statement
  claims : ℕ → ℕ → Message → Statement
  closes : String → Outcome → Option String → Option ℕ → ℕ → Statement
  sets : String → Status → String → ℕ → Statement

module _ (host : Host) where
  unfoldable pub exec : Statement → Table → Table
  unfolding bury claim close set_closed insert_new
  exec (inserts row) t = insert_new row t
  exec (buries now max_attempts row) t = bury host now max_attempts row t
  exec (claims now visibility row) t = (claim now visibility row t).0
  exec (closes id outcome error max_attempts now) t = (close id outcome error max_attempts now t).0
  exec (sets id status error now) t = set_closed id status error now t

  -- How many rows a statement hands out as attempt `n` of `id`.
  unfoldable pub handed_out : String → ℕ → Statement → Table → ℕ
  unfolding claim
  handed_out id n (claims now visibility row) t =
      if row.id == id && row.attempts == n then (claim now visibility row t).1 else 0
  handed_out id n (inserts row) t = 0
  handed_out id n (buries now max_attempts row) t = 0
  handed_out id n (closes i outcome error max_attempts now) t = 0
  handed_out id n (sets i status error now) t = 0

  unfoldable pub total_handed_out : String → ℕ → List Statement → Table → ℕ
  unfolding handed_out exec
  total_handed_out id n [] t = 0
  total_handed_out id n (s ∷ ss) t = handed_out id n s t + total_handed_out id n ss (exec s t)

  pub exec-Unique : (s : Statement) (t : Table) → Unique t → Unique (exec s t)
  unfolding exec bury claim close set_closed
  exec-Unique (inserts row) t u = insert_new-Unique row t u
  exec-Unique (buries now max_attempts row) t u = update_where-Unique _ _ t (λ r. refl) u
  exec-Unique (claims now visibility row) t u = update_where-Unique _ _ t (λ r. refl) u
  exec-Unique (closes id outcome error max_attempts now) t u = elim (Option-cases (find id t)) [
    | inl missing ↦ rw (missing, exec, close) u
    | inr (row, found) ↦ rw (found, exec, close) (update_where-Unique _ _ t (λ r. refl) u)
  ]
  exec-Unique (sets id status error now) t u = update_where-Unique _ _ t (λ r. refl) u

  unfoldable pub exec_all : List Statement → Table → Table
  unfolding exec
  exec_all [] t = t
  exec_all (s ∷ ss) t = exec_all ss (exec s t)

  pub exec_all-Unique : (ss : List Statement) (t : Table) → Unique t → Unique (exec_all ss t)
  unfolding exec_all
  exec_all-Unique [] t u = u
  exec_all-Unique (s ∷ ss) t u = exec_all-Unique ss (exec s t) (exec-Unique s t u)

  pub exec-spent :
      (id : String) (n : ℕ) (s : Statement) (t : Table)
      → is_spent id n t ≡ true
      → is_spent id n (exec s t) ≡ true
  unfolding exec bury claim close set_closed
  exec-spent id n (inserts row) t h = spent-insert_new id n row t h
  exec-spent id n (buries now max_attempts row) t h =
      spent-update_where id n _ _ t (λ r. refl) (λ r e. le_refl r.attempts) h
  exec-spent id n (claims now visibility row) t h =
      spent-update_where id n _ _ t (λ r. refl) (λ r e. ground arith) h
  exec-spent id n (closes i outcome error max_attempts now) t h = elim (Option-cases (find i t)) [
    | inl missing ↦ rw (missing, exec, close) h
    | inr (row, found) ↦
        rw (found, exec, close)
          (spent-update_where id n _ _ t (λ r. refl) (λ r e. le_refl r.attempts) h)
  ]
  exec-spent id n (sets i status error now) t h =
      spent-update_where id n _ _ t (λ r. refl) (λ r e. le_refl r.attempts) h

  handed_out_of_spent :
      (id : String) (n : ℕ) (s : Statement) (t : Table)
      → Unique t
      → is_spent id n t ≡ true
      → handed_out id n s t ≡ 0
  unfolding handed_out claim
  handed_out_of_spent id n (claims now visibility row) t u h =
      ground (arith, eq_iff row.id id, changes_of_spent now row t u)
  handed_out_of_spent id n s t u h = refl

  total_of_spent :
      (id : String) (n : ℕ) (ss : List Statement) (t : Table)
      → Unique t
      → is_spent id n t ≡ true
      → total_handed_out id n ss t ≡ 0
  unfolding total_handed_out
  total_of_spent id n [] t u h = refl
  total_of_spent id n (s ∷ ss) t u h = omega (
    arith,
    handed_out_of_spent id n s t u h,
    total_of_spent id n ss (exec s t) (exec-Unique s t u) (exec-spent id n s t h),
  )

  -- What is handed out is one row, and it is past its attempt afterwards.
  handed_out-cases :
      (id : String) (n : ℕ) (s : Statement) (t : Table)
      → Unique t
      → (handed_out id n s t ≡ 0) ⊎ ((handed_out id n s t ≤ 1) × (is_spent id n (exec s t) ≡ true))
  unfolding handed_out exec claim
  handed_out-cases id n (claims now visibility row) t u =
      ground (arith, eq_iff row.id id, changes-le-one now row t u, spent-claim now visibility row t)
  handed_out-cases id n s t u = inl refl

  -- One attempt of a message is handed out once: however the statements of the processes that share
  -- a table are interleaved, the claims of one id at one count of attempts change at most one row in
  -- all, from a table whose ids are unique.
  pub total_handed_out-le-one :
      (id : String) (n : ℕ) (ss : List Statement) (t : Table)
      → Unique t
      → total_handed_out id n ss t ≤ 1
  unfolding total_handed_out
  total_handed_out-le-one id n [] t u = omega arith
  total_handed_out-le-one id n (s ∷ ss) t u = elim (handed_out-cases id n s t u) [
    | inl nothing ↦ omega (arith, total_handed_out-le-one id n ss (exec s t) (exec-Unique s t u))
    | inr (one, spent) ↦ omega (arith, total_of_spent id n ss (exec s t) (exec-Unique s t u) spent)
  ]
