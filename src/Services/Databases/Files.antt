-- ===== src/Services/Databases/Files.antt =====
-- services/database.ts: which databases of an owner are one file.
use hkp_node.Shared.{
  ◌≡◌, ◌≢◌, ◌⊎◌, inl, inr, sym, ap, subst, String, none, string_eq, arith, eq_iff,
}
use hkp_node.Services.Databases.{
  DatabaseKey, board_key, named_key, shared_key, check_database_name, all_name_chars, file_of,
}

-- The keys that a store opens: every board's, every owner's shared one, and the names that are allowed.
abbrev pub IsOpenable : (String → String) → DatabaseKey → Type 0
IsOpenable to_lower (board_key owner board) = Unit
IsOpenable to_lower (shared_key owner) = Unit
IsOpenable to_lower (named_key owner name) = check_database_name to_lower name ≡ none

-- A name that spells the hash of a board of the same owner.
abbrev pub IsShadow : (String → String) → DatabaseKey → DatabaseKey → Type 0
IsShadow hashed (board_key owner board) (named_key other name) =
    (owner ≡ other) × (hashed board ≡ name)
IsShadow hashed (board_key owner board) (board_key other name) = ⊥
IsShadow hashed (board_key owner board) (shared_key other) = ⊥
IsShadow hashed (named_key owner name) l = ⊥
IsShadow hashed (shared_key owner) l = ⊥

named_shared :
    (to_lower : String → String) (name : String)
    → to_lower "shared" ≡ "shared"
    → check_database_name to_lower name ≡ none
    → name ≢ "shared"
unfolding check_database_name all_name_chars
named_shared to_lower name low ok e =
    let bad : check_database_name to_lower "shared" ≡ none =
      subst (λ n. check_database_name to_lower n ≡ none) e ok in
    ground (arith, low, bad, eq_iff (to_lower "shared") "shared")

module _ (hashed to_lower : String → String)
    (hashed-injective : (a b : String) → hashed a ≡ hashed b → a ≡ b)
    (hashed-shared : (a : String) → hashed a ≢ "shared")
    (lower-shared : to_lower "shared" ≡ "shared") where
  -- Two keys that a store opens have one file only where they are one key, or where one of them is the
  -- database of a board and the other names the hash of its title for the same owner: as long as hashing
  -- is injective, never gives shared, and lower case keeps shared.
  pub file_of-injective :
      (k l : DatabaseKey)
      → IsOpenable to_lower k
      → IsOpenable to_lower l
      → file_of hashed k ≡ file_of hashed l
      → (k ≡ l) ⊎ (IsShadow hashed k l ⊎ IsShadow hashed l k)
  unfolding file_of
  file_of-injective (board_key o b) (board_key p c) h i e =
      ground (arith, hashed-injective o p, hashed-injective b c, ap (λ x. x.0) e, ap (λ x. x.1) e)
  file_of-injective (board_key o b) (named_key p c) h i e =
      inr (inl (hashed-injective o p (ap (λ x. x.0) e), ap (λ x. x.1) e))
  file_of-injective (board_key o b) (shared_key p) h i e =
      absurd (hashed-shared b (ap (λ x. x.1) e))
  file_of-injective (named_key o b) (board_key p c) h i e =
      inr (inr (hashed-injective p o (sym (ap (λ x. x.0) e)), sym (ap (λ x. x.1) e)))
  file_of-injective (named_key o b) (named_key p c) h i e =
      ground (arith, hashed-injective o p, ap (λ x. x.0) e, ap (λ x. x.1) e)
  file_of-injective (named_key o b) (shared_key p) h i e =
      absurd (named_shared to_lower b lower-shared h (ap (λ x. x.1) e))
  file_of-injective (shared_key o) (board_key p c) h i e =
      absurd (hashed-shared c (sym (ap (λ x. x.1) e)))
  file_of-injective (shared_key o) (named_key p c) h i e =
      absurd (named_shared to_lower c lower-shared i (sym (ap (λ x. x.1) e)))
  file_of-injective (shared_key o) (shared_key p) h i e =
      ground (arith, hashed-injective o p, ap (λ x. x.0) e)
