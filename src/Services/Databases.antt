-- ===== src/Services/Databases.antt =====
-- services/database.ts: the key and the file of an owner's databases, and those that are open. What a
-- database holds is a type `Db`; hashing and `toLowerCase` come from the host.
pub mod Files
use Prim.Native.Char
use Prim.Native.Char.{Char}
use Prim.Native.String
use hkp_node.Shared.{
  ◌≡◌, ◌↔◌, String, Bool, true, false, ◌&&◌, ◌||◌, Option, none, some, leb, if◌then◌else◌, ◌==◌,
  Key, string_eq, nat_eq, eq_iff, arith,
}
use hkp_node.Shared.OrderedMap.{OrderedMap, get, set}

-- The arrays that `boardKey`, `sharedKey` and `namedKey` encode.
pub data DatabaseKey : Type 0 where
  board_key named_key : String → String → DatabaseKey
  shared_key : String → DatabaseKey

abbrev pub same_key : DatabaseKey → DatabaseKey → Bool
same_key (board_key a b) (board_key c d) = a == c && b == d
same_key (named_key a b) (named_key c d) = a == c && b == d
same_key (shared_key a) (shared_key c) = a == c
same_key (board_key a b) (named_key c d) = false
same_key (board_key a b) (shared_key c) = false
same_key (named_key a b) (board_key c d) = false
same_key (named_key a b) (shared_key c) = false
same_key (shared_key a) (board_key c d) = false
same_key (shared_key a) (named_key c d) = false

pub same_key_iff : (k l : DatabaseKey) → (same_key k l ≡ true) ↔ (k ≡ l)
same_key_iff (board_key a b) (board_key c d) = ground (arith, eq_iff a c, eq_iff b d)
same_key_iff (named_key a b) (named_key c d) = ground (arith, eq_iff a c, eq_iff b d)
same_key_iff (shared_key a) (shared_key c) = ground (arith, eq_iff a c)
same_key_iff (board_key a b) (named_key c d) = ground arith
same_key_iff (board_key a b) (shared_key c) = ground arith
same_key_iff (named_key a b) (board_key c d) = ground arith
same_key_iff (named_key a b) (shared_key c) = ground arith
same_key_iff (shared_key a) (board_key c d) = ground arith
same_key_iff (shared_key a) (named_key c d) = ground arith

instance abbrev pub database_key_eq : Key DatabaseKey
database_key_eq = record { same = same_key; same_iff = same_key_iff }

-- `[A-Za-z0-9_-]`
abbrev pub is_name_char : Char → Bool
is_name_char c =
    let n = Char.code c in
    (leb 65 n && leb n 90)
    || (leb 97 n && leb n 122)
    || (leb 48 n && leb n 57)
    || n == 95
    || n == 45

unfoldable pub all_name_chars : String → Bool
all_name_chars String.[] = true
all_name_chars (String.◌∷◌ c s) = let rest = all_name_chars s in is_name_char c && rest

-- The two ways in which `checkDatabaseName` refuses a name.
pub data WrongName : Type 0 where
  malformed reserved : WrongName

module _ (to_lower : String → String) where
  -- `checkDatabaseName`
  unfoldable pub check_database_name : String → Option WrongName
  unfolding all_name_chars
  check_database_name name =
      if all_name_chars name && leb 1 (String.count name) && leb (String.count name) 64
      then (if to_lower name == "shared" then some reserved else none)
      else some malformed

  -- The key that `openNamed` opens.
  unfoldable pub named_key? : String → String → Option DatabaseKey
  unfolding check_database_name
  named_key? owner name = elim (check_database_name name) [
    | some wrong ↦ none
    | none ↦ some (named_key owner name)
  ]

-- Where `openFile` puts the database of a key: the directory of its owner, and the stem of its name.
unfoldable pub file_of : (String → String) → DatabaseKey → String × String
file_of hashed (board_key owner board) = (hashed owner, hashed board)
file_of hashed (shared_key owner) = (hashed owner, "shared")
file_of hashed (named_key owner name) = (hashed owner, name)

module _ {ℓ} {Db : Type ℓ} (fresh : Db) where
  -- `openInMemory`: the database of a key and those that are open, with the new one's among them.
  unfoldable pub open_in_memory :
      DatabaseKey → OrderedMap DatabaseKey Db → Db × OrderedMap DatabaseKey Db
  unfolding get set
  open_in_memory key opened = elim (get key opened) [
    | some db ↦ (db, opened)
    | none ↦ (fresh, set key fresh opened)
  ]
