-- ===== src/Services/Conversations/Values.antt =====
-- What services/conversations.ts and normalizeMessageId, normalizeReferences of services/imap-email.ts
-- read of the values that a board passes. What they use of JavaScript and SQLite comes from the host.
use Prim.Native.String
use hkp_node.Shared.{
  ℕ, ◌-◌, String, Bool, true, false, ◌&&◌, not, List, [], ◌∷◌, Option, none, some, map, keep, any,
  if◌then◌else◌, ◌==◌, string_eq, truthy, or_else, get_elem?, length,
}
use hkp_node.Shared.Json.{
  Number, nat, Json, Items, Fields, null, undefined, flag, number, str, bytes, arr, obj, end,
  field?, elements, is_nullish,
}

-- Why a statement or a call inside a pass throws.
pub data Thrown : Type 0 where
  bad_limit bad_date no_array taken_id no_row : Thrown

-- `trim`; `split` by a text, and by blanks; `String(n)` of a number; a name as the index of an array;
-- `new Date(s).toISOString()`, unless the date is invalid, the same of a time in milliseconds and of the
-- one some seconds before it, unless it is out of range; JSON of a value that is not undefined; the
-- order of texts in SQLite; the text of an error.
pub record Host : Type 0 where
  pub trim : String → String
  pub split : String → String → List String
  pub split_blanks : String → List String
  pub number_text : Number → String
  pub array_index : String → Option ℕ
  pub date_text : String → Option String
  pub iso : ℕ → String
  pub iso_before : ℕ → Number → Option String
  pub stringify : Json → String
  pub parse : String → Option Json
  pub text_lt : String → String → Bool
  pub reason : Thrown → String

-- `asRecord`: no name that the code reads is one of an array or of bytes.
abbrev pub as_record : Json → Fields
as_record (obj fields) = fields
as_record null = end
as_record undefined = end
as_record (flag b) = end
as_record (number n) = end
as_record (str s) = end
as_record (bytes b) = end
as_record (arr items) = end

-- `record[name]`
abbrev pub value_of : String → Fields → Json
value_of name fields = or_else (field? name fields) undefined

-- `a ?? b`
abbrev pub coalesce : Json → Json → Json
coalesce a b = if is_nullish a then b else a

-- `", "` between the texts of a list.
unfoldable pub join : List String → String
join [] = ""
join (s ∷ rest) =
    let more = join rest in
    elim rest [ [] ↦ s | r ∷ others ↦ String.◌++◌ s (String.◌++◌ ", " more) ]

-- `[...new Set(texts)]`
unfoldable pub distinct : List String → List String
distinct [] = []
distinct (s ∷ rest) = s ∷ keep (λ t. not (t == s)) (distinct rest)

-- `typeof value === "string" && value ? value : ""`
abbrev pub string_or_empty : Json → String
string_or_empty (str s) = s
string_or_empty null = ""
string_or_empty undefined = ""
string_or_empty (flag b) = ""
string_or_empty (number n) = ""
string_or_empty (bytes b) = ""
string_or_empty (arr items) = ""
string_or_empty (obj fields) = ""

abbrev pub is_string : Json → Bool
is_string (str s) = true
is_string null = false
is_string undefined = false
is_string (flag b) = false
is_string (number n) = false
is_string (bytes b) = false
is_string (arr items) = false
is_string (obj fields) = false

-- `texts.includes(text)`
abbrev pub includes : String → List String → Bool
includes s texts = any (λ t. t == s) texts

module _ (host : Host) where
  open host use {trim, split, split_blanks, number_text, array_index, date_text, parse}

  -- `current[step]`
  abbrev pub step_into : Json → String → Json
  step_into (obj fields) step = value_of step fields
  step_into (arr items) step =
      if step == "length" then number (nat (length (elements items))) else elim (array_index step) [
        | none ↦ undefined
        | some i ↦ or_else (get_elem? (elements items) i) undefined
      ]
  step_into (bytes b) step =
      if step == "length" then number (nat (length b)) else elim (array_index step) [
        | none ↦ undefined
        | some i ↦ elim (get_elem? b i) [ none ↦ undefined | some n ↦ number (nat n) ]
      ]
  step_into null step = undefined
  step_into undefined step = undefined
  step_into (flag b) step = undefined
  step_into (number n) step = undefined
  step_into (str s) step = undefined

  -- The loop of `valueAt`.
  unfoldable pub follow : Json → List String → Json
  follow current [] = current
  follow current (step ∷ steps) = follow (step_into current step) steps

  -- `valueAt`
  unfoldable pub value_at : Json → String → Json
  value_at input path = if truthy path then follow input (split path ".") else undefined

  -- `text`
  unfoldable pub text : Json → String
  text (str s) = s
  text (number n) = number_text n
  text (flag b) = if b then "true" else "false"
  text null = ""
  text undefined = ""
  text (bytes b) = ""
  text (arr items) = ""
  text (obj fields) = ""

  -- `value.map(text).filter(Boolean)`
  unfoldable pub texts : Items → List String
  texts items = keep truthy (map text (elements items))

  -- `addresses`
  unfoldable pub addresses : Json → String
  addresses (arr items) = join (texts items)
  addresses null = text null
  addresses undefined = text undefined
  addresses (flag b) = text (flag b)
  addresses (number n) = text (number n)
  addresses (str s) = text (str s)
  addresses (bytes b) = text (bytes b)
  addresses (obj fields) = text (obj fields)

  -- `names`
  unfoldable pub names : Json → List String
  names (arr items) = texts items
  names (str s) = keep truthy (map trim (split s ","))
  names null = []
  names undefined = []
  names (flag b) = []
  names (number n) = []
  names (bytes b) = []
  names (obj fields) = []

  -- `timestamp`: a value of JSON is no `Date`.
  unfoldable pub timestamp : Json → String → String
  timestamp value fallback =
      let given = string_or_empty value in
      if truthy given then or_else (date_text given) fallback else fallback

  -- `normalizeMessageId`
  unfoldable pub normalize_text : String → String
  normalize_text s =
      let trimmed = trim s in
      let size = String.len trimmed in
      if String.slice trimmed 0 1 == "<" && String.slice trimmed (size - 1) size == ">"
      then String.slice trimmed 1 (size - 1)
      else trimmed

  unfoldable pub normalize_message_id : Json → String
  normalize_message_id value =
      if is_string value then normalize_text (string_or_empty value) else ""

  -- `normalizeReferences`
  unfoldable pub normalize_references : Json → List String
  normalize_references (arr items) = keep truthy (map normalize_message_id (elements items))
  normalize_references (str s) = keep truthy (map normalize_text (split_blanks s))
  normalize_references null = []
  normalize_references undefined = []
  normalize_references (flag b) = []
  normalize_references (number n) = []
  normalize_references (bytes b) = []
  normalize_references (obj fields) = []
