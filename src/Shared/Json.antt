-- ===== src/Shared/Json.antt =====
-- The values that pipelines carry: JSON with `undefined` and bytes. An object's fields stand in their
-- order; lists inside values are types of the same block.
use Prim.Native.Nat.{ℕ, suc}
use Prim.Native.String.{String}
use mathlib.Core.Bool.{Bool, true, false}
use mathlib.Core.Option.{Option, none, some}
use mathlib.Core.List.{List, [], ◌∷◌}
use hkp_node.Shared.Tests.{◌==◌, string_eq, if◌then◌else◌, leb, ltb, truthy}

-- A JavaScript number, as far as the code tells numbers apart: an integer of either sign (`neg n` is
-- -(n + 1)), a fraction between n and n + 1 or one below zero, or none that is finite.
pub data Number : Type 0 where
  nat neg fraction : ℕ → Number
  negative_fraction nan infinity minus_infinity : Number

-- `Number.isFinite`
abbrev pub is_finite : Number → Bool
is_finite nan = false
is_finite infinity = false
is_finite minus_infinity = false
is_finite (nat n) = true
is_finite (neg n) = true
is_finite (fraction n) = true
is_finite negative_fraction = true

-- `number <= bound`
abbrev pub at_most : Number → ℕ → Bool
at_most (nat n) bound = leb n bound
at_most (neg n) bound = true
at_most (fraction n) bound = ltb n bound
at_most negative_fraction bound = true
at_most nan bound = false
at_most infinity bound = false
at_most minus_infinity bound = true

mutual
  pub data Json : Type 0 where
    null undefined : Json
    flag : Bool → Json
    number : Number → Json
    str : String → Json
    bytes : List ℕ → Json
    arr : Items → Json
    obj : Fields → Json

  pub data Items : Type 0 where
    nil : Items
    cons : Json → Items → Items

  pub data Fields : Type 0 where
    end : Fields
    field : String → Json → Fields → Fields

unfoldable pub field? : String → Fields → Option Json
field? name end = none
field? name (field n value rest) = if n == name then some value else field? name rest

-- `value[name]` of an object that is no array; every other value has no such property.
unfoldable pub property? : String → Json → Option Json
unfolding field?
property? name (obj fields) = field? name fields
property? name null = none
property? name undefined = none
property? name (flag b) = none
property? name (number n) = none
property? name (str s) = none
property? name (bytes b) = none
property? name (arr items) = none

-- `{ ...fields, [name]: value }`
unfoldable pub set_field : String → Json → Fields → Fields
set_field name value end = field name value end
set_field name value (field n v rest) =
    let later = set_field name value rest in
    if n == name then field n value rest else field n v later

-- The rest of an object: `const { [name]: _, ...rest } = fields`.
unfoldable pub delete_field : String → Fields → Fields
delete_field name end = end
delete_field name (field n v rest) =
    let later = delete_field name rest in if n == name then later else field n v later

-- `Object.keys(fields).length`
abbrev pub count_fields : Fields → ℕ
count_fields end = 0
count_fields (field n v rest) = suc (count_fields rest)

-- The fields of a value that is an object, and neither an array nor bytes.
abbrev pub fields_of : Json → Option Fields
fields_of (obj fields) = some fields
fields_of null = none
fields_of undefined = none
fields_of (flag b) = none
fields_of (number n) = none
fields_of (str s) = none
fields_of (bytes b) = none
fields_of (arr items) = none

unfoldable pub elements : Items → List Json
elements nil = []
elements (cons value rest) = value ∷ elements rest

unfoldable pub items_of : List Json → Items
items_of [] = nil
items_of (value ∷ rest) = cons value (items_of rest)

-- `value === null || value === undefined`
abbrev pub is_nullish : Json → Bool
is_nullish null = true
is_nullish undefined = true
is_nullish (flag b) = false
is_nullish (number n) = false
is_nullish (str s) = false
is_nullish (bytes b) = false
is_nullish (arr items) = false
is_nullish (obj fields) = false

-- `typeof value === "object" && value !== null`
abbrev pub is_object : Json → Bool
is_object null = false
is_object undefined = false
is_object (flag b) = false
is_object (number n) = false
is_object (str s) = false
is_object (bytes b) = true
is_object (arr items) = true
is_object (obj fields) = true

-- `typeof value === "string" && value ? value : undefined`
abbrev pub full_text : Option Json → Option String
full_text (some (str s)) = if truthy s then some s else none
full_text _ = none

-- What the code uses of JavaScript on texts and values: `JSON.stringify` is `none` where it answers
-- undefined or throws.
pub record Js : Type 0 where
  pub utf16_length : String → ℕ
  pub utf8_length : String → ℕ
  pub stringify : Json → Option String
