-- ===== src/Coordinator/FacadeAccess/Showing/Entries.antt =====
-- coordinator/facadeAccess.ts, withoutOwners: the entries of a document, at any depth.
use hkp_node.Shared.{◌≡◌, refl, ap, String, Bool, true, false, ◌||◌, none, string_eq, arith, eq_iff}
use hkp_node.Shared.Json.{
  Json, Items, Fields, null, undefined, flag, number, str, bytes, arr, obj, nil, cons, end, field,
  field?,
}
use hkp_node.Coordinator.FacadeAccess.Showing.{
  is_owners, is_text, without_owners, without_items, without_fields,
}

-- Some entry, at any depth, is kept for the owner.
unfoldable mutual
  pub keeps_owners : Json → Bool
  keeps_owners (arr items) = keeps_items items
  keeps_owners (obj fields) = keeps_fields fields
  keeps_owners null = false
  keeps_owners undefined = false
  keeps_owners (flag b) = false
  keeps_owners (number n) = false
  keeps_owners (str s) = false
  keeps_owners (bytes b) = false

  pub keeps_items : Items → Bool
  keeps_items nil = false
  keeps_items (cons value rest) = is_owners value || keeps_owners value || keeps_items rest

  pub keeps_fields : Fields → Bool
  keeps_fields end = false
  keeps_fields (field name value rest) = is_owners value || keeps_owners value || keeps_fields rest

-- No object has two fields of one name, as is so of every object of JavaScript.
unfoldable mutual
  pub IsProper : Json → Type 0
  IsProper (arr items) = IsProperItems items
  IsProper (obj fields) = IsProperFields fields
  IsProper null = Unit
  IsProper undefined = Unit
  IsProper (flag b) = Unit
  IsProper (number n) = Unit
  IsProper (str s) = Unit
  IsProper (bytes b) = Unit

  pub IsProperItems : Items → Type 0
  IsProperItems nil = Unit
  IsProperItems (cons value rest) = IsProper value × IsProperItems rest

  pub IsProperFields : Fields → Type 0
  IsProperFields end = Unit
  IsProperFields (field name value rest) =
      (field? name rest ≡ none) × (IsProper value × IsProperFields rest)

pub field?-without_none :
    (n : String) (fields : Fields)
    → field? n fields ≡ none
    → field? n (without_fields fields) ≡ none
unfolding field? without_fields
field?-without_none n end h = refl
field?-without_none n (field m v rest) h = ground (arith, h, field?-without_none n rest)

pub is_text-without_owners : (s : String) (v : Json) → is_text s (without_owners v) ≡ is_text s v
unfolding without_owners
is_text-without_owners s (arr items) = refl
is_text-without_owners s (obj fields) = refl
is_text-without_owners s null = refl
is_text-without_owners s undefined = refl
is_text-without_owners s (flag b) = refl
is_text-without_owners s (number n) = refl
is_text-without_owners s (str t) = refl
is_text-without_owners s (bytes b) = refl

pub is_owners-is_text : (v : Json) → is_owners v ≡ true → is_text "owner" v ≡ false
is_owners-is_text (arr items) h = refl
is_owners-is_text (obj fields) h = refl
is_owners-is_text null h = refl
is_owners-is_text undefined h = refl
is_owners-is_text (flag b) h = refl
is_owners-is_text (number n) h = refl
is_owners-is_text (str t) h = ground (arith, h)
is_owners-is_text (bytes b) h = refl

-- Whether an object is the owner's is read of the object without what is the owner's in it.
pub is_owners-without_fields :
    (fields : Fields)
    → IsProperFields fields
    → is_owners (obj (without_fields fields)) ≡ is_owners (obj fields)
unfolding field? without_fields IsProperFields
is_owners-without_fields end proper = refl
is_owners-without_fields (field m v rest) proper = ground (
  arith,
  is_owners-without_fields rest (proper.1).1,
  is_text-without_owners "owner" v,
  field?-without_none m rest (proper.0),
  eq_iff m "visibleTo",
  is_owners-is_text v,
  ap (λ n. field? n (without_fields rest)),
)

mutual
  unfolding without_owners keeps_owners IsProper

  pub keeps_owners-without_owners :
      (v : Json) → IsProper v → keeps_owners (without_owners v) ≡ false
  keeps_owners-without_owners (arr items) h = keeps_items-without_items items h
  keeps_owners-without_owners (obj fields) h = keeps_fields-without_fields fields h
  keeps_owners-without_owners null h = refl
  keeps_owners-without_owners undefined h = refl
  keeps_owners-without_owners (flag b) h = refl
  keeps_owners-without_owners (number n) h = refl
  keeps_owners-without_owners (str s) h = refl
  keeps_owners-without_owners (bytes b) h = refl

  pub is_owners-without_owners :
      (v : Json) → IsProper v → is_owners (without_owners v) ≡ is_owners v
  is_owners-without_owners (arr items) h = refl
  is_owners-without_owners (obj fields) h = is_owners-without_fields fields h
  is_owners-without_owners null h = refl
  is_owners-without_owners undefined h = refl
  is_owners-without_owners (flag b) h = refl
  is_owners-without_owners (number n) h = refl
  is_owners-without_owners (str s) h = refl
  is_owners-without_owners (bytes b) h = refl

  pub keeps_items-without_items :
      (items : Items) → IsProperItems items → keeps_items (without_items items) ≡ false
  keeps_items-without_items nil h = refl
  keeps_items-without_items (cons v rest) h = ground (
    arith,
    keeps_owners-without_owners v h.0,
    is_owners-without_owners v h.0,
    keeps_items-without_items rest h.1,
  )

  pub keeps_fields-without_fields :
      (fields : Fields) → IsProperFields fields → keeps_fields (without_fields fields) ≡ false
  keeps_fields-without_fields end h = refl
  keeps_fields-without_fields (field m v rest) h = ground (
    arith,
    keeps_owners-without_owners v (h.1).0,
    is_owners-without_owners v (h.1).0,
    keeps_fields-without_fields rest (h.1).1,
  )
