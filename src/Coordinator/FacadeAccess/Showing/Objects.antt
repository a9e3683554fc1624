-- ===== src/Coordinator/FacadeAccess/Showing/Objects.antt =====
-- coordinator/facadeAccess.ts, withoutOwnersPanels: leaving out panels keeps the names of fields apart.
use hkp_node.Shared.{
  ◌≡◌, refl, ◌∙◌, inl, inr, String, Bool, List, [], ◌∷◌, Option, none, some, keep, ◌==◌, string_eq,
  arith, eq_iff, Bool-cases, Option-cases, All, All-keep,
}
use hkp_node.Shared.Json.{
  Json, Items, Fields, null, undefined, flag, number, str, bytes, arr, obj, nil, cons, end, field,
  field?, set_field, elements, items_of,
}
use hkp_node.Coordinator.FacadeAccess.Showing.{items?, without_panels, is_kept}
use hkp_node.Coordinator.FacadeAccess.Showing.Entries.{IsProper, IsProperFields, IsProperItems}
use hkp_node.Coordinator.FacadeAccess.Showing.Tabs.{field?-set_field}

pub IsProper-elements : (items : Items) → IsProperItems items → All IsProper (elements items)
unfolding IsProper elements
IsProper-elements nil h = tt
IsProper-elements (cons v rest) h = (h.0, IsProper-elements rest h.1)

pub IsProper-items_of : (l : List Json) → All IsProper l → IsProperItems (items_of l)
unfolding IsProper items_of
IsProper-items_of [] h = tt
IsProper-items_of (v ∷ l) h = (h.0, IsProper-items_of l h.1)

pub field?-IsProper :
    (n : String) (fields : Fields) (v : Json)
    → IsProperFields fields
    → field? n fields ≡ some v
    → IsProper v
unfolding IsProper field?
field?-IsProper n end v h e = ground (arith, e)
field?-IsProper n (field m w rest) v h e = elim (Bool-cases (m == n)) [
  | inl met ↦ let same : w ≡ v = ground (arith, met, e) in rw (← same) ((h.1).0)
  | inr unmet ↦ field?-IsProper n rest v ((h.1).1) (ground (arith, unmet, e))
]

pub items?-IsProper :
    (o : Option Json) (l : List Json)
    → ((v : Json) → o ≡ some v → IsProper v)
    → items? o ≡ some l
    → All IsProper l
unfolding IsProper
items?-IsProper none l k e = ground (arith, e)
items?-IsProper (some (arr items)) l k e =
    let same : elements items ≡ l = ground (arith, e) in
    rw (← same) (IsProper-elements items (k (arr items) refl))
items?-IsProper (some (obj fields)) l k e = ground (arith, e)
items?-IsProper (some null) l k e = ground (arith, e)
items?-IsProper (some undefined) l k e = ground (arith, e)
items?-IsProper (some (flag b)) l k e = ground (arith, e)
items?-IsProper (some (number n)) l k e = ground (arith, e)
items?-IsProper (some (str s)) l k e = ground (arith, e)
items?-IsProper (some (bytes b)) l k e = ground (arith, e)

pub set_field-IsProper :
    (n : String) (v : Json) (fields : Fields)
    → IsProper v
    → IsProperFields fields
    → IsProperFields (set_field n v fields)
unfolding IsProper set_field field?
set_field-IsProper n v end h k = (refl, (h, tt))
set_field-IsProper n v (field m w rest) h k = elim (Bool-cases (m == n)) [
  | inl e ↦ rw e (k.0, (h, (k.1).1))
  | inr e ↦ rw e (
    field?-set_field n m v rest ∙ ground (arith, e, k.0, eq_iff m n, eq_iff n m),
    ((k.1).0, set_field-IsProper n v rest h (k.1).1),
  )
]

pub without_panels-IsProper :
    (same : Json → Json → Bool) (fields : Fields)
    → IsProperFields fields
    → IsProperFields (without_panels same fields)
unfolding without_panels IsProper
without_panels-IsProper same fields h = elim (Option-cases (items? (field? "tabs" fields))) [
  | inl e ↦ rw (e, without_panels) h
  | inr (tabs, e) ↦ elim (Option-cases (items? (field? "panels" fields))) [
    | inl e' ↦ rw (e, without_panels) (rw e' h)
    | inr (panels, e') ↦
        rw (e, without_panels)
          (rw e' (
            set_field-IsProper "panels" (arr (items_of (keep (is_kept same tabs) panels))) fields
              (IsProper-items_of (keep (is_kept same tabs) panels) (
                All-keep IsProper (is_kept same tabs) panels (
                  items?-IsProper (field? "panels" fields) panels
                    (λ v. field?-IsProper "panels" fields v h) e')))
              h))
  ]
]
