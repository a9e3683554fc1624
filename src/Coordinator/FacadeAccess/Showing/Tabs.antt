-- ===== src/Coordinator/FacadeAccess/Showing/Tabs.antt =====
-- coordinator/facadeAccess.ts, facadeForMembers: leaving out tabs shows nothing that was left out.
use hkp_node.Shared.{
  ◌≡◌, refl, sym, ◌∙◌, inl, inr, String, Bool, false, ◌||◌, List, [], ◌∷◌, ◌++◌, Option, none, some,
  any, keep, ◌==◌, string_eq, if◌then◌else◌, or_else, arith, eq_iff, Bool-cases, Option-cases,
}
use hkp_node.Shared.Json.{
  Json, Items, Fields, null, undefined, flag, number, str, bytes, arr, obj, nil, cons, end, field,
  field?, set_field, delete_field, elements, items_of,
}
use hkp_node.Coordinator.FacadeAccess.Showing.{
  is_owners, items?, is_among, left_tab, shown_tab, shown_tabs, with_tabs, text_ids,
}
use hkp_node.Coordinator.FacadeAccess.Showing.Entries.{keeps_fields, keeps_items, keeps_owners}

-- An entry that is the owner's or has one that is.
abbrev pub is_bad : Json → Bool
is_bad value = is_owners value || keeps_owners value

pub keeps_items-items_of : (l : List Json) → keeps_items (items_of l) ≡ any is_bad l
unfolding keeps_owners items_of
keeps_items-items_of [] = refl
keeps_items-items_of (v ∷ l) = ground (arith, keeps_items-items_of l)

pub keeps_items-elements : (items : Items) → keeps_items items ≡ any is_bad (elements items)
unfolding keeps_owners elements
keeps_items-elements nil = refl
keeps_items-elements (cons v rest) = ground (arith, keeps_items-elements rest)

pub any-keep : (q p : Json → Bool) (l : List Json) → any q l ≡ false → any q (keep p l) ≡ false
any-keep q p [] h = refl
any-keep q p (v ∷ l) h = ground (arith, h, any-keep q p l)

pub any-append_false :
    (q : Json → Bool) (l k : List Json) → any q l ≡ false → any q k ≡ false → any q (l ++ k) ≡ false
any-append_false q [] k h i = i
any-append_false q (v ∷ l) k h i = ground (arith, h, i, any-append_false q l k)

pub field?-set_field :
    (n m : String) (v : Json) (fields : Fields)
    → field? m (set_field n v fields) ≡ (if n == m then some v else field? m fields)
unfolding field? set_field
field?-set_field n m v end = refl
field?-set_field n m v (field k w rest) =
    ground (arith, field?-set_field n m v rest, eq_iff k n, eq_iff k m, eq_iff n m)

pub keeps_fields-set_field :
    (n : String) (v : Json) (fields : Fields)
    → is_bad v ≡ false
    → keeps_fields fields ≡ false
    → keeps_fields (set_field n v fields) ≡ false
unfolding keeps_owners set_field
keeps_fields-set_field n v end h k = ground (arith, h)
keeps_fields-set_field n v (field m w rest) h k =
    ground (arith, h, k, keeps_fields-set_field n v rest)

pub keeps_fields-delete_field :
    (n : String) (fields : Fields)
    → keeps_fields fields ≡ false
    → keeps_fields (delete_field n fields) ≡ false
unfolding keeps_owners delete_field
keeps_fields-delete_field n end k = refl
keeps_fields-delete_field n (field m w rest) k = ground (arith, k, keeps_fields-delete_field n rest)

pub field?-keeps_owners :
    (n : String) (fields : Fields) (v : Json)
    → keeps_fields fields ≡ false
    → field? n fields ≡ some v
    → keeps_owners v ≡ false
unfolding keeps_owners field?
field?-keeps_owners n end v k e = ground (arith, e)
field?-keeps_owners n (field m w rest) v k e = elim (Bool-cases (m == n)) [
  | inl met ↦ let same : w ≡ v = ground (arith, met, e) in rw (← same) (ground (arith, k))
  | inr unmet ↦ field?-keeps_owners n rest v (ground (arith, k)) (ground (arith, unmet, e))
]

pub items?-keeps_owners :
    (o : Option Json) (l : List Json)
    → ((v : Json) → o ≡ some v → keeps_owners v ≡ false)
    → items? o ≡ some l
    → any is_bad l ≡ false
unfolding keeps_owners
items?-keeps_owners none l k e = ground (arith, e)
items?-keeps_owners (some (arr items)) l k e =
    let same : elements items ≡ l = ground (arith, e) in
    rw (← same) (sym (keeps_items-elements items) ∙ k (arr items) refl)
items?-keeps_owners (some (obj fields)) l k e = ground (arith, e)
items?-keeps_owners (some null) l k e = ground (arith, e)
items?-keeps_owners (some undefined) l k e = ground (arith, e)
items?-keeps_owners (some (flag b)) l k e = ground (arith, e)
items?-keeps_owners (some (number n)) l k e = ground (arith, e)
items?-keeps_owners (some (str s)) l k e = ground (arith, e)
items?-keeps_owners (some (bytes b)) l k e = ground (arith, e)

-- The elements of an array in a field of an object that keeps nothing for the owner.
pub items?-field? :
    (n : String) (fields : Fields) (l : List Json)
    → keeps_fields fields ≡ false
    → items? (field? n fields) ≡ some l
    → any is_bad l ≡ false
items?-field? n fields l k e =
    items?-keeps_owners (field? n fields) l (λ v. field?-keeps_owners n fields v k) e

module _ (same : Json → Json → Bool) where
  -- A tab is as little the owner's with other panels.
  pub set_panels-is_bad :
      (items : Items) (fields : Fields)
      → keeps_items items ≡ false
      → is_bad (obj fields) ≡ false
      → is_bad (obj (set_field "panels" (arr items) fields)) ≡ false
  unfolding keeps_owners
  set_panels-is_bad items fields h k = ground (
    arith,
    h,
    k,
    field?-set_field "panels" "visibleTo" (arr items) fields,
    keeps_fields-set_field "panels" (arr items) fields h (ground (arith, k)),
  )

  pub any-left_tab :
      (kept panels : List Json) (fields : Fields)
      → any is_bad kept ≡ false
      → is_bad (obj fields) ≡ false
      → any is_bad (left_tab same kept panels fields) ≡ false
  unfolding left_tab keeps_owners
  any-left_tab [] (panel ∷ panels) fields h k = refl
  any-left_tab [] [] fields h k = ground (arith, set_panels-is_bad nil fields refl k)
  any-left_tab (v ∷ kept) panels fields h k = ground (
    arith,
    set_panels-is_bad (items_of (v ∷ kept)) fields (keeps_items-items_of (v ∷ kept) ∙ h) k,
  )

  pub any-shown_tab :
      (ids : List String) (tab : Json)
      → is_bad tab ≡ false
      → any is_bad (shown_tab same ids tab) ≡ false
  unfolding shown_tab keeps_owners
  any-shown_tab ids (obj fields) h = elim (Option-cases (items? (field? "panels" fields))) [
    | inl e ↦ rw (e, shown_tab, any) (ground (arith, h))
    | inr (panels, e) ↦
        rw (e, shown_tab, any)
          (any-left_tab (keep (is_among ids) panels) panels fields
            (any-keep is_bad (is_among ids) panels
              (items?-field? "panels" fields panels (ground (arith, h)) e))
            h)
  ]
  any-shown_tab ids null h = refl
  any-shown_tab ids undefined h = refl
  any-shown_tab ids (flag b) h = refl
  any-shown_tab ids (number n) h = refl
  any-shown_tab ids (str s) h = refl
  any-shown_tab ids (bytes b) h = refl
  any-shown_tab ids (arr items) h = ground (arith, h)

  pub any-shown_tabs :
      (ids : List String) (tabs : List Json)
      → any is_bad tabs ≡ false
      → any is_bad (shown_tabs same ids tabs) ≡ false
  unfolding shown_tabs
  any-shown_tabs ids [] h = refl
  any-shown_tabs ids (tab ∷ tabs) h =
      any-append_false is_bad (shown_tab same ids tab) (shown_tabs same ids tabs)
        (any-shown_tab ids tab (ground (arith, h))) (any-shown_tabs ids tabs (ground (arith, h)))

  pub keeps_fields-with_tabs :
      (shown : Fields) → keeps_fields shown ≡ false → keeps_fields (with_tabs same shown) ≡ false
  unfolding with_tabs keeps_owners
  keeps_fields-with_tabs shown h = elim (Option-cases (items? (field? "tabs" shown))) [
    | inl e ↦ rw (e, with_tabs) h
    | inr (tabs, e) ↦
        let ids = text_ids (or_else (items? (field? "panels" shown)) []) in
        let left = shown_tabs same ids tabs in
        let good : keeps_fields (set_field "tabs" (arr (items_of left)) shown) ≡ false =
          keeps_fields-set_field "tabs" (arr (items_of left)) shown
            (keeps_items-items_of left
              ∙ any-shown_tabs ids tabs (items?-field? "tabs" shown tabs h e))
            h in
        rw (e, with_tabs)
          (ground (
            arith,
            good,
            keeps_fields-delete_field "defaultTab" (set_field "tabs" (arr (items_of left)) shown)
                good,
          ))
  ]
