-- ===== src/Coordinator/FacadeAccess/Showing.antt =====
-- coordinator/facadeAccess.ts, facadeForMembers: a facade without what it keeps for its owner. A facade
-- is a document of JSON, so that no bytes occur in it; the equality of a `Set` on values is a parameter.
pub mod Entries
pub mod Tabs
pub mod Objects
pub mod Hidden
use hkp_node.Shared.{
  String, Bool, true, false, not, ◌&&◌, ◌||◌, List, [], ◌∷◌, ◌++◌, Option, none, some, any, keep,
  if◌then◌else◌, ◌==◌, string_eq, or_else,
}
use hkp_node.Shared.Json.{
  Json, Items, Fields, null, undefined, flag, number, str, bytes, arr, obj, nil, cons, end, field,
  field?, property?, set_field, delete_field, elements, items_of,
}

-- `isRecord`
abbrev pub is_record : Json → Bool
is_record (obj fields) = true
is_record null = false
is_record undefined = false
is_record (flag b) = false
is_record (number n) = false
is_record (str s) = false
is_record (bytes b) = false
is_record (arr items) = false

-- `value === text`
abbrev pub is_text : String → Json → Bool
is_text s (str t) = t == s
is_text s null = false
is_text s undefined = false
is_text s (flag b) = false
is_text s (number n) = false
is_text s (bytes b) = false
is_text s (arr items) = false
is_text s (obj fields) = false

-- `isOwners`
abbrev pub is_owners : Json → Bool
is_owners (obj fields) = is_text "owner" (or_else (field? "visibleTo" fields) undefined)
is_owners null = false
is_owners undefined = false
is_owners (flag b) = false
is_owners (number n) = false
is_owners (str s) = false
is_owners (bytes b) = false
is_owners (arr items) = false

-- `withoutOwners`
unfoldable mutual
  pub without_owners : Json → Json
  without_owners (arr items) = arr (without_items items)
  without_owners (obj fields) = obj (without_fields fields)
  without_owners null = null
  without_owners undefined = undefined
  without_owners (flag b) = flag b
  without_owners (number n) = number n
  without_owners (str s) = str s
  without_owners (bytes b) = bytes b

  pub without_items : Items → Items
  without_items nil = nil
  without_items (cons value rest) =
      if is_owners value
      then without_items rest
      else cons (without_owners value) (without_items rest)

  pub without_fields : Fields → Fields
  without_fields end = end
  without_fields (field name value rest) =
      if is_owners value
      then without_fields rest
      else field name (without_owners value) (without_fields rest)

-- `Array.isArray(value) ? value : undefined`, and its elements.
abbrev pub items? : Option Json → Option (List Json)
items? (some (arr items)) = some (elements items)
items? _ = none

-- `isRecord(tab) && Array.isArray(tab.panels) ? tab.panels : []`
abbrev pub panels_of : Json → List Json
panels_of tab = or_else (items? (property? "panels" tab)) []

-- `.map((panel) => (isRecord(panel) ? panel.id : undefined))`, the texts among them.
unfoldable pub text_ids : List Json → List String
text_ids [] = []
text_ids (panel ∷ panels) =
    let rest = text_ids panels in
    elim (or_else (property? "id" panel) undefined) [ str s ↦ s ∷ rest | _ ↦ rest ]

abbrev pub is_among : List String → Json → Bool
is_among ids value = any (λ id. is_text id value) ids

module _ (same : Json → Json → Bool) where
  abbrev pub has_value : Json → List Json → Bool
  has_value value values = any (same value) values

  -- `named`: what the tabs that are the owner's, or those that are not, name as panels.
  unfoldable pub named_panels : Bool → List Json → List Json
  named_panels owners [] = []
  named_panels owners (tab ∷ tabs) =
      let rest = named_panels owners tabs in
      if is_record tab && (if owners then is_owners tab else not (is_owners tab))
      then panels_of tab ++ rest
      else rest

  -- The panels that `withoutOwnersPanels` keeps.
  abbrev pub is_kept : List Json → Json → Bool
  is_kept tabs panel =
      let id = or_else (property? "id" panel) undefined in
      not (is_record panel)
      || not (has_value id (named_panels true tabs))
      || has_value id (named_panels false tabs)

  -- `withoutOwnersPanels`, of the fields of a facade.
  unfoldable pub without_panels : Fields → Fields
  without_panels fields = elim (items? (field? "tabs" fields)) [
    | none ↦ fields
    | some tabs ↦ elim (items? (field? "panels" fields)) [
      | none ↦ fields
      | some panels ↦ set_field "panels" (arr (items_of (keep (is_kept tabs) panels))) fields
    ]
  ]

  -- A tab with the panels that are left to it, of those it named, unless it lost them all.
  unfoldable pub left_tab : List Json → List Json → Fields → List Json
  left_tab [] (panel ∷ panels) fields = []
  left_tab [] [] fields = obj (set_field "panels" (arr nil) fields) ∷ []
  left_tab (k ∷ kept) panels fields =
      obj (set_field "panels" (arr (items_of (k ∷ kept))) fields) ∷ []

  unfoldable pub shown_tab : List String → Json → List Json
  shown_tab ids (obj fields) = elim (items? (field? "panels" fields)) [
    | none ↦ obj fields ∷ []
    | some panels ↦ left_tab (keep (is_among ids) panels) panels fields
  ]
  shown_tab ids null = null ∷ []
  shown_tab ids undefined = undefined ∷ []
  shown_tab ids (flag b) = flag b ∷ []
  shown_tab ids (number n) = number n ∷ []
  shown_tab ids (str s) = str s ∷ []
  shown_tab ids (bytes b) = bytes b ∷ []
  shown_tab ids (arr items) = arr items ∷ []

  unfoldable pub shown_tabs : List String → List Json → List Json
  shown_tabs ids [] = []
  shown_tabs ids (tab ∷ tabs) = shown_tab ids tab ++ shown_tabs ids tabs

  -- The end of `facadeForMembers`: the tabs, and the default where its tab is left.
  unfoldable pub with_tabs : Fields → Fields
  with_tabs shown = elim (items? (field? "tabs" shown)) [
    | none ↦ shown
    | some tabs ↦
        let left = shown_tabs (text_ids (or_else (items? (field? "panels" shown)) [])) tabs in
        let default = or_else (field? "defaultTab" shown) undefined in
        let result = set_field "tabs" (arr (items_of left)) shown in
        if any (λ tab. is_record tab && same (or_else (property? "id" tab) undefined) default) left
        then result
        else delete_field "defaultTab" result
  ]

  -- `facadeForMembers`
  unfoldable pub facade_for_members : Json → Json
  facade_for_members (obj fields) = obj (with_tabs (without_fields (without_panels fields)))
  facade_for_members (arr items) = arr (without_items items)
  facade_for_members null = null
  facade_for_members undefined = undefined
  facade_for_members (flag b) = flag b
  facade_for_members (number n) = number n
  facade_for_members (str s) = str s
  facade_for_members (bytes b) = bytes b
