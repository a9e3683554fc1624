-- ===== src/Services/Gather/Reassembly.antt =====
-- A group that services/gather.ts hands on is whole.
use hkp_node.Shared.{
  ℕ, zero, suc, ◌+◌, ◌≤◌, ◌<◌, ◌≡◌, refl, sym, ap, subst, ◌∙◌, inl, inr, String, true, false, List,
  [], ◌∷◌, Option, some, arith, leb, ltb, length, if◌then◌else◌, string_eq, nat_eq, ◌==◌,
  Option-cases, Bool-cases, is_some, All,
}
use native.Mathlib.Nat.{le_refl}
use hkp_node.Shared.OrderedMap.{
  OrderedMap, get, has, set, delete, Distinct, has-get, length-set, All-set, All-get, set-Distinct,
  delete-Distinct,
}
use hkp_node.Shared.Json.{Json, Js}
use hkp_node.Services.Gather.{
  Part, Collecting, Settings, Gather, gathered, part?, size_of, refusing, let_go_of_stale,
  items_from, whole, store_part, add_part, new_group, take_part, process_part, process,
}
use hkp_node.Shared.OrderedMap.{length-le-delete}
use hkp_node.Services.Gather.Bounds.{
  IsValid, IsArriving, let_go_of_stale-IsValid, part-inside, new_group-IsArriving,
}

below-delete :
    (n : ℕ) (m : OrderedMap ℕ Json) → All (λ e. e.0 < suc n) m → All (λ e. e.0 < n) (delete n m)
unfolding delete
below-delete n [] h = tt
below-delete n ((i, item) ∷ m) h = ground (arith, below-delete n m h.1)

-- Distinct indices below `n` are `n` at most.
length-le_of_below :
    (n : ℕ) (m : OrderedMap ℕ Json) → Distinct m → All (λ e. e.0 < n) m → length m ≤ n
length-le_of_below zero [] d h = omega arith
length-le_of_below zero (e ∷ m) d h = absurd (omega arith)
length-le_of_below (suc n) m d h = omega (
  arith,
  length-le-delete n m d,
  length-le_of_below n (delete n m) (delete-Distinct n m d) (below-delete n m h),
)

-- So `n` distinct indices below `n` are all of them.
pub has_of_full :
    (n i : ℕ) (m : OrderedMap ℕ Json)
    → Distinct m
    → All (λ e. e.0 < n) m
    → n ≤ length m
    → i < n
    → has i m ≡ true
has_of_full n i m d h full inside = elim (Bool-cases (has i m)) [
  | inl there ↦ there
  | inr missing ↦ absurd (
      ground (
        arith,
        length-le_of_below n (set i Json.null m) (set-Distinct i Json.null m d)
            (All-set (λ e. e.0 < n) i Json.null m inside h),
        size,
      ))
]
  where
    size : length (set i Json.null m) ≡ (if has i m then length m else suc (length m))
    size = length-set i Json.null m

pub length-items_from : (i n : ℕ) (m : OrderedMap ℕ Json) → length (items_from i n m) ≡ n
unfolding items_from
length-items_from i zero m = refl
length-items_from i (suc n) m = ap suc (length-items_from (i + 1) n m)

-- What a range of present indices gives has no hole.
items_from-IsSome :
    (i n : ℕ) (m : OrderedMap ℕ Json)
    → ((j : ℕ) → i ≤ j → j < i + n → has j m ≡ true)
    → All (λ o. is_some o ≡ true) (items_from i n m)
unfolding items_from
items_from-IsSome i zero m h = tt
items_from-IsSome i (suc n) m h = (
  sym (has-get i m) ∙ h i (le_refl i) (omega arith),
  items_from-IsSome (i + 1) n m (λ j lo hi. h j (omega arith) (omega arith)),
)

module _ (js : Js) (pipeline : Option (String → List (Option Json) → Json)) where
  -- The items that a call hands on as a group, if it does.
  abbrev pub IsWhole : ℕ → List (Option Json) → Type 0
  IsWhole total items = (length items ≡ total) × All (λ o. is_some o ≡ true) items

  whole-items :
      (s : Settings) (group : String) (items found : List (Option Json))
      → whole pipeline s group found ≡ gathered items
      → items ≡ found
  unfolding whole
  whole-items s group items found h = ground arith

  store_part-IsWhole :
      (bytes : ℕ) (part : Part) (c : Collecting) (st : Gather) (items : List (Option Json))
      → c.total ≡ part.total
      → part.index < part.total
      → has part.index c.items ≡ false
      → IsArriving js st.settings.max_bytes c
      → (store_part js pipeline bytes part c st).2 ≡ gathered items
      → IsWhole part.total items
  unfolding store_part
  store_part-IsWhole bytes part c st items same inside new a h =
      let m : OrderedMap ℕ Json = set part.index part.item c.items in
      elim (Bool-cases (ltb (length m) part.total)) [
        | inl more ↦ absurd (ground (arith, more))
        | inr done ↦
            let eq : items ≡ items_from 0 part.total m =
              whole-items st.settings part.group items _ (rw done at h) in
            rw eq (
              length-items_from 0 part.total m,
              items_from-IsSome 0 part.total m (λ j lo hi.
                  has_of_full part.total j m (set-Distinct part.index part.item c.items a.distinct)
                    (All-set (λ e. e.0 < part.total) part.index part.item c.items inside
                      (subst (λ t. All (λ e. e.0 < t) c.items) same a.placed))
                    (ground (arith, done)) (omega arith)),
            )
      ]

  add_part-IsWhole :
      (now : ℕ) (part : Part) (c : Collecting) (st : Gather) (items : List (Option Json))
      → part.index < part.total
      → IsArriving js st.settings.max_bytes c
      → (add_part js pipeline now part c st).2 ≡ gathered items
      → IsWhole part.total items
  unfolding add_part refusing
  add_part-IsWhole now part c st items inside a h = elim (Bool-cases (c.total == part.total)) [
    | inr other ↦ absurd (ground (arith, other))
    | inl same ↦ elim (Bool-cases (has part.index c.items)) [
      | inl twice ↦ absurd (ground (arith, same, twice))
      | inr new ↦ elim (Bool-cases (ltb st.settings.max_bytes (c.bytes + size_of js part.item))) [
        | inl large ↦ absurd (ground (arith, same, new, large))
        | inr fits ↦
            store_part-IsWhole (c.bytes + size_of js part.item) part c st items (ground arith)
              inside new a (ground (arith, same, new, fits))
      ]
    ]
  ]

  take_part-IsWhole :
      (now : ℕ) (part : Part) (st : Gather) (items : List (Option Json))
      → part.index < part.total
      → IsValid js st
      → (take_part js pipeline now part st).2 ≡ gathered items
      → IsWhole part.total items
  unfolding take_part refusing
  take_part-IsWhole now part st items inside v h = elim (Bool-cases (has part.group st.refused)) [
    | inl out ↦ absurd (ground (arith, out))
    | inr free ↦ elim (Option-cases (get part.group st.collecting)) [
      | inr (c, found) ↦
          add_part-IsWhole now part c st items inside
            (All-get _ part.group c st.collecting found v.arriving)
            (rw (free, found, take_part) at h)
      | inl new ↦ elim (Bool-cases (leb st.settings.max_groups (length st.collecting))) [
        | inl full ↦ absurd (cc (rw (free, new, full, take_part, refusing) at h))
        | inr room ↦
            add_part-IsWhole now part (new_group now part)
              (record st { collecting = set part.group (new_group now part) st.collecting }) items
              inside (new_group-IsArriving js st.settings.max_bytes now part inside)
              (rw (free, new, room, take_part) at h)
      ]
    ]
  ]

  -- What a call in a valid state hands on as a group is whole: it has as many items as the part that completed it
  -- says, and none of them is missing.
  pub process-IsWhole :
      (now : ℕ) (input : Json) (st : Gather) (items : List (Option Json))
      → IsValid js st
      → (process js pipeline now input st).2 ≡ gathered items
      → (part : Part) × (part? js input ≡ some part) × IsWhole part.total items
  unfolding process process_part
  process-IsWhole now input st items v h = elim (Option-cases (part? js input)) [
    | inl other ↦ absurd (ground (arith, other))
    | inr (part, found) ↦ (
      part,
      found,
      take_part-IsWhole now part (let_go_of_stale now st).0 items (part-inside js input part found)
          (let_go_of_stale-IsValid js now st v) (ground (arith, found)),
    )
  ]
