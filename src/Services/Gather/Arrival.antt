-- ===== src/Services/Gather/Arrival.antt =====
-- How services/gather.ts takes in one part of a group that is arriving.
use mathlib.Core.Path.{ap₂}
use hkp_node.Shared.{
  ℕ, suc, ◌+◌, ◌≤◌, ◌<◌, ◌≡◌, refl, sym, ap, subst, ◌∙◌, inl, inr, String, true, false, ◌&&◌, List,
  [], ◌∷◌, map, Option, none, some, arith, eq_iff, leb, ltb, length, get_elem?, string_eq, nat_eq,
  ◌==◌, Bool-cases, All,
}
use native.Mathlib.Nat.{le_refl, le_trans}
use hkp_node.Shared.OrderedMap.{
  OrderedMap, get, has, set, Absent, Distinct, get-set, get-delete, length-set, length-delete-le,
  set-Distinct, delete-Distinct, get_of_Absent,
}
use hkp_node.Shared.Json.{Json, Js}
use hkp_node.Services.Gather.{
  Part, Collecting, Settings, Gather, stopped, size_of, is_stale, drop_if_stale, drop_stale_groups,
  drop_stale_refusals, let_go_of_stale, items_from, whole, store_part, add_part, new_group,
  take_part,
}

-- Letting go of what is stale leaves a group that is not stale where it is.
abbrev pub IsKept : ℕ → Settings → String → String × Collecting → Type 0
IsKept now s g e = (e.0 == g && is_stale now s e.1.started_at) ≡ false

abbrev pub SameGroup : String → Gather → Gather → Type 0
SameGroup g st st' =
    (get g st'.collecting ≡ get g st.collecting)
    × (st'.settings ≡ st.settings)
    × (st'.refused ≡ st.refused)
    × (Distinct st.collecting → Distinct st'.collecting)
    × (length st'.collecting ≤ length st.collecting)

drop_if_stale-SameGroup :
    (now : ℕ) (g group : String) (c : Collecting) (st : Gather)
    → IsKept now st.settings g (group, c)
    → SameGroup g st (drop_if_stale now group c st).0
unfolding drop_if_stale
drop_if_stale-SameGroup now g group c st k =
    elim (Bool-cases (is_stale now st.settings c.started_at)) [
      | inl stale ↦ rw stale (
        ground (arith, get-delete group g st.collecting, stale, k),
        refl,
        refl,
        delete-Distinct group st.collecting,
        length-delete-le group st.collecting,
      )
      | inr fresh ↦ rw fresh (refl, refl, refl, (λ d. d), le_refl (length st.collecting))
    ]

pub drop_stale_groups-SameGroup :
    (now : ℕ) (g : String) (es : List (String × Collecting)) (st : Gather)
    → All (IsKept now st.settings g) es
    → SameGroup g st (drop_stale_groups now es st).0
unfolding drop_stale_groups
drop_stale_groups-SameGroup now g [] st k =
    (refl, refl, refl, (λ d. d), le_refl (length st.collecting))
drop_stale_groups-SameGroup now g ((group, c) ∷ es) st k =
    let st' : Gather = (drop_if_stale now group c st).0 in
    let (e, s, r, d, l) = drop_if_stale-SameGroup now g group c st k.0 in
    let (e', s', r', d', l') =
      drop_stale_groups-SameGroup now g es st' (subst (λ t. All (IsKept now t g) es) (sym s) k.1) in
    (e' ∙ e, s' ∙ s, r' ∙ r, (λ x. d' (d x)), le_trans l' l)

pub IsKept-of_absent :
    (now : ℕ) (s : Settings) (g : String) (m : OrderedMap String Collecting)
    → get g m ≡ none
    → All (IsKept now s g) m
unfolding get
IsKept-of_absent now s g [] h = tt
IsKept-of_absent now s g ((group, b) ∷ m) h = ground (arith, IsKept-of_absent now s g m)

pub IsKept-of_fresh :
    (now : ℕ) (s : Settings) (g : String) (c : Collecting) (m : OrderedMap String Collecting)
    → Distinct m
    → get g m ≡ some c
    → is_stale now s c.started_at ≡ false
    → All (IsKept now s g) m
unfolding get
IsKept-of_fresh now s g c [] d h f = tt
IsKept-of_fresh now s g c ((group, b) ∷ m) d h f = elim (Bool-cases (group == g)) [
  | inl same ↦
      let here : b ≡ c = ground arith in
      (
        ground (arith, rw (← here) at f),
        IsKept-of_absent now s g m
            (get_of_Absent g m (subst (λ k. Absent k m) ((eq_iff group g).0 same) d.0)),
      )
  | inr other ↦ (ground arith, IsKept-of_fresh now s g c m d.1 (ground arith) f)
]

pub has-drop_stale_refusals :
    (now : ℕ) (s : Settings) (g : String) (m : OrderedMap String ℕ)
    → has g m ≡ false
    → has g (drop_stale_refusals now s m) ≡ false
unfolding drop_stale_refusals has
has-drop_stale_refusals now s g [] h = h
has-drop_stale_refusals now s g ((group, at) ∷ m) h =
    ground (arith, has-drop_stale_refusals now s g m)

-- The items in order, when each index holds its item.
pub items_from-eq :
    (i : ℕ) (xs : List Json) (m : OrderedMap ℕ Json)
    → ((j : ℕ) → j < length xs → get (i + j) m ≡ get_elem? xs j)
    → items_from i (length xs) m ≡ map some xs
unfolding items_from
items_from-eq i [] m h = refl
items_from-eq i (x ∷ xs) m h =
    ap₂ (λ o os. o ∷ os) (ap (λ k. get k m) (omega arith) ∙ h 0 (omega arith))
      (items_from-eq (i + 1) xs m
        (λ j l. ap (λ k. get k m) (omega arith) ∙ h (suc j) (omega arith)))

module _ (js : Js) (pipeline : Option (String → List (Option Json) → Json)) where
  -- A group that is arriving in a state: what the next part of it meets.
  pub record Awaits (g : String) (c : Collecting) (st : Gather) : Type 0 where
    pub found : get g st.collecting ≡ some c
    pub free : has g st.refused ≡ false
    pub distinct : Distinct st.collecting

  abbrev pub with_part : Part → Collecting → Collecting
  with_part part c = record c {
    items = set part.index part.item c.items;
    bytes = c.bytes + size_of js part.item;
  }

  pub let_go-Awaits :
      (now : ℕ) (g : String) (c : Collecting) (st : Gather)
      → is_stale now st.settings c.started_at ≡ false
      → Awaits g c st
      → Awaits g c (let_go_of_stale now st).0 × ((let_go_of_stale now st).0.settings ≡ st.settings)
  unfolding let_go_of_stale
  let_go-Awaits now g c st f a =
      let (e, s, r, d, l) =
        drop_stale_groups-SameGroup now g st.collecting st
          (IsKept-of_fresh now st.settings g c st.collecting a.distinct a.found f) in
      (
        record {
          found = e ∙ a.found;
          free =
              has-drop_stale_refusals now (drop_stale_groups now st.collecting st).0.settings g _
                (rw r a.free);
          distinct = d a.distinct;
        },
        s,
      )

  -- One more part of a group that stays incomplete, and the part that completes it.
  pub add_part-next :
      (now : ℕ) (part : Part) (c : Collecting) (st : Gather)
      → c.total ≡ part.total
      → has part.index c.items ≡ false
      → c.bytes + size_of js part.item ≤ st.settings.max_bytes
      → suc (length c.items) < part.total
      → Awaits part.group c st
      → ((add_part js pipeline now part c st).2 ≡ stopped)
        × Awaits part.group (with_part part c) (add_part js pipeline now part c st).0
        × ((add_part js pipeline now part c st).0.settings ≡ st.settings)
  unfolding add_part store_part
  add_part-next now part c st same new fits more a =
      let size : length (set part.index part.item c.items) ≡ suc (length c.items) =
        ground (arith, length-set part.index part.item c.items, new) in
      let is_same : (c.total == part.total) ≡ true = ground arith in
      let is_fit : ltb st.settings.max_bytes (c.bytes + size_of js part.item) ≡ false =
        ground arith in
      let is_more : ltb (length (set part.index part.item c.items)) part.total ≡ true =
        ground (arith, size) in
      rw (is_same, new, is_fit, is_more)
        (
          refl,
          record {
            found = ground (
              arith,
              get-set part.group part.group (with_part part c) st.collecting,
              eq_iff part.group part.group,
            );
            free = a.free;
            distinct = set-Distinct part.group (with_part part c) st.collecting a.distinct;
          },
          refl,
        )

  pub add_part-last :
      (now : ℕ) (part : Part) (c : Collecting) (st : Gather)
      → c.total ≡ part.total
      → has part.index c.items ≡ false
      → c.bytes + size_of js part.item ≤ st.settings.max_bytes
      → suc (length c.items) ≡ part.total
      → (add_part js pipeline now part c st).2
        ≡ whole pipeline st.settings part.group
            (items_from 0 part.total (set part.index part.item c.items))
  unfolding add_part store_part
  add_part-last now part c st same new fits done =
      ground (arith, new, length-set part.index part.item c.items)

  -- A part of a group that a state awaits is added to it.
  pub take_part-found :
      (now : ℕ) (part : Part) (c : Collecting) (st : Gather)
      → Awaits part.group c st
      → take_part js pipeline now part st ≡ add_part js pipeline now part c st
  unfolding take_part
  take_part-found now part c st a = rw (a.free, a.found, take_part)

  -- A part of a group that nothing has arrived of begins it.
  pub take_part-begins :
      (now : ℕ) (part : Part) (st : Gather)
      → get part.group st.collecting ≡ none
      → has part.group st.refused ≡ false
      → length st.collecting < st.settings.max_groups
      → take_part js pipeline now part st
        ≡ add_part js pipeline now part
            (new_group now part)
            (record st { collecting = set part.group (new_group now part) st.collecting })
  unfolding take_part
  take_part-begins now part st new free room =
      let is_room : leb st.settings.max_groups (length st.collecting) ≡ false = ground arith in
      rw (free, new, is_room, take_part)
