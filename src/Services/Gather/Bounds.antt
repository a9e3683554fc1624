-- ===== src/Services/Gather/Bounds.antt =====
-- The memory bounds of services/gather.ts as an invariant of its state.
use hkp_node.Shared.{
  ℕ, ◌+◌, ◌≤◌, ◌<◌, ◌≡◌, refl, inl, inr, String, true, false, List, [], ◌∷◌, Option, none, some,
  arith, eq_iff, leb, ltb, length, string_eq, nat_eq, ◌==◌, Option-cases, Bool-cases, All, ltb→lt,
}
use native.Mathlib.Nat.{le_trans}
use hkp_node.Shared.OrderedMap.{
  OrderedMap, get, has, set, delete, Distinct, has-set, has_of_get, has_eq_false_of_get,
  delete-set_self, length-set, length-delete-le, All-set, All-delete, All-get, set-Distinct,
  delete-Distinct,
}
use hkp_node.Shared.Json.{Json, Js, property?}
use hkp_node.Services.Gather.{
  max_refused, Part, Collecting, Trouble, Settings, Gather, part?, part_of_fields, size_of,
  forget_oldest, refusing, is_stale, drop_if_stale, drop_stale_groups, drop_stale_refusals,
  let_go_of_stale, store_part, add_part, new_group, take_part, process_part, process,
}

module _ (js : Js) where
  -- What the items of a group cost to hold.
  pub size_items : OrderedMap ℕ Json → ℕ
  size_items [] = 0
  size_items ((i, item) ∷ m) = size_of js item + size_items m

  size_items-set :
      (i : ℕ) (item : Json) (m : OrderedMap ℕ Json)
      → has i m ≡ false
      → size_items (set i item m) ≡ size_items m + size_of js item
  unfolding size_items set has
  size_items-set i item [] h = omega arith
  size_items-set i item ((j, other) ∷ m) h = ground (arith, size_items-set i item m)

  -- A group that is held: within the byte limit, its bytes counted right, and not yet whole.
  pub record IsArriving (max_bytes : ℕ) (c : Collecting) : Type 0 where
    pub counted : size_items c.items ≡ c.bytes
    pub within : c.bytes ≤ max_bytes
    pub missing : length c.items < c.total
    pub distinct : Distinct c.items
    pub placed : All (λ e. e.0 < c.total) c.items

  pub record IsValid (st : Gather) : Type 0 where
    pub distinct : Distinct st.collecting
    pub few : length st.collecting ≤ st.settings.max_groups
    pub refusals : length st.refused ≤ max_refused
    pub arriving : All (λ e. IsArriving st.settings.max_bytes e.1) st.collecting

-- A group begins empty, and lacks the part that begins it.
pub new_group-IsArriving :
    (js : Js) (max_bytes now : ℕ) (part : Part)
    → part.index < part.total
    → IsArriving js max_bytes (new_group now part)
unfolding new_group size_items
new_group-IsArriving js max_bytes now part inside = record {
  counted = refl;
  within = omega arith;
  missing = omega arith;
  distinct = tt;
  placed = tt;
}

part_of_fields-inside :
    (js : Js) (item : Json) (group : Option String) (total index : Option ℕ) (part : Part)
    → part_of_fields js item group total index ≡ some part
    → part.index < part.total
unfolding part_of_fields
part_of_fields-inside js item (some g) (some t) (some i) part h = ground arith
part_of_fields-inside js item _ _ _ part h = cc

-- A part's index lies within its total.
pub part-inside :
    (js : Js) (input : Json) (part : Part) → part? js input ≡ some part → part.index < part.total
unfolding part?
part-inside js input part h = elim (Option-cases (property? "item" input)) [
  | inl missing ↦ absurd (cc (rw (missing, part?) at h))
  | inr (item, found) ↦ part_of_fields-inside js item _ _ _ part (rw (found, part?) at h)
]

length-forget_oldest-le : (m : OrderedMap String ℕ) → length (forget_oldest m) ≤ max_refused
unfolding forget_oldest
length-forget_oldest-le [] = omega arith
length-forget_oldest-le (e ∷ m) = ground (arith, length-forget_oldest-le m)

length-drop_stale_refusals-le :
    (now : ℕ) (s : Settings) (m : OrderedMap String ℕ)
    → length (drop_stale_refusals now s m) ≤ length m
unfolding drop_stale_refusals
length-drop_stale_refusals-le now s [] = omega arith
length-drop_stale_refusals-le now s ((group, at) ∷ m) =
    ground (arith, length-drop_stale_refusals-le now s m)

module _ (js : Js) where
  delete-IsValid :
      (group : String) (refused : OrderedMap String ℕ) (last : Option Trouble) (st : Gather)
      → length refused ≤ max_refused
      → IsValid js st
      → IsValid js (record st {
        collecting = delete group st.collecting;
        refused = refused;
        last_error = last;
      })
  delete-IsValid group refused last st r v = record {
    distinct = delete-Distinct group st.collecting v.distinct;
    few = le_trans (length-delete-le group st.collecting) v.few;
    refusals = r;
    arriving = All-delete _ group st.collecting v.arriving;
  }

  refusing-IsValid :
      (group : String) (now : ℕ) (reason : Trouble) (st : Gather)
      → IsValid js st
      → IsValid js (refusing group now reason st).0
  unfolding refusing
  refusing-IsValid group now reason st v =
      delete-IsValid group (forget_oldest (set group now st.refused)) (some reason) st
        (length-forget_oldest-le (set group now st.refused)) v

  drop_stale_groups-IsValid :
      (now : ℕ) (es : List (String × Collecting)) (st : Gather)
      → IsValid js st
      → IsValid js (drop_stale_groups now es st).0
  unfolding drop_stale_groups
  drop_stale_groups-IsValid now [] st v = v
  drop_stale_groups-IsValid now ((group, c) ∷ es) st v =
      drop_stale_groups-IsValid now es _
        (elim (Bool-cases (is_stale now st.settings c.started_at)) [
          | inl stale ↦
              rw (stale, drop_if_stale) (delete-IsValid group st.refused _ st v.refusals v)
          | inr fresh ↦ rw (fresh, drop_if_stale) v
        ])

  pub let_go_of_stale-IsValid :
      (now : ℕ) (st : Gather) → IsValid js st → IsValid js (let_go_of_stale now st).0
  unfolding let_go_of_stale
  let_go_of_stale-IsValid now st v =
      let w = drop_stale_groups-IsValid now st.collecting st v in
      record {
        distinct = w.distinct;
        few = w.few;
        refusals =
            le_trans
              (length-drop_stale_refusals-le now (drop_stale_groups now st.collecting st).0.settings
                (drop_stale_groups now st.collecting st).0.refused)
              w.refusals;
        arriving = w.arriving;
      }

  module _ (pipeline : Option (String → List (Option Json) → Json)) where
    store_part-IsValid :
        (bytes : ℕ) (part : Part) (c : Collecting) (st : Gather)
        → bytes ≡ c.bytes + size_of js part.item
        → bytes ≤ st.settings.max_bytes
        → c.total ≡ part.total
        → part.index < part.total
        → has part.index c.items ≡ false
        → has part.group st.collecting ≡ true
        → IsArriving js st.settings.max_bytes c
        → IsValid js st
        → IsValid js (store_part js pipeline bytes part c st).0
    unfolding store_part
    store_part-IsValid bytes part c st sum fits same inside new present a v =
        elim (Bool-cases (ltb (length (set part.index part.item c.items)) part.total)) [
          | inl more ↦ rw more (record {
            distinct = set-Distinct part.group _ st.collecting v.distinct;
            few = ground (
              arith,
              length-set part.group
                  (record c { items = set part.index part.item c.items; bytes = bytes })
                  st.collecting,
              present,
              v.few,
            );
            refusals = v.refusals;
            arriving =
                All-set _ part.group _ st.collecting
                  (record {
                    counted =
                        omega
                          (arith, size_items-set js part.index part.item c.items new, a.counted);
                    within = fits;
                    missing = omega (arith, ltb→lt _ _ more);
                    distinct = set-Distinct part.index part.item c.items a.distinct;
                    placed =
                        All-set (λ e. e.0 < c.total) part.index part.item c.items (omega arith)
                          a.placed;
                  })
                  v.arriving;
          })
          | inr done ↦
              rw (done, delete-set_self)
                (delete-IsValid part.group st.refused st.last_error st v.refusals v)
        ]

    pub add_part-IsValid :
        (now : ℕ) (part : Part) (c : Collecting) (st : Gather)
        → part.index < part.total
        → has part.group st.collecting ≡ true
        → IsArriving js st.settings.max_bytes c
        → IsValid js st
        → IsValid js (add_part js pipeline now part c st).0
    unfolding add_part
    add_part-IsValid now part c st inside present a v = elim (Bool-cases (c.total == part.total)) [
      | inr other ↦ rw other (refusing-IsValid part.group now _ st v)
      | inl same ↦ rw same (elim (Bool-cases (has part.index c.items)) [
        | inl twice ↦ rw twice v
        | inr new ↦
            rw new (elim (Bool-cases (ltb st.settings.max_bytes (c.bytes + size_of js part.item))) [
              | inl large ↦ rw large (refusing-IsValid part.group now _ st v)
              | inr fits ↦ rw fits (
                  store_part-IsValid (c.bytes + size_of js part.item) part c st refl (ground arith)
                    (ground arith) inside new present a v)
            ])
      ])
    ]

    take_part-IsValid :
        (now : ℕ) (part : Part) (st : Gather)
        → part.index < part.total
        → IsValid js st
        → IsValid js (take_part js pipeline now part st).0
    unfolding take_part new_group size_items
    take_part-IsValid now part st inside v = elim (Bool-cases (has part.group st.refused)) [
      | inl out ↦ rw out v
      | inr free ↦ elim (Option-cases (get part.group st.collecting)) [
        | inr (c, found) ↦
            rw (free, found, take_part)
              (add_part-IsValid now part c st inside (has_of_get part.group c st.collecting found)
                (All-get _ part.group c st.collecting found v.arriving) v)
        | inl new ↦ elim (Bool-cases (leb st.settings.max_groups (length st.collecting))) [
          | inl full ↦ rw (free, new, full, take_part) (refusing-IsValid part.group now _ st v)
          | inr room ↦
              rw (free, new, room, take_part)
                (add_part-IsValid now part (new_group now part)
                  (record st { collecting = set part.group (new_group now part) st.collecting })
                  inside
                  (rw (has-set part.group part.group)
                    (ground (arith, eq_iff part.group part.group)))
                  (new_group-IsArriving js st.settings.max_bytes now part inside)
                  (begun new (ground arith)))
        ]
      ]
    ]
      where
        begun :
            get part.group st.collecting ≡ none
            → length st.collecting < st.settings.max_groups
            → IsValid js
                (record st { collecting = set part.group (new_group now part) st.collecting })
        begun new room = record {
          distinct = set-Distinct part.group (new_group now part) st.collecting v.distinct;
          few = ground (
            arith,
            length-set part.group (new_group now part) st.collecting,
            has_eq_false_of_get part.group st.collecting new,
          );
          refusals = v.refusals;
          arriving =
              All-set _ part.group (new_group now part) st.collecting
                (new_group-IsArriving js st.settings.max_bytes now part inside) v.arriving;
        }

    -- Every call keeps the state valid: each group that is held is distinct, is within the byte limit,
    -- has its bytes counted right and lacks a part; no more groups are held than `maxGroups` and no
    -- more refusals remembered than `MAX_REFUSED`.
    pub process-IsValid :
        (now : ℕ) (input : Json) (st : Gather)
        → IsValid js st
        → IsValid js (process js pipeline now input st).0
    unfolding process process_part
    process-IsValid now input st v = elim (Bool-cases st.settings.bypass) [
      | inl on ↦ simp on v
      | inr off ↦ elim (Option-cases (part? js input)) [
        | inl other ↦ simp (off, other) v
        | inr (part, found) ↦
            simp (off, found)
              (take_part-IsValid now part (let_go_of_stale now st).0
                (part-inside js input part found) (let_go_of_stale-IsValid now st v))
      ]
    ]
