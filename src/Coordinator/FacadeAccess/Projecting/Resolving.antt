-- ===== src/Coordinator/FacadeAccess/Projecting/Resolving.antt =====
-- coordinator/facadeAccess.ts, `pick`: what it returns has the paths, each as it was, and nothing else.
use hkp_node.Shared.{
  ℕ, ◌≡◌, refl, sym, ◌∙◌, ap, subst, ◌&&◌, inl, inr, String, Bool, true, false, List, [], ◌∷◌,
  Option, some, All, ◌==◌, string_eq, arith, eq_iff, Bool-cases,
}
use hkp_node.Shared.Json.{
  Json, Fields, null, undefined, flag, number, str, bytes, arr, obj, end, field?, set_field,
}
use hkp_node.Coordinator.FacadeAccess.Showing.Tabs.{field?-set_field}
use hkp_node.Coordinator.FacadeAccess.Projecting.{
  is_plain, is_missing, child, child_of, write_keys, own, read_keys, pick_one, pick_all,
}
use hkp_node.Coordinator.FacadeAccess.Projecting.Paths.{
  are_apart, is_clear, is_open, read_keys-undefined, read_keys-write_keys, read_keys-write_apart,
}

-- A path with a name in it and no machinery.
abbrev pub is_readable : List String → Bool
is_readable [] = false
is_readable (key ∷ keys) = is_plain (key ∷ keys)

-- No path begins with another.
abbrev pub AreApart : List (List String) → Type 0
AreApart [] = Unit
AreApart (keys ∷ paths) = All (λ js. are_apart js keys ≡ true) paths × AreApart paths

are_apart_comm : (js ks : List String) → are_apart js ks ≡ are_apart ks js
are_apart_comm [] [] = refl
are_apart_comm [] (k ∷ ks) = refl
are_apart_comm (j ∷ js) [] = refl
are_apart_comm (j ∷ js) (k ∷ ks) = ground (arith, are_apart_comm js ks, eq_iff j k, eq_iff k j)

is_clear-write_keys :
    (fields : Fields) (js ks : List String) (value : Json)
    → are_apart js ks ≡ true
    → is_clear fields js ≡ true
    → is_clear (write_keys fields ks value) js ≡ true
unfolding is_clear write_keys
is_clear-write_keys fields [] ks value apart clear = refl
is_clear-write_keys fields (j ∷ []) ks value apart clear = refl
is_clear-write_keys fields (j ∷ i ∷ js) [] value apart clear = ground (arith, apart)
is_clear-write_keys fields (j ∷ i ∷ js) (k ∷ []) value apart clear =
    let same : field? j (set_field k value fields) ≡ field? j fields =
      field?-set_field k j value fields ∙ ground (arith, apart, eq_iff j k, eq_iff k j) in
    subst (λ o. (is_open o && is_clear (child_of o) (i ∷ js)) ≡ true) (sym same) clear
is_clear-write_keys fields (j ∷ i ∷ js) (k ∷ l ∷ ks) value apart clear =
    let deeper = obj (write_keys (child k fields) (l ∷ ks) value) in
    elim (Bool-cases (j == k)) [
      | inr e ↦
          let same : field? j (set_field k deeper fields) ≡ field? j fields =
            field?-set_field k j deeper fields ∙ ground (arith, e, eq_iff j k, eq_iff k j) in
          subst (λ o. (is_open o && is_clear (child_of o) (i ∷ js)) ≡ true) (sym same) clear
      | inl e ↦
          let names : j ≡ k = ground (arith, e, eq_iff j k) in
          let same : field? j (set_field k deeper fields) ≡ some deeper =
            field?-set_field k j deeper fields ∙ ground (arith, e, eq_iff j k, eq_iff k j) in
          let rest : is_clear (child k fields) (i ∷ js) ≡ true =
            subst (λ n. is_clear (child n fields) (i ∷ js) ≡ true) names (ground (arith, clear)) in
          subst (λ o. (is_open o && is_clear (child_of o) (i ∷ js)) ≡ true) (sym same)
            (is_clear-write_keys (child k fields) (i ∷ js) (l ∷ ks) value (ground (arith, apart, e))
              rest)
    ]

is_clear_end : (js : List String) → is_clear end js ≡ true
unfolding is_clear field?
is_clear_end [] = refl
is_clear_end (j ∷ []) = refl
is_clear_end (j ∷ i ∷ js) = is_clear_end (i ∷ js)

is_missing-eq : (v : Json) → is_missing v ≡ true → v ≡ undefined
is_missing-eq undefined h = refl
is_missing-eq null h = ground (arith, h)
is_missing-eq (flag b) h = ground (arith, h)
is_missing-eq (number n) h = ground (arith, h)
is_missing-eq (str s) h = ground (arith, h)
is_missing-eq (bytes b) h = ground (arith, h)
is_missing-eq (arr items) h = ground (arith, h)
is_missing-eq (obj fields) h = ground (arith, h)

module _ (array_index : String → Option ℕ) (value : Json) where
  -- A path that is not there yet, and on whose way are only objects.
  abbrev IsFresh : Fields → List String → Type 0
  IsFresh picked js =
      (is_clear picked js ≡ true) × (read_keys array_index (obj picked) js ≡ undefined)

  pick_one-apart :
      (picked : Fields) (js ks : List String)
      → are_apart js ks ≡ true
      → is_clear picked ks ≡ true
      → read_keys array_index (obj (pick_one array_index value ks picked)) js
        ≡ read_keys array_index (obj picked) js
  unfolding pick_one
  pick_one-apart picked js ks apart clear = ground (
    arith,
    read_keys-write_apart array_index picked js ks (read_keys array_index value ks) apart clear,
  )

  pick_one-clear :
      (picked : Fields) (js ks : List String)
      → are_apart js ks ≡ true
      → is_clear picked js ≡ true
      → is_clear (pick_one array_index value ks picked) js ≡ true
  unfolding pick_one
  pick_one-clear picked js ks apart clear =
      ground (
        arith,
        clear,
        is_clear-write_keys picked js ks (read_keys array_index value ks) apart clear,
      )

  IsFresh-pick_one :
      (picked : Fields) (ks : List String) (paths : List (List String))
      → is_clear picked ks ≡ true
      → All (λ js. are_apart js ks ≡ true) paths
      → All (IsFresh picked) paths
      → All (IsFresh (pick_one array_index value ks picked)) paths
  IsFresh-pick_one picked ks [] clear apart fresh = tt
  IsFresh-pick_one picked ks (js ∷ paths) clear apart fresh = (
    (
      pick_one-clear picked js ks apart.0 (fresh.0).0,
      pick_one-apart picked js ks apart.0 clear ∙ (fresh.0).1,
    ),
    IsFresh-pick_one picked ks paths clear apart.1 fresh.1,
  )

  pick_one_self :
      (picked : Fields) (ks : List String)
      → is_readable ks ≡ true
      → read_keys array_index (obj picked) ks ≡ undefined
      → read_keys array_index (obj (pick_one array_index value ks picked)) ks
        ≡ read_keys array_index value ks
  unfolding pick_one
  pick_one_self picked [] readable fresh = ground (arith, readable)
  pick_one_self picked (k ∷ ks) readable fresh =
      elim (Bool-cases (is_missing (read_keys array_index value (k ∷ ks)))) [
        | inl m ↦
            rw (m, pick_one) (fresh ∙ sym (is_missing-eq (read_keys array_index value (k ∷ ks)) m))
        | inr m ↦
            rw (m, pick_one)
              (rw readable (
                read_keys-write_keys array_index picked k ks (read_keys array_index value (k ∷ ks))
                  readable))
      ]

  pick_all-apart :
      (paths : List (List String)) (picked : Fields) (js : List String)
      → All (λ ks. are_apart js ks ≡ true) paths
      → AreApart paths
      → All (IsFresh picked) paths
      → read_keys array_index (obj (pick_all array_index value paths picked)) js
        ≡ read_keys array_index (obj picked) js
  unfolding pick_all
  pick_all-apart [] picked js apart paths fresh = refl
  pick_all-apart (ks ∷ paths) picked js apart pairs fresh =
      pick_all-apart paths (pick_one array_index value ks picked) js apart.1 pairs.1
        (IsFresh-pick_one picked ks paths (fresh.0).0 pairs.0 fresh.1)
      ∙ pick_one-apart picked js ks apart.0 (fresh.0).0

  flipped :
      (ks : List String) (paths : List (List String))
      → All (λ js. are_apart js ks ≡ true) paths
      → All (λ js. are_apart ks js ≡ true) paths
  flipped ks [] h = tt
  flipped ks (js ∷ paths) h = (are_apart_comm ks js ∙ h.0, flipped ks paths h.1)

  pick_all-each :
      (paths : List (List String)) (picked : Fields)
      → All (λ ks. is_readable ks ≡ true) paths
      → AreApart paths
      → All (IsFresh picked) paths
      → All
          (λ ks.
            read_keys array_index (obj (pick_all array_index value paths picked)) ks
            ≡ read_keys array_index value ks)
          paths
  unfolding pick_all
  pick_all-each [] picked readable pairs fresh = tt
  pick_all-each (ks ∷ paths) picked readable pairs fresh =
      let next = IsFresh-pick_one picked ks paths (fresh.0).0 pairs.0 fresh.1 in
      (
        pick_all-apart paths (pick_one array_index value ks picked) ks (flipped ks paths pairs.0)
              pairs.1 next
            ∙ pick_one_self picked ks readable.0 (fresh.0).1,
        pick_all-each paths (pick_one array_index value ks picked) readable.1 pairs.1 next,
      )

  IsFresh-end :
      (paths : List (List String))
      → All (λ ks. is_readable ks ≡ true) paths
      → All (IsFresh end) paths
  unfolding read_keys field?
  IsFresh-end [] h = tt
  IsFresh-end ([] ∷ paths) h = ground (arith, h.0)
  IsFresh-end ((k ∷ ks) ∷ paths) h = (
    (
      is_clear_end (k ∷ ks),
      ap (λ x. read_keys array_index x ks)
            (let e : own array_index k (obj end) ≡ undefined = ground arith in e)
          ∙ read_keys-undefined array_index ks,
    ),
    IsFresh-end paths h.1,
  )

  -- Of paths of which none begins with another and none is empty or names machinery, each resolves in
  -- what is picked to what it resolves to in the value, and a path apart from all of them is not there.
  pub pick_all-resolves :
      (paths : List (List String)) (js : List String)
      → All (λ ks. is_readable ks ≡ true) paths
      → AreApart paths
      → is_readable js ≡ true
      → All (λ ks. are_apart js ks ≡ true) paths
      → All
          (λ ks.
            read_keys array_index (obj (pick_all array_index value paths end)) ks
            ≡ read_keys array_index value ks)
          paths
        × (read_keys array_index (obj (pick_all array_index value paths end)) js ≡ undefined)
  pick_all-resolves paths js readable pairs full apart = (
    pick_all-each paths end readable pairs (IsFresh-end paths readable),
    pick_all-apart paths end js apart pairs (IsFresh-end paths readable)
        ∙ (IsFresh-end (js ∷ []) (full, tt)).0.1,
  )
