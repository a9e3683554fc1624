-- ===== src/Coordinator/FacadeAccess/Projecting/Paths.antt =====
-- coordinator/facadeAccess.ts: paths resolve in what `pick` returns to what they resolved to.
use hkp_node.Shared.{
  ℕ, ◌≡◌, refl, sym, ◌∙◌, ap, inl, inr, String, Bool, true, false, ◌&&◌, List, [], ◌∷◌, Option,
  none, some, if◌then◌else◌, ◌==◌, string_eq, or_else, arith, eq_iff, Bool-cases,
}
use hkp_node.Shared.Json.{
  Json, Fields, null, undefined, flag, number, str, bytes, arr, obj, field?, set_field,
}
use hkp_node.Coordinator.FacadeAccess.Showing.Tabs.{field?-set_field}
use hkp_node.Coordinator.FacadeAccess.Projecting.{
  is_machinery, is_plain, child, write_keys, own, read_keys, child_of,
}

-- Neither path begins with the other.
abbrev pub are_apart : List String → List String → Bool
are_apart [] keys = false
are_apart (j ∷ js) [] = false
are_apart (j ∷ js) (k ∷ ks) = let rest = are_apart js ks in if j == k then rest else true

abbrev pub is_open : Option Json → Bool
is_open none = true
is_open (some value) = elim value [ obj c ↦ true | _ ↦ false ]

-- What stands on the way of a path are objects, as far as it is there.
unfoldable pub is_clear : Fields → List String → Bool
is_clear fields [] = true
is_clear fields (key ∷ keys) =
    let deeper = is_clear (child key fields) keys in
    elim keys [ [] ↦ true | k ∷ ks ↦ is_open (field? key fields) && deeper ]

are_apart_nil : (js : List String) → are_apart js [] ≡ false
are_apart_nil [] = refl
are_apart_nil (j ∷ js) = refl

module _ (array_index : String → Option ℕ) where
  pub read_keys-undefined : (keys : List String) → read_keys array_index undefined keys ≡ undefined
  unfolding read_keys
  read_keys-undefined [] = refl
  read_keys-undefined (k ∷ keys) = read_keys-undefined keys

  own-set_field :
      (j k : String) (value : Json) (fields : Fields)
      → own array_index j (obj (set_field k value fields)) ≡ (
          if k == j
          then (if is_machinery j then undefined else value)
          else own array_index j (obj fields))
  own-set_field j k value fields = ground (arith, field?-set_field k j value fields)

  pub read_keys-write_keys :
      (fields : Fields) (k : String) (keys : List String) (value : Json)
      → is_plain (k ∷ keys) ≡ true
      → read_keys array_index (obj (write_keys fields (k ∷ keys) value)) (k ∷ keys) ≡ value
  unfolding read_keys write_keys
  read_keys-write_keys fields k [] value plain =
      ground (arith, plain, field?-set_field k k value fields, eq_iff k k)
  read_keys-write_keys fields k (j ∷ keys) value plain =
      let deeper = obj (write_keys (child k fields) (j ∷ keys) value) in
      let same : own array_index k (obj (set_field k deeper fields)) ≡ deeper =
        own-set_field k k deeper fields ∙ ground (arith, plain, eq_iff k k) in
      ap (λ x. read_keys array_index x (j ∷ keys)) same
      ∙ read_keys-write_keys (child k fields) j keys value (ground (arith, plain))

  -- What stands at an open name is read on as the object that `writePath` goes on in.
  own-child_of :
      (o : Option Json) (j : String)
      → is_open o ≡ true
      → own array_index j (obj (child_of o)) ≡ own array_index j (or_else o undefined)
  unfolding field?
  own-child_of none j h = ground arith
  own-child_of (some (obj c)) j h = refl
  own-child_of (some null) j h = ground (arith, h)
  own-child_of (some undefined) j h = ground (arith, h)
  own-child_of (some (flag b)) j h = ground (arith, h)
  own-child_of (some (number n)) j h = ground (arith, h)
  own-child_of (some (str s)) j h = ground (arith, h)
  own-child_of (some (bytes b)) j h = ground (arith, h)
  own-child_of (some (arr items)) j h = ground (arith, h)

  pub read_keys-write_apart :
      (fields : Fields) (js ks : List String) (value : Json)
      → are_apart js ks ≡ true
      → is_clear fields ks ≡ true
      → read_keys array_index (obj (write_keys fields ks value)) js
        ≡ read_keys array_index (obj fields) js
  unfolding read_keys write_keys is_clear
  read_keys-write_apart fields [] ks value apart clear = ground (arith, apart)
  read_keys-write_apart fields (j ∷ js) [] value apart clear = ground (arith, apart)
  read_keys-write_apart fields (j ∷ js) (k ∷ []) value apart clear =
      ap (λ x. read_keys array_index x js)
        (own-set_field j k value fields
          ∙ ground (arith, apart, are_apart_nil js, eq_iff j k, eq_iff k j))
  read_keys-write_apart fields (j ∷ []) (k ∷ l ∷ ks) value apart clear =
      own-set_field j k (obj (write_keys (child k fields) (l ∷ ks) value)) fields
      ∙ ground (arith, apart, eq_iff j k, eq_iff k j)
  read_keys-write_apart fields (j ∷ i ∷ js) (k ∷ l ∷ ks) value apart clear =
      let deeper = obj (write_keys (child k fields) (l ∷ ks) value) in
      elim (Bool-cases (j == k)) [
        | inr e ↦
            ap (λ x. read_keys array_index x (i ∷ js))
              (own-set_field j k deeper fields ∙ ground (arith, e, eq_iff j k, eq_iff k j))
        | inl e ↦ elim (Bool-cases (is_machinery j)) [
          | inl m ↦
              ap (λ x. read_keys array_index x (i ∷ js))
                (own-set_field j k deeper fields ∙ ground (arith, e, m, eq_iff j k, eq_iff k j))
          | inr m ↦
              let same : j ≡ k = ground (arith, e, eq_iff j k) in
              let here : own array_index j (obj (set_field k deeper fields)) ≡ deeper =
                own-set_field j k deeper fields ∙ ground (arith, e, m, eq_iff j k, eq_iff k j) in
              let there : own array_index j (obj fields) ≡ or_else (field? k fields) undefined =
                rw same (ground (arith, m, same)) in
              ap (λ x. read_keys array_index x (i ∷ js)) here
              ∙ read_keys-write_apart (child k fields) (i ∷ js) (l ∷ ks) value
                  (ground (arith, apart, e)) (ground (arith, clear))
              ∙ ap (λ x. read_keys array_index x js)
                  (own-child_of (field? k fields) i (ground (arith, clear)))
              ∙ sym (ap (λ x. read_keys array_index x (i ∷ js)) there)
        ]
      ]
