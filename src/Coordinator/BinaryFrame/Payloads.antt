-- ===== src/Coordinator/BinaryFrame/Payloads.antt =====
-- A value that a payload stands for, and the payload that it leaves as again.
use hkp_node.Shared.{
  ℕ, ◌≡◌, refl, sym, subst, ap, ◌∙◌, String, List, Option, none, some, string_eq, arith,
  Option-cases, inl, inr,
}
use hkp_node.Shared.Json.{Json, Fields, Number, field?, delete_field, count_fields}
use hkp_node.Coordinator.BinaryFrame.{
  plain, float_ring_buffer, mixed, Payload, shape_of, payload_of_fields, to_binary_payload,
  value_of, from_binary_payload, ring_of,
}
use hkp_node.Coordinator.BinaryFrame.RoundTrip.{field?-set_field, delete_field-set_field}

field?-delete_field :
    (name : String) (fields : Fields) → field? name (delete_field name fields) ≡ none
unfolding field? delete_field
field?-delete_field name Fields.end = refl
field?-delete_field name (Fields.field n v rest) = ground (arith, field?-delete_field name rest)

to-value_of_mixed :
    (json : Fields) (bytes : List ℕ)
    → field? "binary" json ≡ none
    → to_binary_payload (value_of (mixed json) bytes)
      ≡ some (record { shape = shape_of json; bytes = bytes })
unfolding to_binary_payload value_of payload_of_fields
to-value_of_mixed json bytes free = ground (
  arith,
  field?-set_field "binary" (Json.bytes bytes) json,
  delete_field-set_field "binary" (Json.bytes bytes) json free,
)

to-value_of_ring :
    (id ts : Number) (bytes : List ℕ)
    → to_binary_payload (value_of (float_ring_buffer id ts) bytes)
      ≡ some (record { shape = float_ring_buffer id ts; bytes = bytes })
unfolding to_binary_payload value_of payload_of_fields field? delete_field shape_of ring_of
to-value_of_ring id ts bytes = refl

-- An object's shape stays through the value that it stands for.
to-value_of :
    (json : Fields) (bytes : List ℕ)
    → field? "binary" json ≡ none
    → to_binary_payload (value_of (shape_of json) bytes)
      ≡ some (record { shape = shape_of json; bytes = bytes })
unfolding shape_of
to-value_of json bytes free =
    elim (Option-cases
      (ring_of (field? "type" json) (field? "id" json) (field? "ts" json) (count_fields json))) [
        | inl other ↦
            let same : shape_of json ≡ mixed json = rw (other, shape_of) refl in
            ap (λ s. to_binary_payload (value_of s bytes)) same ∙ to-value_of_mixed json bytes free
        | inr ((id, ts), ring) ↦
            let same : shape_of json ≡ float_ring_buffer id ts = rw (ring, shape_of) refl in
            subst
              (λ s.
                to_binary_payload (value_of s bytes) ≡ some (record { shape = s; bytes = bytes }))
              (sym same) (to-value_of_ring id ts bytes)
      ]

leaves_again :
    (binary : Option Json) (fields : Fields) (payload : Payload)
    → payload_of_fields binary fields ≡ some payload
    → to_binary_payload (from_binary_payload payload) ≡ some payload
unfolding payload_of_fields from_binary_payload
leaves_again (some (Json.bytes bytes)) fields payload h =
    subst (λ p. to_binary_payload (from_binary_payload p) ≡ some p) (ground (arith, h))
      (to-value_of (delete_field "binary" fields) bytes (field?-delete_field "binary" fields))
leaves_again (some Json.null) fields payload h = cc
leaves_again (some Json.undefined) fields payload h = cc
leaves_again (some (Json.flag b)) fields payload h = cc
leaves_again (some (Json.number n)) fields payload h = cc
leaves_again (some (Json.str s)) fields payload h = cc
leaves_again (some (Json.arr items)) fields payload h = cc
leaves_again (some (Json.obj f)) fields payload h = cc
leaves_again none fields payload h = cc

-- A value that leaves as bytes and comes back leaves as the same bytes again: the same shape, with
-- the same id and time or the same other fields, and the same payload.
pub to_binary_payload-from_binary_payload :
    (value : Json) (payload : Payload)
    → to_binary_payload value ≡ some payload
    → to_binary_payload (from_binary_payload payload) ≡ some payload
unfolding to_binary_payload from_binary_payload payload_of_fields
to_binary_payload-from_binary_payload (Json.bytes bytes) payload h =
    let same : record { shape = plain; bytes = bytes } ≡ payload = ground (arith, h) in
    subst (λ p. to_binary_payload (from_binary_payload p) ≡ some p) same refl
to_binary_payload-from_binary_payload (Json.obj fields) payload h =
    leaves_again (field? "binary" fields) fields payload h
to_binary_payload-from_binary_payload Json.null payload h = cc
to_binary_payload-from_binary_payload Json.undefined payload h = cc
to_binary_payload-from_binary_payload (Json.flag b) payload h = cc
to_binary_payload-from_binary_payload (Json.number n) payload h = cc
to_binary_payload-from_binary_payload (Json.str s) payload h = cc
to_binary_payload-from_binary_payload (Json.arr items) payload h = cc
