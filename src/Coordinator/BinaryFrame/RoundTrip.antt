-- ===== src/Coordinator/BinaryFrame/RoundTrip.antt =====
-- A frame that is sent is the frame that arrives.
use mathlib.Core.List.{append_assoc}
use hkp_node.Shared.{
  ℕ, ◌+◌, ◌*◌, ◌/◌, ◌%◌, ◌<◌, ◌≡◌, refl, sym, ap, ◌∙◌, String, false, List, [], ◌∷◌, ◌++◌, none,
  some, take, drop, length, ltb, string_eq, arith, eq_iff, take-length-append, drop-length-append,
  length-append, Option-cases, Bool-cases, inl, inr,
}
use hkp_node.Shared.Json.{Json, Fields, field?, property?, set_field, delete_field}
use hkp_node.Coordinator.BinaryFrame.{
  Shape, plain, float_ring_buffer, mixed, Payload, Printing, read_shape, shape_of_kind,
  shape_object, write_uint32, read_uint32, head_of, encode, framed, decode_head, decode,
}

pub field?-set_field :
    (name : String) (value : Json) (fields : Fields)
    → field? name (set_field name value fields) ≡ some value
unfolding field? set_field
field?-set_field name value Fields.end = ground (arith, eq_iff name name)
field?-set_field name value (Fields.field n v rest) =
    ground (arith, eq_iff n name, eq_iff name name, field?-set_field name value rest)

pub delete_field-set_field :
    (name : String) (value : Json) (fields : Fields)
    → field? name fields ≡ none
    → delete_field name (set_field name value fields) ≡ fields
unfolding field? set_field delete_field
delete_field-set_field name value Fields.end h = ground (arith, eq_iff name name)
delete_field-set_field name value (Fields.field n v rest) h =
    ground (arith, h, delete_field-set_field name value rest)

read_shape-shape_object : (shape : Shape) → read_shape (shape_object shape) ≡ some shape
unfolding read_shape shape_of_kind field? property?
read_shape-shape_object plain = refl
read_shape-shape_object (float_ring_buffer id ts) = refl
read_shape-shape_object (mixed json) = refl

four_bytes :
    (n : ℕ)
    → n < 4_294_967_296
    → n / 16_777_216 % 256 * 16_777_216 + n / 65_536 % 256 * 65_536 + n / 256 % 256 * 256 + n % 256
      ≡ n
four_bytes n h = omega (arith, h)

write_uint32_lem :
    (n : ℕ) (size : List ℕ)
    → write_uint32 n ≡ some size
    → (n < 4_294_967_296)
      × (n / 16_777_216 % 256 ∷ n / 65_536 % 256 ∷ n / 256 % 256 ∷ n % 256 ∷ [] ≡ size)
unfolding write_uint32
write_uint32_lem n size h = elim (Bool-cases (ltb n 4_294_967_296)) [
  | inl small ↦ (ground (arith, small), ground (arith, small, h))
  | inr large ↦ absurd (ground (arith, large, h))
]

read_uint32-write_uint32 :
    (n : ℕ) (size rest : List ℕ)
    → write_uint32 n ≡ some size
    → (read_uint32 (size ++ rest) ≡ some n) × (length size ≡ 4)
unfolding read_uint32
read_uint32-write_uint32 n size rest h =
    let (small, bytes) = write_uint32_lem n size h in
    rw (← bytes) (ap some (four_bytes n small), refl)

decode_head-append :
    (printing : Printing) (size head bytes : List ℕ) (parsed : Json)
    → length size ≡ 4
    → printing.read head ≡ some parsed
    → decode_head printing (length head) (size ++ head ++ bytes) ≡ framed printing parsed bytes
unfolding decode_head
decode_head-append printing size head bytes parsed four h =
    let whole : 4 + length head ≡ length (size ++ head) =
      omega (arith, length-append size head, four) in
    let fits : ltb (length (size ++ head ++ bytes)) (4 + length head) ≡ false =
      ground (arith, length-append (size ++ head) bytes, length-append size head, four) in
    let inside : take (length head) (drop 4 (size ++ head ++ bytes)) ≡ head =
      ap (λ n. take (length head) (drop n (size ++ head ++ bytes))) (sym four)
      ∙ ap (λ xs. take (length head) (drop (length size) xs)) (append_assoc size head bytes)
      ∙ ap (take (length head)) (drop-length-append size (head ++ bytes))
      ∙ take-length-append head bytes in
    let after : drop (4 + length head) (size ++ head ++ bytes) ≡ bytes =
      ap (λ n. drop n (size ++ head ++ bytes)) whole ∙ drop-length-append (size ++ head) bytes in
    rw (fits, inside, h, after) refl

decode_sized :
    (printing : Printing) (n : ℕ) (frame : List ℕ)
    → read_uint32 frame ≡ some n
    → decode printing frame ≡ decode_head printing n frame
unfolding decode
decode_sized printing n frame h = rw (h, decode) refl

framed_lem :
    (printing : Printing) (header : Fields) (payload : Payload)
    → field? "binary" header ≡ none
    → framed printing
        (Json.obj (set_field "binary" (shape_object payload.shape) header))
        payload.bytes
      ≡ some (record { header = header; payload = payload })
unfolding framed
framed_lem printing header payload free = ground (
  arith,
  field?-set_field "binary" (shape_object payload.shape) header,
  read_shape-shape_object payload.shape,
  delete_field-set_field "binary" (shape_object payload.shape) header free,
)

-- A frame that is sent is the frame that arrives: the same header, shape and bytes. The header must
-- have no field `binary` of its own, and the host must read back the head that it printed.
pub decode-encode :
    (printing : Printing) (header : Fields) (payload : Payload) (sent : List ℕ)
    → encode printing header payload ≡ some sent
    → field? "binary" header ≡ none
    → printing.read (head_of printing header payload.shape)
      ≡ some (Json.obj (set_field "binary" (shape_object payload.shape) header))
    → decode printing sent ≡ some (record { header = header; payload = payload })
unfolding encode decode framed
decode-encode printing header payload sent h free back =
    let head = head_of printing header payload.shape in
    elim (Option-cases (write_uint32 (length head))) [
      | inl thrown ↦ absurd (ground (arith, thrown, h))
      | inr (size, written) ↦
          let (sized, four) =
            read_uint32-write_uint32 (length head) size (head ++ payload.bytes) written in
          let whole : sent ≡ size ++ head ++ payload.bytes = ground (arith, written, h) in
          let starts : read_uint32 (size ++ head ++ payload.bytes) ≡ some (length head) =
            ap read_uint32 (append_assoc size head payload.bytes) ∙ sized in
          ap (decode printing) whole
          ∙ decode_sized printing (length head) (size ++ head ++ payload.bytes) starts
          ∙ decode_head-append printing size head payload.bytes
              (Json.obj (set_field "binary" (shape_object payload.shape) header)) four back
          ∙ framed_lem printing header payload free
    ]
