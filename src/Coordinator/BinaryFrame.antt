-- ===== src/Coordinator/BinaryFrame.antt =====
-- coordinator/binaryFrame.ts: a value of bytes as one frame, a header in JSON before its payload.
-- Bytes are numbers below 256. Printing and reading JSON as UTF-8 is the host's.
pub mod RoundTrip
pub mod Payloads
use hkp_node.Shared.{
  ℕ, ◌+◌, ◌*◌, ◌/◌, ◌%◌, ◌^◌, String, Bool, true, false, ◌&&◌, List, [], ◌∷◌, ◌++◌, Option, none,
  some, take, drop, length, ltb, leb, nat_beq, if◌then◌else◌, string_eq, ◌==◌, or_else,
}
use hkp_node.Shared.Json.{
  Json, Fields, Number, nat, field?, property?, set_field, delete_field, count_fields, fields_of,
}
use hkp_node.Shared.Json

-- `BinaryShape`
pub data Shape : Type 0 where
  plain : Shape
  float_ring_buffer : Number → Number → Shape
  mixed : Fields → Shape

-- `BinaryPayload`
pub record Payload : Type 0 where
  pub shape : Shape
  pub bytes : List ℕ

-- `BinaryFrame`
pub record Frame : Type 0 where
  pub header : Fields
  pub payload : Payload

-- `JSON.stringify` to UTF-8, and `JSON.parse` from it, `none` where it throws.
pub record Printing : Type 0 where
  pub print : Json → List ℕ
  pub read : List ℕ → Option Json

abbrev pub number_or_zero : Option Json → Number
number_or_zero (some (Json.number n)) = n
number_or_zero _ = nat 0

-- The shape that `readShape` finds under a `kind`.
unfoldable pub shape_of_kind : Option Json → Json → Option Shape
shape_of_kind (some (Json.str kind)) value =
    if kind == "bytes"
    then some plain
    else if kind == "floatRingBuffer"
    then some (
        float_ring_buffer (number_or_zero (property? "id" value))
          (number_or_zero (property? "ts" value)))
    else if kind == "mixed"
    then some
        (mixed (or_else (fields_of (or_else (property? "json" value) Json.undefined)) Fields.end))
    else none
shape_of_kind _ value = none

unfoldable pub read_shape : Json → Option Shape
unfolding shape_of_kind property?
read_shape value = elim (fields_of value) [
  | none ↦ none
  | some fields ↦ shape_of_kind (field? "kind" fields) value
]

-- A shape as the object that it is.
abbrev pub shape_object : Shape → Json
shape_object plain = Json.obj (Fields.field "kind" (Json.str "bytes") Fields.end)
shape_object (float_ring_buffer id ts) = Json.obj (
    Fields.field "kind" (Json.str "floatRingBuffer")
      (Fields.field "id" (Json.number id) (Fields.field "ts" (Json.number ts) Fields.end)))
shape_object (mixed json) =
    Json.obj
      (Fields.field "kind" (Json.str "mixed") (Fields.field "json" (Json.obj json) Fields.end))

abbrev pub length_bytes : ℕ
length_bytes = 4

-- `writeUInt32BE`, which throws past 32 bits.
unfoldable pub write_uint32 : ℕ → Option (List ℕ)
write_uint32 n =
    if ltb n (2 ^ 32)
    then some (n / 16_777_216 % 256 ∷ n / 65_536 % 256 ∷ n / 256 % 256 ∷ n % 256 ∷ [])
    else none

-- `readUInt32BE(0)`; `none` where there are fewer than four bytes.
unfoldable pub read_uint32 : List ℕ → Option ℕ
read_uint32 (a ∷ b ∷ c ∷ d ∷ rest) = some (a * 16_777_216 + b * 65_536 + c * 256 + d)
read_uint32 _ = none

module _ (printing : Printing) where
  open printing use {print, read}

  unfoldable pub head_of : Fields → Shape → List ℕ
  head_of header shape = print (Json.obj (set_field "binary" (shape_object shape) header))

  -- `encodeBinaryFrame`, `none` where it throws.
  unfoldable pub encode : Fields → Payload → Option (List ℕ)
  unfolding head_of write_uint32
  encode header payload = elim (write_uint32 (length (head_of header payload.shape))) [
    | none ↦ none
    | some size ↦ some (size ++ head_of header payload.shape ++ payload.bytes)
  ]

  -- A frame from its parsed head and the bytes after it.
  unfoldable pub framed : Json → List ℕ → Option Frame
  unfolding read_shape
  framed parsed bytes = elim (fields_of parsed) [
    | none ↦ none
    | some fields ↦ elim (read_shape (or_else (field? "binary" fields) Json.undefined)) [
      | none ↦ none
      | some shape ↦ some (record {
        header = delete_field "binary" fields;
        payload = record { shape = shape; bytes = bytes };
      })
    ]
  ]

  unfoldable pub decode_head : ℕ → List ℕ → Option Frame
  unfolding framed
  decode_head size frame =
      if ltb (length frame) (length_bytes + size)
      then none
      else (elim (read (take size (drop length_bytes frame))) [
        | none ↦ none
        | some parsed ↦ framed parsed (drop (length_bytes + size) frame)
      ])

  -- `decodeBinaryFrame`
  unfoldable pub decode : List ℕ → Option Frame
  unfolding read_uint32 decode_head
  decode frame = elim (read_uint32 frame) [ none ↦ none | some size ↦ decode_head size frame ]

abbrev pub ring_buffer_type : String
ring_buffer_type = "FloatRingBuffer"

-- The id and time of a ring buffer that is held as an object of three fields.
unfoldable pub ring_of : Option Json → Option Json → Option Json → ℕ → Option (Number × Number)
ring_of (some (Json.str kind)) (some (Json.number id)) (some (Json.number ts)) count =
    if kind == ring_buffer_type && nat_beq count 3 then some (id, ts) else none
ring_of _ _ _ count = none

-- What `toBinaryPayload` makes of an object without its `binary`.
unfoldable pub shape_of : Fields → Shape
unfolding ring_of field?
shape_of json =
    elim (ring_of (field? "type" json) (field? "id" json) (field? "ts" json) (count_fields json)) [
      | none ↦ mixed json
      | some (id, ts) ↦ float_ring_buffer id ts
    ]

unfoldable pub payload_of_fields : Option Json → Fields → Option Payload
unfolding shape_of field? delete_field
payload_of_fields (some (Json.bytes bytes)) fields =
    let json = delete_field "binary" fields in
    some (record { shape = shape_of json; bytes = bytes })
payload_of_fields _ fields = none

-- `toBinaryPayload`
unfoldable pub to_binary_payload : Json → Option Payload
unfolding payload_of_fields field?
to_binary_payload (Json.bytes bytes) = some (record { shape = plain; bytes = bytes })
to_binary_payload (Json.obj fields) = payload_of_fields (field? "binary" fields) fields
to_binary_payload Json.null = none
to_binary_payload Json.undefined = none
to_binary_payload (Json.flag b) = none
to_binary_payload (Json.number n) = none
to_binary_payload (Json.str s) = none
to_binary_payload (Json.arr items) = none

unfoldable pub value_of : Shape → List ℕ → Json
unfolding set_field
value_of plain bytes = Json.bytes bytes
value_of (float_ring_buffer id ts) bytes = Json.obj (
    Fields.field "type" (Json.str ring_buffer_type) (
      Fields.field "id" (Json.number id)
        (Fields.field "ts" (Json.number ts) (Fields.field "binary" (Json.bytes bytes) Fields.end))))
value_of (mixed json) bytes = Json.obj (set_field "binary" (Json.bytes bytes) json)

-- `fromBinaryPayload`
unfoldable pub from_binary_payload : Payload → Json
unfolding value_of
from_binary_payload payload = value_of payload.shape payload.bytes
