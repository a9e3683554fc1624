-- ===== src/Tests/Coordinator.antt =====
-- The theorems on coordinator/binaryFrame.ts and coordinator/members.ts at concrete inputs.
use hkp_node.Shared.{true, String, none, ◌≡◌, refl, [], ◌∷◌, some}
use hkp_node.Shared.Json.{Json, Fields, nat}
use hkp_node.Shared.Json
use hkp_node.Shared.Json.{Items, property?}
use hkp_node.Runtime.Context.{Caller, member}
use hkp_node.Coordinator.Members.{BoardMember, Texts}
use hkp_node.Coordinator.BinaryFrame.{
  plain, float_ring_buffer, Payload, Printing, encode, decode, head_of, to_binary_payload,
  from_binary_payload,
}
use hkp_node.Coordinator.BinaryFrame.RoundTrip.{decode-encode}
use hkp_node.Coordinator.BinaryFrame.Payloads.{to_binary_payload-from_binary_payload}

abbrev header : Fields
header = Fields.field "type" (Json.str "result") Fields.end

abbrev sound : Payload
sound = record { shape = plain; bytes = 7 ∷ 8 ∷ [] }

-- The head of the one frame below, as an object and as bytes that stand for its text.
abbrev head : Json
head = Json.obj (
    Fields.field "type" (Json.str "result") (
      Fields.field "binary" (Json.obj (Fields.field "kind" (Json.str "bytes") Fields.end))
        Fields.end))

abbrev printing : Printing
printing = record { print = λ v. 123 ∷ 125 ∷ []; read = λ bytes. some head }

decode-encode_example :
    decode printing (0 ∷ 0 ∷ 0 ∷ 2 ∷ 123 ∷ 125 ∷ 7 ∷ 8 ∷ [])
    ≡ some (record { header = header; payload = sound })
unfolding encode head_of Json.field? Json.set_field
decode-encode_example =
    decode-encode printing header sound (0 ∷ 0 ∷ 0 ∷ 2 ∷ 123 ∷ 125 ∷ 7 ∷ 8 ∷ []) refl refl refl

abbrev ring : Json
ring = Json.obj (
    Fields.field "type" (Json.str "FloatRingBuffer") (
      Fields.field "binary" (Json.bytes (1 ∷ [])) (
        Fields.field "id" (Json.number (nat 4))
          (Fields.field "ts" (Json.number (nat 5)) Fields.end))))

abbrev ring_payload : Payload
ring_payload = record { shape = float_ring_buffer (nat 4) (nat 5); bytes = 1 ∷ [] }

to_binary_payload-from_binary_payload_example :
    to_binary_payload (from_binary_payload ring_payload) ≡ some ring_payload
unfolding to_binary_payload
to_binary_payload-from_binary_payload_example =
    to_binary_payload-from_binary_payload ring ring_payload refl

abbrev texts : Texts
texts = record {
  trim = λ s. s;
  to_lower_case = λ s. s;
  utf16_length = λ s. 1;
  looks_like_address = λ s. true;
}

abbrev entry_of : String → String → Json
entry_of email name =
    Json.obj
      (Fields.field "email" (Json.str email) (Fields.field "name" (Json.str name) Fields.end))

-- An address that is listed twice.
abbrev listed : Items
listed = Items.cons (entry_of "a@x" "Ann") (Items.cons (entry_of "a@x" "Anna") Items.nil)

abbrev anna : BoardMember
anna = record { email = "a@x"; name = "Anna" }

abbrev caller : Caller
caller = record { sub = "ann"; email = some "a@x"; name = none; role = some member }
