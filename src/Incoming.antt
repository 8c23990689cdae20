-- ===== src/Incoming.antt =====
-- Incoming messages: src/IncomingDBusMessage.h and src/IncomingDBusMessage.cpp.
pub mod Required
use cxx_bus.Base.{
  ℕ, Bool, true, false, not, ◌&&◌, List, [], ◌∷◌, Option, none, some, ◌==◌, if◌then◌else◌, Text,
  length, Result, ok, err, malformed_input, throw_if, ◌>>=◌, ◌>>◌, codes,
}
use cxx_bus.Codec.Types.{
  uint8, uint32, string, object_path, interface_name, signature, Ty, Variant, Value, word, text,
  basic, array, struct, variant, one, more, type_signature, Tys, Values,
}
use cxx_bus.Codec.Bytes.{Bytes}
use cxx_bus.Codec.Unmarshal.{unmarshal, check_signature, unmarshal_data, unmarshal_type}
use cxx_bus.Message.{
  MessageType, none_type, FieldCode, path, interface, member, error_name, reply_serial, destination,
  sender, signature_field, field_number, requires_field, header_fields, is_empty,
}

-- DBusMessageHeader with its ReplyData.
pub record Header : Type 0 where
  pub serial : ℕ
  pub reply_to : Option ℕ
  pub message_type : MessageType
  pub object : Option Text
  pub interface_of : Option Text
  pub method : Option Text
  pub error_of : Option Text
  pub signature_of : Option Text
  pub sender_of : Option Text
  pub destination_of : Option Text
  pub message_length : ℕ
  pub header_field_length : ℕ

-- IncomingDBusMessage.
pub record IncomingMessage : Type 0 where
  pub header : Header
  pub body : Bytes

-- `std::ranges::find_if` over the header fields, by the code.
unfoldable pub find_field : FieldCode → List (ℕ × Variant) → Option Variant
find_field code [] = none
find_field code ((n, v) ∷ fields) =
    let rest = find_field code fields in if n == field_number code then some v else rest

-- The message types for which HEADER_FIELDS requires a field.
unfoldable pub required_types :
    FieldCode → List (FieldCode × (MessageType × MessageType)) → MessageType × MessageType
required_types code [] = (none_type, none_type)
required_types code ((c, types) ∷ rows) =
    let rest = required_types code rows in
    if field_number c == field_number code then types else rest

abbrev pub is_none {ℓ} : {A : Type ℓ} → Option A → Bool
is_none none = true
is_none (some a) = false

-- The test that a field is there if the type of the message requires it.
unfoldable pub check_field : FieldCode → MessageType → List (ℕ × Variant) → Result (Unit {0})
check_field code t fields =
    throw_if
      (is_none (find_field code fields) && requires_field (required_types code header_fields) t)
      malformed_input

-- The value of a field, where it is there. The data of a FastVariant is a range of the buffer, with
-- nothing behind it.
unfoldable pub field_value : (t : Ty) → Option Variant → Result (Option (Value t))
field_value t none = ok none
field_value t (some v) = do value ← unmarshal_data t [] v; ok (some value)

abbrev pub fields_type : Ty
fields_type = array (struct (more (basic (word uint8)) (one variant)))

-- FIRST_HEADER_PART_SIZE, less the `uint32_t` of the array.
abbrev pub first_pointer : ℕ
first_pointer = 12

-- UnmarshalDBusHeader behind the unmarshalling of the fields.
unfoldable pub header_of : List (ℕ × Variant) → ℕ → MessageType → ℕ → ℕ → Result Header
header_of fields serial t header_field_length message_length = do
  throw_if (is_none (find_field signature_field fields) && not (message_length == 0))
      malformed_input
  check_field reply_serial t fields
  check_field path t fields
  check_field interface t fields
  check_field member t fields
  check_field sender t fields
  check_field destination t fields
  check_field error_name t fields
  reply_to ← field_value (basic (word uint32)) (find_field reply_serial fields)
  object ← field_value (basic (text object_path)) (find_field path fields)
  interface_of ← field_value (basic (text interface_name)) (find_field interface fields)
  method ← field_value (basic (text string)) (find_field member fields)
  error_of ← field_value (basic (text string)) (find_field error_name fields)
  signature_of ← field_value (basic (text signature)) (find_field signature_field fields)
  sender_of ← field_value (basic (text string)) (find_field sender fields)
  destination_of ← field_value (basic (text string)) (find_field sender fields)
  ok (record {
    serial = serial;
    reply_to = reply_to;
    message_type = t;
    object = object;
    interface_of = interface_of;
    method = method;
    error_of = error_of;
    signature_of = signature_of;
    sender_of = sender_of;
    destination_of = destination_of;
    message_length = message_length;
    header_field_length = header_field_length;
  })

-- UnmarshalDBusHeader.
unfoldable pub unmarshal_header : Bytes → ℕ → MessageType → ℕ → ℕ → Result Header
unmarshal_header bytes serial t header_field_length message_length = do
  check_signature (type_signature fields_type) (codes "a(yv)")
  (fields, end) ← unmarshal fields_type bytes first_pointer
  header_of fields serial t header_field_length message_length

-- HasArguments.
unfoldable pub has_arguments : IncomingMessage → Bool
has_arguments m = not (is_empty m.body)

abbrev pub text_of : Option Text → Text
text_of none = []
text_of (some s) = s

-- Get: an absent signature is dereferenced in the source; here it is the empty one.
unfoldable pub get : (t : Ty) → IncomingMessage → Result (Value t)
get t m = unmarshal_type t m.body (text_of m.header.signature_of)
