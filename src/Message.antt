-- ===== src/Message.antt =====
-- Outgoing messages: src/DBusMessage.h and src/DBusMessage.cpp, with the enumerations of
-- src/DBusTypes.h and the table HEADER_FIELDS of src/DBus.h. The members of the incoming message
-- that a reply takes over are arguments.
pub mod Building
pub mod Described
pub mod Fields
pub mod Sound
pub mod Wire
use cxx_bus.Base.{
  ℕ, ◌+◌, ◌*◌, ◌/◌, ◌%◌, ◌^◌, Bool, true, false, not, ◌||◌, ◌&&◌, List, [], ◌∷◌, ◌++◌, Option, none,
  some, ◌==◌, if◌then◌else◌, Text, length, Result, ok, err, serialization, runtime_error, ◌>>=◌,
}
use cxx_bus.Codec.Types.{
  uint8, uint32, string, object_path, interface_name, signature, Ty, Tys, Variant, Value, Values,
  word, text, basic, array, struct, variant, one, more, type_signature, monostate,
}
use cxx_bus.Codec.Bytes.{Bytes, apply_padding}
use cxx_bus.Codec.Marshal.{create_variant, marshal, marshal_complete, marshal_type}

-- DBusMessageType.
pub data MessageType : Type 0 where
  invalid method_call method_return error signal optional none_type : MessageType

abbrev pub type_number : MessageType → ℕ
type_number invalid = 0
type_number method_call = 1
type_number method_return = 2
type_number error = 3
type_number signal = 4
type_number optional = 254
type_number none_type = 255

-- HeaderFieldCode.
pub data FieldCode : Type 0 where
  invalid_field path interface member error_name reply_serial destination sender : FieldCode
  signature_field unix_fds none_field : FieldCode

abbrev pub field_number : FieldCode → ℕ
field_number invalid_field = 0
field_number path = 1
field_number interface = 2
field_number member = 3
field_number error_name = 4
field_number reply_serial = 5
field_number destination = 6
field_number sender = 7
field_number signature_field = 8
field_number unix_fds = 9
field_number none_field = 255

-- The rows of HEADER_FIELDS, without the type codes, which nothing reads: a code and
-- requiredMessageType.
abbrev pub header_fields : List (FieldCode × (MessageType × MessageType))
header_fields =
    (invalid_field, (none_type, none_type))
    ∷ (path, (method_call, signal))
    ∷ (interface, (signal, none_type))
    ∷ (member, (method_call, signal))
    ∷ (error_name, (error, none_type))
    ∷ (reply_serial, (error, method_return))
    ∷ (destination, (optional, optional))
    ∷ (sender, (optional, optional))
    ∷ (signature_field, (optional, optional))
    ∷ (unix_fds, (optional, optional))
    ∷ []

-- `std::ranges::contains(requiredMessageType, messageType)`.
unfoldable pub requires_field : MessageType × MessageType → MessageType → Bool
requires_field (a, b) t = (type_number a == type_number t) || (type_number b == type_number t)

-- class DBusMessage.
pub record Message : Type 0 where
  pub method : Option Text
  pub object : Option Text
  pub interface_of : Option Text
  pub flags : ℕ
  pub message_type : MessageType
  pub signature_of : Option Text
  pub destination_of : Option Text
  pub error_of : Option Text
  pub reply_to : Option ℕ
  pub body : Bytes

-- The four branches `!x.has_value() || x->empty()` that throw, and the one for `replySerial`.
unfoldable pub required_text :
    (s : Value (basic (text string)) → Variant) → Option Text → Result Variant
required_text make none = err serialization
required_text make (some []) = err serialization
required_text make (some (c ∷ cs)) = ok (make (c ∷ cs))

unfoldable pub required_serial : Option ℕ → Result Variant
required_serial none = err serialization
required_serial (some n) = ok (create_variant (basic (word uint32)) n)

-- The switch of CreateDBusMessage: the Variant of a field.
unfoldable pub field_variant : FieldCode → Message → Result Variant
field_variant none_field m = err runtime_error
field_variant invalid_field m = err runtime_error
field_variant sender m = err runtime_error
field_variant destination m = err runtime_error
field_variant unix_fds m = err runtime_error
field_variant reply_serial m = required_serial m.reply_to
field_variant error_name m = required_text (create_variant (basic (text string))) m.error_of
field_variant path m = required_text (create_variant (basic (text object_path))) m.object
field_variant interface m =
    required_text (create_variant (basic (text interface_name))) m.interface_of
field_variant member m = required_text (create_variant (basic (text string))) m.method
field_variant signature_field m =
    required_text (create_variant (basic (text signature))) m.signature_of

abbrev is_signature : FieldCode → Bool
is_signature signature_field = true
is_signature _ = false

abbrev pub is_empty : Bytes → Bool
is_empty [] = true
is_empty (x ∷ xs) = false

-- The `continue` statements of the loop over HEADER_FIELDS, turned round.
unfoldable pub is_wanted : FieldCode → MessageType × MessageType → Message → Bool
is_wanted code required m =
    if is_signature code then not (is_empty m.body) else requires_field required m.message_type

-- The loop over HEADER_FIELDS.
unfoldable pub required_fields :
    List (FieldCode × (MessageType × MessageType)) → Message → Result (List (ℕ × Variant))
required_fields [] m = ok []
required_fields ((code, required) ∷ rows) m =
    let skipped = required_fields rows m in
    let added = do v ← field_variant code m; fields ← skipped; ok ((field_number code, v) ∷ fields)
    in if is_wanted code required m then added else skipped

unfoldable pub has_field : ℕ → List (ℕ × Variant) → Bool
has_field n [] = false
has_field n ((k, v) ∷ fields) = if k == n then true else has_field n fields

-- The interface, where it is given and not yet there.
unfoldable pub optional_interface : Option Text → List (ℕ × Variant) → List (ℕ × Variant)
optional_interface none fields = []
optional_interface (some name) fields =
    if has_field 2 fields then [] else (2, create_variant (basic (text interface_name)) name) ∷ []

-- The destination, where it is given and not empty.
unfoldable pub optional_destination : Option Text → List (ℕ × Variant)
optional_destination none = []
optional_destination (some []) = []
optional_destination (some (c ∷ cs)) = (6, create_variant (basic (text string)) (c ∷ cs)) ∷ []

-- headerFields, all of it.
unfoldable pub fields_of : Message → Result (List (ℕ × Variant))
fields_of m = do
  fields ← required_fields header_fields m
  let more_fields = optional_interface m.interface_of fields
  ok ((fields ++ more_fields) ++ optional_destination m.destination_of)

-- yyyyuua(yv)
abbrev pub header_type : Tys
header_type = more (basic (word uint8)) (
    more (basic (word uint8)) (
      more (basic (word uint8)) (
        more (basic (word uint8)) (
          more (basic (word uint32)) (
            more (basic (word uint32))
              (one (array (struct (more (basic (word uint8)) (one variant))))))))))

-- CreateDBusMessage, as it is built outside the unit tests, which sort the fields.
unfoldable pub serialize : Message → ℕ → Result Bytes
serialize m serial = do
  fields ← fields_of m
  header ←
      marshal_complete header_type
        (
          b'l',
          (type_number m.message_type, (m.flags, (1, (length m.body % 2 ^ 32, (serial, fields))))),
        )
        []
  ok (apply_padding header 8 ++ m.body)
