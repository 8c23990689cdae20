-- ===== src/Message/Wire.antt =====
-- The bytes of an outgoing message: what CreateDBusMessage of src/DBusMessage.cpp lays out.
use cxx_bus.Base.{ℕ, ◌%◌, ◌^◌, ◌≡◌, refl, List, [], ◌∷◌, ◌++◌, length}
use cxx_bus.Codec.Types.{uint8, Ty, word, basic, Variant, array, struct, more, one, variant}
use cxx_bus.Codec.Bytes.{Bytes, padding, apply_padding, le_bytes}
use cxx_bus.Codec.Marshal.{marshal, marshal_complete, marshal_key, marshal_fixed}
use cxx_bus.Message.{
  Message, MessageType, type_number, header_type, invalid, method_call, method_return, error,
  signal, optional, none_type,
}

abbrev pub fields_type : Ty
fields_type = array (struct (more (basic (word uint8)) (one variant)))

-- The twelve bytes before the header fields: byte order, type, flags, version, the length of the
-- body and the serial.
abbrev pub front : Message → ℕ → Bytes
front m serial =
    b'l'
    ∷ type_number m.message_type
    ∷ (m.flags % 256)
    ∷ 1
    ∷ (le_bytes 4 (length m.body % 2 ^ 32) ++ le_bytes 4 serial)

type_number-byte : (t : MessageType) → type_number t % 256 ≡ type_number t
type_number-byte invalid = refl
type_number-byte method_call = refl
type_number-byte method_return = refl
type_number-byte error = refl
type_number-byte signal = refl
type_number-byte optional = refl
type_number-byte none_type = refl

pub header_front :
    (m : Message) (serial : ℕ) (fields : List (ℕ × Variant))
    → marshal_complete header_type
        (
          b'l',
          (type_number m.message_type, (m.flags, (1, (length m.body % 2 ^ 32, (serial, fields))))),
        )
        []
      ≡ marshal fields_type fields (front m serial)
unfolding marshal_complete marshal marshal_key marshal_fixed apply_padding padding le_bytes
header_front m serial fields = rw (type_number-byte m.message_type) refl
