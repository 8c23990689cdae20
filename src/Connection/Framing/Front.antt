-- ===== src/Connection/Framing/Front.antt =====
-- ReadLoop of src/DBusConnection.txx: the first 16 bytes of a message that CreateDBusMessage made.
use cxx_bus.Base.{ℕ, ◌%◌, ◌^◌, ◌<◌, ◌≡◌, refl, ◌∙◌, [], ◌∷◌, ◌++◌, length, ok, arith}
use cxx_bus.Codec.Types.{type_signature, member_signatures}
use cxx_bus.Codec.Bytes.{Bytes, padding, le_bytes, from_le, read_bytes, skip_padding}
use cxx_bus.Codec.Reading.{from_le-le_bytes}
use cxx_bus.Codec.Unmarshal.{
  unmarshal, unmarshal_complete, unmarshal_complete_type, check_signature,
}
use cxx_bus.Codec.Variants.{read_fixed, read_key}
use cxx_bus.TypeCodes.{are_type_codes, are_brackets_even}
use cxx_bus.Connection.Reading.{FrontPart, read_front}
use cxx_bus.Message.{Message, type_number}
use cxx_bus.Connection.Framing.Parts.{first_part}

-- The first part of a header, byte by byte.
read_front-bytes :
    (a0 a1 a2 a3 b0 b1 b2 b3 c0 c1 c2 c3 d0 d1 d2 d3 : ℕ)
    → read_front
        (a0 ∷ a1 ∷ a2 ∷ a3 ∷ b0 ∷ b1 ∷ b2 ∷ b3 ∷ c0 ∷ c1 ∷ c2 ∷ c3 ∷ d0 ∷ d1 ∷ d2 ∷ d3 ∷ [])
      ≡ ok (record {
        message_length = from_le (b0 ∷ b1 ∷ b2 ∷ b3 ∷ []);
        array_length = from_le (d0 ∷ d1 ∷ d2 ∷ d3 ∷ []);
        serial = from_le (c0 ∷ c1 ∷ c2 ∷ c3 ∷ []);
        type_byte = from_le (a1 ∷ []);
      })
unfolding read_front unmarshal_complete_type unmarshal_complete unmarshal check_signature
    are_type_codes are_brackets_even member_signatures type_signature read_key read_fixed read_bytes
    skip_padding padding
read_front-bytes a0 a1 a2 a3 b0 b1 b2 b3 c0 c1 c2 c3 d0 d1 d2 d3 = refl

-- The numbers in the first part of a message.
abbrev pub numbers_of : Message → ℕ → Bytes → FrontPart
numbers_of m serial y = record {
  message_length = length m.body % 2 ^ 32;
  array_length = length y % 2 ^ 32;
  serial = serial;
  type_byte = type_number m.message_type;
}

one_byte : (n : ℕ) → from_le (n ∷ []) ≡ n
unfolding from_le
one_byte n = omega arith

read_front-le_bytes :
    (m : Message) (a b serial : ℕ)
    → read_front (
        b'l'
        ∷ type_number m.message_type
        ∷ (m.flags % 256)
        ∷ 1
        ∷ (le_bytes 4 a ++ le_bytes 4 serial ++ le_bytes 4 b))
      ≡ ok (record {
        message_length = from_le (le_bytes 4 a);
        array_length = from_le (le_bytes 4 b);
        serial = from_le (le_bytes 4 serial);
        type_byte = from_le (type_number m.message_type ∷ []);
      })
unfolding le_bytes
read_front-le_bytes m a b serial = read_front-bytes _ _ _ _ _ _ _ _ _ _ _ _ _ _ _ _

pub read_front-first_part :
    (m : Message) (serial : ℕ) (y : Bytes)
    → serial < 2 ^ 32
    → read_front (first_part m serial y) ≡ ok (numbers_of m serial y)
read_front-first_part m serial y small =
    read_front-le_bytes m (length m.body % 2 ^ 32) (length y % 2 ^ 32) serial
    ∙ rw
        (
          from_le-le_bytes 4 (length m.body % 2 ^ 32) (omega arith),
          from_le-le_bytes 4 (length y % 2 ^ 32) (omega arith),
          from_le-le_bytes 4 serial (omega arith),
          one_byte (type_number m.message_type),
        )
        refl
