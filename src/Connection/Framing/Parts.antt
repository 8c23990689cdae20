-- ===== src/Connection/Framing/Parts.antt =====
-- What CreateDBusMessage of src/DBusMessage.cpp makes, cut at the places where ReadLoop of
-- src/DBusConnection.txx cuts it.
use cxx_bus.Base.{
  ℕ, ◌+◌, ◌%◌, ◌^◌, ◌≡◌, refl, sym, ap, ◌∙◌, List, [], ◌∷◌, ◌++◌, append_assoc, length,
  length-append, replicate, ok, >>=-eq-ok, All, arith, inr,
}
use cxx_bus.Codec.Types.{uint8, Ty, word, basic, Variant, struct, more, one, variant}
use cxx_bus.Codec.Bytes.{Bytes, padding, apply_padding, le_bytes}
use cxx_bus.Codec.Layout.{Appends, length-le_bytes}
use cxx_bus.Codec.Marshal.{marshal, marshal_complete, marshal_array_of}
use cxx_bus.Codec.Appending.{marshal_elements-Appends, marshal_array_inv, array_bytes}
use cxx_bus.Codec.AppendingAll.{IsSoundValue, marshal-Appends}
use cxx_bus.Message.{Message, type_number, header_type, serialize, fields_of}
use cxx_bus.Message.Sound.{AreSoundFields, fields_of_sound}
use cxx_bus.Message.Wire.{fields_type, front, header_front}

abbrev element_type : Ty
element_type = struct (more (basic (word uint8)) (one variant))

elements-Append :
    (fs : List (ℕ × Variant)) → AreSoundFields fs → All (λ x. Appends (marshal element_type x)) fs
unfolding IsSoundValue
elements-Append [] h = tt
elements-Append (f ∷ fs) h = (marshal-Appends element_type f (tt, h.0), elements-Append fs h.1)

-- The parts of a message: what is read first, the header fields, and the padding.
abbrev pub first_part : Message → ℕ → Bytes → Bytes
first_part m serial y = front m serial ++ le_bytes 4 (length y % 2 ^ 32)

abbrev pub pad_of : Bytes → Bytes
pad_of y = replicate (padding (16 + length y) 8) 0

length-front : (m : Message) (serial : ℕ) → length (front m serial) ≡ 12
length-front m serial = omega (
  arith,
  length-append (le_bytes 4 (length m.body % 2 ^ 32)) (le_bytes 4 serial),
  length-le_bytes 4 (length m.body % 2 ^ 32),
  length-le_bytes 4 serial,
)

pub length-first_part : (m : Message) (serial : ℕ) (y : Bytes) → length (first_part m serial y) ≡ 16
length-first_part m serial y = omega (
  arith,
  length-front m serial,
  length-append (front m serial) (le_bytes 4 (length y % 2 ^ 32)),
  length-le_bytes 4 (length y % 2 ^ 32),
)

array_parts :
    (fs : List (ℕ × Variant))
    → AreSoundFields fs
    → (b r : Bytes) → marshal fields_type fs b ≡ ok r
    → (y : Bytes) × (r ≡ b ++ array_bytes 8 (length b) y)
unfolding marshal marshal_array_of
array_parts fs sound b r q =
    let (y, whole, small, is, others) =
      marshal_array_inv (marshal element_type) 8 fs
        (marshal_elements-Appends (marshal element_type) 8 (inr (inr (inr refl))) fs
          (elements-Append fs sound))
        b r q in
    (y, is)

-- The array needs no padding behind its length.
array_bytes-first :
    (m : Message) (serial : ℕ) (y : Bytes)
    → front m serial ++ array_bytes 8 (length (front m serial)) y ≡ first_part m serial y ++ y
unfolding padding
array_bytes-first m serial y =
    ap (λ (n : ℕ). front m serial ++ array_bytes 8 n y) (length-front m serial)
    ∙ sym (append_assoc (front m serial) (le_bytes 4 (length y % 2 ^ 32)) y)

padded_parts :
    (m : Message) (serial : ℕ) (y header : Bytes)
    → header ≡ front m serial ++ array_bytes 8 (length (front m serial)) y
    → apply_padding header 8 ++ m.body ≡ first_part m serial y ++ (y ++ (pad_of y ++ m.body))
unfolding apply_padding
padded_parts m serial y header q =
    let first : Bytes = first_part m serial y in
    let is : header ≡ first ++ y = q ∙ array_bytes-first m serial y in
    let size : length header ≡ 16 + length y =
      ap length is
      ∙ (length-append first y ∙ ap (λ (n : ℕ). n + length y) (length-first_part m serial y)) in
    ap (λ (n : ℕ). (header ++ replicate (padding n 8) 0) ++ m.body) size
    ∙ (ap (λ (h : Bytes). (h ++ pad_of y) ++ m.body) is
        ∙ (append_assoc (first ++ y) (pad_of y) m.body ∙ append_assoc first y (pad_of y ++ m.body)))

pub serialize-parts :
    (m : Message) (serial : ℕ) (bytes : Bytes)
    → serialize m serial ≡ ok bytes
    → (y : Bytes) × (bytes ≡ first_part m serial y ++ (y ++ (pad_of y ++ m.body)))
unfolding serialize
serialize-parts m serial bytes e =
    let (fs, ef, e') = >>=-eq-ok (fields_of m) _ e in
    let (header, eh, e'') =
      >>=-eq-ok
        (marshal_complete header_type
          (
            b'l',
            (type_number m.message_type, (m.flags, (1, (length m.body % 2 ^ 32, (serial, fs))))),
          )
          [])
        _ e' in
    let (y, ey) =
      array_parts fs (fields_of_sound m fs ef) (front m serial) header
        (sym (header_front m serial fs) ∙ eh) in
    let whole : apply_padding header 8 ++ m.body ≡ bytes = cc in
    (y, sym whole ∙ padded_parts m serial y header ey)
