-- ===== src/Connection/Framing/Pieces.antt =====
-- ReadLoop of src/DBusConnection.txx: the message that is made of the bytes that CreateDBusMessage made.
use cxx_bus.Base.{
  ℕ, ◌+◌, ◌%◌, ◌^◌, ◌<◌, ◌≤◌, ◌≡◌, refl, sym, ap, ◌∙◌, ◌++◌, append_assoc, length, length-append,
  Result, ok, err, arith, some, ltb-false, take, drop, take-append, drop-append, add32_lem,
}
use cxx_bus.Codec.Bytes.{Bytes, padding, add_padding_to_size}
use cxx_bus.Codec.Layout.{length-zeros}
use cxx_bus.Incoming.{IncomingMessage, unmarshal_header}
use cxx_bus.Connection.Reading.{
  FrontPart, message_type_of, read_exactly, header_size, remaining_size, build_message,
}
use cxx_bus.Message.{
  Message, MessageType, type_number, invalid, method_call, method_return, error, signal, optional,
  none_type,
}
use cxx_bus.Connection.Framing.Parts.{first_part, pad_of, length-first_part}
use cxx_bus.Connection.Framing.Front.{numbers_of}

pub read_exactly-append :
    (n : ℕ) (x rest : Bytes) → length x ≡ n → read_exactly n (x ++ rest) ≡ some (x, rest)
unfolding read_exactly
read_exactly-append n x rest h = rw (
  ← h,
  ltb-false (length (x ++ rest)) (length x) (omega (arith, length-append x rest)),
  take-append x rest,
  drop-append x rest,
)

message_type_of-type_number : (t : MessageType) → message_type_of (type_number t) ≡ t
unfolding message_type_of
message_type_of-type_number invalid = refl
message_type_of-type_number method_call = refl
message_type_of-type_number method_return = refl
message_type_of-type_number error = refl
message_type_of-type_number signal = refl
message_type_of-type_number optional = refl
message_type_of-type_number none_type = refl

-- What is made of a message that has been sent: its header is read off the first part and the fields,
-- and its body is the body.
unfoldable built : Bytes → ℕ → MessageType → ℕ → ℕ → Bytes → Result IncomingMessage
built bytes serial t n k body = elim (unmarshal_header bytes serial t n k) [
  | err e ↦ err e
  | ok h ↦ ok (record { header = h; body = body })
]

abbrev pub received : Message → ℕ → Bytes → Result IncomingMessage
unfolding built
received m serial y =
    built (first_part m serial y ++ y) serial m.message_type (length y) (length m.body) m.body

build_message-built :
    (p : FrontPart) (raw : Bytes)
    → header_size p ≤ length raw
    → build_message p raw
      ≡ built
          (take (header_size p) raw)
          p.serial
          (message_type_of p.type_byte)
          p.array_length
          p.message_length
          (drop (header_size p + (add_padding_to_size (header_size p) 8).1) raw)
unfolding build_message built
build_message-built p raw h = rw (ltb-false (length raw) (header_size p) h) refl

built_same :
    (x x' body body' : Bytes) (serial : ℕ) (t t' : MessageType) (n n' k k' : ℕ)
    → x ≡ x'
    → t ≡ t'
    → n ≡ n'
    → k ≡ k'
    → body ≡ body'
    → built x serial t n k body ≡ built x' serial t' n' k' body'
built_same x x' body body' serial t t' n n' k k' ex et en ek eb = cc

length-header :
    (m : Message) (serial : ℕ) (y : Bytes) → length (first_part m serial y ++ y) ≡ 16 + length y
length-header m serial y =
    omega (arith, length-append (first_part m serial y) y, length-first_part m serial y)

padded_header : Message → ℕ → Bytes → Bytes
padded_header m serial y = (first_part m serial y ++ y) ++ pad_of y

length-padded_header :
    (m : Message) (serial : ℕ) (y : Bytes)
    → length (padded_header m serial y) ≡ 16 + length y + padding (16 + length y) 8
unfolding padded_header
length-padded_header m serial y = omega (
  arith,
  length-append (first_part m serial y ++ y) (pad_of y),
  length-header m serial y,
  length-zeros (padding (16 + length y) 8),
)

padded_header-body :
    (m : Message) (serial : ℕ) (y : Bytes)
    → padded_header m serial y ++ m.body ≡ first_part m serial y ++ (y ++ (pad_of y ++ m.body))
unfolding padded_header
padded_header-body m serial y =
    append_assoc (first_part m serial y ++ y) (pad_of y) m.body
    ∙ append_assoc (first_part m serial y) y (pad_of y ++ m.body)

take-all : (n : ℕ) (x rest : Bytes) → length x ≡ n → take n (x ++ rest) ≡ x
take-all n x rest h = rw (← h, take-append x rest)

small_mod : (n : ℕ) → n < 2 ^ 32 → n % 2 ^ 32 ≡ n
small_mod n h = omega arith

module _ (m : Message) (serial : ℕ) (y : Bytes)
    (small : 16 + length y + (padding (16 + length y) 8 + length m.body) < 2 ^ 32) where
  abbrev p : FrontPart
  p = numbers_of m serial y

  header_size_lem : header_size p ≡ 16 + length y
  header_size_lem = omega arith

  padded_size_lem :
      add_padding_to_size (header_size p) 8
      ≡ (16 + length y + padding (16 + length y) 8, padding (16 + length y) 8)
  unfolding add_padding_to_size
  padded_size_lem =
      rw (header_size_lem, add32_lem (16 + length y) (padding (16 + length y) 8) (omega arith)) refl

  pub remaining_size_lem : remaining_size p ≡ length y + (padding (16 + length y) 8 + length m.body)
  unfolding remaining_size
  remaining_size_lem = rw padded_size_lem (omega arith)

  behind_lem :
      header_size p + (add_padding_to_size (header_size p) 8).1
      ≡ 16 + length y + padding (16 + length y) 8
  behind_lem = rw (ap (λ (z : ℕ × ℕ). z.1) padded_size_lem, header_size_lem) refl

  abbrev raw : Bytes
  raw = first_part m serial y ++ (y ++ (pad_of y ++ m.body))

  header_inside : header_size p ≤ length raw
  header_inside = omega (
    arith,
    header_size_lem,
    length-first_part m serial y,
    length-append (first_part m serial y) (y ++ (pad_of y ++ m.body)),
    length-append y (pad_of y ++ m.body),
  )

  body_rest :
      drop
        (16 + length y + padding (16 + length y) 8)
        (first_part m serial y ++ (y ++ (pad_of y ++ m.body)))
      ≡ m.body
  body_rest = rw (
    ← length-padded_header m serial y,
    ← padded_header-body m serial y,
    drop-append (padded_header m serial y) m.body,
  )

  header_bytes :
      take (16 + length y) (first_part m serial y ++ (y ++ (pad_of y ++ m.body)))
      ≡ first_part m serial y ++ y
  header_bytes =
      ap (take (16 + length y)) (sym (append_assoc (first_part m serial y) y (pad_of y ++ m.body)))
      ∙ take-all (16 + length y) (first_part m serial y ++ y) (pad_of y ++ m.body)
          (length-header m serial y)

  pub build_message_lem :
      build_message p (first_part m serial y ++ (y ++ (pad_of y ++ m.body))) ≡ received m serial y
  unfolding built received
  build_message_lem =
      build_message-built p raw header_inside
      ∙ built_same _ _ _ _ serial _ _ _ _ _ _
          (ap (λ (n : ℕ). take n raw) header_size_lem ∙ header_bytes)
          (message_type_of-type_number m.message_type) (small_mod (length y) (omega arith))
          (small_mod (length m.body) (omega arith))
          (ap (λ (n : ℕ). drop n raw) behind_lem ∙ body_rest)
