-- ===== src/Connection/Reading.antt =====
-- ReadLoop of src/DBusConnection.txx: how the bytes that arrive are cut into messages.
use cxx_bus.Base.{
  ℕ, zero, suc, ◌+◌, List, [], ◌∷◌, ◌++◌, Option, none, some, if◌then◌else◌, ◌==◌, ltb, codes,
  length, take, drop, add32, sub32, Result, ok, err, Bool, true, false, Error, out_of_bounds,
  out_of_fuel,
}
use cxx_bus.Codec.Types.{uint8, uint32, Tys, word, basic, more, one}
use cxx_bus.Codec.Bytes.{Bytes, add_padding_to_size}
use cxx_bus.Codec.Unmarshal.{unmarshal_complete_type}
use cxx_bus.Message.{
  MessageType, invalid, method_call, method_return, error, signal, optional, none_type,
}
use cxx_bus.Incoming.{IncomingMessage, unmarshal_header}

-- `static_cast<DBusMessageType>`. A number without an enumerator stands for no type of the
-- protocol, and is `invalid` here: no field is required of it, and no rule can ask for it.
unfoldable pub message_type_of : ℕ → MessageType
message_type_of n =
    if n == 1
    then method_call
    else if n == 2
    then method_return
    else if n == 3
    then error
    else if n == 4
    then signal
    else if n == 254
    then optional
    else if n == 255
    then none_type
    else invalid

-- `async_read` with `transfer_exactly`, on what is still to arrive: where the connection ends first,
-- there is an exception of asio.
unfoldable pub read_exactly : ℕ → Bytes → Option (Bytes × Bytes)
read_exactly n input = if ltb (length input) n then none else some (take n input, drop n input)

-- FIRST_HEADER_PART_SIZE.
abbrev pub first_header_part_size : ℕ
first_header_part_size = 16

abbrev pub front_type : Tys
front_type = more (basic (word uint8)) (
    more (basic (word uint8)) (
      more (basic (word uint8)) (
        more (basic (word uint8))
          (more (basic (word uint32)) (more (basic (word uint32)) (one (basic (word uint32))))))))

-- The numbers that the first part of a header gives.
pub record FrontPart : Type 0 where
  pub message_length : ℕ
  pub array_length : ℕ
  pub serial : ℕ
  pub type_byte : ℕ

unfoldable pub read_front : Bytes → Result FrontPart
read_front raw = elim (unmarshal_complete_type front_type raw (codes "yyyyuuu")) [
  | err e ↦ err e
  | ok (order, (t, (flags, (version, (message_length, (serial, array_length)))))) ↦ ok (record {
    message_length = message_length;
    array_length = array_length;
    serial = serial;
    type_byte = t;
  })
]

-- The size of the header without and with its padding, the padding, and how much is read behind
-- the first part.
abbrev pub header_size : FrontPart → ℕ
header_size p = add32 first_header_part_size p.array_length

unfoldable pub remaining_size : FrontPart → ℕ
remaining_size p =
    add32 (sub32 (add_padding_to_size (header_size p) 8).0 first_header_part_size) p.message_length

-- The message that is made of all its bytes. The span of the header is undefined where it would end
-- behind them, as it does where the sum with the length of the body has wrapped around.
unfoldable pub build_message : FrontPart → Bytes → Result IncomingMessage
build_message p raw =
    let built : Result IncomingMessage =
      elim (unmarshal_header (take (header_size p) raw) p.serial (message_type_of p.type_byte)
        p.array_length p.message_length) [
          | err e ↦ err e
          | ok h ↦ ok (record {
            header = h;
            body = drop (header_size p + (add_padding_to_size (header_size p) 8).1) raw;
          })
        ] in
    if ltb (length raw) (header_size p) then err out_of_bounds else built

-- One round of the loop: `none` where the connection ends in it, or else a message or the exception
-- that is logged, and what is still to arrive.
unfoldable pub read_message : Bytes → Option (Result IncomingMessage × Bytes)
unfolding read_exactly read_front remaining_size build_message
read_message input = elim (read_exactly first_header_part_size input) [
  | none ↦ none
  | some (head, rest) ↦ elim (read_front head) [
    | err e ↦ some (err e, rest)
    | ok p ↦ elim (read_exactly (remaining_size p) rest) [
      | none ↦ none
      | some (more_bytes, rest') ↦ some (build_message p (head ++ more_bytes), rest')
    ]
  ]
]

-- What is not an exception: behaviour that is undefined, or that has no end.
abbrev pub is_undefined : Error → Bool
is_undefined out_of_bounds = true
is_undefined out_of_fuel = true
is_undefined e = false

-- The messages that the loop hands to HandleReadMessage, and whether it comes to a message of which
-- the behaviour is undefined or has no end; nothing is said of what is behind that.
pub record Heard : Type 0 where
  pub messages : List IncomingMessage
  pub undefined : Bool

abbrev pub nothing : Heard
nothing = record { messages = []; undefined = false }

-- A number of rounds that is one more than the messages that the bytes hold is enough. A message
-- with an exception is passed over.
unfoldable pub read_loop : ℕ → Bytes → Heard
unfolding read_message
read_loop zero input = nothing
read_loop (suc fuel) input = elim (read_message input) [
  | none ↦ nothing
  | some (err e, rest) ↦
      let heard = read_loop fuel rest in
      if is_undefined e then record { messages = []; undefined = true } else heard
  | some (ok m, rest) ↦
      let heard = read_loop fuel rest in
      record { messages = m ∷ heard.messages; undefined = heard.undefined }
]
