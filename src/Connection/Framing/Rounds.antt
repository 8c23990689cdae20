-- ===== src/Connection/Framing/Rounds.antt =====
-- ReadLoop of src/DBusConnection.txx against CreateDBusMessage of src/DBusMessage.cpp: what is sent
-- is cut into the same messages.
use cxx_bus.Base.{
  ℕ, suc, ◌+◌, ◌^◌, ◌<◌, ◌≡◌, refl, sym, ap, ◌∙◌, List, [], ◌∷◌, ◌++◌, append_assoc, append-nil,
  length, length-append, Result, ok, err, All, arith, some, Bool-cases, inl, inr, if◌then◌else◌,
}
use cxx_bus.Codec.Bytes.{Bytes, padding}
use cxx_bus.Codec.Layout.{length-zeros}
use cxx_bus.Incoming.{IncomingMessage}
use cxx_bus.Connection.Reading.{
  FrontPart, read_front, remaining_size, build_message, read_message, read_loop, Heard, nothing,
  is_undefined,
}
use cxx_bus.Message.{Message, serialize}
use cxx_bus.Connection.Framing.Parts.{first_part, pad_of, serialize-parts, length-first_part}
use cxx_bus.Connection.Framing.Front.{numbers_of, read_front-first_part}
use cxx_bus.Connection.Framing.Pieces.{
  read_exactly-append, received, remaining_size_lem, build_message_lem,
}

length-behind :
    (m : Message) (y : Bytes)
    → length (y ++ (pad_of y ++ m.body)) ≡ length y + (padding (16 + length y) 8 + length m.body)
length-behind m y = omega (
  arith,
  length-append y (pad_of y ++ m.body),
  length-append (pad_of y) m.body,
  length-zeros (padding (16 + length y) 8),
)

length-whole :
    (m : Message) (serial : ℕ) (y : Bytes)
    → length (first_part m serial y ++ (y ++ (pad_of y ++ m.body)))
      ≡ 16 + length y + (padding (16 + length y) 8 + length m.body)
length-whole m serial y = omega (
  arith,
  length-append (first_part m serial y) (y ++ (pad_of y ++ m.body)),
  length-first_part m serial y,
  length-behind m y,
)

read_message-some :
    (q : FrontPart) (x behind rest : Bytes)
    → length x ≡ 16
    → read_front x ≡ ok q
    → length behind ≡ remaining_size q
    → read_message (x ++ (behind ++ rest)) ≡ some (build_message q (x ++ behind), rest)
unfolding read_message
read_message-some q x behind rest size e size' =
    rw
      (
        read_exactly-append 16 x (behind ++ rest) size,
        e,
        read_exactly-append (remaining_size q) behind rest size',
        read_message,
      )
      refl

read_message-parts :
    (m : Message) (serial : ℕ) (y rest : Bytes)
    → 16 + length y + (padding (16 + length y) 8 + length m.body) < 2 ^ 32
    → serial < 2 ^ 32
    → read_message (first_part m serial y ++ ((y ++ (pad_of y ++ m.body)) ++ rest))
      ≡ some (received m serial y, rest)
read_message-parts m serial y rest small h =
    read_message-some (numbers_of m serial y) (first_part m serial y) (y ++ (pad_of y ++ m.body))
      rest (length-first_part m serial y) (read_front-first_part m serial y h)
      (length-behind m y ∙ sym (remaining_size_lem m serial y small))
    ∙ ap (λ (r : Result IncomingMessage). some (r, rest)) (build_message_lem m serial y small)

-- What serialize makes of a message, if it is shorter than 2 ^ 32 bytes and the serial is less
-- than 2 ^ 32, starts with 16 bytes and some header fields, behind which stand padding to a multiple of 8 and the body; and one round of the loop
-- takes just these bytes off whatever arrives behind them, and makes of them the message that has
-- the body that was sent and the header that unmarshal_header reads off the first 16 bytes and the
-- fields, or the error that it throws.
pub read_message-serialize :
    (m : Message) (serial : ℕ) (bytes : Bytes)
    → serialize m serial ≡ ok bytes
    → serial < 2 ^ 32
    → length bytes < 2 ^ 32
    → (y : Bytes) × ((bytes ≡ first_part m serial y ++ (y ++ (pad_of y ++ m.body)))
        × ((rest : Bytes) → read_message (bytes ++ rest) ≡ some (received m serial y, rest)))
read_message-serialize m serial bytes e h small =
    let (y, is) = serialize-parts m serial bytes e in
    let fits : 16 + length y + (padding (16 + length y) 8 + length m.body) < 2 ^ 32 =
      omega (arith, ap length is, length-whole m serial y, small) in
    (
      y,
      (
        is,
        λ rest.
            ap (λ (b : Bytes). read_message (b ++ rest)) is
            ∙ (ap read_message
                  (append_assoc (first_part m serial y) (y ++ (pad_of y ++ m.body)) rest)
                ∙ read_message-parts m serial y rest fits h),
      ),
    )

-- The bytes of a message that is sent as the connection sends it.
abbrev pub IsSent : Bytes → Type 0
IsSent bytes =
    (m : Message) × ((serial : ℕ) × ((serialize m serial ≡ ok bytes)
        × ((serial < 2 ^ 32) × (length bytes < 2 ^ 32))))

abbrev pub stream : List Bytes → Bytes
stream [] = []
stream (b ∷ bs) = b ++ stream bs

-- What is heard first, and then the rest, unless the first ends in what is undefined.
abbrev pub and_then : Heard → Heard → Heard
and_then a b =
    if a.undefined
    then a
    else record { messages = a.messages ++ b.messages; undefined = b.undefined }

-- What the loop makes of each message on its own.
abbrev pub one_by_one : List Bytes → Heard
one_by_one [] = nothing
one_by_one (b ∷ bs) = and_then (read_loop 1 b) (one_by_one bs)

and_then_assoc : (a b c : Heard) → and_then (and_then a b) c ≡ and_then a (and_then b c)
and_then_assoc a b c = elim (Bool-cases a.undefined) [
  | inl e ↦ rw e refl
  | inr e ↦ elim (Bool-cases b.undefined) [
    | inl f ↦ rw (e, f) refl
    | inr f ↦ rw (e, f, append_assoc a.messages b.messages c.messages) refl
  ]
]

read_loop-some :
    (k : ℕ) (b rest : Bytes) (r : Result IncomingMessage)
    → ((rest' : Bytes) → read_message (b ++ rest') ≡ some (r, rest'))
    → read_loop (suc k) (b ++ rest) ≡ and_then (read_loop 1 b) (read_loop k rest)
unfolding read_loop
read_loop-some k b rest (ok m) h = rw (h rest, ← append-nil b, h [], read_loop) refl
read_loop-some k b rest (err e) h = elim (Bool-cases (is_undefined e)) [
  | inl u ↦ rw (h rest, ← append-nil b, h [], read_loop, u) refl
  | inr u ↦ rw (h rest, ← append-nil b, h [], read_loop, u) refl
]

-- When messages are sent one after another, each shorter than 2 ^ 32 bytes and with a serial below
-- 2 ^ 32, the loop gets out of the stream just what it gets out of each of them alone, in the
-- order of sending, one round for each, and goes on with what arrives behind them, unless the
-- reading of one of them is undefined.
pub read_loop-stream :
    (sent : List Bytes) (k : ℕ) (rest : Bytes)
    → All IsSent sent
    → read_loop (length sent + k) (stream sent ++ rest)
      ≡ and_then (one_by_one sent) (read_loop k rest)
read_loop-stream [] k rest h = ap (λ (n : ℕ). read_loop n rest) (omega arith)
read_loop-stream (b ∷ bs) k rest ((m, (serial, (e, (small, short)))), h) =
    let (y, (is, round)) = read_message-serialize m serial b e small short in
    ap (λ (n : ℕ). read_loop n ((b ++ stream bs) ++ rest)) (omega arith)
    ∙ (ap (read_loop (suc (length bs + k))) (append_assoc b (stream bs) rest)
        ∙ (read_loop-some (length bs + k) b (stream bs ++ rest) (received m serial y) round
            ∙ (ap (and_then (read_loop 1 b)) (read_loop-stream bs k rest h)
                ∙ sym (and_then_assoc (read_loop 1 b) (one_by_one bs) (read_loop k rest)))))
