-- ===== src/Codec/Variants.antt =====
-- Reading basic values, and the walk over the data of a variant: UnmarshalDBusBasicFixedType,
-- UnmarshalDBusBasicStringlikeType and UnmarshalDBusVariant of src/DBus.h.
-- A pointer is a `uint32_t`; the number of bytes left is a `size_t`, and wraps when the pointer is
-- past the end.
use cxx_bus.Base.{
  ℕ, zero, suc, ◌+◌, Bool, [], ◌∷◌, ◌++◌, ◌==◌, ltb, leb, if◌then◌else◌, Text, length, add32, sub32,
  sub64, Result, ok, err, malformed_input, out_of_fuel, throw_if, ◌>>=◌, ◌>>◌,
}
use cxx_bus.TypeCodes.{TypeCode, type_code, alignment_of, alignment_of_signature}
use cxx_bus.Codec.Types.{
  Stringlike, Key, KeyValue, Variant, signature, word, boolean, text, deserialized, construct,
  size_of,
}
use cxx_bus.Codec.Bytes.{Bytes, skip_padding, from_le, read_bytes}
use cxx_bus.Codec.Marshal.{length_size}

-- UnmarshalDBusBasicFixedType at a type of `n` bytes.
unfoldable pub read_fixed : ℕ → Bytes → ℕ → Result (ℕ × ℕ)
read_fixed n bytes pointer = do
  throw_if (ltb (sub64 (length bytes) pointer) n) malformed_input
  raw ← read_bytes n bytes pointer
  ok (from_le raw, add32 pointer n)

-- The branch for `bool`: every number but 1 is false.
unfoldable pub read_bool : Bytes → ℕ → Result (Bool × ℕ)
read_bool bytes pointer = do (n, rest) ← read_fixed 4 bytes pointer; ok (n == 1, rest)

-- UnmarshalDBusBasicStringlikeType: the length, the characters, and the terminator, which is
-- skipped unread.
unfoldable pub read_stringlike : Stringlike → Bytes → ℕ → Result (Text × ℕ)
read_stringlike s bytes pointer = do
  (str_length, start) ← read_fixed (length_size s) bytes pointer
  throw_if (leb (sub64 (length bytes) start) str_length) malformed_input
  raw ← read_bytes str_length bytes start
  str ← construct s raw
  ok (str, add32 start (str_length + 1))

-- UnmarshalDBusBasicType at a basic type.
unfoldable pub read_key : (k : Key) → Bytes → ℕ → Result (KeyValue k × ℕ)
read_key (word w) bytes pointer = read_fixed (size_of w) bytes pointer
read_key boolean bytes pointer = read_bool bytes pointer
read_key (text s) bytes pointer = read_stringlike s bytes pointer

-- `sig[0]`, the terminator at the end.
abbrev pub head_code : Text → ℕ
head_code [] = 0
head_code (c ∷ cs) = c

abbrev tail_codes : Text → Text
tail_codes [] = []
tail_codes (c ∷ cs) = cs

-- The inner loop at DICT_BEGIN: what follows the first closing bracket.
unfoldable pub skip_dict : Text → Text
skip_dict [] = []
skip_dict (c ∷ cs) = let rest = skip_dict cs in if c == b'}' then cs else rest

-- The padding at the top of the loop, which closing brackets do not have.
unfoldable pub align_code : TypeCode → ℕ → Result ℕ
align_code TypeCode.struct_end pointer = ok pointer
align_code TypeCode.dict_end pointer = ok pointer
align_code code pointer = do ok (skip_padding pointer (← alignment_of code))

-- What the loop does behind the padding at one type code: the signature that is left to walk, and
-- the new pointer. The signature of a nested variant is put before what is left.
unfoldable pub walk_code : TypeCode → Text → Bytes → ℕ → Result (Text × ℕ)
walk_code TypeCode.signature rest bytes pointer = do
  (str_size, start) ← read_fixed 1 bytes pointer
  ok (rest, add32 start (str_size + 1))
walk_code TypeCode.string rest bytes pointer = do
  (str_size, start) ← read_fixed 4 bytes pointer
  ok (rest, add32 start (str_size + 1))
walk_code TypeCode.object_path rest bytes pointer = do
  (str_size, start) ← read_fixed 4 bytes pointer
  ok (rest, add32 start (str_size + 1))
walk_code TypeCode.array rest bytes pointer = do
  (array_size, start) ← read_fixed 4 bytes pointer
  alignment ← alignment_of_signature (head_code rest)
  let end = add32 (skip_padding start alignment) array_size
  ok (if head_code rest == b'{' then rest else tail_codes rest, end)
walk_code TypeCode.dict_begin rest bytes pointer = ok (skip_dict rest, pointer)
walk_code TypeCode.variant rest bytes pointer = do
  (inner, start) ← read_stringlike signature bytes pointer
  ok (inner ++ rest, start)
walk_code TypeCode.struct_begin rest bytes pointer = ok (rest, pointer)
walk_code TypeCode.struct_end rest bytes pointer = ok (rest, pointer)
walk_code TypeCode.dict_end rest bytes pointer = ok (rest, pointer)
walk_code TypeCode.other rest bytes pointer = ok (rest, pointer)
walk_code code rest bytes pointer = do ok (rest, add32 pointer (← alignment_of code))

unfoldable pub walk_step : ℕ → Text → Bytes → ℕ → Result (Text × ℕ)
walk_step c rest bytes pointer = do
  aligned ← align_code (type_code c) pointer
  walk_code (type_code c) rest bytes aligned

-- The loop over the signature, on fuel: a pointer that wraps around can make it endless.
unfoldable pub walk : ℕ → Text → Bytes → ℕ → Result ℕ
walk zero sig bytes pointer = err out_of_fuel
walk (suc fuel) [] bytes pointer = ok pointer
walk (suc fuel) (c ∷ rest) bytes pointer = do
  (left, next) ← walk_step c rest bytes pointer
  walk fuel left bytes next

-- A round uses up a character of the signature, or of one that was read from the buffer.
abbrev pub walk_fuel : Text → Bytes → ℕ
walk_fuel sig bytes = length sig + length bytes + 1

-- UnmarshalDBusVariant. The data is a range of the buffer. A range outside it is undefined for a
-- FastVariant, which the headers of messages have, and for a Variant that holds up to 32 bytes or is
-- built without `std::ranges::to`; this is what is modelled. A longer Variant that is built with it
-- takes the bytes of the range that are in the buffer.
unfoldable pub read_variant : Bytes → ℕ → Result (Variant × ℕ)
read_variant bytes pointer = do
  (sig, start) ← read_stringlike signature bytes pointer
  alignment ← alignment_of_signature (head_code sig)
  let begin = skip_padding start alignment
  end ← walk (walk_fuel sig bytes) sig bytes start
  let size = sub32 end begin
  content ← read_bytes size bytes begin
  ok (deserialized sig content, end)
