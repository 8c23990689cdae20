-- ===== src/TypeCodes.antt =====
-- The one-character type codes of D-Bus signatures, and the predicates on them:
-- src/DBusHelpers.cpp, with the enumeration DBusTypeCodes of src/DBusTypes.h.
-- A character is the number of its `unsigned char`.
use cxx_bus.Base.{
  ℕ, ◌+◌, Bool, true, false, ◌||◌, [], ◌∷◌, ◌==◌, if◌then◌else◌, Text, Result, ok, err,
  runtime_error,
}

-- The codes that the functions below tell apart; `other` is every other character.
pub data TypeCode : Type 0 where
  byte boolean int16 uint16 int32 uint32 int64 uint64 double unix_fd : TypeCode
  string object_path signature : TypeCode
  array struct_begin struct_end variant dict_begin dict_end : TypeCode
  other : TypeCode

-- `static_cast<DBusTypeCodes>(c)`.
unfoldable pub type_code : ℕ → TypeCode
type_code c =
    if c == b'y'
    then byte
    else if c == b'b'
    then boolean
    else if c == b'n'
    then int16
    else if c == b'q'
    then uint16
    else if c == b'i'
    then int32
    else if c == b'u'
    then uint32
    else if c == b'x'
    then int64
    else if c == b't'
    then uint64
    else if c == b'd'
    then double
    else if c == b'h'
    then unix_fd
    else if c == b's'
    then string
    else if c == b'o'
    then object_path
    else if c == b'g'
    then signature
    else if c == b'a'
    then array
    else if c == b'('
    then struct_begin
    else if c == b')'
    then struct_end
    else if c == b'v'
    then variant
    else if c == b'{'
    then dict_begin
    else if c == b'}'
    then dict_end
    else other

-- The switch of IsDBusBasicFixedTypeCode.
unfoldable pub is_fixed : TypeCode → Bool
is_fixed byte = true
is_fixed boolean = true
is_fixed int16 = true
is_fixed uint16 = true
is_fixed int32 = true
is_fixed uint32 = true
is_fixed int64 = true
is_fixed uint64 = true
is_fixed double = true
is_fixed unix_fd = true
is_fixed _ = false

unfoldable pub is_basic_fixed_code : ℕ → Bool
unfolding is_fixed type_code
is_basic_fixed_code c = is_fixed (type_code c)

unfoldable pub is_stringlike : TypeCode → Bool
is_stringlike string = true
is_stringlike object_path = true
is_stringlike signature = true
is_stringlike _ = false

unfoldable pub is_basic_stringlike_code : ℕ → Bool
unfolding is_stringlike type_code
is_basic_stringlike_code c = is_stringlike (type_code c)

unfoldable pub is_basic_code : ℕ → Bool
unfolding is_basic_fixed_code is_basic_stringlike_code
is_basic_code c = is_basic_fixed_code c || is_basic_stringlike_code c

unfoldable pub is_container : TypeCode → Bool
is_container array = true
is_container struct_begin = true
is_container struct_end = true
is_container dict_begin = true
is_container dict_end = true
is_container variant = true
is_container _ = false

unfoldable pub is_container_code : ℕ → Bool
unfolding is_container type_code
is_container_code c = is_container (type_code c)

unfoldable pub is_type_code : ℕ → Bool
unfolding is_basic_code is_container_code
is_type_code c = is_basic_code c || is_container_code c

-- IsDBusTypeCode of a whole signature.
unfoldable pub are_type_codes : Text → Bool
unfolding is_type_code
are_type_codes [] = true
are_type_codes (c ∷ cs) = if is_type_code c then are_type_codes cs else false

-- The change that one character makes to the counter of AreDBusTypeCodeBracketsEven: how much it
-- goes up, and how much it goes down.
unfoldable pub opens : TypeCode → ℕ
opens dict_begin = 1
opens struct_begin = 1
opens _ = 0

unfoldable pub closes : TypeCode → ℕ
closes struct_end = 1
closes dict_end = 1
closes _ = 0

-- The loop with its `int32_t` counter, kept as the count of `++` and the count of `--`.
unfoldable pub bracket_loop : ℕ → ℕ → Text → Bool
unfolding opens closes type_code
bracket_loop up down [] = up == down
bracket_loop up down (c ∷ cs) =
    bracket_loop (up + opens (type_code c)) (down + closes (type_code c)) cs

unfoldable pub are_brackets_even : Text → Bool
unfolding bracket_loop
are_brackets_even s = bracket_loop 0 0 s

-- GetAlignmentOfSignature; it throws for a closing bracket and for what is no type code.
unfoldable pub alignment_of : TypeCode → Result ℕ
alignment_of byte = ok 1
alignment_of signature = ok 1
alignment_of variant = ok 1
alignment_of int16 = ok 2
alignment_of uint16 = ok 2
alignment_of boolean = ok 4
alignment_of unix_fd = ok 4
alignment_of int32 = ok 4
alignment_of uint32 = ok 4
alignment_of string = ok 4
alignment_of object_path = ok 4
alignment_of array = ok 4
alignment_of int64 = ok 8
alignment_of uint64 = ok 8
alignment_of double = ok 8
alignment_of struct_begin = ok 8
alignment_of dict_begin = ok 8
alignment_of _ = err runtime_error

unfoldable pub alignment_of_signature : ℕ → Result ℕ
unfolding alignment_of type_code
alignment_of_signature c = alignment_of (type_code c)
