-- ===== src/Codec/Types.antt =====
-- The C++ types that can be marshalled (src/DBusConcepts.h), as codes with the values that they
-- hold. The templates of the source recur on the type; the functions of the model on its code.
use cxx_bus.Base.{
  ℕ, ◌+◌, ◌%◌, ◌^◌, Bool, true, false, ◌&&◌, not, List, [], ◌∷◌, ◌++◌, ◌==◌, ltb, if◌then◌else◌,
  Text, Result, ok,
}
use cxx_bus.Names.{object_path as make_object_path, interface_name as make_interface_name}

-- The basic fixed types but `bool` and `double`, which the templates treat on their own.
pub data Word : Type 0 where
  uint8 int16 uint16 int32 uint32 int64 uint64 : Word

-- `std::string` (and the views and literals that are marshalled like it), ObjectPath,
-- DBusInterfaceName and Signature.
pub data Stringlike : Type 0 where
  string object_path interface_name signature : Stringlike

-- What a `std::map` may have for a key here. A `double` could be one in the source.
pub data Key : Type 0 where
  word : Word → Key
  boolean : Key
  text : Stringlike → Key

-- `std::vector`, `std::tuple`, `std::map` and Variant. A tuple has at least one member.
mutual
  pub data Ty : Type 0 where
    basic : Key → Ty
    double : Ty
    array : Ty → Ty
    struct : Tys → Ty
    map : Key → Ty → Ty
    variant : Ty

  pub data Tys : Type 0 where
    one : Ty → Tys
    more : Ty → Tys → Tys

-- class Variant. `source` is VariantData: the signature, the alignment of the data, and what the
-- data and the vtable come to, a function that appends the marshalled data to a buffer.
-- `deserialized` is DeserializedVariantData: the signature and the bytes that were read.
pub data Variant : Type 0 where
  monostate : Variant
  source : Text → ℕ → (List ℕ → Result (List ℕ)) → Variant
  deserialized : Text → List ℕ → Variant

-- A number is its bit pattern, signed or not, and so is a `double`.
abbrev pub KeyValue : Key → Type 0
KeyValue (word w) = ℕ
KeyValue boolean = Bool
KeyValue (text s) = Text

abbrev pub Value : Ty → Type 0
Value t = elim t as (λ _. Type 0) (λ _. Type 0) [
  | basic k ↦ KeyValue k
  | double ↦ ℕ
  | array (t → a) ↦ List a
  | struct (ts → c) ↦ c
  | map k (v → b) ↦ List (KeyValue k × b)
  | variant ↦ Variant
  | one (t → a) ↦ a
  | more (t → a) (ts → c) ↦ a × c
]

-- The members of a tuple.
abbrev pub Values : Tys → Type 0
Values ts = elim ts as (λ _. Type 0) (λ _. Type 0) [
  | basic k ↦ KeyValue k
  | double ↦ ℕ
  | array (t → a) ↦ List a
  | struct (ts → c) ↦ c
  | map k (v → b) ↦ List (KeyValue k × b)
  | variant ↦ Variant
  | one (t → a) ↦ a
  | more (t → a) (ts → c) ↦ a × c
]

-- `sizeof`.
abbrev pub size_of : Word → ℕ
size_of uint8 = 1
size_of int16 = 2
size_of uint16 = 2
size_of int32 = 4
size_of uint32 = 4
size_of int64 = 8
size_of uint64 = 8

-- GetAlignmentOfDBusType.
abbrev pub alignment_of_key : Key → ℕ
alignment_of_key (word w) = size_of w
alignment_of_key boolean = 4
alignment_of_key (text signature) = 1
alignment_of_key (text s) = 4

abbrev pub alignment_of_type : Ty → ℕ
alignment_of_type (basic k) = alignment_of_key k
alignment_of_type double = 8
alignment_of_type (array t) = 4
alignment_of_type (struct ts) = 8
alignment_of_type (map k t) = 8
alignment_of_type variant = 1

-- What precedes a member of a tuple or the value of a map entry: the choice between the alignment
-- of `uint32_t` for a map and that of the type itself.
abbrev pub alignment_of_member : Ty → ℕ
alignment_of_member (map k t) = 4
alignment_of_member (basic k) = alignment_of_key k
alignment_of_member double = 8
alignment_of_member (array t) = 4
alignment_of_member (struct ts) = 8
alignment_of_member variant = 1

abbrev pub head_type : Tys → Ty
head_type (one t) = t
head_type (more t ts) = t

-- GetTypeSignature.
unfoldable pub word_code : Word → ℕ
word_code uint8 = b'y'
word_code int16 = b'n'
word_code uint16 = b'q'
word_code int32 = b'i'
word_code uint32 = b'u'
word_code int64 = b'x'
word_code uint64 = b't'

unfoldable pub key_code : Key → ℕ
unfolding word_code
key_code (word w) = word_code w
key_code boolean = b'b'
key_code (text string) = b's'
key_code (text object_path) = b'o'
key_code (text interface_name) = b's'
key_code (text signature) = b'g'

unfoldable mutual
  unfolding key_code

  pub type_signature : Ty → Text
  type_signature (basic k) = key_code k ∷ []
  type_signature double = b'd' ∷ []
  type_signature (array t) = b'a' ∷ type_signature t
  type_signature (struct ts) = b'(' ∷ (member_signatures ts ++ b')' ∷ [])
  type_signature (map k t) = b'a' ∷ b'{' ∷ key_code k ∷ (type_signature t ++ b'}' ∷ [])
  type_signature variant = b'v' ∷ []

  pub member_signatures : Tys → Text
  member_signatures (one t) = type_signature t
  member_signatures (more t ts) = type_signature t ++ member_signatures ts

-- `T{std::move(str)}` for a string-like type: the constructors that validate throw.
unfoldable pub construct : Stringlike → Text → Result Text
unfolding make_object_path make_interface_name
construct string s = ok s
construct object_path s = make_object_path s
construct interface_name s = make_interface_name s
construct signature s = ok s

-- `std::less` on the keys. A signed number is compared with its sign bit turned over.
abbrev sign_bit : Word → ℕ
sign_bit int16 = 2 ^ 15
sign_bit int32 = 2 ^ 31
sign_bit int64 = 2 ^ 63
sign_bit w = 0

unfoldable pub word_order : Word → ℕ → ℕ
word_order w n = (n + sign_bit w) % 256 ^ size_of w

unfoldable pub text_less : Text → Text → Bool
text_less s [] = false
text_less [] (y ∷ ys) = true
text_less (x ∷ xs) (y ∷ ys) = if x == y then text_less xs ys else ltb x y

unfoldable pub key_less : (k : Key) → KeyValue k → KeyValue k → Bool
unfolding word_order text_less
key_less (word w) a b = ltb (word_order w a) (word_order w b)
key_less boolean a b = not a && b
key_less (text s) a b = text_less a b
