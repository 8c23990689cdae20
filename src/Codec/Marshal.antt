-- ===== src/Codec/Marshal.antt =====
-- Marshalling: the functions Marshal… of src/DBus.h. A function takes the buffer `dbusType` and
-- returns it grown.
use cxx_bus.Base.{
  ℕ, ◌-◌, ◌*◌, ◌%◌, ◌^◌, Bool, List, [], ◌∷◌, ◌++◌, leb, ◌==◌, if◌then◌else◌, Text, contains_code,
  length, sub64, Result, ok, err, serialization, length_error, runtime_error, throw_if, ◌>>=◌, ◌>>◌,
}
use cxx_bus.Codec.Types.{
  Stringlike, Key, Ty, Tys, Variant, KeyValue, Value, Values, size_of, signature, word, boolean,
  text, basic, double, array, struct, map, variant, one, more, monostate, source, deserialized,
  alignment_of_key, alignment_of_type, alignment_of_member, head_type, type_signature, construct,
}
use cxx_bus.Codec.Bytes.{Bytes, padding, apply_padding, le_bytes, write_bytes}

-- MarshalBasicFixedType, at a type of `n` bytes.
unfoldable pub marshal_fixed : ℕ → ℕ → Bytes → Bytes
marshal_fixed n value buffer = buffer ++ le_bytes n value

-- The branch for `bool`.
unfoldable pub marshal_bool : Bool → Bytes → Bytes
marshal_bool b buffer = marshal_fixed 4 (if b then 1 else 0) buffer

-- The length field of a string-like value.
abbrev pub length_size : Stringlike → ℕ
length_size signature = 1
length_size s = 4

-- MarshalBasicStringlikeType. `static_cast` cuts the length to the width of its field.
unfoldable pub marshal_stringlike : Stringlike → Text → Bytes → Result Bytes
marshal_stringlike s str buffer = do
  throw_if (contains_code str 0) serialization
  ok (marshal_fixed (length_size s) (length str % 256 ^ length_size s) buffer ++ (str ++ 0 ∷ []))

-- MarshalBasicType at a basic type.
unfoldable pub marshal_key : (k : Key) → KeyValue k → Bytes → Result Bytes
marshal_key (word w) value buffer = ok (marshal_fixed (size_of w) value buffer)
marshal_key boolean value buffer = ok (marshal_bool value buffer)
marshal_key (text s) value buffer = marshal_stringlike s value buffer

-- The end of MarshalDBusArray: the size, its check, and the write over the 0.
unfoldable pub finish_array : ℕ → ℕ → Bytes → Result Bytes
finish_array size_position begin_data full = do
  let array_size = sub64 (length full) begin_data % 2 ^ 32
  throw_if (leb (2 ^ 26) array_size) length_error
  ok (write_bytes size_position (le_bytes 4 array_size) full)

module _ {A : Type 0} (marshal_element : A → Bytes → Result Bytes) where
  -- The loop over the elements of an array: padding behind each but the last.
  unfoldable pub marshal_elements : ℕ → List A → Bytes → Result Bytes
  marshal_elements alignment [] buffer = ok buffer
  marshal_elements alignment (x ∷ []) buffer = marshal_element x buffer
  marshal_elements alignment (x ∷ y ∷ xs) buffer = do
    grown ← marshal_element x buffer
    marshal_elements alignment (y ∷ xs) (apply_padding grown alignment)

  -- MarshalDBusArray at elements that are not copied as a whole. The size is written first as 0
  -- and put right at the end.
  unfoldable pub marshal_array : ℕ → List A → Bytes → Result Bytes
  marshal_array alignment values buffer = do
    let sized = marshal_fixed 4 0 buffer
    let size_position = length sized - 4
    let padded = apply_padding sized alignment
    let begin_data = length padded % 2 ^ 32
    full ← marshal_elements alignment values padded
    finish_array size_position begin_data full

-- The bytes of a vector of numbers, in memory.
unfoldable pub packed : ℕ → List ℕ → Bytes
packed n [] = []
packed n (x ∷ xs) = le_bytes n x ++ packed n xs

-- MarshalDBusArray at fixed elements of `n` bytes: one copy.
unfoldable pub marshal_packed : ℕ → List ℕ → Bytes → Bytes
marshal_packed n values buffer =
    apply_padding (marshal_fixed 4 (length values * n % 2 ^ 32) buffer) n ++ packed n values

module _ {A B : Type 0} (marshal_first : A → Bytes → Result Bytes)
    (marshal_second : B → Bytes → Result Bytes) (second_alignment : ℕ) where
  -- One entry of a map.
  unfoldable pub marshal_entry : A × B → Bytes → Result Bytes
  marshal_entry (a, b) buffer = do
    grown ← marshal_first a buffer
    marshal_second b (apply_padding grown second_alignment)

  -- The loop over the entries of a map from its second round on, which begins with padding.
  unfoldable pub marshal_entries : List (A × B) → Bytes → Result Bytes
  marshal_entries [] buffer = ok buffer
  marshal_entries (e ∷ es) buffer = do
    grown ← marshal_entry e (apply_padding buffer 8)
    marshal_entries es grown

  -- MarshalDBusMap: the entries go to a buffer of their own.
  unfoldable pub marshal_map : List (A × B) → Bytes → Result Bytes
  marshal_map [] buffer = ok (apply_padding (apply_padding (marshal_fixed 4 0 buffer) 8) 8)
  marshal_map (e ∷ es) buffer = do
    entries ← marshal_entries es (← marshal_entry e [])
    ok (apply_padding (marshal_fixed 4 (length entries % 2 ^ 32) buffer) 8 ++ entries)

-- Variant::MarshalData.
unfoldable pub marshal_variant : Variant → Bytes → Result Bytes
marshal_variant monostate buffer = err runtime_error
marshal_variant (deserialized sig bytes) buffer = err runtime_error
marshal_variant (source sig data_alignment marshal_data) buffer = do
  signed ← marshal_stringlike signature sig buffer
  marshal_data (apply_padding signed data_alignment)

-- MarshalDBusArray: numbers are copied, other elements marshalled one by one.
unfoldable pub marshal_array_of :
    (t : Ty) → (Value t → Bytes → Result Bytes) → List (Value t) → Bytes → Result Bytes
marshal_array_of (basic (word w)) element values buffer =
    ok (marshal_packed (size_of w) values buffer)
marshal_array_of double element values buffer = ok (marshal_packed 8 values buffer)
marshal_array_of (basic boolean) element values buffer = marshal_array element 4 values buffer
marshal_array_of (basic (text s)) element values buffer =
    marshal_array element (alignment_of_key (text s)) values buffer
marshal_array_of (array t) element values buffer = marshal_array element 4 values buffer
marshal_array_of (struct ts) element values buffer = marshal_array element 8 values buffer
marshal_array_of (map k t) element values buffer = marshal_array element 8 values buffer
marshal_array_of variant element values buffer = marshal_array element 1 values buffer

-- MarshalDBusTypeImpl, and MarshalDBusStruct for the members of a tuple.
unfoldable mutual
  pub marshal : (t : Ty) → Value t → Bytes → Result Bytes
  marshal (basic k) value buffer = marshal_key k value buffer
  marshal double value buffer = ok (marshal_fixed 8 value buffer)
  marshal (array t) values buffer = marshal_array_of t (marshal t) values buffer
  marshal (struct ts) values buffer = marshal_members ts values buffer
  marshal (map k t) entries buffer =
      marshal_map (marshal_key k) (marshal t) (alignment_of_member t) entries buffer
  marshal variant v buffer = marshal_variant v buffer

  pub marshal_members : (ts : Tys) → Values ts → Bytes → Result Bytes
  marshal_members (one t) v buffer = marshal t v buffer
  marshal_members (more t ts) (v, vs) buffer = do
    grown ← marshal t v buffer
    marshal_members ts vs (apply_padding grown (alignment_of_member (head_type ts)))

-- What `char const*` ends at.
unfoldable pub until_terminator : Text → Text
until_terminator [] = []
until_terminator (c ∷ cs) = let rest = until_terminator cs in if c == 0 then [] else c ∷ rest

-- Variant::Create. A string-like value below 32 characters is kept as a C string, and made into a
-- value of its class again when it is marshalled.
unfoldable pub create_variant : (t : Ty) → Value t → Variant
create_variant (basic (text s)) str =
    let kept =
      source (type_signature (basic (text s))) (alignment_of_key (text s)) λ buffer.
        (construct s (until_terminator str) >>= λ made. marshal_key (text s) made buffer) in
    let shared =
      source (type_signature (basic (text s))) (alignment_of_key (text s))
        (marshal_key (text s) str) in
    if leb (length str) 31 then kept else shared
create_variant t value = source (type_signature t) (alignment_of_type t) (marshal t value)

-- MarshalBasicMultipleCompleteTypes: unlike a tuple it pads before a map as before any type.
unfoldable pub marshal_complete : (ts : Tys) → Values ts → Bytes → Result Bytes
marshal_complete (one t) v buffer = marshal t v buffer
marshal_complete (more t ts) (v, vs) buffer = do
  grown ← marshal t v buffer
  marshal_complete ts vs (apply_padding grown (alignment_of_type (head_type ts)))

-- MarshalDBusType.
unfoldable pub marshal_type : (t : Ty) → Value t → Result Bytes
unfolding marshal marshal_key marshal_stringlike marshal_bool marshal_fixed marshal_array_of
    marshal_packed packed marshal_array finish_array marshal_elements marshal_map marshal_entries
    marshal_entry marshal_variant apply_padding padding le_bytes write_bytes
marshal_type t v = marshal t v []
