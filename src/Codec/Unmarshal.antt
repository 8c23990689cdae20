-- ===== src/Codec/Unmarshal.antt =====
-- Unmarshalling: the functions Unmarshal… of src/DBus.h.
use cxx_bus.Base.{
  ℕ, zero, suc, ◌-◌, ◌*◌, ◌/◌, ◌^◌, Bool, not, List, [], ◌∷◌, ◌++◌, ◌==◌, ltb, leb, if◌then◌else◌,
  Text, text_eq, length, take, drop, add32, sub32, Result, ok, err, malformed_input, length_error,
  invalid_signature, out_of_bounds, out_of_fuel, no_instance, variant_unmarshal, throw_if, ◌>>=◌,
  ◌>>◌,
}
use cxx_bus.TypeCodes.{are_type_codes, are_brackets_even}
use cxx_bus.Codec.Types.{
  Ty, Tys, Variant, Value, Values, word, boolean, text, basic, double, array, struct, map, variant,
  one, more, monostate, source, deserialized, size_of, alignment_of_key, alignment_of_type,
  alignment_of_member, head_type, type_signature, member_signatures, construct, key_less,
}
use cxx_bus.Codec.Bytes.{padding, Bytes, skip_padding, add_padding_to_size, from_le, read_bytes}
use cxx_bus.Codec.Variants.{
  walk, walk_step, walk_code, align_code, skip_dict, read_bool, read_stringlike, read_fixed,
  read_key, read_variant,
}

-- The `count` numbers of `n` bytes in memory.
unfoldable pub unpacked : ℕ → ℕ → Bytes → List ℕ
unpacked n zero bytes = []
unpacked n (suc count) bytes = from_le (take n bytes) ∷ unpacked n count (drop n bytes)

-- UnmarshalDBusArray at a vector of numbers of `n` bytes. The vector holds `array_length / n`
-- numbers, and the copy of `array_length` bytes into it is undefined if these are more.
unfoldable pub unmarshal_packed : ℕ → Bytes → ℕ → Result (List ℕ × ℕ)
unmarshal_packed n bytes pointer = do
  (array_length, start) ← read_fixed 4 bytes pointer
  throw_if (leb (2 ^ 26) array_length) length_error
  let begin = skip_padding start n
  throw_if (ltb (length bytes) (add32 begin array_length)) malformed_input
  throw_if (not (array_length / n * n == array_length)) out_of_bounds
  raw ← read_bytes array_length bytes begin
  ok (unpacked n (array_length / n) raw, add32 begin array_length)

module _ {A : Type 0} (unmarshal_element : Bytes → ℕ → Result (A × ℕ)) (alignment : ℕ) where
  -- The `while` loop of UnmarshalDBusArray: the bytes read so far, and the pointer.
  unfoldable pub unmarshal_elements : ℕ → ℕ → ℕ → Bytes → ℕ → Result (List A × ℕ)
  unmarshal_elements zero array_length bytes_read bytes pointer = err out_of_fuel
  unmarshal_elements (suc fuel) array_length bytes_read bytes pointer =
      let round = do
        throw_if (leb (length bytes) pointer) malformed_input
        (x, next) ← unmarshal_element bytes pointer
        let read = add32 bytes_read (sub32 next pointer)
        let padded = if ltb read array_length then skip_padding next alignment else next
        let total = if ltb read array_length then add32 read (sub32 padded next) else read
        (xs, end) ← unmarshal_elements fuel array_length total bytes padded
        ok (x ∷ xs, end)
      in if ltb bytes_read array_length then round else ok ([], pointer)

  unfoldable pub unmarshal_array : Bytes → ℕ → Result (List A × ℕ)
  unmarshal_array bytes pointer = do
    (array_length, start) ← read_fixed 4 bytes pointer
    throw_if (leb (2 ^ 26) array_length) length_error
    unmarshal_elements (suc array_length) array_length 0 bytes (skip_padding start alignment)

-- UnmarshalDBusArray at a `std::vector`. At `bool` the template does not compile, as
-- `std::vector<bool>` has no `data()`.
unfoldable pub unmarshal_array_of :
    (t : Ty) → (Bytes → ℕ → Result (Value t × ℕ)) → Bytes → ℕ → Result (List (Value t) × ℕ)
unmarshal_array_of (basic (word w)) element bytes pointer =
    unmarshal_packed (size_of w) bytes pointer
unmarshal_array_of double element bytes pointer = unmarshal_packed 8 bytes pointer
unmarshal_array_of (basic boolean) element bytes pointer = err no_instance
unmarshal_array_of (basic (text s)) element bytes pointer =
    unmarshal_array element (alignment_of_key (text s)) bytes pointer
unmarshal_array_of (array t) element bytes pointer = unmarshal_array element 4 bytes pointer
unmarshal_array_of (struct ts) element bytes pointer = unmarshal_array element 8 bytes pointer
unmarshal_array_of (map k t) element bytes pointer = unmarshal_array element 8 bytes pointer
unmarshal_array_of variant element bytes pointer = unmarshal_array element 1 bytes pointer

-- `std::map::emplace`: the entries stand in the order of the keys, and a key that is there stays.
module _ {A B : Type 0} (less : A → A → Bool) where
  unfoldable pub emplace : A → B → List (A × B) → List (A × B)
  emplace k v [] = (k, v) ∷ []
  emplace k v ((j, w) ∷ m) =
      if less k j
      then (k, v) ∷ (j, w) ∷ m
      else if less j k
      then (j, w) ∷ emplace k v m
      else (j, w) ∷ m

module _ {A B : Type 0} (unmarshal_first : Bytes → ℕ → Result (A × ℕ))
    (unmarshal_second : Bytes → ℕ → Result (B × ℕ)) (second_alignment : ℕ) where
  -- One entry of a map.
  unfoldable pub unmarshal_entry : Bytes → ℕ → Result ((A × B) × ℕ)
  unmarshal_entry bytes pointer = do
    (k, middle) ← unmarshal_first bytes pointer
    (v, next) ← unmarshal_second bytes (skip_padding middle second_alignment)
    ok ((k, v), next)

module _ {A B : Type 0} (unmarshal_first : Bytes → ℕ → Result (A × ℕ))
    (unmarshal_second : Bytes → ℕ → Result (B × ℕ)) (second_alignment : ℕ)
    (less : A → A → Bool) where
  -- The loop of UnmarshalDBusMap, with the map that it fills.
  unfoldable pub unmarshal_entries :
      ℕ → ℕ → ℕ → List (A × B) → Bytes → ℕ → Result (List (A × B) × ℕ)
  unmarshal_entries zero map_length bytes_read m bytes pointer = err out_of_fuel
  unmarshal_entries (suc fuel) map_length bytes_read m bytes pointer =
      let round = do
        (e, next) ← unmarshal_entry unmarshal_first unmarshal_second second_alignment bytes pointer
        let read = add32 bytes_read (sub32 next pointer)
        let padded = if ltb read map_length then (add_padding_to_size next 8).0 else next
        let total = if ltb read map_length then add32 read (sub32 padded next) else read
        unmarshal_entries fuel map_length total (emplace less e.0 e.1 m) bytes padded
      in if ltb bytes_read map_length then round else ok (m, pointer)

  -- UnmarshalDBusMap.
  unfoldable pub unmarshal_map : Bytes → ℕ → Result (List (A × B) × ℕ)
  unmarshal_map bytes pointer = do
    (map_length, start) ← read_fixed 4 bytes pointer
    let begin = skip_padding start 8
    if map_length == 0
        then ok ([], skip_padding begin 8)
        else unmarshal_entries (suc map_length) map_length 0 [] bytes begin

-- UnmarshalDBusTypeImpl, and UnmarshalDBusStruct for the members of a tuple.
unfoldable mutual
  pub unmarshal : (t : Ty) → Bytes → ℕ → Result (Value t × ℕ)
  unmarshal (basic k) bytes pointer = read_key k bytes pointer
  unmarshal double bytes pointer = read_fixed 8 bytes pointer
  unmarshal (array t) bytes pointer = unmarshal_array_of t (unmarshal t) bytes pointer
  unmarshal (struct ts) bytes pointer = unmarshal_members ts bytes pointer
  unmarshal (map k t) bytes pointer =
      unmarshal_map (read_key k) (unmarshal t) (alignment_of_member t) (key_less k) bytes pointer
  unmarshal variant bytes pointer = read_variant bytes pointer

  pub unmarshal_members : (ts : Tys) → Bytes → ℕ → Result (Values ts × ℕ)
  unmarshal_members (one t) bytes pointer = unmarshal t bytes pointer
  unmarshal_members (more t ts) bytes pointer = do
    (v, next) ← unmarshal t bytes pointer
    (vs, end) ← unmarshal_members ts bytes (skip_padding next (alignment_of_member (head_type ts)))
    ok ((v, vs), end)

-- UnmarshalDBusBasicMultipleCompleteTypes.
unfoldable pub unmarshal_complete : (ts : Tys) → Bytes → ℕ → Result (Values ts × ℕ)
unmarshal_complete (one t) bytes pointer = unmarshal t bytes pointer
unmarshal_complete (more t ts) bytes pointer = do
  (v, next) ← unmarshal t bytes pointer
  (vs, end) ← unmarshal_complete ts bytes (skip_padding next (alignment_of_type (head_type ts)))
  ok ((v, vs), end)

-- The checks of UnmarshalDBusType on the signature that the caller gives.
unfoldable pub check_signature : Text → Text → Result (Unit {0})
check_signature expected sig = do
  throw_if (not (are_type_codes sig)) invalid_signature
  throw_if (not (are_brackets_even sig)) invalid_signature
  throw_if (not (text_eq sig expected)) invalid_signature

-- UnmarshalDBusType on a whole buffer.
unfoldable pub unmarshal_type : (t : Ty) → Bytes → Text → Result (Value t)
unfolding unmarshal read_fixed read_bool read_stringlike read_key read_variant walk walk_step
    walk_code align_code skip_dict unpacked unmarshal_packed unmarshal_elements unmarshal_array
    unmarshal_array_of emplace unmarshal_entry unmarshal_entries unmarshal_map skip_padding padding
    add_padding_to_size from_le read_bytes construct type_signature check_signature are_type_codes
    are_brackets_even key_less
unmarshal_type t bytes sig = do
  check_signature (type_signature t) sig
  (value, end) ← unmarshal t bytes 0
  throw_if (not (end == length bytes)) malformed_input
  ok value

-- Variant::UnmarshalData. A Variant keeps up to 32 bytes in an array of 32; `tail` is what that
-- array holds behind them.
unfoldable pub unmarshal_data : (t : Ty) → Bytes → Variant → Result (Value t)
unfolding unmarshal read_fixed read_bool read_stringlike read_key read_variant walk walk_step
    walk_code align_code skip_dict unpacked unmarshal_packed unmarshal_elements unmarshal_array
    unmarshal_array_of emplace unmarshal_entry unmarshal_entries unmarshal_map skip_padding padding
    add_padding_to_size from_le read_bytes construct type_signature check_signature are_type_codes
    are_brackets_even key_less
unmarshal_data t tail monostate = err variant_unmarshal
unmarshal_data t tail (source sig alignment f) = err variant_unmarshal
unmarshal_data t tail (deserialized sig content) = do
  throw_if (not (text_eq (type_signature t) sig)) variant_unmarshal
  (value, end) ← unmarshal t (content ++ take (32 - length content) tail) 0
  ok value

-- UnmarshalDBusType on a whole buffer at a MultipleCompleteTypes.
unfoldable pub unmarshal_complete_type : (ts : Tys) → Bytes → Text → Result (Values ts)
unmarshal_complete_type ts bytes sig = do
  check_signature (member_signatures ts) sig
  (values, end) ← unmarshal_complete ts bytes 0
  throw_if (not (end == length bytes)) malformed_input
  ok values
