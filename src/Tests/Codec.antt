-- ===== src/Tests/Codec.antt =====
-- The wire codec of src/DBus.h at a struct of a byte, an array of strings and a map from strings
-- to arrays of 64-bit numbers.
use cxx_bus.Base.{ℕ, ◌+◌, ◌≡◌, refl, [], ◌∷◌, ◌++◌, ok, codes, arith, length, get_or}
use cxx_bus.TypeCodes.{alignment_of_signature}
use cxx_bus.Codec.Types.{
  uint8, uint32, int64, string, Ty, word, text, basic, array, struct, map, one, more, Value,
  type_signature, alignment_of_member, construct, key_less,
}
use cxx_bus.Codec.Bytes.{Bytes, le_bytes}
use cxx_bus.Codec.Fits.{Fits}
use cxx_bus.Codec.Marshal.{marshal, marshal_type, marshal_key, marshal_fixed}
use cxx_bus.Codec.Unmarshal.{unmarshal, unmarshal_type, check_signature}
use cxx_bus.Codec.Layout.{Appends}
use cxx_bus.Codec.AppendingAll.{marshal-Appends, IsSoundValue}
use cxx_bus.Base.{◌<◌, ◌^◌}
use cxx_bus.Base.{out_of_bounds, err}
use cxx_bus.Codec.Variants.{read_fixed, read_key}
use cxx_bus.Base.{◌⊎◌, inl, inr, length_error}
use cxx_bus.Codec.Bytes.{read_bytes, from_le, skip_padding}
use cxx_bus.Codec.Variants.{read_stringlike}
use cxx_bus.Codec.Unmarshal.{unmarshal_array, unmarshal_elements}
use cxx_bus.Codec.Termination.{Ends, unmarshal_array-Ends}
use cxx_bus.Codec.Bounds.{StaysInside, read_key-StaysInside, read_fixed-out_of_bounds}
use cxx_bus.Codec.Room.{Within}
use cxx_bus.Codec.Totality.{room, IsCleanValue, marshal-Within, unmarshal_type-marshal_type_total}
use cxx_bus.Codec.RoundTrip.{unmarshal-marshal}
use cxx_bus.Codec.Signatures.{check_signature-type_signature, alignment_of_signature-type_signature}

abbrev sample_type : Ty
sample_type = struct (
    more (basic (word uint8))
      (more (array (basic (text string))) (one (map (text string) (array (basic (word int64)))))))

abbrev sample : Value sample_type
sample = (7, (codes "ab" ∷ codes "c" ∷ [], (codes "k", 5 ∷ 6 ∷ []) ∷ (codes "l", []) ∷ []))

sample-Fits : Fits sample_type sample
unfolding Fits construct key_less
sample-Fits = (
  omega arith,
  (
    (tt, tt, ((omega arith, refl), ((omega arith, refl), tt))),
    (
      (((refl, refl), tt), (tt, tt)),
      (
        ((omega arith, refl), (tt, omega arith, (omega arith, (omega arith, tt)))),
        (((omega arith, refl), (tt, omega arith, tt)), tt),
      ),
    ),
  ),
)

abbrev sample_bytes : Bytes
sample_bytes =
    7 ∷ 0 ∷ 0 ∷ 0 ∷ 14 ∷ 0 ∷ 0 ∷ 0 ∷ 2 ∷ 0 ∷ 0 ∷ 0 ∷ 97 ∷ 98 ∷ 0 ∷ 0 ∷ 1 ∷ 0 ∷ 0 ∷ 0 ∷ 99 ∷ 0 ∷ 0
    ∷ 0 ∷ 48 ∷ 0 ∷ 0 ∷ 0 ∷ 0 ∷ 0 ∷ 0 ∷ 0 ∷ 1 ∷ 0 ∷ 0 ∷ 0 ∷ 107 ∷ 0 ∷ 0 ∷ 0 ∷ 16 ∷ 0 ∷ 0 ∷ 0 ∷ 0 ∷ 0
    ∷ 0 ∷ 0 ∷ 5 ∷ 0 ∷ 0 ∷ 0 ∷ 0 ∷ 0 ∷ 0 ∷ 0 ∷ 6 ∷ 0 ∷ 0 ∷ 0 ∷ 0 ∷ 0 ∷ 0 ∷ 0 ∷ 1 ∷ 0 ∷ 0 ∷ 0 ∷ 108
    ∷ 0 ∷ 0 ∷ 0 ∷ 0 ∷ 0 ∷ 0 ∷ 0 ∷ 0 ∷ 0 ∷ 0 ∷ 0 ∷ []

sample_marshalled : marshal_type sample_type sample ≡ ok sample_bytes
unfolding marshal_type
sample_marshalled = refl

-- Behind three bytes, and with two more behind it.
abbrev word_bytes : Bytes
word_bytes = 44 ∷ 1 ∷ 0 ∷ 0 ∷ []

word_marshalled :
    marshal (basic (word uint32)) 300 (1 ∷ 2 ∷ 3 ∷ 4 ∷ []) ≡ ok ((1 ∷ 2 ∷ 3 ∷ 4 ∷ []) ++ word_bytes)
unfolding marshal marshal_key marshal_fixed le_bytes
word_marshalled = refl

word-Fits : Fits (basic (word uint32)) 300
unfolding Fits
word-Fits = omega arith

unmarshal-marshal_example :
    unmarshal
      (basic (word uint32))
      ((1 ∷ 2 ∷ 3 ∷ 4 ∷ []) ++ (word_bytes ++ (9 ∷ 9 ∷ [])))
      (length {A = ℕ} (1 ∷ 2 ∷ 3 ∷ 4 ∷ []))
    ≡ ok (300, length {A = ℕ} (1 ∷ 2 ∷ 3 ∷ 4 ∷ []) + length word_bytes)
unmarshal-marshal_example =
    unmarshal-marshal (basic (word uint32)) 300 (1 ∷ 2 ∷ 3 ∷ 4 ∷ []) word_bytes (9 ∷ 9 ∷ [])
      word-Fits word_marshalled (omega arith)

sample-IsSoundValue : IsSoundValue (array (basic (text string))) (codes "ab" ∷ codes "c" ∷ [])
unfolding IsSoundValue
sample-IsSoundValue = (tt, (tt, tt))

marshal-Appends_example :
    Appends (marshal (array (basic (text string))) (codes "ab" ∷ codes "c" ∷ []))
marshal-Appends_example =
    marshal-Appends (array (basic (text string))) (codes "ab" ∷ codes "c" ∷ []) sample-IsSoundValue

check_signature-type_signature_example :
    check_signature (type_signature sample_type) (type_signature sample_type) ≡ ok tt
check_signature-type_signature_example = check_signature-type_signature sample_type

alignment_of_signature-type_signature_example :
    alignment_of_signature (get_or (type_signature sample_type) 0 0)
    ≡ ok (alignment_of_member sample_type)
alignment_of_signature-type_signature_example = alignment_of_signature-type_signature sample_type

sample-IsCleanValue : IsCleanValue sample_type sample
unfolding IsCleanValue
sample-IsCleanValue = (tt, ((refl, (refl, tt)), ((refl, (tt, (tt, tt))), ((refl, tt), tt))))

sample_small : room sample_type sample < 2 ^ 26
unfolding room
sample_small = omega arith

marshal-Within_example : Within (room sample_type sample) (marshal sample_type sample)
marshal-Within_example = marshal-Within sample_type sample sample-IsCleanValue sample_small

unmarshal_type-marshal_type_total_example :
    (bytes : Bytes) × (marshal_type sample_type sample ≡ ok bytes)
    × (unmarshal_type sample_type bytes (type_signature sample_type) ≡ ok sample)
unmarshal_type-marshal_type_total_example =
    unmarshal_type-marshal_type_total sample_type sample sample-Fits sample-IsCleanValue
      sample_small

read_key-StaysInside_example : StaysInside (read_key (text string))
read_key-StaysInside_example = read_key-StaysInside (text string)

-- A pointer that padding has moved from 5 to 8, in a buffer of 6 bytes.
read_fixed-out_of_bounds_example : read_fixed 4 (1 ∷ 2 ∷ 3 ∷ 4 ∷ 5 ∷ 6 ∷ []) 8 ≡ err out_of_bounds
read_fixed-out_of_bounds_example =
    read_fixed-out_of_bounds 4 (1 ∷ 2 ∷ 3 ∷ 4 ∷ 5 ∷ 6 ∷ []) 8 (omega arith) (omega arith)
      (omega arith)

-- Two strings in an array, read from the start.
abbrev strings : Bytes
strings = 14 ∷ 0 ∷ 0 ∷ 0 ∷ 1 ∷ 0 ∷ 0 ∷ 0 ∷ 97 ∷ 0 ∷ 0 ∷ 0 ∷ 1 ∷ 0 ∷ 0 ∷ 0 ∷ 98 ∷ 0 ∷ []

unmarshal_array-Ends_example :
    Ends
      (read_key (text string))
      4
      (read_key-StaysInside (text string))
      (inr (inr (inl refl)))
      strings
      (unmarshal_array (read_key (text string)) 4 strings 0)
    ⊎ (unmarshal_array (read_key (text string)) 4 strings 0 ≡ err length_error)
unmarshal_array-Ends_example =
    unmarshal_array-Ends (read_key (text string)) 4 (read_key-StaysInside (text string))
      (inr (inr (inl refl))) strings 0 (omega arith) (omega arith)

strings_read :
    unmarshal_array (read_key (text string)) 4 strings 0 ≡ ok (codes "a" ∷ codes "b" ∷ [], 18)
unfolding unmarshal_array unmarshal_elements read_key read_stringlike read_fixed read_bytes from_le
    skip_padding construct
strings_read = refl
