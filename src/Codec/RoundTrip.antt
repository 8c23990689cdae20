-- ===== src/Codec/RoundTrip.antt =====
-- Unmarshalling undoes marshalling, for every type of values.
use cxx_bus.Base.{
  [], ◌+◌, append-nil, ==_true, ℕ, ◌*◌, ◌%◌, ◌^◌, ◌<◌, ◌≡◌, refl, ap, List, ◌++◌, arith, length,
  length-append, Result, ok, All, inl, inr, if◌then◌else◌,
}
use cxx_bus.Codec.Types.{
  type_signature, Word, uint8, Key, Ty, Tys, KeyValue, Value, Values, size_of, word, boolean, text,
  basic, double, array, struct, map, variant, one, more, alignment_of_key, alignment_of_member,
  head_type, key_less,
}
use cxx_bus.Codec.Signatures.{check_signature-type_signature}
use cxx_bus.Codec.Bytes.{Bytes, apply_padding, le_bytes}
use cxx_bus.Codec.Fits.{FitsKey, Fits, FitsMembers}
use cxx_bus.Codec.Layout.{
  Grows, IsAlignment, Appends-const, Grows-bind_left, length-apply_padding, length-le_bytes,
}
use cxx_bus.Codec.Marshal.{
  marshal_type, marshal_fixed, marshal_bool, marshal_key, packed, marshal_packed, marshal_array,
  marshal_array_of, marshal, marshal_members,
}
use cxx_bus.Codec.Appending.{
  marshal_key-Appends, packed-Appends, marshal_stringlike_lem, string_bytes,
}
use cxx_bus.Codec.AppendingAll.{marshal_members-Appends, All-map, FitsMembers-AreSoundValues}
use cxx_bus.Codec.Containers.{
  size_of-IsAlignment, alignment_of_key-IsAlignment, alignment_of_member-IsAlignment,
  marshal_array-Appends, marshal_map-Appends,
}
use cxx_bus.Codec.Unmarshal.{
  unmarshal_type, unmarshal_packed, unmarshal_array, unmarshal_array_of, unmarshal,
  unmarshal_members,
}
use cxx_bus.Codec.Variants.{read_fixed, read_key}
use cxx_bus.Codec.Reading.{
  Reads, read_key-Reads, read_fixed-append, append-cancel, length-string_bytes,
}
use cxx_bus.Codec.Header.{sized, length-sized}
use cxx_bus.Codec.Packed.{unmarshal_packed-Reads, marshal_packed_lem}
use cxx_bus.Codec.Pairs.{two-Reads}
use cxx_bus.Codec.Arrays.{IsCoded, elements-Appends, unmarshal_array-Reads, marshal_array-Grows}
use cxx_bus.Codec.Entries.{unmarshal_map-Reads, marshal_map-Grows}

four : IsAlignment 4
four = inr (inr (inl refl))

eight : IsAlignment 8
eight = inr (inr (inr refl))

size_of_pos : (w : Word) → 0 < size_of w
size_of_pos uint8 = omega arith
size_of_pos _ = omega arith

fixed-Grows : (n v : ℕ) → 0 < n → Grows (λ b. ok (marshal_fixed n v b))
unfolding marshal_fixed
fixed-Grows n v h b r e =
    let er : b ++ le_bytes n v ≡ r = cc in
    omega (arith, ap length er, length-append b (le_bytes n v), length-le_bytes n v)

key-Grows : (k : Key) (v : KeyValue k) → Grows (marshal_key k v)
unfolding marshal_key marshal_bool
key-Grows (word w) v b r e = fixed-Grows (size_of w) v (size_of_pos w) b r e
key-Grows boolean v b r e = fixed-Grows 4 (if v then 1 else 0) (omega arith) b r e
key-Grows (text s) v b r e = omega (
  arith,
  ap length (marshal_stringlike_lem s v b r e).1,
  length-append b (string_bytes s v),
  length-string_bytes s v,
)

packed-Grows : (n : ℕ) (xs : List ℕ) → Grows (λ b. ok (marshal_packed n xs b))
packed-Grows n xs b r e =
    let er : marshal_packed n xs b ≡ r = cc in
    let x = sized n (length b) (length xs * n % 2 ^ 32) (packed n xs) in
    omega (
      arith,
      ap length er,
      ap length (marshal_packed_lem n xs b),
      length-append b x,
      length-sized n b (length xs * n % 2 ^ 32) (packed n xs),
    )

key-IsCoded : (k : Key) (v : KeyValue k) → FitsKey k v → IsCoded (marshal_key k) (read_key k) v
key-IsCoded k v h = (marshal_key-Appends k v, key-Grows k v, read_key-Reads k v h)

double-Reads : (v : ℕ) → v < 256 ^ 8 → Reads (λ b. ok (marshal_fixed 8 v b)) (read_fixed 8) v
unfolding marshal_fixed
double-Reads v h b x rest e size =
    let ex : x ≡ le_bytes 8 v = append-cancel b _ _ (cc) in
    rw (ex, length-le_bytes 8 v)
      (read_fixed-append 8 v b rest h (omega (arith, ap length ex, length-le_bytes 8 v)))

double-IsCoded : (v : ℕ) → v < 256 ^ 8 → IsCoded (λ v b. ok (marshal_fixed 8 v b)) (read_fixed 8) v
double-IsCoded v h = (
  unfold marshal_fixed in Appends-const (le_bytes 8 v),
  fixed-Grows 8 v (omega arith),
  double-Reads v h,
)

packed-IsCoded :
    (n : ℕ) (xs : List ℕ)
    → IsAlignment n
    → length xs * n < 2 ^ 26
    → All (λ x. x < 256 ^ n) xs
    → IsCoded (λ xs b. ok (marshal_packed n xs b)) (unmarshal_packed n) xs
packed-IsCoded n xs v small h =
    (packed-Appends n xs v, packed-Grows n xs, unmarshal_packed-Reads n xs v small h)

module _ {A : Type 0} (m : A → Bytes → Result Bytes) (u : Bytes → ℕ → Result (A × ℕ)) where
  array-IsCoded :
      (alignment : ℕ) (xs : List A)
      → IsAlignment alignment
      → All (IsCoded m u) xs
      → IsCoded (marshal_array m alignment) (unmarshal_array u alignment) xs
  array-IsCoded a xs v h = (
    marshal_array-Appends m a v xs (elements-Appends m u a xs h),
    marshal_array-Grows m u a xs h v,
    unmarshal_array-Reads m u a xs h v,
  )

array_of-IsCoded :
    (t : Ty) (xs : List (Value t))
    → Fits (array t) xs
    → ((x : Value t) → Fits t x → IsCoded (marshal t) (unmarshal t) x)
    → IsCoded (marshal_array_of t (marshal t)) (unmarshal_array_of t (unmarshal t)) xs
unfolding marshal_array_of unmarshal_array_of Fits
array_of-IsCoded (basic (word w)) xs h c =
    packed-IsCoded (size_of w) xs (size_of-IsAlignment w) h.1 h.2
array_of-IsCoded (basic boolean) xs h c = absurd h.0
array_of-IsCoded double xs h c = packed-IsCoded 8 xs eight h.1 h.2
array_of-IsCoded (basic (text s)) xs h c =
    array-IsCoded (marshal (basic (text s))) (unmarshal (basic (text s)))
      (alignment_of_key (text s)) xs (alignment_of_key-IsAlignment (text s)) (All-map xs c h.2)
array_of-IsCoded (array t) xs h c =
    array-IsCoded (marshal (array t)) (unmarshal (array t)) 4 xs four (All-map xs c h.2)
array_of-IsCoded (struct ts) xs h c =
    array-IsCoded (marshal (struct ts)) (unmarshal (struct ts)) 8 xs eight (All-map xs c h.2)
array_of-IsCoded (map k t) xs h c =
    array-IsCoded (marshal (map k t)) (unmarshal (map k t)) 8 xs eight (All-map xs c h.2)
array_of-IsCoded variant xs h c =
    array-IsCoded (marshal variant) (unmarshal variant) 1 xs (inl refl) (All-map xs c h.2)

mutual
  unfolding marshal unmarshal Fits

  value-IsCoded : (t : Ty) (v : Value t) → Fits t v → IsCoded (marshal t) (unmarshal t) v
  value-IsCoded (basic k) v h = key-IsCoded k v h
  value-IsCoded double v h = double-IsCoded v h
  value-IsCoded (array t) xs h = array_of-IsCoded t xs h (value-IsCoded t)
  value-IsCoded (struct ts) vs h = members-IsCoded ts vs h
  value-IsCoded (map k t) m h =
      let coded = All-map m (λ e f. (key-IsCoded k e.0 f.0, value-IsCoded t e.1 f.1)) h.1 in
      (
        marshal_map-Appends (marshal_key k) (marshal t) (alignment_of_member t)
            (alignment_of_member-IsAlignment t) m,
        marshal_map-Grows (marshal_key k) (marshal t) (read_key k) (unmarshal t)
            (alignment_of_member t) (alignment_of_member-IsAlignment t) m coded,
        unmarshal_map-Reads (marshal_key k) (marshal t) (read_key k) (unmarshal t)
            (alignment_of_member t) (alignment_of_member-IsAlignment t) (key_less k) m coded h.0,
      )
  value-IsCoded variant v h = absurd h

  members-IsCoded :
      (ts : Tys) (vs : Values ts)
      → FitsMembers ts vs
      → IsCoded (marshal_members ts) (unmarshal_members ts) vs
  members-IsCoded (one t) v h = value-IsCoded t v h
  members-IsCoded (more t ts) (v, vs) h =
      let c = value-IsCoded t v h.0 in
      let cs = members-IsCoded ts vs h.1 in
      let a = alignment_of_member (head_type ts) in
      (
        marshal_members-Appends (more t ts) (v, vs)
            (FitsMembers-AreSoundValues (more t ts) (v, vs) h),
        Grows-bind_left (marshal t v) (λ g. marshal_members ts vs (apply_padding g a)) c.1
            (λ b r e. omega (arith, length-apply_padding b a, cs.1 (apply_padding b a) r e)),
        two-Reads (marshal t v) (marshal_members ts vs) (unmarshal t) (unmarshal_members ts) a v vs
            c.0 cs.0 c.2 cs.2,
      )

-- What marshalling appends to a buffer is read back, wherever it stands in a buffer below 4 GiB: for
-- every value that fits its type (no Variant and no vector of `bool` in it, numbers of the width of
-- their type, texts that their class accepts and whose length fits its field, so that a signature
-- has fewer than 256 characters, vectors of numbers below 64 MiB, and the entries of maps in the
-- order of their keys) and is marshalled behind `b` without an exception, unmarshalling behind `b`
-- gives the value and stops exactly behind the bytes `x` that were appended, whatever follows them.
pub unmarshal-marshal :
    (t : Ty) (v : Value t) (b x rest : Bytes)
    → Fits t v
    → marshal t v b ≡ ok (b ++ x)
    → length b + (length x + length rest) < 2 ^ 32
    → unmarshal t (b ++ (x ++ rest)) (length b) ≡ ok (v, length b + length x)
unmarshal-marshal t v b x rest h e size = (value-IsCoded t v h).2 b x rest e size

-- MarshalDBusType and UnmarshalDBusType are inverse: for every value that fits its type as above, if
-- marshalling gives less than 4 GiB, unmarshalling these with the signature of the type gives the
-- value back.
pub unmarshal_type-marshal_type :
    (t : Ty) (v : Value t) (bytes : Bytes)
    → Fits t v
    → marshal_type t v ≡ ok bytes
    → length bytes < 2 ^ 32
    → unmarshal_type t bytes (type_signature t) ≡ ok v
unfolding marshal_type unmarshal_type
unmarshal_type-marshal_type t v bytes h e size =
    let read : unmarshal t (bytes ++ []) 0 ≡ ok (v, 0 + length bytes) =
      unmarshal-marshal t v [] bytes [] h e (omega arith) in
    let start : 0 + length bytes ≡ length bytes = omega arith in
    let read' : unmarshal t bytes 0 ≡ ok (v, length bytes) = rw (append-nil bytes, start) at read in
    rw (check_signature-type_signature t, read', ==_true (length bytes))
