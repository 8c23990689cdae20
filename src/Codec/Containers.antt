-- ===== src/Codec/Containers.antt =====
-- What marshalling arrays and maps, MarshalDBusArray and MarshalDBusMap of src/DBus.h, appends to a
-- buffer, and the alignments of types.
use cxx_bus.Base.{
  ℕ, ◌+◌, ◌%◌, ◌^◌, ◌≡◌, refl, List, [], ◌∷◌, ◌++◌, append-nil, arith, length, Result, ok, ◌>>=◌,
  inl, inr, All,
}
use cxx_bus.Codec.Types.{
  Word, uint8, int16, uint16, int32, uint32, int64, uint64, string, object_path, interface_name,
  signature, Key, Ty, size_of, word, boolean, text, basic, double, array, struct, map, variant,
  alignment_of_key, alignment_of_type, alignment_of_member,
}
use cxx_bus.Codec.Bytes.{Bytes, apply_padding}
use cxx_bus.Codec.Layout.{
  Appends, Appends-after, IsAlignment, padding-mod, Appends-const, Appends-padding, Appends-bind,
}
use cxx_bus.Codec.Marshal.{
  marshal_fixed, marshal_array, marshal_entry, marshal_entries, marshal_map,
}
use cxx_bus.Codec.Appending.{
  marshal_elements-Appends, marshal_array_lem, marshal_array_inv, array_bytes, array_prefix,
  length-array_prefix,
}

pub size_of-IsAlignment : (w : Word) → IsAlignment (size_of w)
size_of-IsAlignment uint8 = inl refl
size_of-IsAlignment int16 = inr (inl refl)
size_of-IsAlignment uint16 = inr (inl refl)
size_of-IsAlignment int32 = inr (inr (inl refl))
size_of-IsAlignment uint32 = inr (inr (inl refl))
size_of-IsAlignment int64 = inr (inr (inr refl))
size_of-IsAlignment uint64 = inr (inr (inr refl))

pub alignment_of_key-IsAlignment : (k : Key) → IsAlignment (alignment_of_key k)
alignment_of_key-IsAlignment (word w) = size_of-IsAlignment w
alignment_of_key-IsAlignment boolean = inr (inr (inl refl))
alignment_of_key-IsAlignment (text signature) = inl refl
alignment_of_key-IsAlignment (text string) = inr (inr (inl refl))
alignment_of_key-IsAlignment (text object_path) = inr (inr (inl refl))
alignment_of_key-IsAlignment (text interface_name) = inr (inr (inl refl))

pub alignment_of_type-IsAlignment : (t : Ty) → IsAlignment (alignment_of_type t)
alignment_of_type-IsAlignment (basic k) = alignment_of_key-IsAlignment k
alignment_of_type-IsAlignment double = inr (inr (inr refl))
alignment_of_type-IsAlignment (array t) = inr (inr (inl refl))
alignment_of_type-IsAlignment (struct ts) = inr (inr (inr refl))
alignment_of_type-IsAlignment (map k t) = inr (inr (inr refl))
alignment_of_type-IsAlignment variant = inl refl

pub alignment_of_member-IsAlignment : (t : Ty) → IsAlignment (alignment_of_member t)
alignment_of_member-IsAlignment (basic k) = alignment_of_key-IsAlignment k
alignment_of_member-IsAlignment double = inr (inr (inr refl))
alignment_of_member-IsAlignment (array t) = inr (inr (inl refl))
alignment_of_member-IsAlignment (struct ts) = inr (inr (inr refl))
alignment_of_member-IsAlignment (map k t) = inr (inr (inl refl))
alignment_of_member-IsAlignment variant = inl refl

pub eight : IsAlignment 8
eight = inr (inr (inr refl))

module _ {A : Type 0} (m : A → Bytes → Result Bytes) (alignment : ℕ)
    (v : IsAlignment alignment) where
  same_start :
      (b c : Bytes)
      → length c % 8 ≡ length b % 8
      → length (array_prefix alignment c) % 8 ≡ length (array_prefix alignment b) % 8
  same_start b c h =
      rw
        (
          length-array_prefix alignment b,
          length-array_prefix alignment c,
          padding-mod (length c + 4) (length b + 4) alignment v (omega arith),
        )
        (omega arith)

  pub marshal_array-Appends :
      (xs : List A) → All (λ x. Appends (m x)) xs → Appends (marshal_array m alignment xs)
  marshal_array-Appends xs h b r e =
      let elements = marshal_elements-Appends m alignment v xs h in
      let (y, whole, small, er, sy) = marshal_array_inv m alignment xs elements b r e in
      (
        array_bytes alignment (length b) y,
        er,
        λ c k. rw (
          marshal_array_lem m alignment xs c y (sy (array_prefix alignment c) (same_start b c k)),
          small,
          padding-mod (length c + 4) (length b + 4) alignment v (omega arith),
        ),
      )

module _ {A B : Type 0} (m : A → Bytes → Result Bytes) (n : B → Bytes → Result Bytes)
    (alignment : ℕ) (v : IsAlignment alignment) where
  pub marshal_entry-Appends :
      (e : A × B) → Appends (m e.0) → Appends (n e.1) → Appends (marshal_entry m n alignment e)
  unfolding marshal_entry
  marshal_entry-Appends (a, b) hm hn =
      Appends-bind (m a) (λ g. n b (apply_padding g alignment)) hm
        (Appends-bind (λ g. ok (apply_padding g alignment)) (n b) (Appends-padding alignment v) hn)

  marshal_entries-Appends :
      (es : List (A × B))
      → All (λ e. Appends (m e.0) × Appends (n e.1)) es
      → Appends (marshal_entries m n alignment es)
  unfolding marshal_entries
  marshal_entries-Appends [] h = λ b r e. ([], cc (append-nil b), λ c k. rw append-nil)
  marshal_entries-Appends (e ∷ es) h =
      Appends-bind (λ b. marshal_entry m n alignment e (apply_padding b 8))
        (marshal_entries m n alignment es)
        (Appends-bind (λ b. ok (apply_padding b 8)) (marshal_entry m n alignment e)
          (Appends-padding 8 eight) (marshal_entry-Appends e h.0.0 h.0.1))
        (marshal_entries-Appends es h.1)

  map_prefix-Appends : (size : ℕ) → Appends (λ b. ok (apply_padding (marshal_fixed 4 size b) 8))
  unfolding marshal_fixed
  map_prefix-Appends size =
      Appends-bind (λ b. ok (marshal_fixed 4 size b)) (λ b. ok (apply_padding b 8))
        (Appends-const _) (Appends-padding 8 eight)

  pub marshal_map-Appends : (es : List (A × B)) → Appends (marshal_map m n alignment es)
  unfolding marshal_map
  marshal_map-Appends [] =
      Appends-bind (λ b. ok (apply_padding (marshal_fixed 4 0 b) 8)) (λ b. ok (apply_padding b 8))
        (map_prefix-Appends 0) (Appends-padding 8 eight)
  marshal_map-Appends (e ∷ es) =
      Appends-after (marshal_entry m n alignment e [])
        (λ g b. marshal_entries m n alignment es g >>= λ entries. placed entries b)
        (λ g. Appends-after (marshal_entries m n alignment es g) placed placed-Appends)
    where
      placed : Bytes → Bytes → Result Bytes
      placed entries b =
          ok (apply_padding (marshal_fixed 4 (length entries % 2 ^ 32) b) 8 ++ entries)

      placed-Appends : (entries : Bytes) → Appends (placed entries)
      placed-Appends entries =
          Appends-bind (λ b. ok (apply_padding (marshal_fixed 4 (length entries % 2 ^ 32) b) 8))
            (λ b. ok (b ++ entries)) (map_prefix-Appends (length entries % 2 ^ 32))
            (Appends-const entries)
