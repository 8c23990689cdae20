-- ===== src/Codec/AppendingAll.antt =====
-- Whole values append to the buffer: the Marshal functions of src/DBus.h.
use cxx_bus.Base.{refl, List, [], ◌∷◌, length, Result, ok, inl, inr, All, leb, Bool-cases}
use cxx_bus.Codec.Types.{
  signature, Ty, Tys, Value, Values, size_of, word, boolean, text, basic, double, array, struct,
  map, variant, one, more, alignment_of_key, alignment_of_member, head_type, Variant, monostate,
  source, deserialized, construct,
}
use cxx_bus.Codec.Bytes.{Bytes, apply_padding}
use cxx_bus.Codec.Fits.{Fits, FitsMembers}
use cxx_bus.Codec.Layout.{
  Appends, Appends-after, IsAlignment, Appends-const, Appends-padding, Appends-bind,
}
use cxx_bus.Codec.Marshal.{
  marshal_fixed, marshal_key, marshal_array_of, marshal, marshal_members, marshal_variant,
  marshal_stringlike, create_variant, until_terminator,
}
use cxx_bus.Codec.Appending.{marshal_key-Appends, packed-Appends}
use cxx_bus.Codec.Containers.{
  size_of-IsAlignment, alignment_of_key-IsAlignment, alignment_of_type-IsAlignment,
  alignment_of_member-IsAlignment, eight, marshal_array-Appends, marshal_map-Appends,
}

pub All-map :
    {A : Type 0} {P Q : A → Type 0} (xs : List A) → ((x : A) → P x → Q x) → All P xs → All Q xs
All-map [] f h = tt
All-map (x ∷ xs) f h = (f x h.0, All-map xs f h.1)

marshal_array_of-Appends :
    (t : Ty) (m : Value t → Bytes → Result Bytes) (xs : List (Value t))
    → All (λ x. Appends (m x)) xs
    → Appends (marshal_array_of t m xs)
unfolding marshal_array_of
marshal_array_of-Appends (basic (word w)) m xs h =
    packed-Appends (size_of w) xs (size_of-IsAlignment w)
marshal_array_of-Appends (basic boolean) m xs h =
    marshal_array-Appends m 4 (inr (inr (inl refl))) xs h
marshal_array_of-Appends (basic (text s)) m xs h =
    marshal_array-Appends m (alignment_of_key (text s)) (alignment_of_key-IsAlignment (text s)) xs h
marshal_array_of-Appends double m xs h = packed-Appends 8 xs eight
marshal_array_of-Appends (array t) m xs h = marshal_array-Appends m 4 (inr (inr (inl refl))) xs h
marshal_array_of-Appends (struct ts) m xs h = marshal_array-Appends m 8 eight xs h
marshal_array_of-Appends (map k t) m xs h = marshal_array-Appends m 8 eight xs h
marshal_array_of-Appends variant m xs h = marshal_array-Appends m 1 (inl refl) xs h

-- A Variant as Create makes it: the alignment is one, and the data is appended.
abbrev pub IsSound : Variant → Type 0
IsSound monostate = Unit
IsSound (deserialized sig bytes) = Unit
IsSound (source sig alignment f) = IsAlignment alignment × Appends f

-- Every Variant in the value is sound.
unfoldable mutual
  pub IsSoundValue : (t : Ty) → Value t → Type 0
  IsSoundValue (basic k) v = Unit
  IsSoundValue double n = Unit
  IsSoundValue (array t) xs = All (IsSoundValue t) xs
  IsSoundValue (struct ts) vs = AreSoundValues ts vs
  IsSoundValue (map k t) m = Unit
  IsSoundValue variant v = IsSound v

  pub AreSoundValues : (ts : Tys) → Values ts → Type 0
  AreSoundValues (one t) v = IsSoundValue t v
  AreSoundValues (more t ts) (v, vs) = IsSoundValue t v × AreSoundValues ts vs

marshal_variant-Appends : (v : Variant) → IsSound v → Appends (marshal_variant v)
unfolding marshal_variant
marshal_variant-Appends monostate h = λ b r e. cc
marshal_variant-Appends (deserialized sig bytes) h = λ b r e. cc
marshal_variant-Appends (source sig alignment f) h =
    Appends-bind (marshal_stringlike signature sig) (λ g. f (apply_padding g alignment))
      (unfold marshal_key in marshal_key-Appends (text signature) sig)
      (Appends-bind (λ g. ok (apply_padding g alignment)) f (Appends-padding alignment h.0) h.1)

mutual
  unfolding marshal IsSoundValue marshal_fixed

  value-Appends : (t : Ty) (v : Value t) → IsSoundValue t v → Appends (marshal t v)
  value-Appends (basic k) v h = marshal_key-Appends k v
  value-Appends double v h = Appends-const _
  value-Appends (array t) xs h =
      marshal_array_of-Appends t (marshal t) xs (All-map xs (value-Appends t) h)
  value-Appends (struct ts) vs h = members-Appends ts vs h
  value-Appends (map k t) m h =
      marshal_map-Appends (marshal_key k) (marshal t) (alignment_of_member t)
        (alignment_of_member-IsAlignment t) m
  value-Appends variant v h = marshal_variant-Appends v h

  members-Appends :
      (ts : Tys) (vs : Values ts) → AreSoundValues ts vs → Appends (marshal_members ts vs)
  members-Appends (one t) v h = value-Appends t v h
  members-Appends (more t ts) (v, vs) h =
      Appends-bind (marshal t v)
        (λ g. marshal_members ts vs (apply_padding g (alignment_of_member (head_type ts))))
        (value-Appends t v h.0)
        (Appends-bind (λ g. ok (apply_padding g (alignment_of_member (head_type ts))))
          (marshal_members ts vs)
          (Appends-padding _ (alignment_of_member-IsAlignment (head_type ts)))
          (members-Appends ts vs h.1))

-- Create makes sound Variants, of values whose own Variants are sound.
pub create_variant-IsSound :
    (t : Ty) (v : Value t) → IsSoundValue t v → IsSound (create_variant t v)
unfolding create_variant
create_variant-IsSound (basic (text s)) v h = elim (Bool-cases (leb (length v) 31)) [
  | inl e ↦ rw e (
    alignment_of_key-IsAlignment (text s),
    Appends-after (construct s (until_terminator v)) (λ w b. marshal_key (text s) w b)
        (marshal_key-Appends (text s)),
  )
  | inr e ↦ rw e (alignment_of_key-IsAlignment (text s), marshal_key-Appends (text s) v)
]
create_variant-IsSound (basic (word w)) v h =
    (size_of-IsAlignment w, value-Appends (basic (word w)) v h)
create_variant-IsSound (basic boolean) v h =
    (alignment_of_key-IsAlignment boolean, value-Appends (basic boolean) v h)
create_variant-IsSound double v h = (eight, value-Appends double v h)
create_variant-IsSound (array t) v h =
    (alignment_of_type-IsAlignment (array t), value-Appends (array t) v h)
create_variant-IsSound (struct ts) v h = (eight, value-Appends (struct ts) v h)
create_variant-IsSound (map k t) v h = (eight, value-Appends (map k t) v h)
create_variant-IsSound variant v h = (inl refl, value-Appends variant v h)

mutual
  unfolding Fits IsSoundValue

  Fits-IsSoundValue : (t : Ty) (v : Value t) → Fits t v → IsSoundValue t v
  Fits-IsSoundValue (basic k) v h = tt
  Fits-IsSoundValue double v h = tt
  Fits-IsSoundValue (array t) xs h = All-map xs (Fits-IsSoundValue t) h.2
  Fits-IsSoundValue (struct ts) vs h = FitsMembers-AreSoundValues ts vs h
  Fits-IsSoundValue (map k t) m h = tt
  Fits-IsSoundValue variant v h = absurd h

  pub FitsMembers-AreSoundValues :
      (ts : Tys) (vs : Values ts) → FitsMembers ts vs → AreSoundValues ts vs
  FitsMembers-AreSoundValues (one t) v h = Fits-IsSoundValue t v h
  FitsMembers-AreSoundValues (more t ts) (v, vs) h =
      (Fits-IsSoundValue t v h.0, FitsMembers-AreSoundValues ts vs h.1)

-- Marshalling a value whose Variants are sound appends to the buffer and changes nothing that is in it, and what it appends
-- is the same at any other buffer whose length has the same remainder by 8.
pub marshal-Appends : (t : Ty) (v : Value t) → IsSoundValue t v → Appends (marshal t v)
marshal-Appends t v h = value-Appends t v h

pub marshal_members-Appends :
    (ts : Tys) (vs : Values ts) → AreSoundValues ts vs → Appends (marshal_members ts vs)
marshal_members-Appends ts vs h = members-Appends ts vs h
