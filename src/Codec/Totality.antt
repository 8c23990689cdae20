-- ===== src/Codec/Totality.antt =====
-- Marshalling succeeds: a value whose room is below 64 MiB is marshalled within it, and comes back
-- (src/DBus.h).
use cxx_bus.Base.{
  ℕ, ◌+◌, ◌*◌, ◌^◌, ◌≤◌, ◌<◌, ◌≡◌, refl, List, [], ◌∷◌, arith, length, ok, inl, inr, All,
}
use cxx_bus.Codec.Types.{
  Ty, Tys, Value, Values, size_of, word, boolean, text, basic, double, array, struct, map, variant,
  one, more, alignment_of_key, alignment_of_member, head_type,
}
use cxx_bus.Codec.Bytes.{Bytes, apply_padding}
use cxx_bus.Codec.Marshal.{marshal_key, marshal_array_of, marshal, marshal_members}
use cxx_bus.Codec.Containers.{
  size_of-IsAlignment, alignment_of_key-IsAlignment, alignment_of_member-IsAlignment,
}
use cxx_bus.Codec.Room.{
  Within, room_of_key, IsClean, Within-bind, Within-padding, Within-fixed, Within-weaken,
  Within-key, sum_by, Within-array, Within-packed, Within-map,
}
use cxx_bus.Codec.Fits.{Fits}
use cxx_bus.Codec.Types.{type_signature}
use cxx_bus.Codec.Marshal.{marshal_type}
use cxx_bus.Codec.Unmarshal.{unmarshal_type}
use cxx_bus.Codec.RoundTrip.{unmarshal_type-marshal_type}

-- The room of a value, and what it has to be for marshalling to succeed: no terminators in texts,
-- and no Variants, whose data is of any size.
unfoldable mutual
  pub room : (t : Ty) → Value t → ℕ
  room (basic k) v = room_of_key k v
  room double v = 8
  room (array t) xs = 11 + sum_by (room t) xs
  room (struct ts) vs = room_of_members ts vs
  room (map k t) m = 18 + sum_by (λ e. room_of_key k e.0 + (7 + room t e.1)) m
  room variant v = 0

  pub room_of_members : (ts : Tys) → Values ts → ℕ
  room_of_members (one t) v = room t v
  room_of_members (more t ts) (v, vs) = room t v + (7 + room_of_members ts vs)

unfoldable mutual
  pub IsCleanValue : (t : Ty) → Value t → Type 0
  IsCleanValue (basic k) v = IsClean k v
  IsCleanValue double v = Unit
  IsCleanValue (array t) xs = All (IsCleanValue t) xs
  IsCleanValue (struct ts) vs = AreCleanValues ts vs
  IsCleanValue (map k t) m = All (λ e. IsClean k e.0 × IsCleanValue t e.1) m
  IsCleanValue variant v = ⊥

  pub AreCleanValues : (ts : Tys) → Values ts → Type 0
  AreCleanValues (one t) v = IsCleanValue t v
  AreCleanValues (more t ts) (v, vs) = IsCleanValue t v × AreCleanValues ts vs

-- Every element takes less than the whole.
All-below :
    {A : Type 0} (P Q : A → Type 0) (f : A → ℕ) (xs : List A)
    → sum_by f xs < 2 ^ 26
    → ((x : A) → P x → f x < 2 ^ 26 → Q x)
    → All P xs
    → All Q xs
All-below P Q f [] s g h = tt
All-below P Q f (x ∷ xs) s g h = (g x h.0 (omega arith), All-below P Q f xs (omega arith) g h.1)

sum_by-constant : (n : ℕ) (xs : List ℕ) → length xs * n ≤ sum_by (λ x. n) xs
sum_by-constant n [] = omega arith
sum_by-constant n (x ∷ xs) = omega (arith, sum_by-constant n xs)

Within-array_of :
    (t : Ty) (xs : List (Value t))
    → All (λ x. Within (room t x) (marshal t x)) xs
    → sum_by (room t) xs < 2 ^ 26
    → Within (11 + sum_by (room t) xs) (marshal_array_of t (marshal t) xs)
unfolding marshal_array_of room
Within-array_of (basic (word w)) xs h s =
    Within-weaken (11 + length xs * size_of w) _ _ (omega (arith, sum_by-constant (size_of w) xs))
      (Within-packed (size_of w) xs (size_of-IsAlignment w))
Within-array_of double xs h s =
    Within-weaken (11 + length xs * 8) _ _ (omega (arith, sum_by-constant 8 xs))
      (Within-packed 8 xs (inr (inr (inr refl))))
Within-array_of (basic boolean) xs h s =
    Within-array (marshal (basic boolean)) (room (basic boolean)) 4 (inr (inr (inl refl))) xs h s
Within-array_of (basic (text k)) xs h s =
    Within-array (marshal (basic (text k))) (room (basic (text k))) (alignment_of_key (text k))
      (alignment_of_key-IsAlignment (text k)) xs h s
Within-array_of (array t) xs h s =
    Within-array (marshal (array t)) (room (array t)) 4 (inr (inr (inl refl))) xs h s
Within-array_of (struct ts) xs h s =
    Within-array (marshal (struct ts)) (room (struct ts)) 8 (inr (inr (inr refl))) xs h s
Within-array_of (map k t) xs h s =
    Within-array (marshal (map k t)) (room (map k t)) 8 (inr (inr (inr refl))) xs h s
Within-array_of variant xs h s = Within-array (marshal variant) (room variant) 1 (inl refl) xs h s

mutual
  unfolding marshal room IsCleanValue

  Within-value :
      (t : Ty) (v : Value t)
      → IsCleanValue t v
      → room t v < 2 ^ 26
      → Within (room t v) (marshal t v)
  Within-value (basic k) v h s = Within-key k v h
  Within-value double v h s = Within-fixed 8 v
  Within-value (array t) xs h s =
      Within-array_of t xs
        (All-below (IsCleanValue t) (λ x. Within (room t x) (marshal t x)) (room t) xs (omega arith)
          (Within-value t) h)
        (omega arith)
  Within-value (struct ts) vs h s = Within-members ts vs h s
  Within-value (map k t) m h s =
      Within-map (marshal_key k) (marshal t) (room_of_key k) (room t) (alignment_of_member t)
        (alignment_of_member-IsAlignment t) m
        (All-below (λ e. IsClean k e.0 × IsCleanValue t e.1)
          (λ e.
            Within (room_of_key k e.0) (marshal_key k e.0) × Within (room t e.1) (marshal t e.1))
          (λ e. room_of_key k e.0 + (7 + room t e.1)) m (omega arith)
          (λ e p q. (Within-key k e.0 p.0, Within-value t e.1 p.1 (omega arith))) h)
  Within-value variant v h s = absurd h

  Within-members :
      (ts : Tys) (vs : Values ts)
      → AreCleanValues ts vs
      → room_of_members ts vs < 2 ^ 26
      → Within (room_of_members ts vs) (marshal_members ts vs)
  Within-members (one t) v h s = Within-value t v h s
  Within-members (more t ts) (v, vs) h s =
      Within-bind (room t v) (7 + room_of_members ts vs) (marshal t v)
        (λ g. marshal_members ts vs (apply_padding g (alignment_of_member (head_type ts))))
        (Within-value t v h.0 (omega arith))
        (Within-bind 7 (room_of_members ts vs)
          (λ g. ok (apply_padding g (alignment_of_member (head_type ts)))) (marshal_members ts vs)
          (Within-padding (alignment_of_member (head_type ts))
            (alignment_of_member-IsAlignment (head_type ts)))
          (Within-members ts vs h.1 (omega arith)))

-- Marshalling a value without a Variant, whose texts hold no null character and whose room, a bound
-- on the bytes of its parts with their padding, is below 64 MiB, succeeds, at every buffer, and adds
-- no more bytes to it than the room.
pub marshal-Within :
    (t : Ty) (v : Value t) → IsCleanValue t v → room t v < 2 ^ 26 → Within (room t v) (marshal t v)
marshal-Within t v h s = Within-value t v h s

-- A value that fits its type (no Variant and no vector of `bool` in it, numbers of the width of
-- their type, texts that their class accepts and whose length fits its field, so that a signature
-- has fewer than 256 characters, vectors of numbers below 64 MiB, and the entries of maps in the
-- order of their keys), whose texts hold no null character, and whose room, a bound on the bytes of
-- its parts with their padding, is below 64 MiB, is marshalled by MarshalDBusType, and
-- UnmarshalDBusType with the signature of the type gives it back from the bytes.
pub unmarshal_type-marshal_type_total :
    (t : Ty) (v : Value t)
    → Fits t v
    → IsCleanValue t v
    → room t v < 2 ^ 26
    → (bytes : Bytes) × (marshal_type t v ≡ ok bytes)
      × (unmarshal_type t bytes (type_signature t) ≡ ok v)
unfolding marshal_type
unmarshal_type-marshal_type_total t v h clean small =
    let (bytes, e, l, u) = marshal-Within t v clean small [] in
    (bytes, e, unmarshal_type-marshal_type t v bytes h e (omega arith))
