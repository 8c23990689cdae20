-- ===== src/Codec/Fits.antt =====
-- Which values a C++ object of a type can hold, and can travel: numbers of the width of their type,
-- texts whose length fits its field and that their class accepts, maps in the order of their keys.
-- No Variant is among them, and no array of `bool`, which cannot be unmarshalled.
use cxx_bus.Base.{ℕ, ◌<◌, ◌*◌, ◌^◌, ◌≡◌, Bool, true, false, List, [], ◌∷◌, All, length, ok}
use cxx_bus.Codec.Types.{
  Key, Ty, Tys, KeyValue, Value, Values, size_of, word, boolean, text, basic, double, array, struct,
  map, variant, one, more, construct, key_less,
}
use cxx_bus.Codec.Marshal.{length_size}

abbrev pub FitsKey : (k : Key) → KeyValue k → Type 0
FitsKey (word w) n = n < 256 ^ size_of w
FitsKey boolean b = Unit
FitsKey (text s) str = (length str < 256 ^ length_size s) × (construct s str ≡ ok str)

-- The vectors for which the unmarshalling template compiles.
abbrev pub HasInstance : Ty → Type 0
HasInstance (basic boolean) = ⊥
HasInstance (basic (word w)) = Unit
HasInstance (basic (text s)) = Unit
HasInstance double = Unit
HasInstance (array t) = Unit
HasInstance (struct ts) = Unit
HasInstance (map k t) = Unit
HasInstance variant = Unit

-- A vector of numbers is marshalled at any size, but below 64 MiB only is it unmarshalled.
abbrev pub IsSmall : Ty → ℕ → Type 0
IsSmall (basic (word w)) n = n * size_of w < 2 ^ 26
IsSmall double n = n * 8 < 2 ^ 26
IsSmall (basic boolean) n = Unit
IsSmall (basic (text s)) n = Unit
IsSmall (array t) n = Unit
IsSmall (struct ts) n = Unit
IsSmall (map k t) n = Unit
IsSmall variant n = Unit

-- The keys rise.
module _ {A B : Type 0} (less : A → A → Bool) where
  abbrev pub IsRising : List (A × B) → Type 0
  IsRising [] = Unit {0}
  IsRising (e ∷ es) = All (λ f. (less e.0 f.0 ≡ true) × (less f.0 e.0 ≡ false)) es × IsRising es

unfoldable mutual
  pub Fits : (t : Ty) → Value t → Type 0
  Fits (basic k) v = FitsKey k v
  Fits double n = n < 256 ^ 8
  Fits (array t) xs = HasInstance t × IsSmall t (length xs) × All (Fits t) xs
  Fits (struct ts) vs = FitsMembers ts vs
  Fits (map k t) m = IsRising (key_less k) m × All (λ e. FitsKey k e.0 × Fits t e.1) m
  Fits variant v = ⊥

  pub FitsMembers : (ts : Tys) → Values ts → Type 0
  FitsMembers (one t) v = Fits t v
  FitsMembers (more t ts) (v, vs) = Fits t v × FitsMembers ts vs
