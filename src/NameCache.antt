-- ===== src/NameCache.antt =====
-- DBusNameCache of src/DBusNameCache.h and src/DBusNameCache.txx: which well-known names each
-- unique connection name owns, kept up to date by the NameOwnerChanged signal.
pub mod Sets
pub mod Ownership
use cxx_bus.Base.{
  ℕ, Bool, true, false, not, ◌||◌, List, [], ◌∷◌, Option, none, some, if◌then◌else◌, Text, text_eq,
  Result, ok, err, ◌>>=◌,
}
use cxx_bus.Codec.Types.{text_less, string, text, basic, one, more}
use cxx_bus.Codec.Unmarshal.{unmarshal_complete_type}
use cxx_bus.Codec.Bytes.{Bytes}

-- `std::set<std::string>`: a list in the order of `std::less`.
abbrev pub NameSet : Type 0
NameSet = List Text

-- m_wellKnownNames: a map, in any order of its keys.
abbrev pub Cache : Type 0
Cache = List (Text × NameSet)

unfoldable pub contains : NameSet → Text → Bool
contains [] n = false
contains (x ∷ xs) n = if text_eq x n then true else contains xs n

unfoldable pub insert : Text → NameSet → NameSet
insert n [] = n ∷ []
insert n (x ∷ xs) =
    if text_less n x then n ∷ x ∷ xs else if text_less x n then x ∷ insert n xs else x ∷ xs

unfoldable pub erase : Text → NameSet → NameSet
erase n [] = []
erase n (x ∷ xs) = if text_eq x n then erase n xs else x ∷ erase n xs

unfoldable pub find : Cache → Text → Option NameSet
find [] u = none
find ((k, s) ∷ c) u = if text_eq k u then some s else find c u

-- `m[u] = s`.
unfoldable pub assign : Text → NameSet → Cache → Cache
assign u s [] = (u, s) ∷ []
assign u s ((k, t) ∷ c) = if text_eq k u then (k, s) ∷ c else (k, t) ∷ assign u s c

unfoldable pub erase_key : Text → Cache → Cache
erase_key u [] = []
erase_key u ((k, s) ∷ c) = if text_eq k u then erase_key u c else (k, s) ∷ erase_key u c

abbrev pub is_empty {ℓ} : {A : Type ℓ} → List A → Bool
is_empty [] = true
is_empty (x ∷ xs) = false

-- The set of a key; `m[u]` makes an empty one where there is none.
abbrev pub set_of : Option NameSet → NameSet
set_of none = []
set_of (some s) = s

-- The block under `if (!oldUniqueName.empty())`.
unfoldable pub forget : Text → Text → Cache → Cache
forget name old cache = elim (find cache old) [
  | none ↦ cache
  | some names ↦
      let rest = if contains names name then erase name names else names in
      if is_empty rest then erase_key old (assign old rest cache) else assign old rest cache
]

-- The statement under `if (!uniqueName.empty())`.
unfoldable pub remember : Text → Text → Cache → Cache
remember name unique cache = assign unique (insert name (set_of (find cache unique))) cache

-- OnNameOwnerChanged behind the unmarshalling of its parameters.
unfoldable pub on_name_owner_changed : Text → Text → Text → Cache → Cache
on_name_owner_changed name old unique cache =
    let forgotten = if not (is_empty old) then forget name old cache else cache in
    if not (is_empty unique) then remember name unique forgotten else forgotten

-- OnNameOwnerChanged on the body and the signature of a message.
unfoldable pub handle_name_owner_changed : Bytes → Text → Cache → Result Cache
handle_name_owner_changed body signature cache = do
  (name, (old, unique)) ←
      unmarshal_complete_type
        (more (basic (text string)) (more (basic (text string)) (one (basic (text string))))) body
        signature
  ok (on_name_owner_changed name old unique cache)

-- GetWellKnownNames: the unique name itself comes first.
unfoldable pub get_well_known_names : Text → Cache → List Text
get_well_known_names unique cache = unique ∷ set_of (find cache unique)
