-- ===== src/Names/Dotted.antt =====
-- Which bus and interface names the validators of src/DBusTypes.cpp accept.
use cxx_bus.Base.{
  ℕ, suc, ◌<◌, ◌≡◌, ◌≢◌, ◌↔◌, inl, inr, refl, ap, Bool, true, false, [], ◌∷◌, ◌++◌, arith, none,
  some, ◌==◌, ==_iff, if◌then◌else◌, Bool-cases, Text, length, leb,
}
use cxx_bus.Names.{
  no_dot, too_long, count_code, validate_nonempty_name, validate_dbus_name, validate_interface_name,
}

-- The text in two parts, with a dot between them.
abbrev pub HasDot : Text → Type 0
HasDot s = (pre : Text) × (post : Text) × (s ≡ pre ++ (b'.' ∷ post))

count_code-HasDot : (s : Text) → count_code b'.' s ≢ 0 → HasDot s
unfolding count_code
count_code-HasDot [] h = absurd (h refl)
count_code-HasDot (c ∷ s) h = elim (Bool-cases (c == b'.')) [
  | inl e ↦ ([], s, ap (λ x. x ∷ s) ((==_iff c b'.').0 e))
  | inr e ↦ let (pre, post, q) = count_code-HasDot s (rw e at h) in (c ∷ pre, post, ap (◌∷◌ c) q)
]

HasDot-count_code : (pre post : Text) → count_code b'.' (pre ++ (b'.' ∷ post)) ≢ 0
unfolding count_code
HasDot-count_code [] post h = omega arith
HasDot-count_code (c ∷ pre) post h = elim (Bool-cases (c == b'.')) [
  | inl e ↦ let bad : suc (count_code b'.' (pre ++ (b'.' ∷ post))) ≡ 0 = rw e at h in omega arith
  | inr e ↦ HasDot-count_code pre post (rw e at h)
]

has_dot : (s : Text) → ((count_code b'.' s == 0) ≡ false) ↔ HasDot s
has_dot s = (
  λ h. count_code-HasDot s (λ z. ground arith),
  λ h.
      let (pre, post, q) = h in
      let k : count_code b'.' s ≢ 0 = rw q (HasDot-count_code pre post) in ground arith,
)

-- How a name begins: a unique name with a colon, a well-known name with neither colon nor dot.
abbrev pub Begins : Bool → Text → Type 0
Begins well_known [] = ⊥
Begins true (c ∷ cs) = (c ≢ b':') × (c ≢ b'.')
Begins false (c ∷ cs) = c ≡ b':'

validate_nonempty :
    (well_known : Bool) (c : ℕ) (s : Text)
    → (validate_nonempty_name well_known c s ≡ none)
      ↔ (Begins well_known (c ∷ s) × ((count_code b'.' s == 0) ≡ false) × (length s < 255))
unfolding validate_nonempty_name
validate_nonempty true c s = ground arith
validate_nonempty false c s = ground arith

-- ValidateDBusName accepts exactly the names that begin as their kind has to, hold a dot and have
-- fewer than 255 characters. This is less and more than the comment in it says: a name with an empty
-- element, like `a..b`, is accepted, and one of exactly 255 characters is refused.
pub validate_dbus_name_lem :
    (well_known : Bool) (s : Text)
    → (validate_dbus_name s well_known ≡ none) ↔ (Begins well_known s × HasDot s × (length s < 255))
unfolding validate_dbus_name
validate_dbus_name_lem well_known [] = (λ h. absurd (cc h), λ h. absurd h.0)
validate_dbus_name_lem true (c ∷ cs) =
    let (f, g) = validate_nonempty true c (c ∷ cs) in
    let (k, l) = has_dot (c ∷ cs) in
    (λ h. let (p, q, r) = f h in (p, k q, r), λ h. g (h.0, l h.1, h.2))
validate_dbus_name_lem false (c ∷ cs) =
    let (f, g) = validate_nonempty false c (c ∷ cs) in
    let (k, l) = has_dot (c ∷ cs) in
    (λ h. let (p, q, r) = f h in (p, k q, r), λ h. g (h.0, l h.1, h.2))

interface_tests :
    (s : Text) (dots : Bool)
    → ((if dots then some no_dot else if leb 255 (length s) then some too_long else none) ≡ none)
      ↔ ((dots ≡ false) × (length s < 255))
interface_tests s true = ground arith
interface_tests s false = ground arith

empty_HasDot : (pre post : Text) → [] ≢ pre ++ (b'.' ∷ post)
empty_HasDot [] post q = cc q
empty_HasDot (c ∷ pre) post q = cc q

-- ValidateDBusInterfaceName accepts exactly the names that hold a dot and have fewer than 255
-- characters. This is less and more than the comment in it says: a name with an empty element, like
-- `a..b` or `.a`, is accepted, and one of exactly 255 characters is refused.
pub validate_interface_name_lem :
    (s : Text) → (validate_interface_name s ≡ none) ↔ (HasDot s × (length s < 255))
unfolding validate_interface_name
validate_interface_name_lem [] = (λ h. absurd (cc h), λ h. absurd (empty_HasDot h.0.0 h.0.1 h.0.2))
validate_interface_name_lem (c ∷ cs) =
    let (f, g) = interface_tests (c ∷ cs) (count_code b'.' (c ∷ cs) == 0) in
    let (k, l) = has_dot (c ∷ cs) in (λ h. let (q, r) = f h in (k q, r), λ h. g (l h.0, h.1))
