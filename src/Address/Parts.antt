-- ===== src/Address/Parts.antt =====
-- What ParseDBusAddress and HexEncodeString of src/DBusHelpers.cpp give.
use cxx_bus.Base.{
  ℕ, ◌+◌, ◌-◌, ◌*◌, ◌/◌, ◌%◌, ◌≤◌, ◌<◌, ◌≡◌, refl, ap, true, false, [], ◌∷◌, ◌++◌, some, ◌==◌, ltb,
  ltb-false, if◌then◌else◌, Text, codes, All, arith, ok,
}
use cxx_bus.MatchRule.Paths.{starts_with}
use cxx_bus.Address.{after_first, before_comma, parse_address, hex_digit, hex_code, hex_encode}

-- The number of a digit of `{:x}`, and the text of a sequence of pairs of them.
abbrev digit_number : ℕ → ℕ
digit_number d = if ltb d b'a' then d - b'0' else d - b'a' + 10

abbrev pub hex_decode : Text → Text
hex_decode [] = []
hex_decode (c ∷ []) = []
hex_decode (c ∷ d ∷ s) = (digit_number c * 16 + digit_number d) ∷ hex_decode s

digit_number-hex_digit : (n : ℕ) → n < 16 → digit_number (hex_digit n) ≡ n
unfolding hex_digit
digit_number-hex_digit n h = ground arith

-- A text whose characters are numbers from 16 to 255 is read back from its encoding. The digits of
-- a user id are such characters.
pub hex_decode-hex_encode :
    (s : Text) → All (λ c. (16 ≤ c) × (c < 256)) s → hex_decode (hex_encode s) ≡ s
unfolding hex_encode hex_code
hex_decode-hex_encode [] h = refl
hex_decode-hex_encode (c ∷ s) h =
    rw
      (
        ltb-false c 16 h.0.0,
        digit_number-hex_digit (c / 16) (omega arith),
        digit_number-hex_digit (c % 16) (omega arith),
        hex_decode-hex_encode s h.1,
      )
      (ap (λ n. n ∷ s) (omega arith))

-- What follows the path: nothing, or a comma and further keys.
abbrev pub EndsPath : Text → Type 0
EndsPath [] = Unit
EndsPath (c ∷ rest) = (c == b',') ≡ true

before_comma-append :
    (p rest : Text)
    → All (λ c. (c == b',') ≡ false) p
    → EndsPath rest
    → before_comma (p ++ rest) ≡ p
unfolding before_comma
before_comma-append [] [] h e = refl
before_comma-append [] (c ∷ rest) h e = rw e refl
before_comma-append (c ∷ p) rest h e = rw (h.0, before_comma-append p rest h.1 e) refl

-- The address of a bus that begins with its path, `unix:path=`, is parsed to the path, if that has
-- no comma in it: where the text ends behind the path, and where a comma and any text follow.
pub parse_address-path :
    (p rest : Text)
    → All (λ c. (c == b',') ≡ false) p
    → EndsPath rest
    → parse_address (some (codes "unix:path=" ++ (p ++ rest))) ≡ ok p
unfolding parse_address after_first starts_with
parse_address-path p rest h e = ap ok (before_comma-append p rest h e)
