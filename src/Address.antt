-- ===== src/Address.antt =====
-- The address of the bus and the encoding of the user for the handshake: ParseDBusAddress and
-- HexEncodeString of src/DBusHelpers.cpp. The environment variable is an argument.
pub mod Parts
use cxx_bus.Base.{
  ℕ, ◌+◌, ◌/◌, ◌%◌, Bool, true, false, [], ◌∷◌, ◌++◌, Option, none, some, ◌==◌, ltb, ◌-◌,
  if◌then◌else◌, Text, codes, drop, Result, ok, err, runtime_error, throw_if, not, ◌>>=◌, ◌>>◌,
}
use cxx_bus.MatchRule.Paths.{starts_with}

-- `substr` from behind the first occurrence of a text on, where `find` finds it.
unfoldable pub after_first : Text → Text → Option Text
unfolding starts_with
after_first [] key = none
after_first (c ∷ s) key =
    let later = after_first s key in if starts_with (c ∷ s) key then some (c ∷ s) else later

-- `substr` up to the first comma, or to the end where `find` gives `npos`.
unfoldable pub before_comma : Text → Text
before_comma [] = []
before_comma (c ∷ s) = let rest = before_comma s in if c == b',' then [] else c ∷ rest

abbrev path_or_throw : Option Text → Result Text
path_or_throw none = err runtime_error
path_or_throw (some s) = ok (drop 5 s)

-- ParseDBusAddress.
unfoldable pub parse_address : Option Text → Result Text
parse_address none = ok []
parse_address (some raw) = do
  throw_if (not (starts_with raw (codes "unix:"))) runtime_error
  value ← path_or_throw (after_first (drop 5 raw) (codes "path="))
  ok (before_comma value)

-- A digit of `{:x}`.
unfoldable pub hex_digit : ℕ → ℕ
hex_digit n = if ltb n 10 then b'0' + n else b'a' + (n - 10)

-- `std::format("{:x}", c)` at an `unsigned char`: no leading zero.
unfoldable pub hex_code : ℕ → Text
unfolding hex_digit
hex_code c = if ltb c 16 then hex_digit c ∷ [] else hex_digit (c / 16) ∷ hex_digit (c % 16) ∷ []

-- HexEncodeString.
unfoldable pub hex_encode : Text → Text
unfolding hex_code
hex_encode [] = []
hex_encode (c ∷ s) = hex_code c ++ hex_encode s
