-- ===== src/Tests/Texts.antt =====
-- Names and paths of src/DBusTypes.cpp, and the pieces of paths of src/DBusMatchRule.cpp.
use cxx_bus.Base.{◌≡◌, ◌≢◌, ◌↔◌, ◌<◌, refl, true, false, [], ◌∷◌, ◌++◌, none, Text, length, codes}
use cxx_bus.Base.{arith, some, ok}
use cxx_bus.Address.{parse_address, hex_encode, after_first, before_comma}
use cxx_bus.Address.Parts.{hex_decode, hex_decode-hex_encode, parse_address-path}
use cxx_bus.Names.{validate_object_path, validate_dbus_name, validate_interface_name}
use cxx_bus.Names.Paths.{IsObjectPath, validate_object_path-IsObjectPath}
use cxx_bus.Names.Dotted.{Begins, HasDot, validate_dbus_name_lem, validate_interface_name_lem}
use cxx_bus.MatchRule.Paths.{starts_with, split_from, split_string, is_path_prefixed}
use cxx_bus.MatchRule.Prefixes.{is_path_prefixed_lem}

validate_object_path-IsObjectPath_example :
    (validate_object_path (codes "/org/bus_1") ≡ none) ↔ IsObjectPath (codes "/org/bus_1")
validate_object_path-IsObjectPath_example = validate_object_path-IsObjectPath (codes "/org/bus_1")

path_accepted : validate_object_path (codes "/org/bus_1") ≡ none
unfolding validate_object_path
path_accepted = refl

path_refused : validate_object_path (codes "/org//bus") ≢ none
unfolding validate_object_path
path_refused e = cc e

validate_dbus_name_lem_example :
    (validate_dbus_name (codes ":1.42") false ≡ none)
    ↔ (Begins false (codes ":1.42") × HasDot (codes ":1.42") × (length (codes ":1.42") < 255))
validate_dbus_name_lem_example = validate_dbus_name_lem false (codes ":1.42")

name_accepted : validate_dbus_name (codes ":1.42") false ≡ none
unfolding validate_dbus_name
name_accepted = refl

validate_interface_name_lem_example :
    (validate_interface_name (codes "org.bus") ≡ none)
    ↔ (HasDot (codes "org.bus") × (length (codes "org.bus") < 255))
validate_interface_name_lem_example = validate_interface_name_lem (codes "org.bus")

is_path_prefixed_lem_example :
    (is_path_prefixed (split_string (codes "/a/b" ++ b'/' ∷ [])) (split_string (codes "/a/b/c"))
      ≡ true)
    ↔ ((rest : Text) × (codes "/a/b/c" ≡ (codes "/a/b" ++ b'/' ∷ []) ++ rest))
is_path_prefixed_lem_example = is_path_prefixed_lem (codes "/a/b") (codes "/a/b/c")

pieces :
    split_string (codes "/a//bc/")
    ≡ codes "/" ∷ codes "a" ∷ codes "/" ∷ codes "/" ∷ codes "bc" ∷ codes "/" ∷ []
unfolding split_string split_from
pieces = refl

hex_decode-hex_encode_example : hex_decode (hex_encode (codes "1000")) ≡ codes "1000"
hex_decode-hex_encode_example = hex_decode-hex_encode (codes "1000") (
  (omega arith, omega arith),
  ((omega arith, omega arith), ((omega arith, omega arith), ((omega arith, omega arith), tt))),
)

encoded : hex_encode (codes "1000") ≡ codes "31303030"
unfolding hex_encode
encoded = refl

parse_address-path_example :
    parse_address (some (codes "unix:path=" ++ (codes "/run" ++ (b',' ∷ codes "guid=1"))))
    ≡ ok (codes "/run")
parse_address-path_example =
    parse_address-path (codes "/run") (b',' ∷ codes "guid=1") (refl, (refl, (refl, (refl, tt))))
      refl

-- An address that ends behind its path.
only_path : parse_address (some (codes "unix:path=/run/bus")) ≡ ok (codes "/run/bus")
unfolding parse_address after_first before_comma starts_with
only_path = refl
