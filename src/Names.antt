-- ===== src/Names.antt =====
-- The validated string types of src/DBusTypes.cpp: bus names, interface names and object paths.
pub mod Paths
pub mod Dotted
use cxx_bus.Base.{
  ℕ, suc, ◌+◌, Bool, true, false, ◌&&◌, ◌||◌, not, [], ◌∷◌, Option, none, some, ◌==◌, leb,
  if◌then◌else◌, Text, length, Result, Error, ok, err, invalid_name, invalid_object_path,
}

-- The reasons for which a name or a path is refused; the source returns them as messages.
pub data Fault : Type 0 where
  empty starts_with_colon needs_colon starts_with_dot no_dot too_long : Fault
  no_leading_slash empty_element bad_character : Fault

abbrev pub max_dbus_name_length : ℕ
max_dbus_name_length = 255

-- `std::count(name.begin(), name.end(), c)`.
unfoldable pub count_code : ℕ → Text → ℕ
count_code c [] = 0
count_code c (x ∷ xs) = if x == c then suc (count_code c xs) else count_code c xs

-- The tests of ValidateDBusName behind the one for the empty name; `first` is `name[0]`.
unfoldable pub validate_nonempty_name : Bool → ℕ → Text → Option Fault
unfolding count_code
validate_nonempty_name well_known first name =
    if well_known && (first == b':')
    then some starts_with_colon
    else if not well_known && not (first == b':')
    then some needs_colon
    else if first == b'.'
    then some starts_with_dot
    else if count_code b'.' name == 0
    then some no_dot
    else if leb max_dbus_name_length (length name)
    then some too_long
    else none

unfoldable pub validate_dbus_name : Text → Bool → Option Fault
unfolding validate_nonempty_name
validate_dbus_name [] well_known = some empty
validate_dbus_name (c ∷ cs) well_known = validate_nonempty_name well_known c (c ∷ cs)

unfoldable pub validate_interface_name : Text → Option Fault
unfolding count_code
validate_interface_name [] = some empty
validate_interface_name (c ∷ cs) =
    if count_code b'.' (c ∷ cs) == 0
    then some no_dot
    else if leb max_dbus_name_length (length (c ∷ cs))
    then some too_long
    else none

-- A character that an element of an object path may hold.
unfoldable pub is_path_char : ℕ → Bool
is_path_char c =
    (leb b'A' c && leb c b'Z')
    || (leb b'a' c && leb c b'z')
    || (leb b'0' c && leb c b'9')
    || (c == b'_')

-- The loop of ValidateDBusObjectPath: the start of the current element, the index `i`, and what
-- the path holds from there on. The last round has `i == path.size()`.
unfoldable pub path_loop : ℕ → ℕ → Text → Option Fault
unfolding is_path_char
path_loop start i [] = if i == start then some empty_element else none
path_loop start i (c ∷ cs) =
    let slash = if i == start then some empty_element else path_loop (i + 1) (i + 1) cs in
    let next = path_loop start (i + 1) cs in
    if c == b'/' then slash else if is_path_char c then next else some bad_character

unfoldable pub validate_object_path : Text → Option Fault
unfolding path_loop
validate_object_path [] = some empty
validate_object_path (c ∷ []) = if c == b'/' then none else some no_leading_slash
validate_object_path (c ∷ d ∷ cs) =
    if c == b'/' then path_loop 1 1 (d ∷ cs) else some no_leading_slash

-- A constructor that throws if the validation gives a reason, and else keeps the text.
abbrev checked : Option Fault → Error → Text → Result Text
checked none e s = ok s
checked (some f) e s = err e

unfoldable pub object_path : Text → Result Text
unfolding validate_object_path
object_path s = checked (validate_object_path s) invalid_object_path s

unfoldable pub unique_connection_name : Text → Result Text
unfolding validate_dbus_name
unique_connection_name s = checked (validate_dbus_name s false) invalid_name s

unfoldable pub well_known_name : Text → Result Text
unfolding validate_dbus_name
well_known_name s = checked (validate_dbus_name s true) invalid_name s

unfoldable pub interface_name : Text → Result Text
unfolding validate_interface_name
interface_name s = checked (validate_interface_name s) invalid_name s

unfoldable pub error_name : Text → Result Text
unfolding validate_interface_name
error_name s = checked (validate_interface_name s) invalid_name s
