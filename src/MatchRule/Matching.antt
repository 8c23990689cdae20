-- ===== src/MatchRule/Matching.antt =====
-- Whether a message matches a rule: DBusMatchRule::Matches of src/DBusMatchRule.cpp. `&&` stands
-- for `&=` and for the early returns of `false`, which come before anything that can throw unless
-- said otherwise.
use cxx_bus.Base.{
  ℕ, Bool, true, false, ◌&&◌, List, [], ◌∷◌, Option, none, some, ◌==◌, if◌then◌else◌, Text, text_eq,
  Result, ok, err, out_of_bounds, ◌>>=◌,
}
use cxx_bus.Message.{MessageType, type_number}
use cxx_bus.Incoming.{Header, IncomingMessage, has_arguments, text_of}
use cxx_bus.MatchRule.{ArgInfo, MatchRule}
use cxx_bus.MatchRule.Paths.{split_string, is_path_prefixed, starts_with, contains_text}
use cxx_bus.MatchRule.Arguments.{Arguments, Walk, find_argument, walk_signature}

-- CXX_BUS_CHECK_MATCH_OPTIONAL: a rule that has no value matches, and one that has a value
-- matches what is equal to it.
unfoldable pub check_text : Option Text → Option Text → Bool
check_text value none = true
check_text none (some s) = false
check_text (some t) (some s) = text_eq t s

unfoldable pub check_type : MessageType → Option MessageType → Bool
check_type t none = true
check_type t (some s) = type_number t == type_number s

-- The loop over the well-known names: the sender is compared with each of them.
unfoldable pub check_names : Option Text → List Text → Bool
unfolding check_text
check_names sender [] = true
check_names sender (n ∷ names) = check_text sender (some n) && check_names sender names

-- The loop over m_args.
unfoldable pub check_args : List ArgInfo → Arguments → Bool
check_args [] strings = true
check_args (a ∷ args) strings =
    check_text (find_argument a.index strings) (some a.name) && check_args args strings

-- The test on m_pathNamespace.
unfoldable pub check_namespace : Option Text → Option Text → Bool
unfolding contains_text
check_namespace none object = true
check_namespace (some p) none = false
check_namespace (some p) (some o) = contains_text o p

-- `s.back()`, which is undefined on an empty string.
unfoldable pub back : Text → Result ℕ
back [] = err out_of_bounds
back (c ∷ []) = ok c
back (c ∷ d ∷ cs) = back (d ∷ cs)

-- The three ways in which a path-like argument matches.
unfoldable pub path_matches : Text → Text → Result Bool
path_matches name argument = if text_eq name argument then ok true else do
  rule_end ← back name
  let forward = (rule_end == b'/') && is_path_prefixed (split_string name) (split_string argument)
  if forward then ok true else do
    argument_end ← back argument
    ok ((argument_end == b'/') && is_path_prefixed (split_string argument) (split_string name))

abbrev first_of : Option Text → Option Text → Option Text
first_of none b = b
first_of (some a) b = some a

-- The loop over m_argPaths, which `matches` ends when it is false.
unfoldable pub check_arg_paths : List ArgInfo → Walk → Bool → Result Bool
check_arg_paths [] w m = ok m
check_arg_paths (a ∷ args) w false = ok false
check_arg_paths (a ∷ args) w true =
    elim (first_of (find_argument a.index w.object_paths) (find_argument a.index w.strings)) [
      | none ↦ ok false
      | some argument ↦ path_matches a.name argument >>= check_arg_paths args w
    ]

-- The test on m_argNamespace.
unfoldable pub check_arg_namespace : Option Text → Arguments → Bool
unfolding starts_with
check_arg_namespace none strings = true
check_arg_namespace (some n) strings = elim (find_argument 0 strings) [
  | none ↦ false
  | some s ↦ starts_with s n
]

abbrev pub start : Walk
start = record { pointer = 0; arg_index = 0; strings = []; object_paths = [] }

-- The tests before the arguments are read. The last of them, on the destination, does not return
-- early.
unfoldable pub check_header : MatchRule → Header → List Text → Bool
check_header r h names =
    check_type h.message_type r.message_type
    && check_text h.method r.member
    && check_text h.sender_of r.sender
    && check_names h.sender_of names
    && check_text h.interface_of r.interface
    && check_text h.object r.path

-- Matches, on the fuel for WalkSignature.
unfoldable pub matches : ℕ → MatchRule → IncomingMessage → List Text → Result Bool
matches fuel r m names =
    let rest = do
      w ←
          if has_arguments m
          then walk_signature fuel true (text_of m.header.signature_of) m.body start
          else ok start
      let so_far =
          check_text m.header.destination_of r.destination
          && check_args r.args w.strings
          && check_namespace r.path_namespace m.header.object
      paths ← check_arg_paths r.arg_paths w so_far
      ok (paths && check_arg_namespace r.arg_namespace w.strings)
    in if check_header r m.header names then rest else ok false
