-- ===== src/MatchRule.antt =====
-- Match rules: src/DBusMatchRule.h and src/DBusMatchRule.cpp. The rule and its builder are here,
-- the arguments of a message in Arguments and the matching in Matching.
pub mod Building
pub mod Paths
pub mod Prefixes
pub mod Arguments
pub mod Matching
pub mod Agreement
pub mod Empty
pub mod VariantArguments
use cxx_bus.Base.{
  ℕ, ◌+◌, ◌/◌, ◌%◌, Bool, true, false, List, [], ◌∷◌, ◌++◌, Option, none, some, ltb, if◌then◌else◌,
  Text, codes, Result, ok, err, invalid_match_rule, empty_match_rule, throw_if, ◌>>=◌, ◌>>◌,
}
use cxx_bus.Message.{
  MessageType, invalid, method_call, method_return, error, signal, optional, none_type,
}

-- ArgInfo.
pub record ArgInfo : Type 0 where
  pub name : Text
  pub index : ℕ

-- class DBusMatchRule.
pub record MatchRule : Type 0 where
  pub message_type : Option MessageType
  pub sender : Option Text
  pub interface : Option Text
  pub member : Option Text
  pub path : Option Text
  pub path_namespace : Option Text
  pub destination : Option Text
  pub args : List ArgInfo
  pub arg_paths : List ArgInfo
  pub arg_namespace : Option Text
  pub eavesdrop : Option Bool

-- Create.
abbrev pub create : MatchRule
create = record {
  message_type = none;
  sender = none;
  interface = none;
  member = none;
  path = none;
  path_namespace = none;
  destination = none;
  args = [];
  arg_paths = [];
  arg_namespace = none;
  eavesdrop = none;
}

-- Type.
unfoldable pub with_type : MessageType → MatchRule → Result MatchRule
with_type invalid r = err invalid_match_rule
with_type none_type r = err invalid_match_rule
with_type optional r = err invalid_match_rule
with_type t r = ok (record r { message_type = some t })

-- Sender, Interface, Member, Destination, ArgumentNamespace and EavesDrop.
unfoldable pub with_sender : Text → MatchRule → MatchRule
with_sender name r = record r { sender = some name }

unfoldable pub with_interface : Text → MatchRule → MatchRule
with_interface name r = record r { interface = some name }

unfoldable pub with_member : Text → MatchRule → MatchRule
with_member name r = record r { member = some name }

unfoldable pub with_destination : Text → MatchRule → MatchRule
with_destination name r = record r { destination = some name }

unfoldable pub with_argument_namespace : Text → MatchRule → MatchRule
with_argument_namespace name r = record r { arg_namespace = some name }

unfoldable pub with_eavesdrop : Bool → MatchRule → MatchRule
with_eavesdrop b r = record r { eavesdrop = some b }

abbrev pub is_some {ℓ} : {A : Type ℓ} → Option A → Bool
is_some none = false
is_some (some a) = true

-- Path and PathNamespace: one excludes the other.
unfoldable pub with_path : Text → MatchRule → Result MatchRule
with_path p r = do
  throw_if (is_some r.path_namespace) invalid_match_rule
  ok (record r { path = some p })

unfoldable pub with_path_namespace : Text → MatchRule → Result MatchRule
with_path_namespace p r = do
  throw_if (is_some r.path) invalid_match_rule
  ok (record r { path_namespace = some p })

-- Argument and ArgumentPath.
unfoldable pub with_argument : ℕ → Text → MatchRule → Result MatchRule
with_argument index name r = do
  throw_if (ltb 63 index) invalid_match_rule
  ok (record r { args = r.args ++ (record { name = name; index = index } ∷ []) })

unfoldable pub with_argument_path : ℕ → Text → MatchRule → Result MatchRule
with_argument_path index name r = do
  throw_if (ltb 63 index) invalid_match_rule
  ok (record r { arg_paths = r.arg_paths ++ (record { name = name; index = index } ∷ []) })

-- MESSAGE_TYPE_STRINGS at the number of the type, less 1. The types that Type refuses have no
-- entry.
unfoldable pub type_string : MessageType → Text
type_string method_call = codes "method_call"
type_string method_return = codes "method_return"
type_string error = codes "error"
type_string signal = codes "signal"
type_string _ = []

-- `std::format("{}", n)` at a `uint8_t`.
unfoldable pub decimal : ℕ → Text
decimal n =
    if ltb n 10
    then (b'0' + n) ∷ []
    else if ltb n 100
    then (b'0' + n / 10) ∷ (b'0' + n % 10) ∷ []
    else (b'0' + n / 100) ∷ (b'0' + n / 10 % 10) ∷ (b'0' + n % 10) ∷ []

-- CXX_BUS_ADD_TO_RULE and CXX_BUS_ADD_TO_RULE_CHECK_OPTIONAL.
abbrev comma : Text → Text
comma [] = []
comma (c ∷ cs) = (c ∷ cs) ++ codes ","

unfoldable pub add_to_rule : Text → Text → Text → Text
add_to_rule rule key value = comma rule ++ (key ++ (codes "='" ++ (value ++ codes "'")))

unfoldable pub add_optional : Option Text → Text → Text → Text
add_optional none key rule = rule
add_optional (some value) key rule = add_to_rule rule key value

-- The two loops of GetRule; `suffix` is what the second one has behind the index.
unfoldable pub add_arguments : List ArgInfo → Text → Text → Text
add_arguments [] suffix rule = rule
add_arguments (a ∷ args) suffix rule =
    add_arguments args suffix (add_to_rule rule (codes "arg" ++ (decimal a.index ++ suffix)) a.name)

abbrev pub truth : Bool → Text
truth true = codes "true"
truth false = codes "false"

abbrev pub map_option {ℓ κ} : {A : Type ℓ} {B : Type κ} → (A → B) → Option A → Option B
map_option f none = none
map_option f (some a) = some (f a)

-- The text that GetRule builds up.
unfoldable pub rule_text : MatchRule → Text
rule_text r =
    let t1 = add_optional (map_option type_string r.message_type) (codes "type") [] in
    let t2 = add_optional r.sender (codes "sender") t1 in
    let t3 = add_optional r.interface (codes "interface") t2 in
    let t4 = add_optional r.member (codes "member") t3 in
    let t5 = add_optional r.path (codes "path") t4 in
    let t6 = add_optional r.path_namespace (codes "path_namespace") t5 in
    let t7 = add_optional r.destination (codes "destination") t6 in
    let t8 = add_arguments r.args [] t7 in
    let t9 = add_arguments r.arg_paths (codes "path") t8 in
    let t10 = add_optional r.arg_namespace (codes "arg0namespace") t9 in
    add_optional (map_option truth r.eavesdrop) (codes "eavesdrop") t10

abbrev pub is_empty_text : Text → Bool
is_empty_text [] = true
is_empty_text (c ∷ cs) = false

-- GetRule.
unfoldable pub get_rule : MatchRule → Result Text
get_rule r = do throw_if (is_empty_text (rule_text r)) empty_match_rule; ok (rule_text r)
