-- ===== src/Tests/Requests.antt =====
-- Requests to the bus, of src/DBusConnection.txx.
use cxx_bus.Base.{
  err, dbus_error, contains_code, ℕ, ◌≡◌, refl, Bool, true, false, List, [], ◌∷◌, ◌++◌, none, some,
  Text, codes, Result, ok, ◌==◌,
}
use cxx_bus.Codec.Types.{uint32, string, text, word, basic, type_signature}
use cxx_bus.Codec.Bytes.{padding, apply_padding, le_bytes, read_bytes, skip_padding}
use cxx_bus.Message.{Message, method_return}
use cxx_bus.Incoming.{IncomingMessage, get}
use cxx_bus.MatchRule.{
  get_rule, rule_text, add_optional, add_arguments, add_to_rule, type_string, decimal,
}
use cxx_bus.Connection.State.{State, construct}
use cxx_bus.Connection.Requests.{
  daemon_call, remove_match_call, release_name_call, contains_name, close,
}
use cxx_bus.Message.Building.{
  with_parameter, expects_reply, make_method, with_destination, with_interface,
}
use cxx_bus.Codec.Marshal.{marshal_type, marshal, marshal_key, marshal_stringlike, until_terminator}
use cxx_bus.Codec.Unmarshal.{unmarshal_type, unmarshal, check_signature}
use cxx_bus.Codec.Variants.{read_key, read_fixed}
use cxx_bus.TypeCodes.{are_type_codes, are_brackets_even}
use cxx_bus.Connection.Sending.{answer}
use cxx_bus.Connection.Rules.{
  Bus, Wish, adds, removes, perform_all, history, registered-perform_all,
}
use cxx_bus.Connection.Registry.{registered, Distinct}
use cxx_bus.Connection.OwnedNames.{NameWish, requests, releases, ledger, owned-perform_all}
use cxx_bus.Connection.Farewell.{
  NamesDistinct, Removable, Releasable, removals, closed, awaited, close-sent,
}
use cxx_bus.Tests.Rules.{simple_rule, rule, rule_printed}

-- The bus answers all requests by 1.
abbrev pub answered : IncomingMessage
answered = record {
  header = record {
    serial = 4;
    reply_to = some 3;
    message_type = method_return;
    object = none;
    interface_of = none;
    method = none;
    error_of = none;
    signature_of = some (codes "u");
    sender_of = some (codes "org.freedesktop.DBus");
    destination_of = none;
    message_length = 4;
    header_field_length = 0;
  };
  body = 1 ∷ 0 ∷ 0 ∷ 0 ∷ [];
}

abbrev agrees : Message → Result IncomingMessage
agrees m = ok answered

-- Handlers are numbers; those below 5 handle no message.
abbrev pub says : ℕ → IncomingMessage → Result Bool
says n m = ok (n == 5)

abbrev fresh : State ℕ
fresh = construct ℕ none

abbrev pub ready : State ℕ
ready = record (construct ℕ none) {
  connection_ready = true;
  socket_open = true;
  reading = true;
  unique_connection = some (codes ":1.7");
  well_known_names = codes "org.a" ∷ codes "org.b" ∷ [];
  match_rules =
      record { rule = simple_rule; callbacks = 1 ∷ 2 ∷ []; execute_on_user_context = true }
      ∷ record { rule = rule; callbacks = 3 ∷ []; execute_on_user_context = true }
      ∷ [];
  object_path_handlers = (codes "/a", 3 ∷ []) ∷ (codes "/b", 4 ∷ []) ∷ [];
  on_incoming = 1 ∷ 5 ∷ 2 ∷ [];
  message_filters = (0, 2) ∷ [];
}

abbrev refuses : Bus
refuses m = err dbus_error

abbrev rule_wishes : List (Bus × Wish ℕ)
rule_wishes =
    (agrees, adds rule 1 true)
    ∷ (refuses, adds rule 2 true)
    ∷ (refuses, removes rule)
    ∷ (agrees, adds rule 4 true)
    ∷ []

ready_rules : Distinct ready.match_rules
ready_rules = ((λ e. cc e, tt), (tt, tt))

registered-perform_all_example :
    registered rule (perform_all rule_wishes ready).match_rules
    ≡ history ready.connection_ready rule rule_wishes (registered rule ready.match_rules)
registered-perform_all_example = registered-perform_all rule rule_wishes ready ready_rules

ready_names : NamesDistinct ready.well_known_names
unfolding contains_name
ready_names = (refl, (refl, tt))

abbrev name_wishes : List (Bus × NameWish)
name_wishes =
    (agrees, releases (codes "org.a"))
    ∷ (agrees, requests (codes "org.c") 0)
    ∷ (refuses, releases (codes "org.c"))
    ∷ []

owned-perform_all_example :
    (contains_name
        (cxx_bus.Connection.OwnedNames.perform_all name_wishes ready).well_known_names
        (codes "org.c")
      ≡ ledger ready.connection_ready
          (codes "org.c")
          name_wishes
          (contains_name ready.well_known_names (codes "org.c")))
    × NamesDistinct (cxx_bus.Connection.OwnedNames.perform_all name_wishes ready).well_known_names
owned-perform_all_example = owned-perform_all (codes "org.c") name_wishes ready ready_names

-- The bus agrees to a call with a text as its parameter.
daemon_agrees :
    (name t : Text)
    → contains_code t 0 ≡ false
    → answer agrees true (with_parameter (basic (text string)) t (daemon_call name)) ≡ ok answered
unfolding daemon_call with_parameter marshal_type marshal marshal_key marshal_stringlike
    until_terminator cxx_bus.Codec.Types.construct type_signature apply_padding padding le_bytes
    expects_reply make_method with_destination with_interface
daemon_agrees name t h = rw h refl

simple_printed : get_rule simple_rule ≡ ok (codes "type='signal',sender=':1.5',path_namespace='/a'")
unfolding get_rule rule_text add_optional add_arguments add_to_rule type_string decimal
simple_printed = refl

simple_removed : answer agrees true (remove_match_call simple_rule) ≡ ok answered
unfolding remove_match_call
simple_removed = rw (simple_printed, remove_match_call) (daemon_agrees _ _ refl)

rule_removed : answer agrees true (remove_match_call rule) ≡ ok answered
unfolding remove_match_call
rule_removed = rw (rule_printed, remove_match_call) (daemon_agrees _ _ refl)

name_released :
    (n : Text) → contains_code n 0 ≡ false → answer agrees true (release_name_call n) ≡ ok answered
unfolding release_name_call
name_released n h = daemon_agrees (codes "ReleaseName") n h

pub answered_number : get (basic (word uint32)) answered ≡ ok 1
unfolding get unmarshal_type unmarshal read_key read_fixed read_bytes skip_padding padding
    check_signature are_type_codes are_brackets_even type_signature
answered_number = refl

close-sent_example : close agrees ready ≡ record {
  state = closed agrees ready;
  sent = removals ready.match_rules ++ cxx_bus.Connection.Farewell.releases ready.well_known_names;
  result = awaited ready;
}
close-sent_example =
    close-sent agrees ready refl refl ((answered, simple_removed), ((answered, rule_removed), tt))
      ready_names
      (
        (answered, 1, name_released (codes "org.a") refl, answered_number),
        ((answered, 1, name_released (codes "org.b") refl, answered_number), tt),
      )
