-- ===== src/Tests/Welcome.antt =====
-- Connecting, Connect of src/DBusConnection.txx, and those who wait for it.
use cxx_bus.Base.{
  ℕ, ◌≤◌, ◌≡◌, refl, true, List, [], ◌∷◌, ◌++◌, some, if◌then◌else◌, ltb, Text, text_eq, codes,
  Result, ok, map,
}
use cxx_bus.Codec.Types.{string, uint32, text, word, basic, type_signature, member_signatures}
use cxx_bus.Codec.Bytes.{
  Bytes, padding, apply_padding, le_bytes, read_bytes, skip_padding, write_bytes,
}
use cxx_bus.Codec.Marshal.{
  marshal_type, marshal_complete, marshal, marshal_key, marshal_stringlike, marshal_fixed,
  until_terminator,
}
use cxx_bus.Codec.Unmarshal.{unmarshal_type, unmarshal, check_signature}
use cxx_bus.Codec.Variants.{read_key, read_fixed, read_stringlike}
use cxx_bus.TypeCodes.{are_type_codes, are_brackets_even}
use cxx_bus.Names.{unique_connection_name, validate_dbus_name}
use cxx_bus.Message.{Message, method_call}
use cxx_bus.Message.Building.{
  blank, with_parameter, with_parameters, expects_reply, make_method, with_destination,
  with_interface,
}
use cxx_bus.Incoming.{IncomingMessage, get, text_of}
use cxx_bus.MatchRule.{
  get_rule, rule_text, add_optional, add_arguments, add_to_rule, type_string, decimal,
}
use cxx_bus.MatchRule.Paths.{starts_with}
use cxx_bus.Address.{parse_address, after_first, before_comma}
use cxx_bus.Connection.State.{State, construct}
use cxx_bus.Connection.Requests.{daemon_call, request_name_call, add_match_call, wait_until_ready}
use cxx_bus.Connection.Sending.{answer, sent_by}
use cxx_bus.Connection.Handshake.{
  session, endpoint, greeting, begin_line, hello_call, name_owner_rule, become_ready, connect, raw,
  message,
}
use cxx_bus.Connection.Welcome.{name_requests, connected, connect-sent}
use cxx_bus.Connection.Waiters.{Hall, waits, connects, resumes, Reach, here, next, resumed_once}
use cxx_bus.Tests.Requests.{answered, answered_number}

-- The bus answers Hello by a unique name, and all other requests by 1.
abbrev named : IncomingMessage
named = record {
  header = record answered.header { signature_of = some (codes "s") };
  body = 4 ∷ 0 ∷ 0 ∷ 0 ∷ (codes ":1.7" ++ (0 ∷ []));
}

abbrev daemon : Message → Result IncomingMessage
daemon m = if text_eq (text_of m.method) (codes "Hello") then ok named else ok answered

abbrev opening : State ℕ
opening = construct ℕ (some (codes "org.a"))

abbrev address : Text
address = codes "unix:path=/run/bus"

located : endpoint session (some address) ≡ ok (codes "/run/bus")
unfolding endpoint parse_address after_first before_comma starts_with
located = refl

abbrev accepts : List Bytes → Result Text
accepts sent = ok (codes "OK 0123")

accepted : starts_with (codes "OK 0123") (codes "OK") ≡ true
unfolding starts_with
accepted = refl

greeted : daemon hello_call ≡ ok named
unfolding hello_call daemon_call make_method with_destination with_interface
greeted = refl

unique_read : get (basic (text string)) named ≡ ok (codes ":1.7")
unfolding get unmarshal_type unmarshal read_key read_fixed read_stringlike read_bytes skip_padding
    padding check_signature are_type_codes are_brackets_even type_signature
unique_read = refl

unique_valid : unique_connection_name (codes ":1.7") ≡ ok (codes ":1.7")
unfolding unique_connection_name validate_dbus_name
unique_valid = refl

abbrev name_request : Message
name_request = record (blank method_call) {
  method = some (codes "RequestName");
  object = some (codes "/org/freedesktop/DBus");
  interface_of = some (codes "org.freedesktop.DBus");
  destination_of = some (codes "org.freedesktop.DBus");
  signature_of = some (codes "su");
  body = 5 ∷ 0 ∷ 0 ∷ 0 ∷ (codes "org.a" ++ (0 ∷ 0 ∷ 0 ∷ 0 ∷ 0 ∷ 0 ∷ 0 ∷ []));
}

name_requested : request_name_call (codes "org.a") 0 ≡ ok name_request
unfolding request_name_call daemon_call with_parameters marshal_complete marshal marshal_key
    marshal_stringlike marshal_fixed until_terminator cxx_bus.Codec.Types.construct type_signature
    member_signatures apply_padding padding le_bytes write_bytes make_method with_destination
    with_interface
name_requested = refl

rule_printed :
    get_rule name_owner_rule
    ≡ ok (
        codes
          "sender='org.freedesktop.DBus',interface='org.freedesktop.DBus',member='NameOwnerChanged',path='/org/freedesktop/DBus'")
unfolding get_rule rule_text add_optional add_arguments add_to_rule type_string decimal
rule_printed = refl

subscribed : answer daemon true (add_match_call name_owner_rule) ≡ ok answered
unfolding add_match_call daemon_call with_parameter marshal_type marshal marshal_key
    marshal_stringlike until_terminator cxx_bus.Codec.Types.construct type_signature apply_padding
    padding le_bytes expects_reply make_method with_destination with_interface
subscribed = rw (rule_printed, add_match_call) refl

connect-sent_example :
    connect daemon session (some address) accepts (codes "1000") 7 opening ≡ record {
      state = connected daemon (codes ":1.7") 7 opening;
      written =
          map raw (greeting (codes "1000") ++ (begin_line ∷ []))
          ++ map message (
              hello_call
              ∷ (name_requests opening.well_known_names
                  ++ sent_by true (add_match_call name_owner_rule)));
      result = ok (ltb 0 opening.nr_of_waiters);
    }
unfolding cxx_bus.Connection.State.construct
connect-sent_example =
    connect-sent daemon session (some address) (codes "/run/bus") accepts (codes "1000")
      (codes "OK 0123") 7 opening named answered (codes ":1.7") (codes ":1.7") located refl accepted
      greeted unique_read unique_valid
      ((name_request, answered, 1, name_requested, refl, answered_number), tt) subscribed

-- Two coroutines wait, the connection is made, and one of them goes on.
abbrev arriving : State ℕ
arriving = (wait_until_ready daemon (wait_until_ready daemon opening).state).state

abbrev one_left : Hall ℕ daemon
one_left = record {
  state = (become_ready daemon arriving).state;
  suspended = 1;
  posted = 0;
  connected = true;
  resumed = 1;
}

one_left_reached : Reach ℕ daemon (some (codes "org.a")) one_left
unfolding wait_until_ready become_ready cxx_bus.Connection.State.construct
one_left_reached =
    next
      (next (next (next here (waits refl refl)) (waits refl refl)) (connects true refl refl refl))
      (resumes 0 1 refl refl refl)

resumed_once_example : (1 ≤ 1) × (2 ≡ one_left.state.nr_of_waiters)
resumed_once_example = resumed_once ℕ daemon (some (codes "org.a")) one_left one_left_reached
