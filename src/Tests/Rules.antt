-- ===== src/Tests/Rules.antt =====
-- Match rules of src/DBusMatchRule.cpp and the name cache of src/DBusNameCache.txx.
use cxx_bus.Base.{
  ◌≡◌, refl, true, false, not, ◌&&◌, List, [], ◌∷◌, none, some, if◌then◌else◌, text_eq, codes, All,
  ok,
}
use cxx_bus.Base.{err, malformed_input, ◌++◌, arith}
use cxx_bus.MatchRule.Arguments.{variant_signature}
use cxx_bus.MatchRule.Matching.{start}
use cxx_bus.MatchRule.VariantArguments.{variant_signature-malformed}
use cxx_bus.Base.{◌↔◌, empty_match_rule}
use cxx_bus.MatchRule.Empty.{get_rule-create}
use cxx_bus.Message.{signal}
use cxx_bus.Incoming.{IncomingMessage, has_arguments}
use cxx_bus.MatchRule.{
  MatchRule, create, with_type, with_sender, with_path, with_argument, get_rule, rule_text,
  add_optional, add_arguments, add_to_rule, type_string, decimal,
}
use cxx_bus.MatchRule.Building.{
  type_call, sender_call, path_call, argument_call, build, IsValid, build-IsValid,
}
use cxx_bus.MatchRule.Matching.{
  matches, check_header, check_type, check_text, check_names, check_args, check_namespace,
  check_arg_paths, check_arg_namespace,
}
use cxx_bus.MatchRule.Agreement.{Agrees, matches-Agrees}
use cxx_bus.NameCache.{is_empty, on_name_owner_changed}
use cxx_bus.NameCache.Ownership.{
  owns, Change, replay, owner_of, owns-replay, owns-on_name_owner_changed,
}

abbrev pub rule : MatchRule
rule = record create {
  message_type = some signal;
  sender = some (codes ":1.5");
  path = some (codes "/a");
  args = record { name = codes "x"; index = 7 } ∷ [];
}

rule_built :
    build
      (type_call signal
        ∷ sender_call (codes ":1.5")
        ∷ path_call (codes "/a")
        ∷ argument_call 7 (codes "x")
        ∷ [])
      create
    ≡ ok rule
unfolding with_type with_sender with_path with_argument
rule_built = refl

build-IsValid_example : IsValid rule
build-IsValid_example =
    build-IsValid
      (type_call signal
        ∷ sender_call (codes ":1.5")
        ∷ path_call (codes "/a")
        ∷ argument_call 7 (codes "x")
        ∷ [])
      rule rule_built

pub rule_printed : get_rule rule ≡ ok (codes "type='signal',sender=':1.5',path='/a',arg7='x'")
unfolding get_rule rule_text add_optional add_arguments add_to_rule type_string decimal
rule_printed = refl

abbrev pub sent : IncomingMessage
sent = record {
  header = record {
    serial = 9;
    reply_to = none;
    message_type = signal;
    object = some (codes "/a/b");
    interface_of = some (codes "org.a");
    method = some (codes "Changed");
    error_of = none;
    signature_of = none;
    sender_of = some (codes ":1.5");
    destination_of = none;
    message_length = 0;
    header_field_length = 0;
  };
  body = [];
}

abbrev pub simple_rule : MatchRule
simple_rule = record create {
  message_type = some signal;
  sender = some (codes ":1.5");
  path_namespace = some (codes "/a");
}

pub sent-matches : matches 10 simple_rule sent (codes ":1.5" ∷ []) ≡ ok true
unfolding matches check_header check_type check_text check_names check_args check_namespace
    check_arg_paths check_arg_namespace has_arguments
sent-matches = refl

-- A well-known name of the sender keeps the same message from matching.
sent_under_a_name : matches 10 simple_rule sent (codes ":1.5" ∷ codes "org.a.B" ∷ []) ≡ ok false
unfolding matches check_header check_type check_text check_names
sent_under_a_name = refl

matches-Agrees_example :
    Agrees simple_rule.sender sent.header.sender_of
    × Agrees simple_rule.member sent.header.method
    × Agrees simple_rule.interface sent.header.interface_of
    × Agrees simple_rule.path sent.header.object
    × Agrees simple_rule.destination sent.header.destination_of
    × (check_namespace simple_rule.path_namespace sent.header.object ≡ true)
    × All (λ n. sent.header.sender_of ≡ some n) (codes ":1.5" ∷ [])
matches-Agrees_example = matches-Agrees 10 simple_rule sent (codes ":1.5" ∷ []) sent-matches

-- A name that is taken, and taken over.
abbrev history : List Change
history =
    record { name = codes "org.a"; old = codes ":1.1"; new = codes ":1.2" }
    ∷ record { name = codes "org.a"; old = []; new = codes ":1.1" }
    ∷ []

owns-replay_example :
    owns (replay history) (codes ":1.2") (codes "org.a")
    ≡ text_eq (owner_of history (codes "org.a")) (codes ":1.2")
owns-replay_example =
    owns-replay history (codes ":1.2") (codes "org.a") (refl, (refl, tt)) (λ e. cc e)

owns-on_name_owner_changed_example :
    owns
      (on_name_owner_changed
        (codes "org.a")
        (codes ":1.1")
        (codes ":1.2")
        ((codes ":1.1", codes "org.a" ∷ []) ∷ []))
      (codes ":1.1")
      (codes "org.a")
    ≡ (if not (is_empty (codes ":1.2"))
          && (text_eq (codes ":1.2") (codes ":1.1") && text_eq (codes "org.a") (codes "org.a"))
        then true
        else if not (is_empty (codes ":1.1"))
            && (text_eq (codes ":1.1") (codes ":1.1") && text_eq (codes "org.a") (codes "org.a"))
        then false
        else owns ((codes ":1.1", codes "org.a" ∷ []) ∷ []) (codes ":1.1") (codes "org.a"))
owns-on_name_owner_changed_example =
    owns-on_name_owner_changed (codes "org.a") (codes ":1.1") (codes ":1.2")
      ((codes ":1.1", codes "org.a" ∷ []) ∷ []) (codes ":1.1") (codes "org.a")

-- A message with the one argument `variant 5u`: its signature is `u`, and then the walk throws.
variant_signature-malformed_example :
    variant_signature ([] ++ ((1 ∷ []) ++ ((b'u' ∷ []) ++ (0 ∷ 0 ∷ 5 ∷ 0 ∷ 0 ∷ 0 ∷ [])))) start
    ≡ err malformed_input
variant_signature-malformed_example =
    variant_signature-malformed [] [] (0 ∷ 0 ∷ 5 ∷ 0 ∷ 0 ∷ 0 ∷ []) b'u' start (omega arith)
      (omega arith) refl

get_rule-create_example : (get_rule rule ≡ err empty_match_rule) ↔ (rule ≡ create)
get_rule-create_example = get_rule-create rule
