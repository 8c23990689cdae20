-- ===== src/Tests/Exchanges.antt =====
-- Messages that arrive, of src/DBusConnection.txx.
use cxx_bus.Base.{
  ℕ, ◌≡◌, refl, Bool, true, false, [], ◌∷◌, ◌++◌, none, some, codes, ok, ◌==◌, ◌<◌, ◌^◌, length,
  arith,
}
use cxx_bus.Codec.Bytes.{Bytes}
use cxx_bus.Message.{method_call}
use cxx_bus.Incoming.{IncomingMessage, has_arguments}
use cxx_bus.MatchRule.{MatchRule}
use cxx_bus.MatchRule.Matching.{
  matches, check_header, check_type, check_text, check_names, check_args, check_namespace,
  check_arg_paths, check_arg_namespace,
}
use cxx_bus.NameCache.{get_well_known_names, contains, find, set_of}
use cxx_bus.Connection.State.{State, construct}
use cxx_bus.Connection.Dispatch.{dispatch}
use cxx_bus.Connection.Signals.{reached, dispatch-reached, dispatch-silenced}
use cxx_bus.Connection.Reading.{read_message, read_loop}
use cxx_bus.Connection.Framing.Parts.{first_part, pad_of}
use cxx_bus.Connection.Framing.Rounds.{
  read_message-serialize, read_loop-stream, stream, one_by_one, and_then,
}
use cxx_bus.Connection.Framing.Pieces.{received}
use cxx_bus.Tests.Messages.{call, call_bytes, call_serialized, first_bytes, first_serialized}
use cxx_bus.Tests.Rules.{sent, sent-matches, rule}
use cxx_bus.Tests.Requests.{says, ready}

-- A signal that the first rule matches, and the second does not.
abbrev is_simple : MatchRule → Bool
is_simple r = elim r.path_namespace [ none ↦ false | some p ↦ true ]

rule_refuses : matches 10 rule sent (codes ":1.5" ∷ []) ≡ ok false
unfolding matches check_header check_type check_text check_names check_args check_namespace
    check_arg_paths check_arg_namespace has_arguments
rule_refuses = refl

dispatch-reached_example :
    dispatch says 10 ready sent
    ≡ record { invoked = reached says 10 is_simple ready.match_rules; sent = []; result = ok tt }
unfolding get_well_known_names find construct
dispatch-reached_example = dispatch-reached says 10 ready sent is_simple refl (
  (sent-matches, ((false, refl), ((false, refl), tt))),
  ((rule_refuses, ((false, refl), tt)), tt),
)

-- The sender of the signal owns a name.
abbrev knowing : State ℕ
knowing = record ready { name_cache = (codes ":1.5", codes "org.a.B" ∷ []) ∷ [] }

known : contains (set_of (find knowing.name_cache (codes ":1.5"))) (codes "org.a.B") ≡ true
unfolding contains find
known = refl

dispatch-silenced_example :
    dispatch says 10 knowing sent ≡ record { invoked = []; sent = []; result = ok tt }
dispatch-silenced_example =
    dispatch-silenced says 10 knowing sent (codes ":1.5") (codes "org.a.B") refl refl known
      (λ e. cc e)

-- A call that arrives for the path `/c`, which has no handlers.
abbrev arrived : IncomingMessage
arrived = record sent {
  header = record sent.header { message_type = method_call; object = some (codes "/c") };
}

abbrev is_five : ℕ → Bool
is_five n = n == 5

-- Two messages on one stream.
first_short : length first_bytes < 2 ^ 32
first_short = omega arith

read_message-serialize_example :
    (y : Bytes) × ((first_bytes ≡ first_part call 1 y ++ (y ++ (pad_of y ++ call.body)))
      × ((rest : Bytes) → read_message (first_bytes ++ rest) ≡ some (received call 1 y, rest)))
read_message-serialize_example =
    read_message-serialize call 1 first_bytes first_serialized (omega arith) first_short

read_loop-stream_example :
    read_loop 2 (stream (first_bytes ∷ call_bytes ∷ []) ++ [])
    ≡ and_then (one_by_one (first_bytes ∷ call_bytes ∷ [])) (read_loop 0 [])
read_loop-stream_example = read_loop-stream (first_bytes ∷ call_bytes ∷ []) 0 [] (
  (call, (1, (first_serialized, (omega arith, first_short)))),
  ((call, (5, (call_serialized, (omega arith, omega arith)))), tt),
)
