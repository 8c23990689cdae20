-- ===== src/Connection/Requests.antt =====
-- What a connection asks of the bus: match rules and well-known names, and the sending of messages
-- behind its checks, of src/DBusConnection.txx.
use cxx_bus.Base.{
  ℕ, ◌+◌, Bool, true, false, not, List, [], ◌∷◌, ◌++◌, if◌then◌else◌, Text, text_eq, codes, Result,
  ok, err, runtime_error, suspended, throw_if,
}
use mathlib.Core.Logic.{ite}
use native.Mathlib.Decide.{ℕ_discrete}
use cxx_bus.Codec.Types.{string, uint32, text, word, basic, more, one}
use cxx_bus.Message.{Message, MessageType}
use cxx_bus.Message.Building.{
  make_method, with_interface, with_destination, with_parameter, with_parameters, expects_reply,
}
use cxx_bus.Incoming.{IncomingMessage, get}
use cxx_bus.MatchRule.{MatchRule, get_rule}
use cxx_bus.Connection.State.{MatchRuleInfo, Run, return, ◌>>=◌, ◌>>◌, lift, gets, modify}

-- operator== of DBusMatchRule, the defaulted one: all members are equal.
MessageType-discrete : Discrete MessageType
MessageType-discrete = hlevel

unfoldable pub MatchRule-discrete : Discrete MatchRule
unfolding MessageType-discrete
MatchRule-discrete = hlevel (ℕ_discrete, MessageType-discrete)

-- Methods of the object of the bus daemon.
unfoldable pub daemon_call : Text → Message
daemon_call name = with_destination (codes "org.freedesktop.DBus") (
    with_interface (codes "org.freedesktop.DBus")
      (make_method name (codes "/org/freedesktop/DBus")))

unfoldable pub add_match_call : MatchRule → Result Message
unfolding daemon_call
add_match_call rule = elim (get_rule rule) [
  | err e ↦ err e
  | ok t ↦ with_parameter (basic (text string)) t (daemon_call (codes "AddMatch"))
]

unfoldable pub remove_match_call : MatchRule → Result Message
unfolding daemon_call
remove_match_call rule = elim (get_rule rule) [
  | err e ↦ err e
  | ok t ↦ with_parameter (basic (text string)) t (daemon_call (codes "RemoveMatch"))
]

-- The flags are an `uint8_t`, whose bits are WellKnownNameFlag.
unfoldable pub request_name_call : Text → ℕ → Result Message
unfolding daemon_call
request_name_call name flags =
    with_parameters (more (basic (text string)) (one (basic (word uint32)))) (name, flags)
      (daemon_call (codes "RequestName"))

unfoldable pub release_name_call : Text → Result Message
unfolding daemon_call
release_name_call name =
    with_parameter (basic (text string)) name (daemon_call (codes "ReleaseName"))

-- `std::ranges::contains` and `std::ranges::remove` with `erase`.
unfoldable pub contains_name : List Text → Text → Bool
contains_name [] n = false
contains_name (x ∷ xs) n = if text_eq x n then true else contains_name xs n

unfoldable pub remove_name : Text → List Text → List Text
remove_name n [] = []
remove_name n (x ∷ xs) = if text_eq x n then remove_name n xs else x ∷ remove_name n xs

module _ {F : Type 0} where
  -- The registry behind the answer of the bus, in AddMatchRuleImpl and RemoveMatchRuleImpl.
  unfoldable pub add_rule : MatchRule → F → Bool → List (MatchRuleInfo F) → List (MatchRuleInfo F)
  add_rule rule callback on_user [] =
      record { rule = rule; callbacks = callback ∷ []; execute_on_user_context = on_user } ∷ []
  add_rule rule callback on_user (i ∷ infos) =
      ite (MatchRule-discrete i.rule rule)
        (record i { callbacks = i.callbacks ++ (callback ∷ []) } ∷ infos)
        (i ∷ add_rule rule callback on_user infos)

  unfoldable pub remove_rule : MatchRule → List (MatchRuleInfo F) → List (MatchRuleInfo F)
  remove_rule rule [] = []
  remove_rule rule (i ∷ infos) =
      ite (MatchRule-discrete i.rule rule) infos (i ∷ remove_rule rule infos)

  -- `bus` is what SendMessageInternal makes of a message: the reply, or an exception.
  module _ (bus : Message → Result IncomingMessage) where
    -- The start of SendMessageImpl and SendMessageNoReplyImpl. Before the connection is ready the
    -- coroutine is suspended.
    unfoldable pub wait_until_ready : Run F (Unit {0})
    wait_until_ready s = if s.connection_ready then return tt s else record {
      state = record s { nr_of_waiters = s.nr_of_waiters + 1 };
      sent = [];
      result = err suspended;
    }

    unfoldable pub exchange : Message → Run F IncomingMessage
    exchange m s = record { state = s; sent = m ∷ []; result = bus m }

    -- SendMessageImpl.
    unfoldable pub send_message : Message → Run F IncomingMessage
    unfolding wait_until_ready exchange
    send_message m = do
      wait_until_ready
      lift (throw_if (not (expects_reply m)) runtime_error)
      exchange m

    -- AddMatchRuleImpl.
    unfoldable pub add_match_rule : MatchRule → F → Bool → Run F (Unit {0})
    unfolding add_rule
    add_match_rule rule callback on_user = do
      m ← lift (add_match_call rule)
      reply ← send_message m
      modify (λ s. record s { match_rules = add_rule rule callback on_user s.match_rules })

    -- RemoveMatchRuleImpl.
    unfoldable pub remove_match_rule : MatchRule → Run F (Unit {0})
    unfolding remove_rule
    remove_match_rule rule = do
      m ← lift (remove_match_call rule)
      reply ← send_message m
      modify (λ s. record s { match_rules = remove_rule rule s.match_rules })

    -- RequestWellKnownNameImpl up to the wait for the reply, and behind it: the answer of the
    -- bus, a number, is logged only.
    unfoldable pub check_not_owned : Text → Run F (Unit {0})
    unfolding contains_name
    check_not_owned name s = lift (throw_if (contains_name s.well_known_names name) runtime_error) s

    unfoldable pub note_owned : Text → IncomingMessage → Run F (Unit {0})
    note_owned name reply = do
      code ← lift (get (basic (word uint32)) reply)
      modify (λ s. record s { well_known_names = s.well_known_names ++ (name ∷ []) })

    -- RequestWellKnownNameImpl.
    unfoldable pub request_well_known_name : Text → ℕ → Run F (Unit {0})
    unfolding check_not_owned note_owned
    request_well_known_name name flags = do
      check_not_owned name
      m ← lift (request_name_call name flags)
      reply ← send_message m
      note_owned name reply

    unfoldable pub check_owned : Text → Run F (Unit {0})
    unfolding contains_name
    check_owned name s =
        lift (throw_if (not (contains_name s.well_known_names name)) runtime_error) s

    unfoldable pub note_released : Text → IncomingMessage → Run F (Unit {0})
    unfolding remove_name
    note_released name reply = do
      code ← lift (get (basic (word uint32)) reply)
      modify (λ s. record s { well_known_names = remove_name name s.well_known_names })

    -- ReleaseWellKnownNameImpl.
    unfoldable pub release_well_known_name : Text → Run F (Unit {0})
    unfolding check_owned note_released
    release_well_known_name name = do
      check_owned name
      m ← lift (release_name_call name)
      reply ← send_message m
      note_released name reply

    -- CloseData. It waits for the end of the read loop, which the closed socket brings about, and for
    -- ever where none has been started.
    unfoldable pub close_data : Run F (Unit {0})
    close_data s = record {
      state = record s {
        on_incoming = [];
        object_path_handlers = [];
        should_quit = true;
        connection_ready = false;
        socket_open = false;
        reading = false;
      };
      sent = [];
      result = if s.reading then ok tt else err suspended;
    }

    -- The two loops of CloseImpl.
    unfoldable pub remove_rules : List (MatchRuleInfo F) → Run F (Unit {0})
    remove_rules [] = return tt
    remove_rules (i ∷ infos) = remove_match_rule i.rule >> remove_rules infos

    unfoldable pub release_names : List Text → Run F (Unit {0})
    release_names [] = return tt
    release_names (n ∷ names) = release_well_known_name n >> release_names names

    -- CloseImpl behind its tests, and all of it.
    unfoldable pub close_ready : Run F (Unit {0})
    unfolding remove_rules release_names close_data
    close_ready = do
      rules ← gets (λ s. s.match_rules)
      remove_rules rules
      names ← gets (λ s. s.well_known_names)
      release_names names
      close_data

    unfoldable pub close : Run F (Unit {0})
    unfolding close_ready close_data
    close s =
        if not s.socket_open
        then return tt s
        else if s.connection_ready
        then close_ready s
        else close_data s

    -- HandleConnectionLost, without the call of the user's handlers at its end.
    unfoldable pub handle_connection_lost : Run F (Unit {0})
    unfolding close
    handle_connection_lost s =
        if s.should_quit then return tt s else close (record s { connection_ready = false })
