-- ===== src/Tests/Calls.antt =====
-- Calls and their replies, SendMessageInternal and HandleReadMessage of src/DBusConnection.txx.
use cxx_bus.Base.{
  ◌^◌, ◌+◌, ◌<◌, ◌≡◌, refl, true, false, List, [], ◌∷◌, ◌++◌, Option, none, some, codes, Result, ok,
  err, inl, Bool, internal, runtime_error, arith,
}
use cxx_bus.Codec.Bytes.{Bytes}
use cxx_bus.Message.{Message, method_return}
use cxx_bus.Message.Building.{expects_reply}
use cxx_bus.Incoming.{IncomingMessage}
use cxx_bus.Connection.Channels.{Channels}
use cxx_bus.Connection.Replies.{
  Replies, no_replies, take_channel, begin_send, handle_reply, receive_reply, slot_of, set_slot,
}
use cxx_bus.Connection.Calls.Defs.{
  System, Step, begins, passes, answers, Reach, here, next, now, step, idle, update,
}
use cxx_bus.Connection.Calls.Progress.{
  receive_reply-own, receive_reply-answered, receive_reply-handle_reply,
}
use cxx_bus.Connection.Calls.Leaks.{begin_send-leaks}
use cxx_bus.Tests.Messages.{call, first_serialized}

unfoldable oldest : List IncomingMessage → Option (IncomingMessage × List IncomingMessage)
oldest [] = none
oldest (m ∷ l) = some (m, l)

oldest_nothing : (l : List IncomingMessage) → l ≡ [] → oldest l ≡ none
unfolding oldest
oldest_nothing l e = rw e refl

oldest_first :
    (l : List IncomingMessage) (m : IncomingMessage) (later : List IncomingMessage)
    → l ≡ m ∷ later
    → (rest : List IncomingMessage) × (oldest l ≡ some (m, rest)) × (rest ≡ later)
unfolding oldest
oldest_first l m later e = (later, rw e refl, refl)

-- A channel is the queue of what it holds.
abbrev queue : Channels IncomingMessage
queue = record {
  Channel = List IncomingMessage;
  fresh = [];
  send = λ m l. l ++ (m ∷ []);
  receive = oldest;
  held = λ l. l;
  held-fresh = refl;
  held-send = λ m l. refl;
  receive_nothing = oldest_nothing;
  receive_oldest = oldest_first;
}

abbrev reply : IncomingMessage
reply = record {
  header = record {
    serial = 77;
    reply_to = some 1;
    message_type = method_return;
    object = none;
    interface_of = none;
    method = none;
    error_of = none;
    signature_of = none;
    sender_of = some (codes ":1.5");
    destination_of = none;
    message_length = 0;
    header_field_length = 0;
  };
  body = [];
}

abbrev written : Bytes → Result (Unit {0})
written b = ok tt

abbrev opening : Replies queue
opening = no_replies queue

-- The call has been sent: its serial is 1.
abbrev begun : Replies queue
begun = (take_channel queue call opening).0

begun_lem : begin_send queue written call opening ≡ (begun, (false, ok tt))
unfolding begin_send take_channel no_replies expects_reply
begun_lem = rw (first_serialized, begin_send) refl

abbrev waiting : System queue
waiting = record (idle queue) {
  replies = begun;
  calls = update (idle queue).calls opening.serial (some false);
}

first_small : opening.serial + 1 < 2 ^ 32
unfolding no_replies
first_small = omega arith

call_expects : expects_reply call ≡ true
unfolding expects_reply
call_expects = refl

waiting_reached : Reach queue waiting
waiting_reached =
    next here (begins call written false begun first_small call_expects begun_lem refl)

waiting_call : waiting.calls 1 ≡ some false
unfolding no_replies
waiting_call = refl

waiting_answered : waiting.answered 1 ≡ false
waiting_answered = refl

receive_reply-handle_reply_example :
    (r : Replies queue) × (r' : Replies queue) × (handle_reply queue 1 reply begun ≡ ok r)
    × (receive_reply queue 1 false r ≡ some (r', reply))
receive_reply-handle_reply_example =
    receive_reply-handle_reply queue waiting 1 false reply waiting_reached waiting_call refl refl

-- The reply has been handled.
abbrev handled : Replies queue
handled =
    set_slot queue 1
      (record (slot_of queue 1 begun) { channel = (slot_of queue 1 begun).channel ++ (reply ∷ []) })
      begun

handled_lem : handle_reply queue 1 reply begun ≡ ok handled
unfolding handle_reply take_channel no_replies expects_reply
handled_lem = refl

abbrev answered : System queue
answered = record waiting { replies = handled; answered = update waiting.answered 1 true }

answered_reached : Reach queue answered
answered_reached = next waiting_reached (answers 1 reply handled refl refl handled_lem refl)

receive_reply-answered_example :
    (r : Replies queue) × (m : IncomingMessage) × (receive_reply queue 1 false handled
      ≡ some (r, m))
receive_reply-answered_example =
    receive_reply-answered queue answered 1 false answered_reached waiting_call refl

abbrev given_back : Replies queue
given_back =
    set_slot queue 1 (record (slot_of queue 1 handled) { channel = []; ready = true }) handled

given_back_lem : receive_reply queue 1 false handled ≡ some (given_back, reply)
unfolding receive_reply take_channel no_replies expects_reply oldest
given_back_lem = refl

abbrev returned : System queue
returned = record answered { replies = given_back; calls = update answered.calls 1 none }

-- A message without a reply is sent behind it.
abbrev quiet : Message
quiet = record call { flags = 1 }

abbrev quietly : Replies queue × (Bool × Result (Unit {0}))
quietly = begin_send queue written quiet given_back

abbrev second : System queue
second = record returned { replies = quietly.0 }

quiet_reply : expects_reply quiet ≡ false
unfolding expects_reply
quiet_reply = refl

second_small : given_back.serial + 1 < 2 ^ 32
unfolding take_channel no_replies expects_reply
second_small = omega arith

second_step : Step queue returned second
second_step =
    passes quiet written quietly.1.0 quietly.0 quietly.1.1 second_small (inl quiet_reply) refl refl

receive_reply-own_example :
    (reply.header.reply_to ≡ some 1)
    × ((m : IncomingMessage) → handle_reply queue 1 m second.replies ≡ err internal)
receive_reply-own_example =
    receive_reply-own queue answered second 1 false reply given_back answered_reached waiting_call
      given_back_lem (step now second_step)

-- The write of the first call fails.
abbrev lost : Bytes → Result (Unit {0})
lost b = err runtime_error

lost_lem : begin_send queue lost call opening ≡ (begun, (false, err runtime_error))
unfolding begin_send take_channel no_replies expects_reply
lost_lem = rw (first_serialized, begin_send) refl

first_ready : (slot_of queue opening.serial opening).ready ≡ true
unfolding no_replies
first_ready = refl

begin_send-leaks_example :
    ((slot_of queue opening.serial begun).ready ≡ false)
    × ((slot_of queue opening.serial begun).serial ≡ opening.serial)
begin_send-leaks_example =
    begin_send-leaks queue (idle queue) (record (idle queue) { replies = begun }) call lost false
      begun runtime_error here first_small call_expects first_ready lost_lem now
