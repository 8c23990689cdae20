-- ===== src/Message/Building.antt =====
-- How an outgoing message is put together: the factory functions and the setters of
-- src/DBusMessage.h and src/DBusMessage.cpp.
use cxx_bus.Base.{
  ℕ, ◌+◌, ◌/◌, ◌%◌, ◌≡◌, refl, Bool, true, false, List, [], ◌∷◌, Option, none, some, ◌==◌, arith,
  if◌then◌else◌, Text, Result, ok, ◌>>=◌,
}
use cxx_bus.Codec.Types.{
  string, Ty, Tys, Value, Values, text, basic, type_signature, member_signatures,
}
use cxx_bus.Codec.Marshal.{marshal_type, marshal_complete}
use cxx_bus.Message.{Message, MessageType, method_call, method_return, error, signal}

-- DBusMessageFlags, as the numbers of the bits.
pub data Flag : Type 0 where
  no_flag no_reply_expected no_auto_start allow_interactive_authorization : Flag

abbrev pub flag_number : Flag → ℕ
flag_number no_flag = 0
flag_number no_reply_expected = 1
flag_number no_auto_start = 2
flag_number allow_interactive_authorization = 4

-- A message with nothing set but the type.
abbrev pub blank : MessageType → Message
blank t = record {
  method = none;
  object = none;
  interface_of = none;
  flags = 0;
  message_type = t;
  signature_of = none;
  destination_of = none;
  error_of = none;
  reply_to = none;
  body = [];
}

-- DBusMessage::Method, Signal and Reply; the last takes the serial and the sender of the message
-- that it answers.
unfoldable pub make_method : Text → Text → Message
make_method name path = record (blank method_call) { method = some name; object = some path }

unfoldable pub make_signal : Text → Text → Text → Message
make_signal name path interface = record (blank signal) {
  method = some name;
  object = some path;
  interface_of = some interface;
}

unfoldable pub make_reply : ℕ → Option Text → Message
make_reply serial sender = record (blank method_return) {
  reply_to = some serial;
  destination_of = sender;
}

-- Parameter, at a type and at a MultipleCompleteTypes. An exception leaves the message unused.
unfoldable pub with_parameter : (t : Ty) → Value t → Message → Result Message
with_parameter t value m = do
  bytes ← marshal_type t value
  ok (record m { signature_of = some (type_signature t); body = bytes })

unfoldable pub with_parameters : (ts : Tys) → Values ts → Message → Result Message
with_parameters ts values m = do
  bytes ← marshal_complete ts values []
  ok (record m { signature_of = some (member_signatures ts); body = bytes })

-- DBusMessage::Error, from the serial and the sender of the message that it answers.
unfoldable pub make_error : ℕ → Option Text → Text → Text → Result Message
make_error serial sender name description =
    with_parameter (basic (text string)) description (record (blank error) {
      error_of = some name;
      reply_to = some serial;
      destination_of = sender;
    })

-- Path, Interface and Destination.
unfoldable pub with_path : Text → Message → Message
with_path path m = record m { object = some path }

unfoldable pub with_interface : Text → Message → Message
with_interface name m = record m { interface_of = some name }

unfoldable pub with_destination : Text → Message → Message
with_destination name m = record m { destination_of = some name }

-- `flags | bit`, at a power of two or 0.
unfoldable pub or_bit : ℕ → ℕ → ℕ
or_bit flags bit = if bit == 0 then flags else if flags / bit % 2 == 1 then flags else flags + bit

-- Flag.
unfoldable pub with_flag : Flag → Message → Message
unfolding or_bit
with_flag f m = record m { flags = or_bit m.flags (flag_number f) }

-- ExpectsReply.
unfoldable pub expects_reply : Message → Bool
expects_reply m = m.flags % 2 == 0

-- The calls of Flag in a chain, the first one first.
abbrev pub with_flags : List Flag → Message → Message
with_flags [] m = m
with_flags (f ∷ fs) m = with_flags fs (with_flag f m)

-- NO_REPLY_EXPECTED is not among the flags.
abbrev pub lacks_no_reply : List Flag → Bool
lacks_no_reply [] = true
lacks_no_reply (no_reply_expected ∷ fs) = false
lacks_no_reply (f ∷ fs) = lacks_no_reply fs

expects_reply-with_flag :
    (f : Flag) (m : Message)
    → expects_reply (with_flag f m) ≡ (if lacks_no_reply (f ∷ []) then expects_reply m else false)
unfolding expects_reply with_flag or_bit
expects_reply-with_flag no_flag m = refl
expects_reply-with_flag no_reply_expected m = ground arith
expects_reply-with_flag no_auto_start m = ground arith
expects_reply-with_flag allow_interactive_authorization m = ground arith

-- Whatever flags are set, in whatever order and however often, a message expects a reply afterwards
-- exactly if it did before and NO_REPLY_EXPECTED is not among the flags.
pub expects_reply-with_flags :
    (fs : List Flag) (m : Message)
    → expects_reply (with_flags fs m) ≡ (if lacks_no_reply fs then expects_reply m else false)
expects_reply-with_flags [] m = refl
expects_reply-with_flags (no_flag ∷ fs) m =
    rw (expects_reply-with_flags fs (with_flag no_flag m), expects_reply-with_flag no_flag m) refl
expects_reply-with_flags (no_reply_expected ∷ fs) m =
    rw
      (
        expects_reply-with_flags fs (with_flag no_reply_expected m),
        expects_reply-with_flag no_reply_expected m,
      )
      (ground arith)
expects_reply-with_flags (no_auto_start ∷ fs) m =
    rw
      (
        expects_reply-with_flags fs (with_flag no_auto_start m),
        expects_reply-with_flag no_auto_start m,
      )
      refl
expects_reply-with_flags (allow_interactive_authorization ∷ fs) m =
    rw
      (
        expects_reply-with_flags fs (with_flag allow_interactive_authorization m),
        expects_reply-with_flag allow_interactive_authorization m,
      )
      refl
