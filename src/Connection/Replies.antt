-- ===== src/Connection/Replies.antt =====
-- The reply channels of a connection and SendMessageInternal, of src/DBusConnection.txx: how a
-- coroutine that sends a call gets the reply to it.
use cxx_bus.Base.{
  ℕ, zero, suc, ◌%◌, Bool, true, false, not, ◌&&◌, List, [], ◌∷◌, Option, none, some, ◌==◌,
  if◌then◌else◌, text_eq, codes, get_or, replicate, add32, Result, ok, err, internal, dbus_error,
  ◌>>=◌,
}
use cxx_bus.Codec.Types.{string, text, basic}
use cxx_bus.Codec.Bytes.{Bytes}
use cxx_bus.Message.{Message, error, serialize, type_number}
use cxx_bus.Message.Building.{expects_reply}
use cxx_bus.Incoming.{IncomingMessage, has_arguments, text_of, get}
use cxx_bus.Connection.Channels.{Channels}

-- CXXBUS_MAX_CONCURRENT_MESSAGES.
abbrev pub max_concurrent_messages : ℕ
max_concurrent_messages = 56

-- `v[i] = a`; outside the vector, which the connection never is, nothing changes.
abbrev pub set {ℓ} : {A : Type ℓ} → List A → ℕ → A → List A
set [] i a = []
set (x ∷ xs) zero a = a ∷ xs
set (x ∷ xs) (suc i) a = x ∷ set xs i a

module _ (asio : Channels IncomingMessage) where
  open asio use {Channel, fresh, send, receive}

  -- ChannelInfo.
  pub record ChannelInfo : Type 0 where
    pub channel : Channel
    pub serial : ℕ
    pub ready : Bool

  -- replyChannels, fallbackReplyChannels and serial of InternalState.
  pub record Replies : Type 0 where
    pub slots : List ChannelInfo
    pub fallback : List (ℕ × Channel)
    pub serial : ℕ

  abbrev pub free_slot : ChannelInfo
  free_slot = record { channel = fresh; serial = 0; ready = true }

  -- The constructor's part.
  unfoldable pub no_replies : Replies
  no_replies = record {
    slots = replicate max_concurrent_messages free_slot;
    fallback = [];
    serial = 1;
  }

  -- replyChannels[serial % CXXBUS_MAX_CONCURRENT_MESSAGES].
  abbrev pub slot_of : ℕ → Replies → ChannelInfo
  slot_of n r = get_or r.slots (n % max_concurrent_messages) free_slot

  abbrev pub set_slot : ℕ → ChannelInfo → Replies → Replies
  set_slot n info r = record r { slots = set r.slots (n % max_concurrent_messages) info }

  -- The std::unordered_map: find, insert, which keeps what is there, and erase.
  unfoldable pub find_channel : ℕ → List (ℕ × Channel) → Option Channel
  find_channel n [] = none
  find_channel n ((k, c) ∷ m) = if k == n then some c else find_channel n m

  unfoldable pub insert_channel : ℕ → Channel → List (ℕ × Channel) → List (ℕ × Channel)
  insert_channel n c [] = (n, c) ∷ []
  insert_channel n c ((k, d) ∷ m) = if k == n then (k, d) ∷ m else (k, d) ∷ insert_channel n c m

  -- The send on the channel that is found.
  unfoldable pub send_to : ℕ → IncomingMessage → List (ℕ × Channel) → List (ℕ × Channel)
  send_to n m [] = []
  send_to n m ((k, d) ∷ l) = if k == n then (k, send m d) ∷ l else (k, d) ∷ send_to n m l

  unfoldable pub erase_channel : ℕ → List (ℕ × Channel) → List (ℕ × Channel)
  erase_channel n [] = []
  erase_channel n ((k, d) ∷ m) = if k == n then erase_channel n m else (k, d) ∷ erase_channel n m

  -- SendMessageInternal up to the write: the serial number is taken, and for a call that expects a
  -- reply a channel. The Boolean is newChannelUsed.
  unfoldable pub take_channel : Message → Replies → Replies × Bool
  take_channel m r =
      let next = record r { serial = add32 r.serial 1 } in
      let info = slot_of r.serial r in
      if not (expects_reply m)
      then (next, false)
      else if info.ready
      then (set_slot r.serial (record info { ready = false; serial = r.serial }) next, false)
      else (record next { fallback = insert_channel r.serial fresh r.fallback }, true)

  -- SendMessageInternal up to and with the write, on what async_write makes of the bytes. Nothing
  -- is put back where the message is not serialized or not written.
  unfoldable pub begin_send :
      (write : Bytes → Result (Unit {0})) → Message → Replies → Replies × (Bool × Result (Unit {0}))
  begin_send write m r =
      let (taken, new_channel_used) = take_channel m r in
      (taken, (new_channel_used, serialize m r.serial >>= write))

  -- The reply branch of HandleReadMessage.
  unfoldable pub handle_reply : ℕ → IncomingMessage → Replies → Result Replies
  handle_reply n m r =
      let info = slot_of n r in
      if (info.serial == n) && not info.ready
      then ok (set_slot n (record info { channel = send m info.channel }) r)
      else elim (find_channel n r.fallback) [
        | some c ↦ ok (record r { fallback = send_to n m r.fallback })
        | none ↦ err internal
      ]

  -- SendMessageInternal behind the write: async_receive on the channel and what gives it back.
  -- `none` where the coroutine stays suspended.
  unfoldable pub receive_reply : ℕ → Bool → Replies → Option (Replies × IncomingMessage)
  receive_reply n false r = elim (receive (slot_of n r).channel) [
    | none ↦ none
    | some (m, rest) ↦
        some (set_slot n (record (slot_of n r) { channel = rest; ready = true }) r, m)
  ]
  receive_reply n true r = elim (find_channel n r.fallback) [
    | none ↦ none
    | some c ↦ elim (receive c) [
      | none ↦ none
      | some (m, rest) ↦ some (record r { fallback = erase_channel n r.fallback }, m)
    ]
  ]

-- The end of SendMessageInternal: an error is thrown. The texts of the exception are not kept, but
-- the reading of them can throw.
unfoldable pub reply_or_throw : IncomingMessage → Result IncomingMessage
reply_or_throw m =
    let explained = get (basic (text string)) m >>= λ description. err dbus_error in
    if type_number m.header.message_type == type_number error
    then if has_arguments m && text_eq (text_of m.header.signature_of) (codes "s")
      then explained
      else err dbus_error
    else ok m
