-- ===== src/Connection/Calls/Defs.antt =====
-- The states that the interleavings of SendMessageInternal and HandleReadMessage of
-- src/DBusConnection.txx reach, and what holds in all of them.
use cxx_bus.Base.{
  ℕ, ◌+◌, ◌^◌, ◌<◌, ◌≡◌, ◌≢◌, ◌⊎◌, Bool, true, false, List, [], ◌∷◌, Option, none, some, ◌==◌,
  if◌then◌else◌, length, get_or, Error, Result, ok, err,
}
use cxx_bus.Codec.Bytes.{Bytes}
use cxx_bus.Message.{Message}
use cxx_bus.Message.Building.{expects_reply}
use cxx_bus.Incoming.{IncomingMessage}
use cxx_bus.Connection.Channels.{Channels}
use cxx_bus.Connection.Replies.{
  max_concurrent_messages, ChannelInfo, Replies, free_slot, no_replies, slot_of, find_channel,
  begin_send, handle_reply, receive_reply,
}

-- A function changed at one number.
abbrev pub update {ℓ} : {A : Type ℓ} → (ℕ → A) → ℕ → A → ℕ → A
update f n a k = if n == k then a else f k

module _ (asio : Channels IncomingMessage) where
  open asio use {Channel, held}

  -- `calls n` is the coroutine that waits for the reply to the call with the serial `n`, given by
  -- its local newChannelUsed. `answered` is of the model alone: the calls whose reply has been
  -- handled.
  pub record System : Type 0 where
    pub replies : Replies asio
    pub calls : ℕ → Option Bool
    pub answered : ℕ → Bool

  abbrev pub idle : System
  idle = record { replies = no_replies asio; calls = λ n. none; answered = λ n. false }

  -- One run of a coroutine from an await to the next. A peer answers a call at most once, and the
  -- serial numbers do not wrap around.
  pub data Step (s t : System) : Type 0 where
    -- a call that is sent and waits for its reply
    begins :
        (m : Message) (write : Bytes → Result (Unit {0})) (used : Bool) (r : Replies asio)
        → s.replies.serial + 1 < 2 ^ 32
        → expects_reply m ≡ true
        → begin_send asio write m s.replies ≡ (r, (used, ok tt))
        → t ≡ record s { replies = r; calls = update s.calls s.replies.serial (some used) }
        → Step s t
    -- a message that needs no reply, or one that is not serialized or not written
    passes :
        (m : Message) (write : Bytes → Result (Unit {0})) (used : Bool) (r : Replies asio)
        (result : Result (Unit {0}))
        → s.replies.serial + 1 < 2 ^ 32
        → (expects_reply m ≡ false) ⊎ ((e : Error) × (result ≡ err e))
        → begin_send asio write m s.replies ≡ (r, (used, result))
        → t ≡ record s { replies = r }
        → Step s t
    -- the read loop handles a reply
    answers :
        (n : ℕ) (m : IncomingMessage) (r : Replies asio)
        → m.header.reply_to ≡ some n
        → s.answered n ≡ false
        → handle_reply asio n m s.replies ≡ ok r
        → t ≡ record s { replies = r; answered = update s.answered n true }
        → Step s t
    -- a waiting coroutine takes its reply
    ends :
        (n : ℕ) (used : Bool) (m : IncomingMessage) (r : Replies asio)
        → s.calls n ≡ some used
        → receive_reply asio n used s.replies ≡ some (r, m)
        → t ≡ record s { replies = r; calls = update s.calls n none }
        → Step s t

  pub data Reach : System → Type 0 where
    here : Reach idle
    next : {s t : System} → Reach s → Step s t → Reach t

  -- What comes after a state.
  pub data Later (s : System) : System → Type 0 where
    now : Later s s
    step : {t u : System} → Later s t → Step t u → Later s u

  -- What a channel holds that belongs to the call with the serial `n`: nothing, or its one reply.
  abbrev pub Holds : (ℕ → Bool) → ℕ → List IncomingMessage → Type 0
  Holds answered n [] = Unit
  Holds answered n (m ∷ []) = (m.header.reply_to ≡ some n) × (answered n ≡ true)
  Holds answered n (m ∷ m' ∷ l) = ⊥

  pub record SlotKept (s : System) (info : ChannelInfo asio) : Type 0 where
    pub holds : Holds s.answered info.serial (held info.channel)
    pub empty : info.ready ≡ true → held info.channel ≡ []
    pub known : info.ready ≡ false → info.serial < s.replies.serial

  pub record FurtherKept (s : System) (n : ℕ) (c : Channel) : Type 0 where
    pub holds : Holds s.answered n (held c)
    pub known : n < s.replies.serial

  -- Where the reply to a waiting call will be.
  abbrev pub Waits : System → ℕ → Bool → Type 0
  Waits s n false =
      ((slot_of asio n s.replies).serial ≡ n)
      × ((slot_of asio n s.replies).ready ≡ false)
      × (find_channel asio n s.replies.fallback ≡ none)
  Waits s n true =
      ((slot_of asio n s.replies).serial ≢ n)
      × ((c : Channel) × (find_channel asio n s.replies.fallback ≡ some c))

  pub record Kept (s : System) : Type 0 where
    pub size : length s.replies.slots ≡ max_concurrent_messages
    pub slots :
        (i : ℕ)
        → i < max_concurrent_messages
        → SlotKept s (get_or s.replies.slots i (free_slot asio))
    pub further :
        (n : ℕ) (c : Channel) → find_channel asio n s.replies.fallback ≡ some c → FurtherKept s n c
    pub waits : (n : ℕ) (used : Bool) → s.calls n ≡ some used → Waits s n used
    pub sent : (n : ℕ) (used : Bool) → s.calls n ≡ some used → n < s.replies.serial
    pub past : (n : ℕ) → s.answered n ≡ true → n < s.replies.serial
