-- ===== src/Connection/Calls/Frames.antt =====
-- What SendMessageInternal and HandleReadMessage of src/DBusConnection.txx leave as it is: the
-- channels of all other calls.
use cxx_bus.Base.{
  ℕ, ◌%◌, ◌<◌, ◌≡◌, ◌≢◌, refl, sym, ap, ◌∙◌, Bool, true, false, not, ◌&&◌, Option, some, ◌==◌,
  length, get_or, Bool-cases, inl, inr, arith, Option-cases, ok, get_or, add32,
}
use cxx_bus.Message.{Message}
use cxx_bus.Message.Building.{expects_reply}
use cxx_bus.Incoming.{IncomingMessage}
use cxx_bus.Connection.Channels.{Channels}
use cxx_bus.Connection.Replies.{
  max_concurrent_messages, ChannelInfo, Replies, free_slot, slot_of, set_slot, find_channel,
  send_to, erase_channel, take_channel, handle_reply, receive_reply,
}
use cxx_bus.Connection.Slots.{find-send_to, find-insert, find-erase}
use cxx_bus.Connection.Calls.Defs.{System, Kept}
use cxx_bus.Connection.Calls.Kept.{slot-set}

module _ (asio : Channels IncomingMessage) where
  open asio use {Channel, fresh, send, receive, held, receive_nothing, receive_oldest}

  -- The channel that the call with a serial number waits on.
  abbrev pub channel_of : ℕ → Bool → Replies asio → Option Channel
  channel_of n false r = some (slot_of asio n r).channel
  channel_of n true r = find_channel asio n r.fallback

  slot-other :
      (n k : ℕ) (info : ChannelInfo asio) (r : Replies asio)
      → length r.slots ≡ max_concurrent_messages
      → n % max_concurrent_messages ≢ k % max_concurrent_messages
      → slot_of asio k (set_slot asio n info r) ≡ slot_of asio k r
  slot-other n k info r size other =
      let apart : (n % max_concurrent_messages == k % max_concurrent_messages) ≡ false =
        ground (arith, other) in
      slot-set asio n (k % max_concurrent_messages) info r size ∙ rw apart refl

  module _ (s : System asio) (h : Kept asio s) (k : ℕ) where
    pub take_channel-frame :
        (used : Bool) (m : Message)
        → s.calls k ≡ some used
        → channel_of k used (take_channel asio m s.replies).0 ≡ channel_of k used s.replies
    unfolding take_channel
    take_channel-frame false m waiting = elim (Bool-cases (expects_reply m)) [
      | inr e ↦ rw e refl
      | inl e ↦ elim (Bool-cases (slot_of asio s.replies.serial s.replies).ready) [
        | inr busy ↦ rw (e, busy) refl
        | inl free ↦
            let n = s.replies.serial in
            let next = record s.replies { serial = add32 n 1 } in
            let info = record (slot_of asio n s.replies) { ready = false; serial = n } in
            let w = h.waits k false waiting in
            let apart : n % max_concurrent_messages ≢ k % max_concurrent_messages = λ same.
              let taken : (slot_of asio n s.replies).ready ≡ false =
                ap (λ i. (get_or s.replies.slots i (free_slot asio)).ready) same ∙ w.1 in
              absurd (cc) in
            rw (e, free) (ap (λ i. some i.channel) (slot-other n k info next h.size apart))
      ]
    ]
    take_channel-frame true m waiting = elim (Bool-cases (expects_reply m)) [
      | inr e ↦ rw e refl
      | inl e ↦ elim (Bool-cases (slot_of asio s.replies.serial s.replies).ready) [
        | inl free ↦ rw (e, free) refl
        | inr busy ↦
            let n = s.replies.serial in
            let lt : k < n = h.sent k true waiting in
            let apart : (n == k) ≡ false = ground arith in
            rw (e, busy) (find-insert asio n k fresh s.replies.fallback ∙ rw apart refl)
      ]
    ]

    forward-frame :
        (n : ℕ) (used : Bool) (m : IncomingMessage)
        → n ≢ k
        → channel_of k used (record s.replies { fallback = send_to asio n m s.replies.fallback })
          ≡ channel_of k used s.replies
    forward-frame n false m other = refl
    forward-frame n true m other =
        let apart : (n == k) ≡ false = ground (arith, other) in
        find-send_to asio n k m s.replies.fallback ∙ rw apart refl

    -- Two calls that wait do not share a slot.
    slot-apart :
        (n : ℕ)
        → s.calls k ≡ some false
        → (slot_of asio n s.replies).serial ≡ n
        → n ≢ k
        → n % max_concurrent_messages ≢ k % max_concurrent_messages
    slot-apart n waiting own other same = other (
        sym own
        ∙ (ap (λ i. (get_or s.replies.slots i (free_slot asio)).serial) same
            ∙ (h.waits k false waiting).0))

    set_slot-frame :
        (n : ℕ) (used : Bool) (info : ChannelInfo asio)
        → s.calls k ≡ some used
        → (slot_of asio n s.replies).serial ≡ n
        → n ≢ k
        → channel_of k used (set_slot asio n info s.replies) ≡ channel_of k used s.replies
    set_slot-frame n false info waiting own other =
        ap (λ i. some i.channel)
          (slot-other n k info s.replies h.size (slot-apart n waiting own other))
    set_slot-frame n true info waiting own other = refl

    pub handle_reply-frame :
        (n : ℕ) (used : Bool) (m : IncomingMessage) (r : Replies asio)
        → s.calls k ≡ some used
        → n ≢ k
        → handle_reply asio n m s.replies ≡ ok r
        → channel_of k used r ≡ channel_of k used s.replies
    unfolding handle_reply
    handle_reply-frame n used m r waiting other e =
        elim (Bool-cases
          (((slot_of asio n s.replies).serial == n) && not (slot_of asio n s.replies).ready)) [
            | inl own ↦
                let info = slot_of asio n s.replies in
                let is : set_slot asio n (record info { channel = send m info.channel }) s.replies
                    ≡ r =
                  cc (rw own at e) in
                let serial : info.serial ≡ n = ground arith in
                rw (← is) (set_slot-frame n used _ waiting serial other)
            | inr foreign ↦ elim (Option-cases (find_channel asio n s.replies.fallback)) [
              | inl absent ↦ absurd (cc (rw (foreign, absent) at e))
              | inr (c, there) ↦
                  let is : record s.replies { fallback = send_to asio n m s.replies.fallback } ≡ r =
                    cc (rw (foreign, there) at e) in
                  rw (← is) (forward-frame n used m other)
            ]
          ]

    erase-frame :
        (n : ℕ) (used : Bool)
        → n ≢ k
        → channel_of k used
            (record s.replies { fallback = erase_channel asio n s.replies.fallback })
          ≡ channel_of k used s.replies
    erase-frame n false other = refl
    erase-frame n true other =
        let apart : (n == k) ≡ false = ground (arith, other) in
        find-erase asio n k s.replies.fallback ∙ rw apart refl

    pub receive_reply-frame :
        (n : ℕ) (b used : Bool) (m : IncomingMessage) (r : Replies asio)
        → s.calls k ≡ some used
        → n ≢ k
        → s.calls n ≡ some b
        → receive_reply asio n b s.replies ≡ some (r, m)
        → channel_of k used r ≡ channel_of k used s.replies
    unfolding receive_reply
    receive_reply-frame n false used m r waiting other called e =
        elim (Option-cases (receive (slot_of asio n s.replies).channel)) [
          | inl empty ↦ absurd (cc (rw (empty, receive_reply) at e))
          | inr ((m', rest), taken) ↦
              let info = record (slot_of asio n s.replies) { channel = rest; ready = true } in
              let is : set_slot asio n info s.replies ≡ r = cc (rw (taken, receive_reply) at e) in
              rw (← is) (set_slot-frame n used info waiting (h.waits n false called).0 other)
        ]
    receive_reply-frame n true used m r waiting other called e =
        elim (Option-cases (find_channel asio n s.replies.fallback)) [
          | inl absent ↦ absurd (cc (rw (absent, receive_reply) at e))
          | inr (c, there) ↦ elim (Option-cases (receive c)) [
            | inl empty ↦ absurd (cc (rw (there, receive_reply, empty) at e))
            | inr ((m', rest), taken) ↦
                let erased = record s.replies {
                  fallback = erase_channel asio n s.replies.fallback;
                } in
                let is : erased ≡ r = cc (rw (there, receive_reply, taken) at e) in
                rw (← is) (erase-frame n used other)
          ]
        ]
