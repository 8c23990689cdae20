-- ===== src/Connection/Calls/Progress.antt =====
-- No call waits for ever for a reply that has come: SendMessageInternal and HandleReadMessage of
-- src/DBusConnection.txx, in every interleaving.
use cxx_bus.Base.{
  ℕ, ◌%◌, ◌<◌, ◌≡◌, refl, ap, ◌∙◌, subst, Bool, true, false, [], ◌∷◌, none, some, ◌==◌, ==_iff,
  ==_true, Bool-cases, inl, inr, arith, ok, err, internal,
}
use cxx_bus.Message.{Message}
use cxx_bus.Incoming.{IncomingMessage}
use cxx_bus.Connection.Channels.{Channels}
use cxx_bus.Connection.Replies.{
  max_concurrent_messages, Replies, slot_of, set_slot, send_to, erase_channel, take_channel,
  handle_reply, receive_reply,
}
use cxx_bus.Connection.Slots.{find-send_to}
use cxx_bus.Connection.Calls.Defs.{
  System, Step, begins, passes, answers, ends, Reach, here, next, Holds, Kept, Later, update,
}
use cxx_bus.Connection.Calls.Kept.{slot-set}
use cxx_bus.Connection.Calls.Handed.{Holds-send}
use cxx_bus.Connection.Calls.Answers.{begin_send-taken, receive_reply-lem, Reach-Kept}
use cxx_bus.Connection.Calls.Unknown.{serial-receive_reply}
use cxx_bus.Connection.Calls.Refused.{handle_reply-Later}
use cxx_bus.Connection.Calls.Frames.{
  channel_of, take_channel-frame, handle_reply-frame, receive_reply-frame,
}

module _ (asio : Channels IncomingMessage) where
  open asio use {Channel, fresh, send, receive, held, receive_nothing, receive_oldest}

  -- The channel of a call holds one reply.
  pub record Full (n : ℕ) (used : Bool) (r : Replies asio) : Type 0 where
    pub channel : Channel
    pub reply : IncomingMessage
    pub there : channel_of asio n used r ≡ some channel
    pub holds : held channel ≡ reply ∷ []

  Full-frame :
      (n : ℕ) (used : Bool) (r r' : Replies asio)
      → channel_of asio n used r' ≡ channel_of asio n used r
      → Full n used r
      → Full n used r'
  Full-frame n used r r' same f = record {
    channel = f.channel;
    reply = f.reply;
    there = same ∙ f.there;
    holds = f.holds;
  }

  -- The reply to a call that waits is handled, and is then in its channel.
  pub handle_reply-Full :
      (s : System asio) (n : ℕ) (used : Bool) (m : IncomingMessage)
      → Kept asio s
      → s.calls n ≡ some used
      → s.answered n ≡ false
      → m.header.reply_to ≡ some n
      → (r : Replies asio) × (handle_reply asio n m s.replies ≡ ok r)
        × (full : Full n used r) × (full.reply ≡ m)
  unfolding handle_reply
  handle_reply-Full s n false m h waiting new to =
      let info = slot_of asio n s.replies in
      let w = h.waits n false waiting in
      let full = record info { channel = send m info.channel } in
      let put : slot_of asio n (set_slot asio n full s.replies) ≡ full =
        slot-set asio n (n % max_concurrent_messages) full s.replies h.size
        ∙ rw (==_true (n % max_concurrent_messages)) refl in
      let kept = h.slots (n % max_concurrent_messages) (omega arith) in
      let holds = subst (λ k. Holds asio s.answered k (held info.channel)) w.0 kept.holds in
      (
        set_slot asio n full s.replies,
        rw (w.0, ==_true n, w.1) refl,
        record {
          channel = send m info.channel;
          reply = m;
          there = ap (λ i. some i.channel) put;
          holds = Holds-send asio s n m info.channel to new holds;
        },
        refl,
      )
  handle_reply-Full s n true m h waiting new to =
      let w = h.waits n true waiting in
      let apart : ((slot_of asio n s.replies).serial == n) ≡ false = ground (arith, w.0) in
      let c = w.1.0 in
      (
        record s.replies { fallback = send_to asio n m s.replies.fallback },
        rw (apart, w.1.1) refl,
        record {
          channel = send m c;
          reply = m;
          there = find-send_to asio n n m s.replies.fallback ∙ rw (==_true n, w.1.1) refl;
          holds = Holds-send asio s n m c to new (h.further n c w.1.1).holds;
        },
        refl,
      )

  abbrev pub IsFull : System asio → Type 0
  IsFull s =
      (n : ℕ) (used : Bool) → s.calls n ≡ some used → s.answered n ≡ true → Full n used s.replies

  take_channel-IsFull :
      (s : System asio) (m : Message) (k : ℕ) (used : Bool)
      → Kept asio s
      → IsFull s
      → s.calls k ≡ some used
      → s.answered k ≡ true
      → Full k used (take_channel asio m s.replies).0
  take_channel-IsFull s m k used h f waiting answered =
      Full-frame k used s.replies _ (take_channel-frame asio s h k used m waiting)
        (f k used waiting answered)

  Step-IsFull : {s t : System asio} → Step asio s t → Kept asio s → IsFull s → IsFull t
  Step-IsFull {s} (begins m write used r small expects e is) h f =
      let (replies, new) = begin_send-taken asio m write s.replies r used _ e in
      rw (is, ← replies)
        (λ k b waiting answered. elim (Bool-cases (s.replies.serial == k)) [
          | inl same ↦
              let is : s.replies.serial ≡ k = (==_iff s.replies.serial k).0 same in
              let lt : k < s.replies.serial = h.past k answered in absurd (omega arith)
          | inr other ↦ take_channel-IsFull s m k b h f (rw other at waiting) answered
        ])
  Step-IsFull {s} (passes m write used r result small gone e is) h f =
      let (replies, new) = begin_send-taken asio m write s.replies r used _ e in
      rw (is, ← replies) (λ k b waiting answered. take_channel-IsFull s m k b h f waiting answered)
  Step-IsFull {s} (answers n m r to new e is) h f = rw is (λ k b waiting answered.
      elim (Bool-cases (n == k)) [
        | inl same ↦
            let is_k : n ≡ k = (==_iff n k).0 same in
            let called : s.calls n ≡ some b = ap s.calls is_k ∙ waiting in
            let (r', handled, full, same_reply) = handle_reply-Full s n b m h called new to in
            let is_r : r' ≡ r = cc in subst (λ j. Full j b r) is_k (subst (Full n b) is_r full)
        | inr other ↦
            Full-frame k b s.replies r
              (handle_reply-frame asio s h k n b m r waiting (ground arith) e)
              (f k b waiting (rw other at answered))
      ])
  Step-IsFull {s} (ends n used m r called e is) h f = rw is (λ k b waiting answered.
      elim (Bool-cases (n == k)) [
        | inl same ↦ absurd (cc (rw same at waiting))
        | inr other ↦
            let before : s.calls k ≡ some b = rw other at waiting in
            Full-frame k b s.replies r
              (receive_reply-frame asio s h k n used b m r before (ground arith) called e)
              (f k b before answered)
      ])

  Reach-IsFull : {s : System asio} → Reach asio s → IsFull s
  Reach-IsFull here = λ n used e answered. absurd (cc e)
  Reach-IsFull (next r st) = Step-IsFull st (Reach-Kept asio r) (Reach-IsFull r)

  -- A reply that is in the channel of a call is taken by it.
  Full-receive :
      (n : ℕ) (used : Bool) (r : Replies asio) (f : Full n used r)
      → (r' : Replies asio) × (receive_reply asio n used r ≡ some (r', f.reply))
  unfolding receive_reply
  Full-receive n false r f =
      let (rest, taken, left) = receive_oldest f.channel f.reply [] f.holds in
      let is : (slot_of asio n r).channel ≡ f.channel = cc f.there in
      let taken' : receive (slot_of asio n r).channel ≡ some (f.reply, rest) =
        ap receive is ∙ taken in
      (
        set_slot asio n (record (slot_of asio n r) { channel = rest; ready = true }) r,
        rw (taken', receive_reply) refl,
      )
  Full-receive n true r f =
      let (rest, taken, left) = receive_oldest f.channel f.reply [] f.holds in
      (
        record r { fallback = erase_channel asio n r.fallback },
        rw (f.there, receive_reply, taken) refl,
      )

  -- In every state that is reached, a coroutine that waits for the reply to the call `n` takes the
  -- reply to that very call, whenever it takes one, and in every state that comes after, however the
  -- coroutines go on, HandleReadMessage throws an internal error at any further message that replies
  -- to `n`.
  pub receive_reply-own :
      (s t : System asio) (n : ℕ) (used : Bool) (m : IncomingMessage) (r : Replies asio)
      → Reach asio s
      → s.calls n ≡ some used
      → receive_reply asio n used s.replies ≡ some (r, m)
      → Later asio (record s { replies = r; calls = update s.calls n none }) t
      → (m.header.reply_to ≡ some n)
        × ((m' : IncomingMessage) → handle_reply asio n m' t.replies ≡ err internal)
  receive_reply-own s t n used m r reached waiting e later =
      let h = Reach-Kept asio reached in
      let (own, kept, refuses) = receive_reply-lem asio s n used m r waiting e h in
      let past : n < r.serial =
        rw (← serial-receive_reply asio n used m s.replies r e) (h.sent n used waiting) in
      (
        own,
        λ m'.
            handle_reply-Later asio (record s { replies = r; calls = update s.calls n none }) t n m
              m' kept past (refuses m) later,
      )

  -- In every state that is reached, a coroutine that waits for the reply to the call `n`, which has
  -- been handled, however long ago, can take the reply.
  pub receive_reply-answered :
      (s : System asio) (n : ℕ) (used : Bool)
      → Reach asio s
      → s.calls n ≡ some used
      → s.answered n ≡ true
      → (r : Replies asio) × (m : IncomingMessage) × (receive_reply asio n used s.replies
          ≡ some (r, m))
  receive_reply-answered s n used reached waiting answered =
      let full = Reach-IsFull reached n used waiting answered in
      let (r, taken) = Full-receive n used s.replies full in (r, full.reply, taken)

  -- In every state that is reached, HandleReadMessage handles the first reply to a call `n` for
  -- which a coroutine waits, and the coroutine can take that very message.
  pub receive_reply-handle_reply :
      (s : System asio) (n : ℕ) (used : Bool) (m : IncomingMessage)
      → Reach asio s
      → s.calls n ≡ some used
      → s.answered n ≡ false
      → m.header.reply_to ≡ some n
      → (r : Replies asio) × (r' : Replies asio) × (handle_reply asio n m s.replies ≡ ok r)
        × (receive_reply asio n used r ≡ some (r', m))
  receive_reply-handle_reply s n used m reached waiting new to =
      let (r, handled, full, same) =
        handle_reply-Full s n used m (Reach-Kept asio reached) waiting new to in
      let (r', taken) = Full-receive n used r full in
      (r, r', handled, taken ∙ ap (λ a. some (r', a)) same)
