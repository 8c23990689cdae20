-- ===== src/Connection/Calls/Answers.antt =====
-- Every call gets its own reply: SendMessageInternal and HandleReadMessage of
-- src/DBusConnection.txx, in every interleaving.
use cxx_bus.Base.{
  ℕ, ◌%◌, ◌≡◌, refl, ap, ◌∙◌, Bool, true, false, none, some, ◌==◌, ==_iff, ==_true, get_or,
  Bool-cases, inl, inr, arith, Option-cases, Result, ok, err, internal, get_or, zero, suc,
  replicate,
}
use cxx_bus.Codec.Bytes.{Bytes}
use cxx_bus.Message.{Message}
use cxx_bus.Incoming.{IncomingMessage}
use cxx_bus.Connection.Channels.{Channels}
use cxx_bus.Connection.Replies.{
  max_concurrent_messages, Replies, free_slot, no_replies, slot_of, set_slot, find_channel, send_to,
  erase_channel, take_channel, begin_send, handle_reply, receive_reply,
}
use cxx_bus.Connection.Slots.{find-erase}
use cxx_bus.Connection.Calls.Defs.{
  update, System, idle, Step, begins, passes, answers, ends, Reach, here, next, Kept,
}
use cxx_bus.Connection.Calls.Kept.{slot-set}
use cxx_bus.Connection.Calls.Handed.{hand-Kept, forward-Kept}
use cxx_bus.Connection.Calls.Received.{received, free-Kept, erase-Kept}
use cxx_bus.Connection.Calls.Taken.{take_channel-Kept, begin-Kept}

module _ (asio : Channels IncomingMessage) where
  open asio use {
    Channel, fresh, send, receive, held, held-fresh, held-send, receive_nothing, receive_oldest,
  }

  pub begin_send-taken :
      (m : Message) (write : Bytes → Result (Unit {0})) (s r : Replies asio) (used : Bool)
      (result : Result (Unit {0}))
      → begin_send asio write m s ≡ (r, (used, result))
      → ((take_channel asio m s).0 ≡ r) × ((take_channel asio m s).1 ≡ used)
  unfolding begin_send
  begin_send-taken m write s r used result e = (ap (λ p. p.0) e, ap (λ p. p.1.0) e)

  pub handle_reply-Kept :
      (s : System asio) (n : ℕ) (m : IncomingMessage) (r : Replies asio)
      → m.header.reply_to ≡ some n
      → s.answered n ≡ false
      → handle_reply asio n m s.replies ≡ ok r
      → Kept asio s
      → Kept asio (record s { replies = r; answered = update s.answered n true })
  unfolding handle_reply
  handle_reply-Kept s n m r to new e h =
      elim (Bool-cases ((slot_of asio n s.replies).serial == n)) [
        | inl same ↦ elim (Bool-cases (slot_of asio n s.replies).ready) [
          | inr busy ↦
              let is : set_slot asio n
                    (record (slot_of asio n s.replies) {
                      channel = send m (slot_of asio n s.replies).channel;
                    })
                    s.replies
                  ≡ r =
                cc (rw (same, busy) at e) in
              rw (← is) (
                hand-Kept asio s n m to new ((==_iff (slot_of asio n s.replies).serial n).0 same)
                  busy h)
          | inl free ↦ further (rw (same, free) at e)
        ]
        | inr other ↦ further (rw other at e)
      ]
    where
      further :
          elim (find_channel asio n s.replies.fallback) [
            | some c ↦ ok (record s.replies { fallback = send_to asio n m s.replies.fallback })
            | none ↦ err internal
          ]
            ≡ ok r
          → Kept asio (record s { replies = r; answered = update s.answered n true })
      further e = elim (Option-cases (find_channel asio n s.replies.fallback)) [
        | inl absent ↦ absurd (cc (rw absent at e))
        | inr (c, there) ↦
            let is : record s.replies { fallback = send_to asio n m s.replies.fallback } ≡ r =
              cc (rw there at e) in
            rw (← is) (forward-Kept asio s n m c to new there h)
      ]

  -- After a call has taken its reply, no other reply to it is handled.
  abbrev pub Refuses : ℕ → Replies asio → Type 0
  Refuses n r = (m : IncomingMessage) → handle_reply asio n m r ≡ err internal

  free-Refuses :
      (s : System asio) (n : ℕ) (rest : Channel)
      → s.calls n ≡ some false
      → Kept asio s
      → Refuses n (
          set_slot asio n
            (record (slot_of asio n s.replies) { channel = rest; ready = true })
            s.replies)
  unfolding handle_reply
  free-Refuses s n rest waiting h m =
      let info = record (slot_of asio n s.replies) { channel = rest; ready = true } in
      let put : slot_of asio n (set_slot asio n info s.replies) ≡ info =
        slot-set asio n (n % max_concurrent_messages) info s.replies h.size
        ∙ rw (==_true (n % max_concurrent_messages)) refl in
      let w = h.waits n false waiting in rw (put, w.0, ==_true n, w.2) refl

  erase-Refuses :
      (s : System asio) (n : ℕ)
      → s.calls n ≡ some true
      → Kept asio s
      → Refuses n (record s.replies { fallback = erase_channel asio n s.replies.fallback })
  unfolding handle_reply
  erase-Refuses s n waiting h m =
      let w = h.waits n true waiting in
      let other : ((slot_of asio n s.replies).serial == n) ≡ false = ground (arith, w.0) in
      rw (other, find-erase asio n n s.replies.fallback, ==_true n) refl

  -- A reply that is taken belongs to the call, and what it leaves is in order.
  pub receive_reply-lem :
      (s : System asio) (n : ℕ) (used : Bool) (m : IncomingMessage) (r : Replies asio)
      → s.calls n ≡ some used
      → receive_reply asio n used s.replies ≡ some (r, m)
      → Kept asio s
      → (m.header.reply_to ≡ some n)
        × Kept asio (record s { replies = r; calls = update s.calls n none })
        × Refuses n r
  unfolding receive_reply
  receive_reply-lem s n false m r waiting e h =
      elim (Option-cases (receive (slot_of asio n s.replies).channel)) [
        | inl empty ↦ absurd (cc (rw (empty, receive_reply) at e))
        | inr ((m', rest), taken) ↦
            let info = record (slot_of asio n s.replies) { channel = rest; ready = true } in
            let is : set_slot asio n info s.replies ≡ r = cc (rw (taken, receive_reply) at e) in
            let is_m : m' ≡ m = cc (rw (taken, receive_reply) at e) in
            let kept = h.slots (n % max_concurrent_messages) (omega arith) in
            let own =
              received asio s.answered (slot_of asio n s.replies).serial
                (slot_of asio n s.replies).channel m' rest kept.holds taken in
            rw (← is, ← is_m)
              (
                own.1 ∙ ap some (h.waits n false waiting).0,
                free-Kept asio s n m' rest waiting taken h,
                free-Refuses s n rest waiting h,
              )
      ]
  receive_reply-lem s n true m r waiting e h =
      elim (Option-cases (find_channel asio n s.replies.fallback)) [
        | inl absent ↦ absurd (cc (rw (absent, receive_reply) at e))
        | inr (c, there) ↦ elim (Option-cases (receive c)) [
          | inl empty ↦ absurd (cc (rw (there, receive_reply, empty) at e))
          | inr ((m', rest), taken) ↦
              let erased = record s.replies {
                fallback = erase_channel asio n s.replies.fallback;
              } in
              let is : erased ≡ r = cc (rw (there, receive_reply, taken) at e) in
              let is_m : m' ≡ m = cc (rw (there, receive_reply, taken) at e) in
              let own = received asio s.answered n c m' rest (h.further n c there).holds taken in
              rw (← is, ← is_m) (own.1, erase-Kept asio s n h, erase-Refuses s n waiting h)
        ]
      ]

  pub Step-Kept : {s t : System asio} → Step asio s t → Kept asio s → Kept asio t
  Step-Kept {s} (begins m write used r small expects e is) h =
      let (replies, new) = begin_send-taken m write s.replies r used _ e in
      rw (is, ← replies, ← new) (begin-Kept asio s m small h expects)
  Step-Kept {s} (passes m write used r result small gone e is) h =
      let (replies, new) = begin_send-taken m write s.replies r used _ e in
      rw (is, ← replies) (take_channel-Kept asio s m small h)
  Step-Kept {s} (answers n m r to new e is) h = rw is (handle_reply-Kept s n m r to new e h)
  Step-Kept {s} (ends n used m r waiting e is) h =
      rw is ((receive_reply-lem s n used m r waiting e h).1)

  get_or-replicate :
      {ℓ : Unit {0}} (k i : ℕ)
      → get_or (replicate k (free_slot asio)) i (free_slot asio) ≡ free_slot asio
  get_or-replicate zero i = refl
  get_or-replicate (suc k) zero = refl
  get_or-replicate (suc k) (suc i) = get_or-replicate k i

  idle-Kept : Kept asio (idle asio)
  unfolding no_replies find_channel
  idle-Kept = record {
    size = refl;
    slots = λ i lt.
        rw (get_or-replicate max_concurrent_messages i) (record {
          holds = rw held-fresh tt;
          empty = λ e. held-fresh;
          known = λ e. absurd (cc e);
        });
    further = λ n c e. absurd (cc e);
    waits = λ n used e. absurd (cc e);
    sent = λ n used e. absurd (cc e);
    past = λ n e. absurd (cc e);
  }

  pub Reach-Kept : {s : System asio} → Reach asio s → Kept asio s
  Reach-Kept here = idle-Kept
  Reach-Kept (next r st) = Step-Kept st (Reach-Kept r)
