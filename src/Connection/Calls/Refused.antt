-- ===== src/Connection/Calls/Refused.antt =====
-- A reply to a call that no coroutine waits for: HandleReadMessage of src/DBusConnection.txx.
use cxx_bus.Base.{
  ℕ, ◌<◌, ◌≡◌, refl, not, ◌&&◌, ◌==◌, Bool-cases, inl, inr, arith, Option-cases, err, internal,
}
use cxx_bus.Incoming.{IncomingMessage}
use cxx_bus.Connection.Channels.{Channels}
use cxx_bus.Connection.Replies.{Replies, slot_of, find_channel, handle_reply}
use cxx_bus.Connection.Calls.Defs.{
  System, Step, begins, passes, answers, ends, Later, now, step, Kept,
}
use cxx_bus.Connection.Calls.Taken.{n-taken}
use cxx_bus.Connection.Calls.Answers.{begin_send-taken, Step-Kept}
use cxx_bus.Connection.Calls.Unknown.{
  Unknown, take_channel-Unknown, handle_reply-Unknown, receive_reply-Unknown, serial-receive_reply,
}

module _ (asio : Channels IncomingMessage) where
  open asio use {Channel, fresh, send, receive}

  -- The number of the call has been used up, and nothing is known of it any more.
  record Over (n : ℕ) (s : System asio) : Type 0 where
    pub past : n < s.replies.serial
    pub unknown : Unknown asio n s.replies

  Step-Over : {s t : System asio} (n : ℕ) → Step asio s t → Kept asio s → Over n s → Over n t
  Step-Over {s} n (begins m write used r small expects e is) h over =
      let (replies, new) = begin_send-taken asio m write s.replies r used _ e in
      let past : n < s.replies.serial = over.past in
      let more = n-taken asio s m small h in
      rw (is, ← replies)
        (record {
          past = omega (arith, past, more);
          unknown = take_channel-Unknown asio n s m h over.past over.unknown;
        })
  Step-Over {s} n (passes m write used r result small gone e is) h over =
      let (replies, new) = begin_send-taken asio m write s.replies r used _ e in
      let past : n < s.replies.serial = over.past in
      let more = n-taken asio s m small h in
      rw (is, ← replies)
        (record {
          past = omega (arith, past, more);
          unknown = take_channel-Unknown asio n s m h over.past over.unknown;
        })
  Step-Over {s} n (answers k m r to new e is) h over =
      let (unknown, same) = handle_reply-Unknown asio n k m s r h over.unknown e in
      rw is (record { past = rw (← same) over.past; unknown = unknown })
  Step-Over {s} n (ends k used m r called e is) h over = rw is (record {
    past = rw (← serial-receive_reply asio k used m s.replies r e) over.past;
    unknown = receive_reply-Unknown asio n k used m s r h over.unknown e;
  })

  Later-Over :
      {s t : System asio} (n : ℕ) → Later asio s t → Kept asio s → Over n s → Kept asio t × Over n t
  Later-Over n now h over = (h, over)
  Later-Over n (step later st) h over =
      let (kept, still) = Later-Over n later h over in
      (Step-Kept asio st kept, Step-Over n st kept still)

  -- Where a reply is refused, nothing is known of its call.
  Unknown-refused :
      (n : ℕ) (m : IncomingMessage) (r : Replies asio)
      → handle_reply asio n m r ≡ err internal
      → Unknown asio n r
  unfolding handle_reply
  Unknown-refused n m r e =
      elim (Bool-cases (((slot_of asio n r).serial == n) && not (slot_of asio n r).ready)) [
        | inl own ↦ absurd (cc (rw own at e))
        | inr foreign ↦ elim (Option-cases (find_channel asio n r.fallback)) [
          | inl absent ↦ record { foreign = foreign; absent = absent }
          | inr (c, there) ↦ absurd (cc (rw (foreign, there) at e))
        ]
      ]

  Unknown-handle_reply :
      (n : ℕ) (m : IncomingMessage) (r : Replies asio)
      → Unknown asio n r
      → handle_reply asio n m r ≡ err internal
  unfolding handle_reply
  Unknown-handle_reply n m r u = rw (u.foreign, u.absent) refl

  -- What is refused in one state is refused in all that come after.
  pub handle_reply-Later :
      (s t : System asio) (n : ℕ) (m m' : IncomingMessage)
      → Kept asio s
      → n < s.replies.serial
      → handle_reply asio n m s.replies ≡ err internal
      → Later asio s t
      → handle_reply asio n m' t.replies ≡ err internal
  handle_reply-Later s t n m m' h past refused later =
      let over : Over n s = record {
        past = past;
        unknown = Unknown-refused n m s.replies refused;
      } in
      let (kept, over') = Later-Over n later h over in
      Unknown-handle_reply n m' t.replies over'.unknown
