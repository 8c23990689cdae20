-- ===== src/Connection/Calls/Leaks.antt =====
-- Slots that are never given back: SendMessageInternal of src/DBusConnection.txx, where the message
-- is not serialized or not written.
use cxx_bus.Base.{
  ℕ, ◌+◌, ◌%◌, ◌^◌, ◌<◌, ◌≡◌, refl, sym, ap, ◌∙◌, Bool, true, false, not, ◌&&◌, none, some, ◌==◌,
  ==_iff, ==_true, length, get_or, Bool-cases, inl, inr, arith, Option-cases, Error, Result, ok,
  err, get_or, add32,
}
use cxx_bus.Codec.Bytes.{Bytes}
use cxx_bus.Message.{Message}
use cxx_bus.Message.Building.{expects_reply}
use cxx_bus.Incoming.{IncomingMessage}
use cxx_bus.Connection.Channels.{Channels}
use cxx_bus.Connection.Replies.{
  max_concurrent_messages, ChannelInfo, Replies, free_slot, slot_of, set_slot, find_channel,
  send_to, erase_channel, take_channel, begin_send, handle_reply, receive_reply,
}
use cxx_bus.Connection.Calls.Defs.{
  System, Step, begins, passes, answers, ends, Reach, Later, now, step, Kept,
}
use cxx_bus.Connection.Calls.Kept.{slot-set}
use cxx_bus.Connection.Calls.Answers.{begin_send-taken, Reach-Kept, Step-Kept}
use cxx_bus.Connection.Calls.Taken.{take_channel-Kept, n-known, n-taken, calls-next}

module _ (asio : Channels IncomingMessage) where
  open asio use {Channel, fresh, send, receive, held, receive_nothing, receive_oldest}

  -- The slot of `n` is taken for `n`, and no coroutine waits there.
  pub record Lost (n : ℕ) (s : System asio) : Type 0 where
    pub serial : (slot_of asio n s.replies).serial ≡ n
    pub busy : (slot_of asio n s.replies).ready ≡ false
    pub alone : s.calls n ≡ none
    pub past : n < s.replies.serial

  -- What a change of one slot leaves of a lost one.
  Stays : ℕ → Replies asio → Replies asio → Type 0
  Stays n r r' =
      ((slot_of asio n r').serial ≡ (slot_of asio n r).serial)
      × ((slot_of asio n r').ready ≡ (slot_of asio n r).ready)

  Stays-set :
      (n k : ℕ) (info : ChannelInfo asio) (r : Replies asio)
      → length r.slots ≡ max_concurrent_messages
      → (k % max_concurrent_messages ≡ n % max_concurrent_messages
          → (info.serial ≡ (slot_of asio k r).serial) × (info.ready ≡ (slot_of asio k r).ready))
      → Stays n r (set_slot asio k info r)
  unfolding Stays
  Stays-set n k info r size same =
      elim (Bool-cases (k % max_concurrent_messages == n % max_concurrent_messages)) [
        | inl e ↦
            let index : k % max_concurrent_messages ≡ n % max_concurrent_messages =
              (==_iff (k % max_concurrent_messages) (n % max_concurrent_messages)).0 e in
            rw (slot-set asio k (n % max_concurrent_messages) info r size, e)
              (
                (same index).0 ∙ ap (λ i. (get_or r.slots i (free_slot asio)).serial) index,
                (same index).1 ∙ ap (λ i. (get_or r.slots i (free_slot asio)).ready) index,
              )
        | inr e ↦ rw (slot-set asio k (n % max_concurrent_messages) info r size, e) (refl, refl)
      ]

  -- A new call takes another slot.
  take_channel-Stays :
      (n : ℕ) (s : System asio) (m : Message)
      → Kept asio s
      → Lost n s
      → Stays n s.replies (take_channel asio m s.replies).0
  unfolding take_channel Stays
  take_channel-Stays n s m h lost = elim (Bool-cases (expects_reply m)) [
    | inr e ↦ rw e (refl, refl)
    | inl e ↦ elim (Bool-cases (slot_of asio s.replies.serial s.replies).ready) [
      | inr busy ↦ rw (e, busy) (refl, refl)
      | inl free ↦
          rw (e, free)
            (Stays-set n s.replies.serial _ (record s.replies { serial = add32 s.replies.serial 1 })
              h.size
              (λ index. absurd (
                cc
                  (ap (λ i. (get_or s.replies.slots i (free_slot asio)).ready) index ∙ lost.busy))))
    ]
  ]

  handle_reply-Stays :
      (n k : ℕ) (m : IncomingMessage) (s : System asio) (r : Replies asio)
      → Kept asio s
      → handle_reply asio k m s.replies ≡ ok r
      → (Stays n s.replies r) × (s.replies.serial ≡ r.serial)
  unfolding handle_reply Stays
  handle_reply-Stays n k m s r h e =
      elim (Bool-cases
        (((slot_of asio k s.replies).serial == k) && not (slot_of asio k s.replies).ready)) [
          | inl own ↦
              let info = slot_of asio k s.replies in
              let is : set_slot asio k (record info { channel = send m info.channel }) s.replies
                  ≡ r =
                cc (rw own at e) in
              rw (← is) (Stays-set n k _ s.replies h.size (λ index. (refl, refl)), refl)
          | inr foreign ↦ elim (Option-cases (find_channel asio k s.replies.fallback)) [
            | inl absent ↦ absurd (cc (rw (foreign, absent) at e))
            | inr (c, there) ↦
                let is : record s.replies { fallback = send_to asio k m s.replies.fallback } ≡ r =
                  cc (rw (foreign, there) at e) in
                rw (← is) ((refl, refl), refl)
          ]
        ]

  receive_reply-Stays :
      (n k : ℕ) (used : Bool) (m : IncomingMessage) (s : System asio) (r : Replies asio)
      → Kept asio s
      → Lost n s
      → s.calls k ≡ some used
      → receive_reply asio k used s.replies ≡ some (r, m)
      → (Stays n s.replies r) × (s.replies.serial ≡ r.serial)
  unfolding receive_reply Stays
  receive_reply-Stays n k false m s r h lost waiting e =
      elim (Option-cases (receive (slot_of asio k s.replies).channel)) [
        | inl empty ↦ absurd (cc (rw (empty, receive_reply) at e))
        | inr ((m', rest), taken) ↦
            let info = record (slot_of asio k s.replies) { channel = rest; ready = true } in
            let is : set_slot asio k info s.replies ≡ r = cc (rw (taken, receive_reply) at e) in
            rw (← is) (
              Stays-set n k info s.replies h.size (λ index.
                  let same : k ≡ n =
                    sym (h.waits k false waiting).0
                    ∙ (ap (λ i. (get_or s.replies.slots i (free_slot asio)).serial) index
                        ∙ lost.serial) in
                  let called : s.calls n ≡ some false = ap s.calls (sym same) ∙ waiting in
                  absurd (cc (sym called ∙ lost.alone))),
              refl,
            )
      ]
  receive_reply-Stays n k true m s r h lost waiting e =
      elim (Option-cases (find_channel asio k s.replies.fallback)) [
        | inl absent ↦ absurd (cc (rw (absent, receive_reply) at e))
        | inr (c, there) ↦ elim (Option-cases (receive c)) [
          | inl empty ↦ absurd (cc (rw (there, receive_reply, empty) at e))
          | inr ((m', rest), taken) ↦
              let erased = record s.replies {
                fallback = erase_channel asio k s.replies.fallback;
              } in
              let is : erased ≡ r = cc (rw (there, receive_reply, taken) at e) in
              rw (← is) ((refl, refl), refl)
        ]
      ]

  Stays-Lost :
      (n : ℕ) (s t : System asio)
      → Stays n s.replies t.replies
      → t.calls n ≡ none
      → n < t.replies.serial
      → Lost n s
      → Lost n t
  unfolding Stays
  Stays-Lost n s t stays alone past lost = record {
    serial = stays.0 ∙ lost.serial;
    busy = stays.1 ∙ lost.busy;
    alone = alone;
    past = past;
  }

  Step-Lost : {s t : System asio} (n : ℕ) → Step asio s t → Kept asio s → Lost n s → Lost n t
  Step-Lost {s} n (begins m write used r small expects e is) h lost =
      let (replies, new) = begin_send-taken asio m write s.replies r used _ e in
      let past : n < s.replies.serial = lost.past in
      let apart : (s.replies.serial == n) ≡ false = ground arith in
      let more = n-taken asio s m small h in
      rw (is, ← replies)
        (Stays-Lost n s _ (take_channel-Stays n s m h lost) (rw apart lost.alone) (omega arith)
          lost)
  Step-Lost {s} n (passes m write used r result small gone e is) h lost =
      let (replies, new) = begin_send-taken asio m write s.replies r used _ e in
      let past : n < s.replies.serial = lost.past in
      let more = n-taken asio s m small h in
      rw (is, ← replies)
        (Stays-Lost n s _ (take_channel-Stays n s m h lost) lost.alone (omega arith) lost)
  Step-Lost {s} n (answers k m r to new e is) h lost =
      let (stays, same) = handle_reply-Stays n k m s r h e in
      rw is (Stays-Lost n s _ stays lost.alone (rw (← same) lost.past) lost)
  Step-Lost {s} n (ends k used m r called e is) h lost =
      let (stays, same) = receive_reply-Stays n k used m s r h lost called e in
      rw is (
        Stays-Lost n s _ stays
          (elim (Bool-cases (k == n)) [ inl own ↦ rw own refl | inr other ↦ rw other lost.alone ])
          (rw (← same) lost.past) lost)

  Later-Lost :
      {s t : System asio} (n : ℕ) → Later asio s t → Kept asio s → Lost n s → Kept asio t × Lost n t
  Later-Lost n now h lost = (h, lost)
  Later-Lost n (step later st) h lost =
      let (kept, still) = Later-Lost n later h lost in
      (Step-Kept asio st kept, Step-Lost n st kept still)

  taken-Lost :
      (s : System asio) (m : Message)
      → Kept asio s
      → s.replies.serial + 1 < 2 ^ 32
      → expects_reply m ≡ true
      → (slot_of asio s.replies.serial s.replies).ready ≡ true
      → Lost s.replies.serial (record s { replies = (take_channel asio m s.replies).0 })
  unfolding take_channel
  taken-Lost s m h small expects free =
      let n = s.replies.serial in
      let next = record s.replies { serial = add32 n 1 } in
      let info = record (slot_of asio n s.replies) { ready = false; serial = n } in
      let put : slot_of asio n (set_slot asio n info next) ≡ info =
        slot-set asio n (n % max_concurrent_messages) info next h.size
        ∙ rw (==_true (n % max_concurrent_messages)) refl in
      let alone : s.calls n ≡ none = elim (Option-cases (s.calls n)) [
        | inl gone ↦ gone
        | inr (b, called) ↦ absurd (calls-next asio s h n b called refl)
      ] in
      rw (expects, free)
        (record {
          serial = ap (λ i. i.serial) put;
          busy = ap (λ i. i.ready) put;
          alone = alone;
          past = n-known asio s m small h;
        })

  -- Where a call that expects a reply is not serialized or not written, and the slot of its serial
  -- number was ready, that slot is never ready again: in every state that comes after, it is taken
  -- for the call that was not sent.
  pub begin_send-leaks :
      (s t : System asio) (m : Message) (write : Bytes → Result (Unit {0})) (used : Bool)
      (r : Replies asio) (e : Error)
      → Reach asio s
      → s.replies.serial + 1 < 2 ^ 32
      → expects_reply m ≡ true
      → (slot_of asio s.replies.serial s.replies).ready ≡ true
      → begin_send asio write m s.replies ≡ (r, (used, err e))
      → Later asio (record s { replies = r }) t
      → ((slot_of asio s.replies.serial t.replies).ready ≡ false)
        × ((slot_of asio s.replies.serial t.replies).serial ≡ s.replies.serial)
  begin_send-leaks s t m write used r e reached small expects free failed later =
      let (replies, new) = begin_send-taken asio m write s.replies r used _ failed in
      let h = Reach-Kept asio reached in
      let kept : Kept asio (record s { replies = r }) =
        rw (← replies) (take_channel-Kept asio s m small h) in
      let lost : Lost s.replies.serial (record s { replies = r }) =
        rw (← replies) (taken-Lost s m h small expects free) in
      let (kept', lost') = Later-Lost s.replies.serial later kept lost in (lost'.busy, lost'.serial)
