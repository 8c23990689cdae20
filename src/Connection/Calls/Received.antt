-- ===== src/Connection/Calls/Received.antt =====
-- A reply that SendMessageInternal of src/DBusConnection.txx takes out of its channel is the reply
-- to its call, and leaves the reply channels in order.
use cxx_bus.Base.{
  ℕ, ◌%◌, ◌<◌, ◌≡◌, ◌≢◌, refl, sym, ap, ◌∙◌, subst, Bool, true, false, List, [], ◌∷◌, none, some,
  ◌==◌, ==_iff, get_or, Bool-cases, inl, inr, arith,
}
use cxx_bus.Incoming.{IncomingMessage}
use cxx_bus.Connection.Channels.{Channels}
use cxx_bus.Connection.Replies.{
  max_concurrent_messages, ChannelInfo, free_slot, slot_of, set_slot, find_channel, erase_channel,
}
use cxx_bus.Connection.Slots.{length-set, find-erase}
use cxx_bus.Connection.Calls.Defs.{update, System, Holds, SlotKept, FurtherKept, Waits, Kept}
use cxx_bus.Connection.Calls.Kept.{slot-set, SlotKept-mono, FurtherKept-mono}

module _ (asio : Channels IncomingMessage) where
  open asio use {
    Channel, fresh, send, receive, held, held-fresh, held-send, receive_nothing, receive_oldest,
  }

  pub received :
      (answered : ℕ → Bool) (n : ℕ) (c : Channel) (m : IncomingMessage) (rest : Channel)
      → Holds asio answered n (held c)
      → receive c ≡ some (m, rest)
      → (held rest ≡ []) × (m.header.reply_to ≡ some n) × (answered n ≡ true)
  received answered n c m rest h e = by_held (held c) refl h
    where
      by_held :
          (l : List IncomingMessage)
          → held c ≡ l
          → Holds asio answered n l
          → (held rest ≡ []) × (m.header.reply_to ≡ some n) × (answered n ≡ true)
      by_held [] is h = absurd (cc (receive_nothing c is))
      by_held (m' ∷ []) is h =
          let (rest', taken, left) = receive_oldest c m' [] is in
          let same : m' ≡ m = cc in
          let same_rest : rest' ≡ rest = cc in
          (
            subst (λ r. held r ≡ []) same_rest left,
            subst (λ (k : IncomingMessage). k.header.reply_to ≡ some n) same h.0,
            h.1,
          )
      by_held (m' ∷ m'' ∷ l) is h = absurd h

  -- The slot is free again, and nobody waits for it.
  pub free-Kept :
      (s : System asio) (n : ℕ) (m : IncomingMessage) (rest : Channel)
      → s.calls n ≡ some false
      → receive (slot_of asio n s.replies).channel ≡ some (m, rest)
      → Kept asio s
      → Kept asio (record s {
        replies =
            set_slot asio n
              (record (slot_of asio n s.replies) { channel = rest; ready = true })
              s.replies;
        calls = update s.calls n none;
      })
  free-Kept s n m rest waiting taken h = record {
    size = length-set s.replies.slots (n % max_concurrent_messages) info ∙ h.size;
    slots = slots_after;
    further = λ k c e. FurtherKept-mono asio s after k c (λ k e. e) (omega arith) (h.further k c e);
    waits = waits_after;
    sent = λ k used e. h.sent k used (called k used e).1;
    past = h.past;
  }
    where
      old : ChannelInfo asio
      old = slot_of asio n s.replies

      info : ChannelInfo asio
      info = record old { channel = rest; ready = true }

      after : System asio
      after = record s { replies = set_slot asio n info s.replies; calls = update s.calls n none }

      empty : held rest ≡ []
      empty =
          (received s.answered old.serial old.channel m rest
            (h.slots (n % max_concurrent_messages) (omega arith)).holds taken).0

      called : (k : ℕ) (used : Bool) → after.calls k ≡ some used → (n ≢ k) × (s.calls k ≡ some used)
      called k used e = elim (Bool-cases (n == k)) [
        | inl same ↦ absurd (cc (rw same at e))
        | inr other ↦ (ground arith, rw other at e)
      ]

      slots_after :
          (i : ℕ)
          → i < max_concurrent_messages
          → SlotKept asio after (get_or after.replies.slots i (free_slot asio))
      slots_after i lt = elim (Bool-cases (n % max_concurrent_messages == i)) [
        | inl e ↦
            rw (slot-set asio n i info s.replies h.size, e)
              (record { holds = rw empty tt; empty = λ f. empty; known = λ f. absurd (cc f) })
        | inr e ↦
            rw (slot-set asio n i info s.replies h.size, e)
              (SlotKept-mono asio s after _ (λ k e. e) (omega arith) (h.slots i lt))
      ]

      waits_kept : (k : ℕ) (used : Bool) → n ≢ k → Waits asio s k used → Waits asio after k used
      waits_kept k false other w =
          elim (Bool-cases (n % max_concurrent_messages == k % max_concurrent_messages)) [
            | inl e ↦
                let index : n % max_concurrent_messages ≡ k % max_concurrent_messages =
                  (==_iff (n % max_concurrent_messages) (k % max_concurrent_messages)).0 e in
                let serial : (slot_of asio n s.replies).serial ≡ k =
                  ap (λ i. (get_or s.replies.slots i (free_slot asio)).serial) index ∙ w.0 in
                absurd (other (sym (h.waits n false waiting).0 ∙ serial))
            | inr e ↦ rw (slot-set asio n (k % max_concurrent_messages) info s.replies h.size, e) w
          ]
      waits_kept k true other w =
          elim (Bool-cases (n % max_concurrent_messages == k % max_concurrent_messages)) [
            | inl e ↦
                rw (slot-set asio n (k % max_concurrent_messages) info s.replies h.size, e)
                  ((λ f. other (sym (h.waits n false waiting).0 ∙ f)), w.1)
            | inr e ↦ rw (slot-set asio n (k % max_concurrent_messages) info s.replies h.size, e) w
          ]

      waits_after : (k : ℕ) (used : Bool) → after.calls k ≡ some used → Waits asio after k used
      waits_after k used e =
          let (other, before) = called k used e in waits_kept k used other (h.waits k used before)

  -- The further channel is gone, and nobody waits for it.
  pub erase-Kept :
      (s : System asio) (n : ℕ)
      → Kept asio s
      → Kept asio (record s {
        replies = record s.replies { fallback = erase_channel asio n s.replies.fallback };
        calls = update s.calls n none;
      })
  erase-Kept s n h = record {
    size = h.size;
    slots = λ i lt. SlotKept-mono asio s after _ (λ k e. e) (omega arith) (h.slots i lt);
    further = further_after;
    waits = waits_after;
    sent = λ k used e. h.sent k used (called k used e).1;
    past = h.past;
  }
    where
      after : System asio
      after = record s {
        replies = record s.replies { fallback = erase_channel asio n s.replies.fallback };
        calls = update s.calls n none;
      }

      called :
          (k : ℕ) (used : Bool)
          → after.calls k ≡ some used
          → ((n == k) ≡ false) × (s.calls k ≡ some used)
      called k used e = elim (Bool-cases (n == k)) [
        | inl same ↦ absurd (cc (rw same at e))
        | inr other ↦ (other, rw other at e)
      ]

      further_after :
          (k : ℕ) (c : Channel)
          → find_channel asio k after.replies.fallback ≡ some c
          → FurtherKept asio after k c
      further_after k c e = elim (Bool-cases (n == k)) [
        | inl same ↦ absurd (cc (rw (find-erase asio n k s.replies.fallback, same) at e))
        | inr other ↦
            FurtherKept-mono asio s after k c (λ k e. e) (omega arith)
              (h.further k c (rw (find-erase asio n k s.replies.fallback, other) at e))
      ]

      waits_kept :
          (k : ℕ) (used : Bool) → (n == k) ≡ false → Waits asio s k used → Waits asio after k used
      waits_kept k false other w =
          (w.0, w.1, rw (find-erase asio n k s.replies.fallback, other) w.2)
      waits_kept k true other w =
          (w.0, (w.1.0, rw (find-erase asio n k s.replies.fallback, other) w.1.1))

      waits_after : (k : ℕ) (used : Bool) → after.calls k ≡ some used → Waits asio after k used
      waits_after k used e =
          let (other, before) = called k used e in waits_kept k used other (h.waits k used before)
