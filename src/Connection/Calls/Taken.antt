-- ===== src/Connection/Calls/Taken.antt =====
-- A channel that SendMessageInternal of src/DBusConnection.txx takes for a new call leaves the reply
-- channels in order.
use cxx_bus.Base.{
  ℕ, ◌+◌, ◌%◌, ◌^◌, ◌<◌, ◌≡◌, ◌≢◌, refl, ap, ◌∙◌, Bool, true, false, Option, none, some, ◌==◌,
  ==_iff, ==_true, Bool-cases, inl, inr, arith, add32, add32_lem, Option-cases,
}
use cxx_bus.Message.{Message}
use cxx_bus.Message.Building.{expects_reply}
use cxx_bus.Incoming.{IncomingMessage}
use cxx_bus.Connection.Channels.{Channels}
use cxx_bus.Connection.Replies.{
  max_concurrent_messages, slot_of, set_slot, find_channel, take_channel,
}
use cxx_bus.Connection.Slots.{find-insert}
use cxx_bus.Connection.Calls.Defs.{update, System, Waits, Kept}
use cxx_bus.Connection.Calls.Kept.{slot-set, advance-Kept, occupy-Kept}
use cxx_bus.Connection.Calls.Handed.{further-Kept}

module _ (asio : Channels IncomingMessage) where
  open asio use {Channel, fresh}

  -- No channel belongs to the next serial number.
  pub find_channel-next :
      (s : System asio) → Kept asio s → find_channel asio s.replies.serial s.replies.fallback ≡ none
  find_channel-next s h =
      elim (Option-cases (find_channel asio s.replies.serial s.replies.fallback)) [
        | inl e ↦ e
        | inr (c, e) ↦
            let lt : s.replies.serial < s.replies.serial = (h.further s.replies.serial c e).known in
            absurd (omega arith)
      ]

  pub calls-next :
      (s : System asio)
      → Kept asio s
      → (k : ℕ) (used : Bool) → s.calls k ≡ some used
      → k ≢ s.replies.serial
  calls-next s h k used e same =
      let lt : k < s.replies.serial = h.sent k used e in absurd (omega arith)

  module _ (s : System asio) (m : Message) (small : s.replies.serial + 1 < 2 ^ 32)
      (h : Kept asio s) where
    abbrev n : ℕ
    n = s.replies.serial

    -- The serial number has moved on.
    abbrev moved : System asio
    moved = record s { replies = record s.replies { serial = add32 s.replies.serial 1 } }

    abbrev after : System asio
    after = record s { replies = (take_channel asio m s.replies).0 }

    moved-Kept : Kept asio moved
    moved-Kept = advance-Kept asio s (add32 n 1) (rw (add32_lem n 1 (omega arith)) (omega arith)) h

    pub n-known : n < moved.replies.serial
    n-known = rw (add32_lem n 1 (omega arith)) (omega arith)

    pub take_channel-Kept : Kept asio after
    unfolding take_channel
    take_channel-Kept = elim (Bool-cases (expects_reply m)) [
      | inr e ↦ rw e moved-Kept
      | inl e ↦ elim (Bool-cases (slot_of asio n s.replies).ready) [
        | inl free ↦
            rw (e, free) (occupy-Kept asio moved n n-known (calls-next s h) free moved-Kept)
        | inr busy ↦
            rw (e, busy)
              (further-Kept asio moved n n-known (calls-next s h) (find_channel-next s h)
                moved-Kept)
      ]
    ]

    pub take_channel-Waits :
        expects_reply m ≡ true → Waits asio after n (take_channel asio m s.replies).1
    unfolding take_channel
    take_channel-Waits e = elim (Bool-cases (slot_of asio n s.replies).ready) [
      | inl free ↦
          let info = record (slot_of asio n s.replies) { ready = false; serial = n } in
          let put : slot_of asio n (set_slot asio n info moved.replies) ≡ info =
            slot-set asio n (n % max_concurrent_messages) info moved.replies h.size
            ∙ rw (==_true (n % max_concurrent_messages)) refl in
          rw (e, free) (ap (λ i. i.serial) put, ap (λ i. i.ready) put, find_channel-next s h)
      | inr busy ↦
          let old = h.slots (n % max_concurrent_messages) (omega arith) in
          let lt : (slot_of asio n s.replies).serial < n = old.known busy in
          rw (e, busy)
            (
              (λ same. absurd (omega arith)),
              (
                fresh,
                rw (find-insert asio n n fresh s.replies.fallback, ==_true n, find_channel-next s h)
                    refl,
              ),
            )
    ]

    pub n-taken : n < after.replies.serial
    unfolding take_channel
    n-taken = elim (Bool-cases (expects_reply m)) [
      | inr e ↦ rw e n-known
      | inl e ↦ elim (Bool-cases (slot_of asio n s.replies).ready) [
        | inl free ↦ rw (e, free) n-known
        | inr busy ↦ rw (e, busy) n-known
      ]
    ]

    -- The state with the new call.
    pub begin-Kept :
        expects_reply m ≡ true
        → Kept asio (record s {
          replies = (take_channel asio m s.replies).0;
          calls = update s.calls n (some (take_channel asio m s.replies).1);
        })
    begin-Kept e = record {
      size = kept.size;
      slots = λ i lt.
          let old = kept.slots i lt in
          record { holds = old.holds; empty = old.empty; known = old.known };
      further =
          λ k c e. let old = kept.further k c e in record { holds = old.holds; known = old.known };
      waits = waits_after;
      sent = sent_after;
      past = kept.past;
    }
      where
        kept : Kept asio after
        kept = take_channel-Kept

        used : Bool
        used = (take_channel asio m s.replies).1

        calls : ℕ → Option Bool
        calls = update s.calls n (some used)

        now : System asio
        now = record after { calls = calls }

        over : (k : ℕ) (b : Bool) → Waits asio after k b → Waits asio now k b
        over k false w = w
        over k true w = w

        waits_after : (k : ℕ) (b : Bool) → calls k ≡ some b → Waits asio now k b
        waits_after k b c = elim (Bool-cases (n == k)) [
          | inl same ↦
              let is : n ≡ k = (==_iff n k).0 same in
              let is_used : used ≡ b = cc (rw same at c) in
              rw (← is, ← is_used) (over n used (take_channel-Waits e))
          | inr other ↦ over k b (kept.waits k b (rw other at c))
        ]

        serial_after : n < now.replies.serial
        serial_after = n-taken

        sent_after : (k : ℕ) (b : Bool) → calls k ≡ some b → k < now.replies.serial
        sent_after k b c = elim (Bool-cases (n == k)) [
          | inl same ↦ let is : n ≡ k = (==_iff n k).0 same in rw (← is) serial_after
          | inr other ↦ kept.sent k b (rw other at c)
        ]
