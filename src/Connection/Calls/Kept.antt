-- ===== src/Connection/Calls/Kept.antt =====
-- What each part of SendMessageInternal and HandleReadMessage of src/DBusConnection.txx does to the
-- reply channels keeps them in order.
use cxx_bus.Base.{
  ℕ, ◌%◌, ◌≤◌, ◌<◌, ◌≡◌, ◌≢◌, sym, ap, ◌∙◌, Bool, true, false, List, [], ◌∷◌, some, ◌==◌, ==_iff,
  if◌then◌else◌, length, get_or, Bool-cases, inl, inr, arith,
}
use cxx_bus.Incoming.{IncomingMessage}
use cxx_bus.Connection.Channels.{Channels}
use cxx_bus.Connection.Replies.{
  max_concurrent_messages, ChannelInfo, Replies, free_slot, slot_of, set_slot,
}
use cxx_bus.Connection.Slots.{length-set, get_or-set}
use cxx_bus.Connection.Calls.Defs.{System, Holds, SlotKept, FurtherKept, Waits, Kept}

module _ (asio : Channels IncomingMessage) where
  open asio use {Channel, fresh, send, receive, held, held-fresh, held-send}

  -- The slot of a serial number, in a vector of the right size.
  pub slot-set :
      (n i : ℕ) (info : ChannelInfo asio) (r : Replies asio)
      → length r.slots ≡ max_concurrent_messages
      → get_or (set_slot asio n info r).slots i (free_slot asio)
        ≡ (if n % max_concurrent_messages == i then info else get_or r.slots i (free_slot asio))
  slot-set n i info r size =
      get_or-set r.slots (n % max_concurrent_messages) i info (free_slot asio) (omega arith)

  pub Holds-mono :
      (a b : ℕ → Bool) (n : ℕ) (l : List IncomingMessage)
      → ((k : ℕ) → a k ≡ true → b k ≡ true)
      → Holds asio a n l
      → Holds asio b n l
  Holds-mono a b n [] le h = tt
  Holds-mono a b n (m ∷ []) le h = (h.0, le n h.1)
  Holds-mono a b n (m ∷ m' ∷ l) le h = h

  pub SlotKept-mono :
      (s t : System asio) (info : ChannelInfo asio)
      → ((k : ℕ) → s.answered k ≡ true → t.answered k ≡ true)
      → s.replies.serial ≤ t.replies.serial
      → SlotKept asio s info
      → SlotKept asio t info
  SlotKept-mono s t info le later h = record {
    holds = Holds-mono s.answered t.answered info.serial (held info.channel) le h.holds;
    empty = h.empty;
    known = λ e. let lt : info.serial < s.replies.serial = h.known e in omega arith;
  }

  pub FurtherKept-mono :
      (s t : System asio) (n : ℕ) (c : Channel)
      → ((k : ℕ) → s.answered k ≡ true → t.answered k ≡ true)
      → s.replies.serial ≤ t.replies.serial
      → FurtherKept asio s n c
      → FurtherKept asio t n c
  FurtherKept-mono s t n c le later h = record {
    holds = Holds-mono s.answered t.answered n (held c) le h.holds;
    known = let lt : n < s.replies.serial = h.known in omega arith;
  }

  -- The serial number moves on.
  pub advance-Kept :
      (s : System asio) (k : ℕ)
      → s.replies.serial ≤ k
      → Kept asio s
      → Kept asio (record s { replies = record s.replies { serial = k } })
  advance-Kept s k later h = record {
    size = h.size;
    slots = λ i lt. SlotKept-mono s _ _ (λ k e. e) later (h.slots i lt);
    further = λ n c e. FurtherKept-mono s _ n c (λ k e. e) later (h.further n c e);
    waits = λ n used e. waits_after n used (h.waits n used e);
    sent = λ n used e. let lt : n < s.replies.serial = h.sent n used e in omega arith;
    past = λ n e. let lt : n < s.replies.serial = h.past n e in omega arith;
  }
    where
      waits_after :
          (n : ℕ) (used : Bool)
          → Waits asio s n used
          → Waits asio (record s { replies = record s.replies { serial = k } }) n used
      waits_after n false w = w
      waits_after n true w = w

  -- A free slot is taken for a new serial number.
  pub occupy-Kept :
      (s : System asio) (n : ℕ)
      → n < s.replies.serial
      → ((k : ℕ) (used : Bool) → s.calls k ≡ some used → k ≢ n)
      → (slot_of asio n s.replies).ready ≡ true
      → Kept asio s
      → Kept asio (record s {
        replies =
            set_slot asio n
              (record (slot_of asio n s.replies) { ready = false; serial = n })
              s.replies;
      })
  occupy-Kept s n known new free h = record {
    size = length-set s.replies.slots (n % max_concurrent_messages) info ∙ h.size;
    slots = slots_after;
    further = λ k c e.
        let old : FurtherKept asio s k c = h.further k c e in
        record { holds = old.holds; known = old.known };
    waits = λ k used e. waits_after k used (new k used e) (h.waits k used e);
    sent = h.sent;
    past = h.past;
  }
    where
      info : ChannelInfo asio
      info = record (slot_of asio n s.replies) { ready = false; serial = n }

      after : System asio
      after = record s { replies = set_slot asio n info s.replies }

      nothing : held info.channel ≡ []
      nothing = (h.slots (n % max_concurrent_messages) (omega arith)).empty free

      slots_after :
          (i : ℕ)
          → i < max_concurrent_messages
          → SlotKept asio after (get_or after.replies.slots i (free_slot asio))
      slots_after i lt = elim (Bool-cases (n % max_concurrent_messages == i)) [
        | inl e ↦
            rw (slot-set n i info s.replies h.size, e)
              (record { holds = rw nothing tt; empty = λ f. absurd (cc f); known = λ f. known })
        | inr e ↦
            rw (slot-set n i info s.replies h.size, e)
              (SlotKept-mono s after _ (λ k f. f) (omega arith) (h.slots i lt))
      ]

      waits_after : (k : ℕ) (used : Bool) → k ≢ n → Waits asio s k used → Waits asio after k used
      waits_after k false other w =
          elim (Bool-cases (n % max_concurrent_messages == k % max_concurrent_messages)) [
            | inl e ↦
                let same : n % max_concurrent_messages ≡ k % max_concurrent_messages =
                  (==_iff (n % max_concurrent_messages) (k % max_concurrent_messages)).0 e in
                let busy : (slot_of asio n s.replies).ready ≡ false =
                  ap (λ i. (get_or s.replies.slots i (free_slot asio)).ready) same ∙ w.1 in
                absurd (cc)
            | inr e ↦ rw (slot-set n (k % max_concurrent_messages) info s.replies h.size, e) w
          ]
      waits_after k true other w =
          elim (Bool-cases (n % max_concurrent_messages == k % max_concurrent_messages)) [
            | inl e ↦
                rw (slot-set n (k % max_concurrent_messages) info s.replies h.size, e)
                  ((λ f. other (sym f)), w.1)
            | inr e ↦ rw (slot-set n (k % max_concurrent_messages) info s.replies h.size, e) w
          ]
