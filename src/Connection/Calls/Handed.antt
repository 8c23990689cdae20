-- ===== src/Connection/Calls/Handed.antt =====
-- A reply that HandleReadMessage of src/DBusConnection.txx puts into a channel, and one that
-- SendMessageInternal takes out, leave the reply channels in order.
use cxx_bus.Base.{
  ℕ, ◌%◌, ◌<◌, ◌≡◌, ◌≢◌, refl, sym, ap, ◌∙◌, subst, Bool, true, false, List, [], ◌∷◌, ◌++◌, none,
  some, ◌==◌, ==_iff, ==_true, if◌then◌else◌, get_or, Bool-cases, inl, inr, arith,
}
use cxx_bus.Incoming.{IncomingMessage}
use cxx_bus.Connection.Channels.{Channels}
use cxx_bus.Connection.Replies.{
  max_concurrent_messages, ChannelInfo, free_slot, slot_of, set_slot, find_channel, insert_channel,
  send_to,
}
use cxx_bus.Connection.Slots.{length-set, find-insert, find-send_to}
use cxx_bus.Connection.Calls.Defs.{update, System, Holds, SlotKept, FurtherKept, Waits, Kept}
use cxx_bus.Connection.Calls.Kept.{slot-set, SlotKept-mono, FurtherKept-mono}

update_mono : (f : ℕ → Bool) (n k : ℕ) → f k ≡ true → update f n true k ≡ true
update_mono f n k e = ground arith

pub update_self {ℓ} : {A : Type ℓ} (f : ℕ → A) (n : ℕ) (a : A) → update f n a n ≡ a
update_self f n a = rw (==_true n)

module _ (asio : Channels IncomingMessage) where
  open asio use {
    Channel, fresh, send, receive, held, held-fresh, held-send, receive_nothing, receive_oldest,
  }

  -- A channel that holds nothing unanswered holds the reply that is sent to it.
  pub Holds-send :
      (s : System asio) (n : ℕ) (m : IncomingMessage) (c : Channel)
      → m.header.reply_to ≡ some n
      → s.answered n ≡ false
      → Holds asio s.answered n (held c)
      → held (send m c) ≡ m ∷ []
  Holds-send s n m c to new h = held-send m c ∙ only (held c) h
    where
      only : (l : List IncomingMessage) → Holds asio s.answered n l → l ++ (m ∷ []) ≡ m ∷ []
      only [] h = refl
      only (m' ∷ []) h = absurd (cc (h.1))
      only (m' ∷ m'' ∷ l) h = absurd h

  -- A call that has no channel of the vector gets one of its own.
  pub further-Kept :
      (s : System asio) (n : ℕ)
      → n < s.replies.serial
      → ((k : ℕ) (used : Bool) → s.calls k ≡ some used → k ≢ n)
      → find_channel asio n s.replies.fallback ≡ none
      → Kept asio s
      → Kept asio (record s {
        replies = record s.replies { fallback = insert_channel asio n fresh s.replies.fallback };
      })
  further-Kept s n known new absent h = record {
    size = h.size;
    slots = λ i lt. SlotKept-mono asio s after _ (λ k e. e) (omega arith) (h.slots i lt);
    further = further_after;
    waits = λ k used e. waits_after k used (new k used e) (h.waits k used e);
    sent = h.sent;
    past = h.past;
  }
    where
      after : System asio
      after = record s {
        replies = record s.replies { fallback = insert_channel asio n fresh s.replies.fallback };
      }

      found :
          (k : ℕ)
          → find_channel asio k after.replies.fallback
            ≡ (if n == k then some fresh else find_channel asio k s.replies.fallback)
      found k = rw (find-insert asio n k fresh s.replies.fallback, absent) refl

      further_after :
          (k : ℕ) (c : Channel)
          → find_channel asio k after.replies.fallback ≡ some c
          → FurtherKept asio after k c
      further_after k c e = elim (Bool-cases (n == k)) [
        | inl same ↦
            let equal : n ≡ k = (==_iff n k).0 same in
            let is_fresh : fresh ≡ c = cc (rw (found k, same) at e) in
            rw (← equal, ← is_fresh) (record { holds = rw held-fresh tt; known = known })
        | inr other ↦
            FurtherKept-mono asio s after k c (λ k e. e) (omega arith)
              (h.further k c (rw (found k, other) at e))
      ]

      waits_after : (k : ℕ) (used : Bool) → k ≢ n → Waits asio s k used → Waits asio after k used
      waits_after k false other w =
          let apart : (n == k) ≡ false = ground arith in (w.0, w.1, rw (found k, apart) w.2)
      waits_after k true other w =
          let apart : (n == k) ≡ false = ground arith in (w.0, (w.1.0, rw (found k, apart) w.1.1))

  -- The reply to the call of a slot.
  pub hand-Kept :
      (s : System asio) (n : ℕ) (m : IncomingMessage)
      → m.header.reply_to ≡ some n
      → s.answered n ≡ false
      → (slot_of asio n s.replies).serial ≡ n
      → (slot_of asio n s.replies).ready ≡ false
      → Kept asio s
      → let info = slot_of asio n s.replies in
        Kept asio (record s {
          replies = set_slot asio n (record info { channel = send m info.channel }) s.replies;
          answered = update s.answered n true;
        })
  hand-Kept s n m to new same busy h = record {
    size = length-set s.replies.slots (n % max_concurrent_messages) info ∙ h.size;
    slots = slots_after;
    further = λ k c e.
        FurtherKept-mono asio s after k c (update_mono s.answered n) (omega arith)
          (h.further k c e);
    waits = λ k used e. waits_after k used (h.waits k used e);
    sent = h.sent;
    past = past_after;
  }
    where
      old : ChannelInfo asio
      old = slot_of asio n s.replies

      info : ChannelInfo asio
      info = record old { channel = send m old.channel }

      after : System asio
      after = record s {
        replies = set_slot asio n info s.replies;
        answered = update s.answered n true;
      }

      old-SlotKept : SlotKept asio s old
      old-SlotKept = h.slots (n % max_concurrent_messages) (omega arith)

      one : held info.channel ≡ m ∷ []
      one =
          Holds-send s n m old.channel to new
            (subst (λ k. Holds asio s.answered k (held old.channel)) same old-SlotKept.holds)

      past_after : (k : ℕ) → after.answered k ≡ true → k < after.replies.serial
      past_after k e = elim (Bool-cases (n == k)) [
        | inl equal ↦
            let lt : old.serial < s.replies.serial = old-SlotKept.known busy in
            let is : n ≡ k = (==_iff n k).0 equal in omega arith
        | inr other ↦ h.past k (rw other at e)
      ]

      slots_after :
          (i : ℕ)
          → i < max_concurrent_messages
          → SlotKept asio after (get_or after.replies.slots i (free_slot asio))
      slots_after i lt = elim (Bool-cases (n % max_concurrent_messages == i)) [
        | inl e ↦
            rw (slot-set asio n i info s.replies h.size, e)
              (record {
                holds = rw (one, same) (to, update_self s.answered n true);
                empty = λ f. absurd (cc f);
                known = old-SlotKept.known;
              })
        | inr e ↦
            rw (slot-set asio n i info s.replies h.size, e)
              (SlotKept-mono asio s after _ (update_mono s.answered n) (omega arith) (h.slots i lt))
      ]

      kept :
          (k : ℕ)
          → ((slot_of asio k after.replies).serial ≡ (slot_of asio k s.replies).serial)
            × ((slot_of asio k after.replies).ready ≡ (slot_of asio k s.replies).ready)
      kept k = elim (Bool-cases (n % max_concurrent_messages == k % max_concurrent_messages)) [
        | inl e ↦
            let index : n % max_concurrent_messages ≡ k % max_concurrent_messages =
              (==_iff (n % max_concurrent_messages) (k % max_concurrent_messages)).0 e in
            rw (slot-set asio n (k % max_concurrent_messages) info s.replies h.size, e)
              (
                ap (λ i. (get_or s.replies.slots i (free_slot asio)).serial) index,
                ap (λ i. (get_or s.replies.slots i (free_slot asio)).ready) index,
              )
        | inr e ↦
            rw (slot-set asio n (k % max_concurrent_messages) info s.replies h.size, e) (refl, refl)
      ]

      waits_after : (k : ℕ) (used : Bool) → Waits asio s k used → Waits asio after k used
      waits_after k false w = ((kept k).0 ∙ w.0, (kept k).1 ∙ w.1, w.2)
      waits_after k true w = ((λ e. w.0 (sym (kept k).0 ∙ e)), w.1)

  -- The reply to a call with a channel of its own.
  pub forward-Kept :
      (s : System asio) (n : ℕ) (m : IncomingMessage) (c : Channel)
      → m.header.reply_to ≡ some n
      → s.answered n ≡ false
      → find_channel asio n s.replies.fallback ≡ some c
      → Kept asio s
      → Kept asio (record s {
        replies = record s.replies { fallback = send_to asio n m s.replies.fallback };
        answered = update s.answered n true;
      })
  forward-Kept s n m c to new there h = record {
    size = h.size;
    slots = λ i lt.
        SlotKept-mono asio s after _ (update_mono s.answered n) (omega arith) (h.slots i lt);
    further = further_after;
    waits = λ k used e. waits_after k used (h.waits k used e);
    sent = h.sent;
    past = past_after;
  }
    where
      after : System asio
      after = record s {
        replies = record s.replies { fallback = send_to asio n m s.replies.fallback };
        answered = update s.answered n true;
      }

      found :
          (k : ℕ)
          → find_channel asio k after.replies.fallback
            ≡ (if n == k then some (send m c) else find_channel asio k s.replies.fallback)
      found k = rw (find-send_to asio n k m s.replies.fallback, there) refl

      known : n < s.replies.serial
      known = (h.further n c there).known

      past_after : (k : ℕ) → after.answered k ≡ true → k < after.replies.serial
      past_after k e = elim (Bool-cases (n == k)) [
        | inl equal ↦ let is : n ≡ k = (==_iff n k).0 equal in rw (← is) known
        | inr other ↦ h.past k (rw other at e)
      ]

      further_after :
          (k : ℕ) (d : Channel)
          → find_channel asio k after.replies.fallback ≡ some d
          → FurtherKept asio after k d
      further_after k d e = elim (Bool-cases (n == k)) [
        | inl same ↦
            let equal : n ≡ k = (==_iff n k).0 same in
            let is_sent : send m c ≡ d = cc (rw (found k, same) at e) in
            rw (← equal, ← is_sent)
              (record {
                holds =
                    rw (Holds-send s n m c to new (h.further n c there).holds)
                      (to, update_self s.answered n true);
                known = known;
              })
        | inr other ↦
            FurtherKept-mono asio s after k d (update_mono s.answered n) (omega arith)
              (h.further k d (rw (found k, other) at e))
      ]

      waits_after : (k : ℕ) (used : Bool) → Waits asio s k used → Waits asio after k used
      waits_after k false w = elim (Bool-cases (n == k)) [
        | inl same ↦
            let equal : n ≡ k = (==_iff n k).0 same in
            let gone : some c ≡ none =
              sym there ∙ (ap (λ i. find_channel asio i s.replies.fallback) equal ∙ w.2) in
            absurd (cc gone)
        | inr other ↦ (w.0, w.1, rw (found k, other) w.2)
      ]
      waits_after k true w = elim (Bool-cases (n == k)) [
        | inl same ↦ (w.0, (send m c, rw (found k, same) refl))
        | inr other ↦ (w.0, (w.1.0, rw (found k, other) w.1.1))
      ]
