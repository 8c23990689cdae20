-- ===== src/Connection/Calls/Unknown.antt =====
-- Serial numbers that no reply channel is kept for, in SendMessageInternal and HandleReadMessage of
-- src/DBusConnection.txx.
use cxx_bus.Base.{
  ℕ, ◌%◌, ◌<◌, ◌≡◌, refl, ap, ◌∙◌, List, Bool, true, false, not, ◌&&◌, none, some, ◌==◌, ==_iff,
  length, get_or, Bool-cases, inl, inr, arith, Option-cases, ok, add32,
}
use cxx_bus.Message.{Message}
use cxx_bus.Message.Building.{expects_reply}
use cxx_bus.Incoming.{IncomingMessage}
use cxx_bus.Connection.Channels.{Channels}
use cxx_bus.Connection.Replies.{
  max_concurrent_messages, ChannelInfo, Replies, free_slot, slot_of, set_slot, find_channel,
  send_to, erase_channel, take_channel, handle_reply, receive_reply,
}
use cxx_bus.Connection.Slots.{find-send_to, find-insert, find-erase}
use cxx_bus.Connection.Calls.Defs.{System, Kept}
use cxx_bus.Connection.Calls.Kept.{slot-set}

module _ (asio : Channels IncomingMessage) where
  open asio use {Channel, fresh, send, receive}

  -- The slot is not taken for `n`.
  abbrev pub Foreign : ℕ → ChannelInfo asio → Type 0
  Foreign n info = ((info.serial == n) && not info.ready) ≡ false

  -- No channel is for `n`, in a slot or further.
  pub record Unknown (n : ℕ) (r : Replies asio) : Type 0 where
    pub foreign : Foreign n (slot_of asio n r)
    pub absent : find_channel asio n r.fallback ≡ none

  Foreign-set :
      (n k : ℕ) (info : ChannelInfo asio) (r : Replies asio)
      → length r.slots ≡ max_concurrent_messages
      → (k % max_concurrent_messages ≡ n % max_concurrent_messages → Foreign n info)
      → Foreign n (slot_of asio n r)
      → Foreign n (slot_of asio n (set_slot asio k info r))
  Foreign-set n k info r size same before =
      elim (Bool-cases (k % max_concurrent_messages == n % max_concurrent_messages)) [
        | inl e ↦
            rw (slot-set asio k (n % max_concurrent_messages) info r size, e)
              (same ((==_iff (k % max_concurrent_messages) (n % max_concurrent_messages)).0 e))
        | inr e ↦ rw (slot-set asio k (n % max_concurrent_messages) info r size, e) before
      ]

  free_Foreign : (n : ℕ) (info : ChannelInfo asio) → info.ready ≡ true → Foreign n info
  free_Foreign n info free = ground (arith, free)

  absent-send_to :
      (n k : ℕ) (m : IncomingMessage) (l : List (ℕ × Channel))
      → find_channel asio n l ≡ none
      → find_channel asio n (send_to asio k m l) ≡ none
  absent-send_to n k m l absent = find-send_to asio k n m l ∙ elim (Bool-cases (k == n)) [
    | inl e ↦
        let same : k ≡ n = (==_iff k n).0 e in
        let absent' : find_channel asio k l ≡ none =
          ap (λ j. find_channel asio j l) same ∙ absent in
        rw (e, absent') refl
    | inr e ↦ rw e absent
  ]

  absent-erase :
      (n k : ℕ) (l : List (ℕ × Channel))
      → find_channel asio n l ≡ none
      → find_channel asio n (erase_channel asio k l) ≡ none
  absent-erase n k l absent =
      find-erase asio k n l ∙ elim (Bool-cases (k == n)) [ inl e ↦ rw e refl | inr e ↦ rw e absent ]

  pub take_channel-Unknown :
      (n : ℕ) (s : System asio) (m : Message)
      → Kept asio s
      → n < s.replies.serial
      → Unknown n s.replies
      → Unknown n (take_channel asio m s.replies).0
  unfolding take_channel
  take_channel-Unknown n s m h past u =
      let apart : (s.replies.serial == n) ≡ false = ground arith in
      elim (Bool-cases (expects_reply m)) [
        | inr e ↦ rw e (record { foreign = u.foreign; absent = u.absent })
        | inl e ↦ elim (Bool-cases (slot_of asio s.replies.serial s.replies).ready) [
          | inl free ↦
              rw (e, free)
                (record {
                  foreign =
                      Foreign-set n s.replies.serial _
                        (record s.replies { serial = add32 s.replies.serial 1 }) h.size
                        (λ index. rw apart refl) u.foreign;
                  absent = u.absent;
                })
          | inr busy ↦
              rw (e, busy)
                (record {
                  foreign = u.foreign;
                  absent =
                      find-insert asio s.replies.serial n fresh s.replies.fallback
                      ∙ rw apart u.absent;
                })
        ]
      ]

  pub handle_reply-Unknown :
      (n k : ℕ) (m : IncomingMessage) (s : System asio) (r : Replies asio)
      → Kept asio s
      → Unknown n s.replies
      → handle_reply asio k m s.replies ≡ ok r
      → Unknown n r × (s.replies.serial ≡ r.serial)
  unfolding handle_reply
  handle_reply-Unknown n k m s r h u e =
      elim (Bool-cases
        (((slot_of asio k s.replies).serial == k) && not (slot_of asio k s.replies).ready)) [
          | inl own ↦
              let info = slot_of asio k s.replies in
              let is : set_slot asio k (record info { channel = send m info.channel }) s.replies
                  ≡ r =
                cc (rw own at e) in
              rw (← is) (
                record {
                  foreign =
                      Foreign-set n k _ s.replies h.size
                        (λ index.
                          ap
                            (λ i.
                              ((get_or s.replies.slots i (free_slot asio)).serial == n)
                              && not (get_or s.replies.slots i (free_slot asio)).ready)
                            index
                          ∙ u.foreign)
                        u.foreign;
                  absent = u.absent;
                },
                refl,
              )
          | inr foreign ↦ elim (Option-cases (find_channel asio k s.replies.fallback)) [
            | inl absent ↦ absurd (cc (rw (foreign, absent) at e))
            | inr (c, there) ↦
                let is : record s.replies { fallback = send_to asio k m s.replies.fallback } ≡ r =
                  cc (rw (foreign, there) at e) in
                rw (← is) (
                  record {
                    foreign = u.foreign;
                    absent = absent-send_to n k m s.replies.fallback u.absent;
                  },
                  refl,
                )
          ]
        ]

  pub serial-receive_reply :
      (n : ℕ) (used : Bool) (m : IncomingMessage) (r r' : Replies asio)
      → receive_reply asio n used r ≡ some (r', m)
      → r.serial ≡ r'.serial
  unfolding receive_reply
  serial-receive_reply n false m r r' e = elim (Option-cases (receive (slot_of asio n r).channel)) [
    | inl empty ↦ absurd (cc (rw (empty, receive_reply) at e))
    | inr ((m', rest), taken) ↦
        let info = record (slot_of asio n r) { channel = rest; ready = true } in
        let is : set_slot asio n info r ≡ r' = cc (rw (taken, receive_reply) at e) in
        ap (λ q. q.serial) is
  ]
  serial-receive_reply n true m r r' e = elim (Option-cases (find_channel asio n r.fallback)) [
    | inl absent ↦ absurd (cc (rw (absent, receive_reply) at e))
    | inr (c, there) ↦ elim (Option-cases (receive c)) [
      | inl empty ↦ absurd (cc (rw (there, receive_reply, empty) at e))
      | inr ((m', rest), taken) ↦
          let erased = record r { fallback = erase_channel asio n r.fallback } in
          let is : erased ≡ r' = cc (rw (there, receive_reply, taken) at e) in ap (λ q. q.serial) is
    ]
  ]

  pub receive_reply-Unknown :
      (n k : ℕ) (used : Bool) (m : IncomingMessage) (s : System asio) (r : Replies asio)
      → Kept asio s
      → Unknown n s.replies
      → receive_reply asio k used s.replies ≡ some (r, m)
      → Unknown n r
  unfolding receive_reply
  receive_reply-Unknown n k false m s r h u e =
      elim (Option-cases (receive (slot_of asio k s.replies).channel)) [
        | inl empty ↦ absurd (cc (rw (empty, receive_reply) at e))
        | inr ((m', rest), taken) ↦
            let info = record (slot_of asio k s.replies) { channel = rest; ready = true } in
            let is : set_slot asio k info s.replies ≡ r = cc (rw (taken, receive_reply) at e) in
            rw (← is) (record {
              foreign =
                  Foreign-set n k info s.replies h.size (λ index. free_Foreign n info refl)
                    u.foreign;
              absent = u.absent;
            })
      ]
  receive_reply-Unknown n k true m s r h u e =
      elim (Option-cases (find_channel asio k s.replies.fallback)) [
        | inl absent ↦ absurd (cc (rw (absent, receive_reply) at e))
        | inr (c, there) ↦ elim (Option-cases (receive c)) [
          | inl empty ↦ absurd (cc (rw (there, receive_reply, empty) at e))
          | inr ((m', rest), taken) ↦
              let erased = record s.replies {
                fallback = erase_channel asio k s.replies.fallback;
              } in
              let is : erased ≡ r = cc (rw (there, receive_reply, taken) at e) in
              rw (← is) (record {
                foreign = u.foreign;
                absent = absent-erase n k s.replies.fallback u.absent;
              })
        ]
      ]
