-- ===== src/Connection/Slots.antt =====
-- The vector of channels and the map of further channels, by what is found in them.
use cxx_bus.Base.{
  ℕ, zero, suc, ◌<◌, ◌≡◌, refl, List, [], ◌∷◌, none, some, ◌==◌, arith, if◌then◌else◌, get_or,
  length, Option,
}
use cxx_bus.Incoming.{IncomingMessage}
use cxx_bus.Connection.Channels.{Channels}
use cxx_bus.Connection.Replies.{set, find_channel, insert_channel, send_to, erase_channel}

module _ {ℓ} {A : Type ℓ} where
  pub length-set : (l : List A) (i : ℕ) (a : A) → length (set l i a) ≡ length l
  length-set [] i a = refl
  length-set (x ∷ l) zero a = refl
  length-set (x ∷ l) (suc i) a = omega (arith, length-set l i a)

  pub get_or-set :
      (l : List A) (i j : ℕ) (a d : A)
      → i < length l
      → get_or (set l i a) j d ≡ (if i == j then a else get_or l j d)
  get_or-set [] i j a d h = absurd (omega arith)
  get_or-set (x ∷ l) zero zero a d h = refl
  get_or-set (x ∷ l) zero (suc j) a d h = ground arith
  get_or-set (x ∷ l) (suc i) zero a d h = ground arith
  get_or-set (x ∷ l) (suc i) (suc j) a d h = ground (arith, get_or-set l i j a d)

module _ (asio : Channels IncomingMessage) where
  open asio use {Channel, send}

  abbrev pub sent_to : IncomingMessage → Option Channel → Option Channel
  sent_to m none = none
  sent_to m (some c) = some (send m c)

  abbrev pub or_else : Option Channel → Channel → Option Channel
  or_else none c = some c
  or_else (some d) c = some d

  pub find-insert :
      (n k : ℕ) (c : Channel) (l : List (ℕ × Channel))
      → find_channel asio k (insert_channel asio n c l)
        ≡ (if n == k then or_else (find_channel asio n l) c else find_channel asio k l)
  unfolding find_channel insert_channel
  find-insert n k c [] = refl
  find-insert n k c ((j, d) ∷ l) = ground (arith, find-insert n k c l)

  pub find-send_to :
      (n k : ℕ) (m : IncomingMessage) (l : List (ℕ × Channel))
      → find_channel asio k (send_to asio n m l)
        ≡ (if n == k then sent_to m (find_channel asio n l) else find_channel asio k l)
  unfolding find_channel send_to
  find-send_to n k m [] = ground arith
  find-send_to n k m ((j, d) ∷ l) = ground (arith, find-send_to n k m l)

  pub find-erase :
      (n k : ℕ) (l : List (ℕ × Channel))
      → find_channel asio k (erase_channel asio n l)
        ≡ (if n == k then none else find_channel asio k l)
  unfolding find_channel erase_channel
  find-erase n k [] = ground arith
  find-erase n k ((j, d) ∷ l) = ground (arith, find-erase n k l)
