-- ===== src/Connection/Channels.antt =====
-- What the connection uses of boost::asio::experimental::channel, which is no part of the
-- repository: a queue between coroutines, as its documentation describes it.
use cxx_bus.Base.{◌≡◌, List, [], ◌∷◌, ◌++◌, Option, none, some}

-- `held` is what has been sent and not yet received, the oldest first. A `receive` that finds
-- nothing, `none`, leaves the coroutine suspended. An `async_send` on a channel that is full suspends
-- the sender; what it sends stands last all the same.
pub record Channels (A : Type 0) : Type 1 where
  pub Channel : Type 0
  pub fresh : Channel
  pub send : A → Channel → Channel
  pub receive : Channel → Option (A × Channel)
  pub held : Channel → List A
  pub held-fresh : held fresh ≡ []
  pub held-send : (a : A) (c : Channel) → held (send a c) ≡ held c ++ (a ∷ [])
  pub receive_nothing : (c : Channel) → held c ≡ [] → receive c ≡ none
  pub receive_oldest :
      (c : Channel) (a : A) (later : List A)
      → held c ≡ a ∷ later
      → (rest : Channel) × (receive c ≡ some (a, rest)) × (held rest ≡ later)
