-- ===== src/Connection/State.antt =====
-- The state of a connection, InternalState of src/DBusConnection.h, but for the reply channels,
-- and programs on it.
use cxx_bus.Base.{ℕ, Bool, false, List, [], ◌∷◌, ◌++◌, Option, none, some, Text, Result, ok, err}
use cxx_bus.Message.{Message}
use cxx_bus.MatchRule.{MatchRule}
use cxx_bus.NameCache.{Cache}

-- A coroutine of the user, `std::function<boost::asio::awaitable<…>(…)>`, is a value of a type `F`.
module _ (F : Type 0) where
  -- MatchRuleInfo.
  pub record MatchRuleInfo : Type 0 where
    pub rule : MatchRule
    pub callbacks : List F
    pub execute_on_user_context : Bool

  -- InternalState. The maps are in any order of their keys. `socket_open` stands for the socket,
  -- `reading` for a read loop that has been started and whose end, on readLoopFinished, has not been
  -- received.
  pub record State : Type 0 where
    pub on_incoming : List F
    pub message_filters : List (ℕ × F)
    pub message_filter_id : ℕ
    pub connection_ready : Bool
    pub nr_of_waiters : ℕ
    pub socket_open : Bool
    pub reading : Bool
    pub unique_connection : Option Text
    pub well_known_names : List Text
    pub match_rules : List MatchRuleInfo
    pub name_cache : Cache
    pub object_path_handlers : List (Text × List F)
    pub should_quit : Bool

  -- What a coroutine has done: the state, the messages that it has sent to the bus, in order, and a
  -- value or an exception.
  pub record Outcome {ℓ} (A : Type ℓ) : Type ℓ where
    pub state : State
    pub sent : List Message
    pub result : Result A

-- The constructor, on the well-known name that it is given.
abbrev pub names_of : Option Text → List Text
names_of none = []
names_of (some n) = n ∷ []

unfoldable pub construct : (F : Type 0) → Option Text → State F
construct F name = record {
  on_incoming = [];
  message_filters = [];
  message_filter_id = 0;
  connection_ready = false;
  nr_of_waiters = 0;
  socket_open = false;
  reading = false;
  unique_connection = none;
  well_known_names = names_of name;
  match_rules = [];
  name_cache = [];
  object_path_handlers = [];
  should_quit = false;
}

-- A coroutine that no other one interrupts.
abbrev pub Run {ℓ} : Type 0 → Type ℓ → Type ℓ
Run F A = State F → Outcome F A

abbrev pub return {ℓ} : {F : Type 0} {A : Type ℓ} → A → Run F A
return a s = record { state = s; sent = []; result = ok a }

-- What is behind an exception does not run.
infixl 5 ◌>>=◌ ◌>>◌
abbrev pub ◌>>=◌ {ℓ κ} : {F : Type 0} {A : Type ℓ} {B : Type κ} → Run F A → (A → Run F B) → Run F B
◌>>=◌ m f s = elim (m s).result [
  | err e ↦ record { state = (m s).state; sent = (m s).sent; result = err e }
  | ok a ↦ record {
    state = (f a (m s).state).state;
    sent = (m s).sent ++ (f a (m s).state).sent;
    result = (f a (m s).state).result;
  }
]

abbrev pub ◌>>◌ {ℓ κ} : {F : Type 0} {A : Type ℓ} {B : Type κ} → Run F A → Run F B → Run F B
m >> f = m >>= λ a. f

-- Code that neither reads the state nor sends.
abbrev pub lift {ℓ} : {F : Type 0} {A : Type ℓ} → Result A → Run F A
lift r s = record { state = s; sent = []; result = r }

abbrev pub gets {ℓ} : {F : Type 0} {A : Type ℓ} → (State F → A) → Run F A
gets f s = record { state = s; sent = []; result = ok (f s) }

abbrev pub modify : {F : Type 0} → (State F → State F) → Run F (Unit {0})
modify f s = record { state = f s; sent = []; result = ok tt }
