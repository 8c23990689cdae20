-- ===== src/Connection/Closing.antt =====
-- The end of a connection: CloseImpl of src/DBusConnection.txx.
use cxx_bus.Base.{◌≡◌, true, false, [], Error, Result, err}
use cxx_bus.Message.{Message}
use cxx_bus.Incoming.{IncomingMessage}
use cxx_bus.MatchRule.{MatchRule}
use cxx_bus.Connection.State.{State, Outcome, Run, modify}
use cxx_bus.Connection.Requests.{remove_rule}
use cxx_bus.Connection.Farewell.{awaited}

-- What the code in `m` leaves as it is: the socket, the order to quit, and whether a read loop runs.
abbrev Keeps {ℓ} : {F : Type 0} {A : Type ℓ} → Run F A → Type 0
Keeps {F} m =
    (s : State F)
    → ((m s).state.socket_open ≡ s.socket_open)
      × ((m s).state.should_quit ≡ s.should_quit)
      × ((m s).state.reading ≡ s.reading)

module _ {F : Type 0} (bus : Message → Result IncomingMessage) where
  abbrev drop_rule : MatchRule → IncomingMessage → Run F (Unit {0})
  drop_rule r reply = modify (λ s. record s { match_rules = remove_rule r s.match_rules })

  abbrev pub Closed : State F → Outcome F (Unit {0}) → Type 0
  Closed s o =
      (o.result ≡ awaited s)
      × (o.state.socket_open ≡ false)
      × (o.state.should_quit ≡ true)
      × (o.state.connection_ready ≡ false)
      × (o.state.on_incoming ≡ [])
      × (o.state.object_path_handlers ≡ [])

  abbrev pub StillOpen : State F → Outcome F (Unit {0}) → Type 0
  StillOpen s o =
      (e : Error) × (o.result ≡ err e)
      × (o.state.socket_open ≡ true)
      × (o.state.should_quit ≡ s.should_quit)
