-- ===== src/Connection/Handshake.antt =====
-- Connecting to the bus: Connect and AuthenticateDBusConnectionImpl of src/DBusConnection.txx, and
-- SubscribeToNameChanges of src/DBusNameCache.txx.
use cxx_bus.Base.{
  map, Bool, true, false, List, [], ◌∷◌, ◌++◌, Option, some, if◌then◌else◌, ltb, Text, codes,
  Result, ok, err, runtime_error,
}
use cxx_bus.Codec.Types.{string, uint32, text, word, basic}
use cxx_bus.Codec.Bytes.{Bytes}
use cxx_bus.Names.{unique_connection_name}
use cxx_bus.Message.{Message}
use cxx_bus.Incoming.{IncomingMessage, get}
use cxx_bus.MatchRule.{MatchRule, create}
use cxx_bus.MatchRule.Paths.{starts_with}
use cxx_bus.Address.{parse_address, hex_encode}
use cxx_bus.Connection.State.{State, Run, return, ◌>>=◌, ◌>>◌, lift, gets, modify}
use cxx_bus.Connection.Requests.{daemon_call, request_name_call, exchange, add_match_rule}

-- BusType.
pub data BusType : Type 0 where
  session system : BusType

abbrev or_default : Text → Text
or_default [] = codes "/var/run/dbus/system_bus_socket"
or_default (c ∷ s) = c ∷ s

-- Where Connect connects to, by the value of the environment variable for the bus.
unfoldable pub endpoint : BusType → Option Text → Result Text
endpoint session value = parse_address value
endpoint system value = elim (parse_address value) [ err e ↦ err e | ok a ↦ ok (or_default a) ]

abbrev line_end : Text
line_end = 13 ∷ 10 ∷ []

-- What AuthenticateDBusConnectionImpl sends before it reads, and behind an answer that begins with OK.
unfoldable pub greeting : Text → List Bytes
greeting uid = (0 ∷ []) ∷ (codes "AUTH EXTERNAL " ++ (hex_encode uid ++ line_end)) ∷ []

abbrev pub begin_line : Bytes
begin_line = codes "BEGIN" ++ line_end

-- AuthenticateDBusConnectionImpl for a user id in decimal digits: what it sends, and how it ends.
-- `read_until` is what async_read_until makes of the answer to what has been sent.
unfoldable pub authenticate : (List Bytes → Result Text) → Text → List Bytes × Result (Unit {0})
unfolding greeting
authenticate read_until uid = elim (read_until (greeting uid)) [
  | err e ↦ (greeting uid, err e)
  | ok reply ↦
      if starts_with reply (codes "OK")
      then (greeting uid ++ (begin_line ∷ []), ok tt)
      else (greeting uid, err runtime_error)
]

unfoldable pub hello_call : Message
hello_call = daemon_call (codes "Hello")

-- The rule of SubscribeToNameChanges.
abbrev pub name_owner_rule : MatchRule
name_owner_rule = record create {
  sender = some (codes "org.freedesktop.DBus");
  path = some (codes "/org/freedesktop/DBus");
  interface = some (codes "org.freedesktop.DBus");
  member = some (codes "NameOwnerChanged");
}

module _ {F : Type 0} (bus : Message → Result IncomingMessage) where
  -- The unique name that the bus answers to Hello.
  unfoldable pub note_unique : IncomingMessage → Run F (Unit {0})
  note_unique reply = do
    t ← lift (get (basic (text string)) reply)
    name ← lift (unique_connection_name t)
    modify (λ s. record s { unique_connection = some name })

  -- The loop over the well-known names; the numbers that the bus answers are logged only.
  unfoldable pub request_names : List Text → Run F (Unit {0})
  request_names [] = return tt
  request_names (n ∷ names) = do
    m ← lift (request_name_call n 0)
    reply ← exchange bus m
    code ← lift (get (basic (word uint32)) reply)
    request_names names

  -- The connection is ready; the Boolean says whether a coroutine that waits for that is woken.
  unfoldable pub become_ready : Run F Bool
  become_ready s = record {
    state = record s { connection_ready = true };
    sent = [];
    result = ok (ltb 0 s.nr_of_waiters);
  }

  -- Connect behind the authentication, for the handler of the name cache.
  unfoldable pub handshake : F → Run F Bool
  unfolding note_unique request_names become_ready
  handshake on_name_owner_changed = do
    reply ← exchange bus hello_call
    note_unique reply
    names ← gets (λ s. s.well_known_names)
    request_names names
    wakes ← become_ready
    add_match_rule bus name_owner_rule on_name_owner_changed false
    return wakes

-- What connecting writes to the socket: the bytes of the authentication, or a message.
pub data Written : Type 0 where
  raw : Bytes → Written
  message : Message → Written

-- The state that connecting leaves, what has been written, in order, and how it ends.
pub record Connecting (F : Type 0) : Type 0 where
  pub state : State F
  pub written : List Written
  pub result : Result Bool

module _ {F : Type 0} (bus : Message → Result IncomingMessage) where
  -- The connection with the socket that async_connect has opened. Its outcome is not looked at.
  abbrev pub opened : State F → State F
  opened s = record s { socket_open = true }

  -- What is behind the authentication: the read loop is started, then comes the handshake. `sent`
  -- is what the authentication has written.
  unfoldable pub after_authentication : List Bytes → F → State F → Connecting F
  unfolding handshake
  after_authentication sent on_name_owner_changed s =
      let o = handshake bus on_name_owner_changed (record s { reading = true }) in
      record { state = o.state; written = map raw sent ++ map message o.sent; result = o.result }

  -- Connect.
  unfoldable pub connect :
      BusType → Option Text → (List Bytes → Result Text) → Text → F → State F → Connecting F
  unfolding endpoint authenticate after_authentication
  connect bus_type value read_until uid on_name_owner_changed s = elim (endpoint bus_type value) [
    | err e ↦ record { state = s; written = []; result = err e }
    | ok address ↦
        let sent = (authenticate read_until uid).0 in
        elim (authenticate read_until uid).1 [
          | err e ↦ record { state = opened s; written = map raw sent; result = err e }
          | ok u ↦ after_authentication sent on_name_owner_changed (opened s)
        ]
  ]
