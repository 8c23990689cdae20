-- ===== src/Connection/Welcome.antt =====
-- What connecting sends, and what it leaves: Connect of src/DBusConnection.txx where the bus agrees to
-- all requests.
use cxx_bus.Base.{
  map, ℕ, ◌≡◌, refl, ◌∙◌, ap, Bool, true, false, List, [], ◌∷◌, ◌++◌, append-nil, Option, some, ltb,
  Text, codes, Result, ok, err, All,
}
use cxx_bus.Codec.Types.{string, uint32, text, word, basic}
use cxx_bus.Codec.Bytes.{Bytes}
use cxx_bus.Names.{unique_connection_name}
use cxx_bus.Message.{Message}
use cxx_bus.Incoming.{IncomingMessage, get}
use cxx_bus.MatchRule.Paths.{starts_with}
use cxx_bus.Connection.State.{State, Outcome, Run, return, ◌>>=◌, ◌>>◌, gets, modify}
use cxx_bus.Connection.Requests.{
  request_name_call, add_match_call, add_rule, exchange, add_match_rule,
}
use cxx_bus.Connection.Handshake.{
  BusType, endpoint, greeting, begin_line, authenticate, hello_call, name_owner_rule, note_unique,
  request_names, become_ready, handshake, connect, raw, message, after_authentication, opened,
}
use cxx_bus.Connection.Sending.{answer, sent_by, call_and-agreed, after}

-- The requests of Connect.
abbrev pub name_requests : List Text → List Message
name_requests [] = []
name_requests (n ∷ names) =
    elim (request_name_call n 0) [ err e ↦ [] | ok m ↦ m ∷ [] ] ++ name_requests names

-- The bus answers the request for a name by a number.
abbrev pub Grants : (Message → Result IncomingMessage) → Text → Type 0
Grants bus n =
    (m : Message) × (reply : IncomingMessage) × (code : ℕ) × (request_name_call n 0 ≡ ok m)
    × (bus m ≡ ok reply)
    × (get (basic (word uint32)) reply ≡ ok code)

authenticate_lem :
    (read_until : List Bytes → Result Text) (uid reply : Text)
    → read_until (greeting uid) ≡ ok reply
    → starts_with reply (codes "OK") ≡ true
    → authenticate read_until uid ≡ (greeting uid ++ (begin_line ∷ []), ok tt)
unfolding authenticate
authenticate_lem read_until uid reply said accepted = rw (said, authenticate, accepted) refl

module _ {F : Type 0} (bus : Message → Result IncomingMessage) where
  -- What is sent before the rest.
  sending : {A : Type 0} → List Message → Outcome F A → Outcome F A
  sending sent o = record { state = o.state; sent = sent ++ o.sent; result = o.result }

  request_names_lem :
      (names : List Text) (s : State F)
      → All (Grants bus) names
      → request_names bus names s ≡ record { state = s; sent = name_requests names; result = ok tt }
  unfolding request_names exchange sending
  request_names_lem [] s all = refl
  request_names_lem (n ∷ names) s ((m, reply, code, made, agreed, read), all) =
      rw (made, agreed, read, request_names) (ap (sending (m ∷ [])) (request_names_lem names s all))

  -- The state of a connection that is ready, with its unique name and the rule of the name cache.
  abbrev pub connected : Text → F → State F → State F
  connected name f s = record s {
    socket_open = true;
    reading = true;
    unique_connection = some name;
    connection_ready = true;
    match_rules = add_rule name_owner_rule f false s.match_rules;
  }

  note_unique_lem :
      (reply : IncomingMessage) (t name : Text) (s : State F)
      → get (basic (text string)) reply ≡ ok t
      → unique_connection_name t ≡ ok name
      → note_unique bus reply s
        ≡ record { state = record s { unique_connection = some name }; sent = []; result = ok tt }
  unfolding note_unique
  note_unique_lem reply t name s read valid = rw (read, ◌>>=◌, valid) refl

  subscribe_lem :
      (f : F) (reply : IncomingMessage) (s : State F)
      → answer bus true (add_match_call name_owner_rule) ≡ ok reply
      → add_match_rule bus name_owner_rule f false (record s { connection_ready = true }) ≡ record {
        state = record s {
          connection_ready = true;
          match_rules = add_rule name_owner_rule f false s.match_rules;
        };
        sent = sent_by true (add_match_call name_owner_rule);
        result = ok tt;
      }
  unfolding add_match_rule
  subscribe_lem f reply s agreed =
      call_and-agreed bus (add_match_call name_owner_rule) rest
        (record s { connection_ready = true }) reply refl agreed
      ∙ ap
          (returns (record s {
            connection_ready = true;
            match_rules = add_rule name_owner_rule f false s.match_rules;
          }))
          (append-nil (sent_by true (add_match_call name_owner_rule)))
    where
      returns : State F → List Message → Outcome F (Unit {0})
      returns t sent = record { state = t; sent = sent; result = ok tt }

      rest : IncomingMessage → Run F (Unit {0})
      rest reply =
          modify (λ t. record t { match_rules = add_rule name_owner_rule f false t.match_rules })

  -- The last part of the handshake.
  subscribed : F → Run F Bool
  subscribed f =
      become_ready bus >>= λ wakes. add_match_rule bus name_owner_rule f false >> return wakes

  ready_outcome : F → List Message → State F → Outcome F Bool
  ready_outcome f sent s = record {
    state = record s {
      connection_ready = true;
      match_rules = add_rule name_owner_rule f false s.match_rules;
    };
    sent = sent;
    result = ok (ltb 0 s.nr_of_waiters);
  }

  subscribed_lem :
      (f : F) (reply : IncomingMessage) (s : State F)
      → answer bus true (add_match_call name_owner_rule) ≡ ok reply
      → subscribed f s ≡ ready_outcome f (sent_by true (add_match_call name_owner_rule)) s
  unfolding subscribed become_ready ready_outcome
  subscribed_lem f reply s agreed =
      ap (after (λ u. return (ltb 0 s.nr_of_waiters))) (subscribe_lem f reply s agreed)
      ∙ ap (λ l. ready_outcome f l s) (append-nil (sent_by true (add_match_call name_owner_rule)))

  -- a handshake
  handshake_lem :
      (f : F) (s : State F) (hello subscribed : IncomingMessage) (t name : Text)
      → bus hello_call ≡ ok hello
      → get (basic (text string)) hello ≡ ok t
      → unique_connection_name t ≡ ok name
      → All (Grants bus) s.well_known_names
      → answer bus true (add_match_call name_owner_rule) ≡ ok subscribed
      → handshake bus f s ≡ record {
        state = record s {
          unique_connection = some name;
          connection_ready = true;
          match_rules = add_rule name_owner_rule f false s.match_rules;
        };
        sent =
            hello_call
            ∷ (name_requests s.well_known_names ++ sent_by true (add_match_call name_owner_rule));
        result = ok (ltb 0 s.nr_of_waiters);
      }
  unfolding handshake exchange sending subscribed ready_outcome
  handshake_lem f s hello reply t name greets read valid grants agreed =
      rw (greets, handshake)
        (ap (λ o. sending (hello_call ∷ []) (after (λ u. named f) o))
            (note_unique_lem hello t name s read valid)
          ∙ ap (sending (hello_call ∷ [])) (
              ap (after (λ u. subscribed f)) (
                request_names_lem s.well_known_names (record s { unique_connection = some name })
                  grants)
              ∙ ap (sending (name_requests s.well_known_names))
                  (subscribed_lem f reply (record s { unique_connection = some name }) agreed)))
    where
      named : F → Run F Bool
      named f = gets (λ s. s.well_known_names) >>= λ names. request_names bus names >> subscribed f

  -- Where there is an address, the answer to the authentication begins with OK, the bus answers
  -- Hello by a valid unique name, each well-known name of the connection by a number and the rule of
  -- the name cache at all, connecting sends the null byte, AUTH and BEGIN, then Hello, then one
  -- RequestName for each name and one AddMatch, in this order, and leaves the connection ready with
  -- that unique name and the rule; one coroutine is woken if any waits.
  pub connect-sent :
      (bus_type : BusType) (value : Option Text) (address : Text)
      (read_until : List Bytes → Result Text) (uid said : Text) (f : F) (s : State F)
      (hello reply : IncomingMessage) (t name : Text)
      → endpoint bus_type value ≡ ok address
      → read_until (greeting uid) ≡ ok said
      → starts_with said (codes "OK") ≡ true
      → bus hello_call ≡ ok hello
      → get (basic (text string)) hello ≡ ok t
      → unique_connection_name t ≡ ok name
      → All (Grants bus) s.well_known_names
      → answer bus true (add_match_call name_owner_rule) ≡ ok reply
      → connect bus bus_type value read_until uid f s ≡ record {
        state = connected name f s;
        written =
            map raw (greeting uid ++ (begin_line ∷ []))
            ++ map message (
                hello_call
                ∷ (name_requests s.well_known_names
                    ++ sent_by true (add_match_call name_owner_rule)));
        result = ok (ltb 0 s.nr_of_waiters);
      }
  unfolding connect after_authentication
  connect-sent bus_type value address read_until uid said f s hello reply t name located answered
        accepted greets read valid grants agreed =
      let authenticated = authenticate_lem read_until uid said answered accepted in
      rw (located, connect, ap (λ p. p.1) authenticated)
        (ap (λ sent. after_authentication bus sent f (opened bus s)) (ap (λ p. p.0) authenticated)
          ∙ ap
              (λ (o : Outcome F Bool). record {
                state = o.state;
                written = map raw (greeting uid ++ (begin_line ∷ [])) ++ map message o.sent;
                result = o.result;
              })
              (handshake_lem f (record s { socket_open = true; reading = true }) hello reply t name
                greets read valid grants agreed))
