-- ===== src/Connection/Sending.antt =====
-- What SendMessageImpl of src/DBusConnection.txx does, for the calls that are built on it.
use cxx_bus.Base.{
  ◌+◌, ◌≡◌, refl, ◌∙◌, ap, Bool, true, false, List, [], ◌∷◌, ◌++◌, if◌then◌else◌, Error, Result, ok,
  err, runtime_error, suspended, Bool-cases, inl, inr, ◌⊎◌, arith,
}
use cxx_bus.Message.{Message}
use cxx_bus.Message.Building.{expects_reply}
use cxx_bus.Incoming.{IncomingMessage}
use cxx_bus.Connection.State.{State, Outcome, Run, ◌>>=◌, lift}
use cxx_bus.Connection.Requests.{wait_until_ready, exchange, send_message}

-- The reply to a message, or the exception, where the connection is ready or not.
abbrev pub reply_to : (Message → Result IncomingMessage) → Bool → Message → Result IncomingMessage
reply_to bus ready m =
    if ready then (if expects_reply m then bus m else err runtime_error) else err suspended

abbrev pub sent_of : Bool → Message → List Message
sent_of ready m = if ready then (if expects_reply m then m ∷ [] else []) else []

-- The state behind the wait for the connection.
abbrev pub waited : {F : Type 0} → State F → State F
waited s = if s.connection_ready then s else record s { nr_of_waiters = s.nr_of_waiters + 1 }

pub send_message_lem :
    {F : Type 0} (bus : Message → Result IncomingMessage) (m : Message) (s : State F)
    → send_message bus m s ≡ record {
      state = waited s;
      sent = sent_of s.connection_ready m;
      result = reply_to bus s.connection_ready m;
    }
unfolding send_message wait_until_ready exchange
send_message_lem bus m s = elim (Bool-cases s.connection_ready) [
  | inl ready ↦ elim (Bool-cases (expects_reply m)) [
    | inl e ↦ rw (ready, e) refl
    | inr e ↦ rw (ready, e) refl
  ]
  | inr waits ↦ rw waits refl
]

-- A call that is built or not, its reply, and what is done behind it.
abbrev pub call_and {ℓ} :
    {F : Type 0} {A : Type ℓ}
    → (Message → Result IncomingMessage)
    → Result Message
    → (IncomingMessage → Run F A)
    → Run F A
call_and bus call rest = do m ← lift call; reply ← send_message bus m; rest reply

-- The reply to a call that is built or not.
abbrev pub answer :
    (Message → Result IncomingMessage) → Bool → Result Message → Result IncomingMessage
answer bus ready (err e) = err e
answer bus ready (ok m) = reply_to bus ready m

abbrev pub sent_by : Bool → Result Message → List Message
sent_by ready (err e) = []
sent_by ready (ok m) = sent_of ready m

-- The state in which the code behind a call runs.
abbrev pub state_of : {F : Type 0} → Result Message → State F → State F
state_of (err e) s = s
state_of (ok m) s = waited s

-- What follows an outcome.
abbrev pub after {ℓ κ} :
    {F : Type 0} {A : Type ℓ} {B : Type κ} → (A → Run F B) → Outcome F A → Outcome F B
after f o = elim o.result [
  | err e ↦ record { state = o.state; sent = o.sent; result = err e }
  | ok a ↦ record {
    state = (f a o.state).state;
    sent = o.sent ++ (f a o.state).sent;
    result = (f a o.state).result;
  }
]

module _ {ℓ} {F : Type 0} {A : Type ℓ} (bus : Message → Result IncomingMessage) where
  pub call_and-ok :
      (call : Result Message) (rest : IncomingMessage → Run F A) (s : State F)
      (reply : IncomingMessage)
      → answer bus s.connection_ready call ≡ ok reply
      → call_and bus call rest s ≡ record {
        state = (rest reply (state_of call s)).state;
        sent = sent_by s.connection_ready call ++ (rest reply (state_of call s)).sent;
        result = (rest reply (state_of call s)).result;
      }
  call_and-ok (err x) rest s reply e = absurd (cc e)
  call_and-ok (ok m) rest s reply e = ap (after rest) (send_message_lem bus m s) ∙ rw e refl

  pub call_and-err :
      (call : Result Message) (rest : IncomingMessage → Run F A) (s : State F) (e : Error)
      → answer bus s.connection_ready call ≡ err e
      → call_and bus call rest s
        ≡ record { state = state_of call s; sent = sent_by s.connection_ready call; result = err e }
  call_and-err (err x) rest s e h = cc h
  call_and-err (ok m) rest s e h = ap (after rest) (send_message_lem bus m s) ∙ rw h refl

pub Result-cases {ℓ} :
    {A : Type ℓ} (r : Result A) → ((e : Error) × (r ≡ err e)) ⊎ ((a : A) × (r ≡ ok a))
Result-cases (err e) = inl (e, refl)
Result-cases (ok a) = inr (a, refl)

abbrev pub is_ok {ℓ} : {A : Type ℓ} → Result A → Bool
is_ok (ok a) = true
is_ok (err e) = false

-- A call leaves the connection as ready as it is.
pub ready-state_of :
    {F : Type 0} (call : Result Message) (s : State F)
    → (state_of call s).connection_ready ≡ s.connection_ready
ready-state_of (err e) s = refl
ready-state_of (ok m) s = ground arith

pub call_and-ready {ℓ} :
    {F : Type 0} {A : Type ℓ} (bus : Message → Result IncomingMessage) (call : Result Message)
    (rest : IncomingMessage → Run F A) (s : State F)
    → ((reply : IncomingMessage) (t : State F)
        → (rest reply t).state.connection_ready ≡ t.connection_ready)
    → (call_and bus call rest s).state.connection_ready ≡ s.connection_ready
call_and-ready bus call rest s keeps = elim (Result-cases (answer bus s.connection_ready call)) [
  | inl (e, refused) ↦
      ap (λ o. o.state.connection_ready) (call_and-err bus call rest s e refused)
      ∙ ready-state_of call s
  | inr (reply, agreed) ↦
      ap (λ o. o.state.connection_ready) (call_and-ok bus call rest s reply agreed)
      ∙ (keeps reply (state_of call s) ∙ ready-state_of call s)
]

-- A call to which the bus agrees, where the connection is ready.
pub call_and-agreed {ℓ} :
    {F : Type 0} {A : Type ℓ} (bus : Message → Result IncomingMessage) (call : Result Message)
    (rest : IncomingMessage → Run F A) (s : State F) (reply : IncomingMessage)
    → s.connection_ready ≡ true
    → answer bus true call ≡ ok reply
    → call_and bus call rest s ≡ record {
      state = (rest reply s).state;
      sent = sent_by true call ++ (rest reply s).sent;
      result = (rest reply s).result;
    }
call_and-agreed {F = F} {A = A} bus call rest s reply ready agreed =
    call_and-ok bus call rest s reply (ap (λ b. answer bus b call) ready ∙ agreed)
    ∙ (ap (λ t. outcome s.connection_ready t) (same call) ∙ ap (λ b. outcome b s) ready)
  where
    outcome : Bool → State F → Outcome F A
    outcome b t = record {
      state = (rest reply t).state;
      sent = sent_by b call ++ (rest reply t).sent;
      result = (rest reply t).result;
    }

    same : (c : Result Message) → state_of c s ≡ s
    same (err e) = refl
    same (ok m) = simp ready
