-- ===== src/Connection/Waiters.antt =====
-- The coroutines that wait for a connection to be ready: SendMessageImpl, SendMessageNoReplyImpl,
-- Connect and CloseData of src/DBusConnection.txx.
use cxx_bus.Base.{
  Option, Text, ℕ, ◌+◌, ◌≤◌, ◌≡◌, Bool, true, false, ok, if◌then◌else◌, arith, Result,
}
use cxx_bus.Message.{Message}
use cxx_bus.Incoming.{IncomingMessage}
use cxx_bus.Connection.State.{State, construct}
use cxx_bus.Connection.Requests.{wait_until_ready, close_data}
use cxx_bus.Connection.Handshake.{become_ready}

module _ (F : Type 0) (bus : Message → Result IncomingMessage) where
  -- Coroutines suspended in async_receive on connectionCompleted, what has been sent on it and not
  -- been received, whether Connect has come to its end, which happens once for a connection, and
  -- the coroutines that have gone on.
  pub record Hall : Type 0 where
    pub state : State F
    pub suspended : ℕ
    pub posted : ℕ
    pub connected : Bool
    pub resumed : ℕ

  pub data Step (s t : Hall) : Type 0 where
    -- a message is to be sent before the connection is ready
    waits :
        s.state.connection_ready ≡ false
        → t ≡ record s { state = (wait_until_ready bus s.state).state; suspended = s.suspended + 1 }
        → Step s t
    -- Connect ends
    connects :
        (wakes : Bool)
        → s.connected ≡ false
        → (become_ready bus s.state).result ≡ ok wakes
        → t ≡ record s {
          state = (become_ready bus s.state).state;
          posted = if wakes then s.posted + 1 else s.posted;
          connected = true;
        }
        → Step s t
    -- one of those who wait receives
    resumes :
        (p n : ℕ)
        → s.posted ≡ p + 1
        → s.suspended ≡ n + 1
        → t ≡ record s { posted = p; suspended = n; resumed = s.resumed + 1 }
        → Step s t
    -- the connection is closed
    closes : t ≡ record s { state = (close_data bus s.state).state } → Step s t

  pub data Reach (name : Option Text) : Hall → Type 0 where
    here : Reach name (record {
      state = construct F name;
      suspended = 0;
      posted = 0;
      connected = false;
      resumed = 0;
    })
    next : {s t : Hall} → Reach name s → Step s t → Reach name t

  -- At most one message on the channel, ever, and as many who wait and who have gone on as
  -- the counter says.
  pub record Counted (s : Hall) : Type 0 where
    pub once : s.posted + s.resumed ≤ (if s.connected then 1 else 0)
    pub all : s.suspended + s.resumed ≡ s.state.nr_of_waiters

  waits_lem :
      (s : State F)
      → s.connection_ready ≡ false
      → (wait_until_ready bus s).state.nr_of_waiters ≡ s.nr_of_waiters + 1
  unfolding wait_until_ready
  waits_lem s early = simp early

  connects_lem :
      (wakes connected : Bool) (posted resumed : ℕ)
      → connected ≡ false
      → posted + resumed ≤ (if connected then 1 else 0)
      → (if wakes then posted + 1 else posted) + resumed ≤ 1
  connects_lem wakes connected posted resumed new c = ground (arith, new, c)

  Step-Counted : {s t : Hall} → Step s t → Counted s → Counted t
  unfolding become_ready close_data
  Step-Counted {s} {t} (waits early e) c =
      rw e (record { once = c.once; all = omega (arith, c.all, waits_lem s.state early) })
  Step-Counted {s} {t} (connects wakes new r e) c =
      rw e (record {
        once = connects_lem wakes s.connected s.posted s.resumed new c.once;
        all = c.all;
      })
  Step-Counted {s} {t} (resumes p n ep en e) c =
      rw e (record { once = omega (arith, c.once, ep); all = omega (arith, c.all, en) })
  Step-Counted {s} {t} (closes e) c = rw e (record { once = c.once; all = c.all })

  Reach-Counted : {name : Option Text} {s : Hall} → Reach name s → Counted s
  unfolding construct
  Reach-Counted here = record { once = omega arith; all = omega arith }
  Reach-Counted (next r st) = Step-Counted st (Reach-Counted r)

  -- Whatever the order in which messages are sent, the connection is made and it is closed, at most
  -- one of the coroutines that wait for the connection to be ready ever goes on: all others, of as
  -- many as the counter says, stay suspended, also when the connection is ready.
  pub resumed_once :
      (name : Option Text) (s : Hall)
      → Reach name s
      → (s.resumed ≤ 1) × (s.suspended + s.resumed ≡ s.state.nr_of_waiters)
  resumed_once name s r = let c = Reach-Counted r in (ground (arith, c.once), c.all)
