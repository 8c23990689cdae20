-- ===== src/Connection/Handlers.antt =====
-- Who handles a call: the part of HandleReadMessage of src/DBusConnection.txx that is neither about
-- replies nor about signals.
use cxx_bus.Base.{
  ℕ, ◌≡◌, Bool, true, false, List, [], ◌∷◌, ◌++◌, some, if◌then◌else◌, codes, All, Result, ok,
}
use cxx_bus.Codec.Bytes.{Bytes}
use cxx_bus.Message.{Message, error}
use cxx_bus.Message.Building.{blank}
use cxx_bus.Incoming.{IncomingMessage, text_of}
use cxx_bus.Connection.State.{State}
use cxx_bus.Connection.Dispatch.{
  Handled, done, ◌>>=◌, without_reply, has_handlers, all_handlers, invoke_all, invoke_until, refuse,
}

-- The bytes of the explanation: its length, its characters and a zero.
abbrev pub explanation : Bytes
explanation =
    55 ∷ 0 ∷ 0 ∷ 0 ∷ (codes "The method called is not implemented by this connection" ++ (0 ∷ []))

-- The error that answers a call that nobody handles.
unfoldable pub refusal : IncomingMessage → Message
refusal m = record (blank error) {
  error_of = some (codes "org.freedesktop.DBus.Error.UnknownMethod");
  reply_to = some m.header.serial;
  destination_of = m.header.sender_of;
  signature_of = some (codes "s");
  body = explanation;
}

module _ {F : Type 0} (react : F → IncomingMessage → Result Bool) (fuel : ℕ)
    (handles : F → Bool) where
  -- Those that are asked, up to the first that handles the message, and whether there is one.
  abbrev pub until : List F → List F
  until [] = []
  until (f ∷ fs) = if handles f then f ∷ [] else f ∷ until fs

  abbrev pub some_handles : List F → Bool
  some_handles [] = false
  some_handles (f ∷ fs) = if handles f then true else some_handles fs

  -- What the coroutines say of a message; none of them throws.
  abbrev pub Says : IncomingMessage → List F → Type 0
  Says m = All (λ f. react f m ≡ ok (handles f))

  -- A call that the filters let through.
  abbrev pub behind_filters : State F → IncomingMessage → Handled F (Unit {0})
  behind_filters s m =
      if has_handlers (text_of m.header.object) s.object_path_handlers
      then record { invoked = all_handlers s.object_path_handlers; sent = []; result = ok tt }
      else record {
        invoked = until s.on_incoming;
        sent = if some_handles s.on_incoming then [] else without_reply (refusal m) ∷ [];
        result = ok tt;
      }

  abbrev after_filters : State F → IncomingMessage → Bool → Handled F (Unit {0})
  after_filters s m filtered =
      if filtered
      then done tt
      else if has_handlers (text_of m.header.object) s.object_path_handlers
      then invoke_all react fuel (all_handlers s.object_path_handlers) m
      else invoke_until react fuel s.on_incoming m >>= λ received.
          if received then done tt else refuse react fuel m

  -- These, and nothing is sent.
  abbrev pub kept : List F → Handled F (Unit {0})
  kept fs = record { invoked = fs; sent = []; result = ok tt }

  -- First these, then the rest.
  abbrev pub then_all : List F → Handled F (Unit {0}) → Handled F (Unit {0})
  then_all fs h = record { invoked = fs ++ h.invoked; sent = h.sent; result = h.result }
