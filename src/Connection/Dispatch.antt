-- ===== src/Connection/Dispatch.antt =====
-- What a connection does with a message: HandleReadMessage of src/DBusConnection.txx, where all
-- runs on the context of the user, and the registration of handlers.
use cxx_bus.Base.{
  ℕ, Bool, true, false, List, [], ◌∷◌, ◌++◌, none, some, if◌then◌else◌, ◌==◌, Text, text_eq, codes,
  Error, Result, ok, err, add32,
}
use cxx_bus.Message.{Message, type_number, signal}
use cxx_bus.Message.Building.{make_error, no_reply_expected, with_flag, expects_reply}
use cxx_bus.Incoming.{IncomingMessage, text_of}
use cxx_bus.NameCache.{get_well_known_names}
use cxx_bus.MatchRule.Matching.{matches}
use cxx_bus.Connection.Channels.{Channels}
use cxx_bus.Connection.Replies.{Replies, handle_reply}
use cxx_bus.Connection.State.{State, MatchRuleInfo}

-- What happens: the coroutines of the user that run, in order, the messages that are sent without
-- waiting for a reply, and how it ends.
pub record Handled (F : Type 0) (A : Type 0) : Type 0 where
  pub invoked : List F
  pub sent : List Message
  pub result : Result A

module _ {F A : Type 0} where
  abbrev pub done : A → Handled F A
  done a = record { invoked = []; sent = []; result = ok a }

  abbrev pub thrown : Error → Handled F A
  thrown e = record { invoked = []; sent = []; result = err e }

  -- A coroutine runs before the rest.
  abbrev pub after_invoking : F → Handled F A → Handled F A
  after_invoking f h = record { invoked = f ∷ h.invoked; sent = h.sent; result = h.result }

-- What is behind an exception does not run.
infixl 5 ◌>>=◌
abbrev pub ◌>>=◌ : {F A B : Type 0} → Handled F A → (A → Handled F B) → Handled F B
h >>= rest = elim h.result [
  | err e ↦ record { invoked = h.invoked; sent = h.sent; result = err e }
  | ok a ↦ record {
    invoked = h.invoked ++ (rest a).invoked;
    sent = h.sent ++ (rest a).sent;
    result = (rest a).result;
  }
]

-- The error that answers a message that nothing has handled.
unfoldable pub unknown_method : IncomingMessage → Result Message
unknown_method m =
    make_error m.header.serial m.header.sender_of (codes "org.freedesktop.DBus.Error.UnknownMethod")
      (codes "The method called is not implemented by this connection")

-- SendMessageNoReplyImpl before it sends: the flag is added where it is missing.
unfoldable pub without_reply : Message → Message
without_reply m = if expects_reply m then with_flag no_reply_expected m else m

-- The two std::unordered_map. Their loops go over the entries in the order in which the container
-- keeps them, which is that of the list; where a new entry is put, and what becomes of the order of
-- the others, is not said of the container, and is the parameter `arrange`.
unfoldable pub has_handlers : {F : Type 0} → Text → List (Text × List F) → Bool
has_handlers p [] = false
has_handlers p ((q, fs) ∷ l) = if text_eq q p then true else has_handlers p l

-- The handlers of all paths.
unfoldable pub all_handlers : {F : Type 0} → List (Text × List F) → List F
all_handlers [] = []
all_handlers ((q, fs) ∷ l) = fs ++ all_handlers l

-- RegisterObjectPathHandlerImpl and UnregisterObjectPathHandlerImpl.
unfoldable add_handler : {F : Type 0} → Text → F → List (Text × List F) → List (Text × List F)
add_handler p f [] = []
add_handler p f ((q, fs) ∷ l) =
    if text_eq q p then (q, fs ++ (f ∷ [])) ∷ l else (q, fs) ∷ add_handler p f l

unfoldable pub register_handler :
    {F : Type 0}
    → (List (Text × List F) → List (Text × List F))
    → Text
    → F
    → List (Text × List F)
    → List (Text × List F)
unfolding has_handlers add_handler
register_handler arrange p f l =
    if has_handlers p l then add_handler p f l else arrange ((p, f ∷ []) ∷ l)

unfoldable pub unregister_handlers :
    {F : Type 0} → Text → List (Text × List F) → List (Text × List F)
unregister_handlers p [] = []
unregister_handlers p ((q, fs) ∷ l) =
    if text_eq q p then unregister_handlers p l else (q, fs) ∷ unregister_handlers p l

-- `emplace`, which keeps what is there, and `erase` of the filters.
unfoldable has_filter : {F : Type 0} → ℕ → List (ℕ × F) → Bool
has_filter n [] = false
has_filter n ((k, g) ∷ l) = if k == n then true else has_filter n l

unfoldable pub emplace_filter :
    {F : Type 0} → (List (ℕ × F) → List (ℕ × F)) → ℕ → F → List (ℕ × F) → List (ℕ × F)
unfolding has_filter
emplace_filter arrange n f l = if has_filter n l then l else arrange ((n, f) ∷ l)

unfoldable pub erase_filter : {F : Type 0} → ℕ → List (ℕ × F) → List (ℕ × F)
erase_filter n [] = []
erase_filter n ((k, g) ∷ l) = if k == n then erase_filter n l else (k, g) ∷ erase_filter n l

-- RegisterMessageFilter, with the number that it returns, and UnregisterMessageFilter.
unfoldable pub register_message_filter :
    {F : Type 0} → (List (ℕ × F) → List (ℕ × F)) → F → State F → State F × ℕ
unfolding emplace_filter
register_message_filter arrange f s = (
  record s {
    message_filter_id = add32 s.message_filter_id 1;
    message_filters = emplace_filter arrange s.message_filter_id f s.message_filters;
  },
  s.message_filter_id,
)

unfoldable pub unregister_message_filter : {F : Type 0} → ℕ → State F → State F
unfolding erase_filter
unregister_message_filter n s = record s { message_filters = erase_filter n s.message_filters }

-- RegisterObjectPathHandler, UnregisterObjectPathHandler and ReceiveIncomingMessages.
unfoldable pub register_object_path_handler :
    {F : Type 0} → (List (Text × List F) → List (Text × List F)) → Text → F → State F → State F
unfolding register_handler
register_object_path_handler arrange p f s = record s {
  object_path_handlers = register_handler arrange p f s.object_path_handlers;
}

unfoldable pub unregister_object_path_handler : {F : Type 0} → Text → State F → State F
unfolding unregister_handlers
unregister_object_path_handler p s = record s {
  object_path_handlers = unregister_handlers p s.object_path_handlers;
}

unfoldable pub receive_incoming_messages : {F : Type 0} → F → State F → State F
receive_incoming_messages f s = record s { on_incoming = s.on_incoming ++ (f ∷ []) }

-- `react` is what a coroutine of the user makes of a message: whether it has handled it, which only
-- filters and receivers of all messages say, or an exception. `fuel` is that of WalkSignature.
module _ {F : Type 0} (react : F → IncomingMessage → Result Bool) (fuel : ℕ) where
  -- A loop of co_await over handlers.
  unfoldable pub invoke_all : List F → IncomingMessage → Handled F (Unit {0})
  invoke_all [] m = done tt
  invoke_all (f ∷ fs) m =
      let rest = after_invoking f (invoke_all fs m) in
      elim (react f m) [ err e ↦ after_invoking f (thrown e) | ok b ↦ rest ]

  -- A loop that ends at the first that has handled the message.
  unfoldable pub invoke_until : List F → IncomingMessage → Handled F Bool
  invoke_until [] m = done false
  invoke_until (f ∷ fs) m =
      let rest = after_invoking f (invoke_until fs m) in
      elim (react f m) [
        | err e ↦ after_invoking f (thrown e)
        | ok true ↦ after_invoking f (done true)
        | ok false ↦ rest
      ]

  -- The loop over the match rules.
  unfoldable pub dispatch_signal :
      List (MatchRuleInfo F) → IncomingMessage → List Text → Handled F (Unit {0})
  unfolding invoke_all
  dispatch_signal [] m names = done tt
  dispatch_signal (i ∷ infos) m names =
      let rest = dispatch_signal infos m names in
      elim (matches fuel i.rule m names) [
        | err e ↦ thrown e
        | ok true ↦ invoke_all i.callbacks m >>= λ u. rest
        | ok false ↦ rest
      ]

  abbrev pub values : List (ℕ × F) → List F
  values [] = []
  values ((n, f) ∷ l) = f ∷ values l

  -- The last statement of HandleReadMessage.
  unfoldable pub refuse : IncomingMessage → Handled F (Unit {0})
  unfolding unknown_method without_reply
  refuse m = elim (unknown_method m) [
    | err e ↦ thrown e
    | ok reply ↦ record { invoked = []; sent = without_reply reply ∷ []; result = ok tt }
  ]

  -- What is neither a reply nor a signal.
  unfoldable pub dispatch_call : State F → IncomingMessage → Handled F (Unit {0})
  unfolding invoke_until invoke_all has_handlers all_handlers refuse
  dispatch_call s m = invoke_until (values s.message_filters) m >>= λ filtered.
      if filtered
      then done tt
      else if has_handlers (text_of m.header.object) s.object_path_handlers
      then invoke_all (all_handlers s.object_path_handlers) m
      else invoke_until s.on_incoming m >>= λ received. if received then done tt else refuse m

  -- The branch without a reply serial.
  unfoldable pub dispatch : State F → IncomingMessage → Handled F (Unit {0})
  unfolding dispatch_signal dispatch_call
  dispatch s m =
      if type_number m.header.message_type == type_number signal
      then dispatch_signal s.match_rules m
          (get_well_known_names (text_of m.header.sender_of) s.name_cache)
      else dispatch_call s m

  -- HandleReadMessage: the reply channels behind it, and what happens.
  unfoldable pub handle_read_message :
      (asio : Channels IncomingMessage)
      → Replies asio
      → State F
      → IncomingMessage
      → Replies asio × Handled F (Unit {0})
  unfolding dispatch
  handle_read_message asio r s m = elim m.header.reply_to [
    | some n ↦ elim (handle_reply asio n m r) [ ok r' ↦ (r', done tt) | err e ↦ (r, thrown e) ]
    | none ↦ (r, dispatch s m)
  ]
