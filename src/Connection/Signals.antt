-- ===== src/Connection/Signals.antt =====
-- Which handlers a signal reaches: HandleReadMessage of src/DBusConnection.txx together with
-- DBusMatchRule::Matches and DBusNameCache.
use cxx_bus.Base.{
  ℕ, ◌≡◌, ◌≢◌, refl, sym, ◌∙◌, ap, Bool, true, false, List, [], ◌∷◌, ◌++◌, some, if◌then◌else◌,
  ◌==◌, Text, text_eq, text_eq_iff, All, Result, ok, arith, Bool-cases, inl, inr,
}
use cxx_bus.Message.{type_number, signal}
use cxx_bus.Incoming.{IncomingMessage, text_of}
use cxx_bus.NameCache.{contains, find, set_of, get_well_known_names}
use cxx_bus.MatchRule.{MatchRule}
use cxx_bus.MatchRule.Matching.{matches, check_header, check_names, check_text}
use cxx_bus.Connection.State.{State, MatchRuleInfo}
use cxx_bus.Connection.Dispatch.{
  Handled, done, after_invoking, ◌>>=◌, invoke_all, dispatch_signal, dispatch_call, dispatch,
}

module _ {F : Type 0} (react : F → IncomingMessage → Result Bool) (fuel : ℕ) where
  -- No coroutine of the user throws.
  abbrev pub Calm : IncomingMessage → List F → Type 0
  Calm m = All (λ f. (b : Bool) × (react f m ≡ ok b))

  pub invoke_all_lem :
      (fs : List F) (m : IncomingMessage)
      → Calm m fs
      → invoke_all react fuel fs m ≡ record { invoked = fs; sent = []; result = ok tt }
  unfolding invoke_all
  invoke_all_lem [] m calm = refl
  invoke_all_lem (f ∷ fs) m calm =
      rw (calm.0.1, invoke_all) (ap (after_invoking f) (invoke_all_lem fs m calm.1))

  -- The handlers of the rules that match, in order.
  abbrev pub reached : (MatchRule → Bool) → List (MatchRuleInfo F) → List F
  reached matched [] = []
  reached matched (i ∷ infos) =
      if matched i.rule then i.callbacks ++ reached matched infos else reached matched infos

  -- Each rule can be compared with the message, and says whether it matches.
  abbrev pub Decides : IncomingMessage → List Text → (MatchRule → Bool) → MatchRuleInfo F → Type 0
  Decides m names matched i =
      (matches fuel i.rule m names ≡ ok (matched i.rule)) × Calm m i.callbacks

  after_all : List F → Handled F (Unit {0}) → Handled F (Unit {0})
  after_all fs h = record { invoked = fs ++ h.invoked; sent = h.sent; result = h.result }

  dispatch_signal_lem :
      (infos : List (MatchRuleInfo F)) (m : IncomingMessage) (names : List Text)
      (matched : MatchRule → Bool)
      → All (Decides m names matched) infos
      → dispatch_signal react fuel infos m names
        ≡ record { invoked = reached matched infos; sent = []; result = ok tt }
  unfolding dispatch_signal after_all
  dispatch_signal_lem [] m names matched all = refl
  dispatch_signal_lem (i ∷ infos) m names matched all = elim (Bool-cases (matched i.rule)) [
    | inl e ↦
        let is : matches fuel i.rule m names ≡ ok true = all.0.0 ∙ ap ok e in
        rw (is, dispatch_signal, e)
          (ap (λ h. h >>= λ u. dispatch_signal react fuel infos m names)
              (invoke_all_lem i.callbacks m all.0.1)
            ∙ ap (after_all i.callbacks) (dispatch_signal_lem infos m names matched all.1))
    | inr e ↦
        let is : matches fuel i.rule m names ≡ ok false = all.0.0 ∙ ap ok e in
        rw (is, dispatch_signal, e) (dispatch_signal_lem infos m names matched all.1)
  ]

  dispatch-signal :
      (s : State F) (m : IncomingMessage)
      → m.header.message_type ≡ signal
      → dispatch react fuel s m
        ≡ dispatch_signal react fuel s.match_rules m
            (get_well_known_names (text_of m.header.sender_of) s.name_cache)
  unfolding dispatch
  dispatch-signal s m is =
      ap
        (λ t.
          if type_number t == type_number signal
          then dispatch_signal react fuel s.match_rules m
              (get_well_known_names (text_of m.header.sender_of) s.name_cache)
          else dispatch_call react fuel s m)
        is

  -- A signal invokes exactly the handlers of the rules that match it, rule by rule, in the order of
  -- the rules and of their handlers, and sends nothing, where no rule throws and none of the handlers
  -- does. The names that the rules are given are those of the cache.
  pub dispatch-reached :
      (s : State F) (m : IncomingMessage) (matched : MatchRule → Bool)
      → m.header.message_type ≡ signal
      → All
          (Decides m (get_well_known_names (text_of m.header.sender_of) s.name_cache) matched)
          s.match_rules
      → dispatch react fuel s m
        ≡ record { invoked = reached matched s.match_rules; sent = []; result = ok tt }
  dispatch-reached s m matched is all =
      dispatch-signal s m is
      ∙ dispatch_signal_lem s.match_rules m
          (get_well_known_names (text_of m.header.sender_of) s.name_cache) matched all

  -- A rule does not match where a name that it is given is not the sender.
  foreign-matches :
      (r : MatchRule) (m : IncomingMessage) (names : List Text)
      → check_names m.header.sender_of names ≡ false
      → matches fuel r m names ≡ ok false
  unfolding matches check_header
  foreign-matches r m names foreign = ground (arith, foreign)

  check_names-foreign :
      (u n : Text) (names : List Text)
      → contains names n ≡ true
      → n ≢ u
      → check_names (some u) names ≡ false
  unfolding check_names check_text contains
  check_names-foreign u n [] h other = absurd (cc h)
  check_names-foreign u n (x ∷ names) h other = elim (Bool-cases (text_eq x n)) [
    | inl e ↦
        let same : x ≡ n = (text_eq_iff x n).0 e in
        elim (Bool-cases (text_eq u x)) [
          | inl f ↦ absurd (other (sym same ∙ sym ((text_eq_iff u x).0 f)))
          | inr f ↦ rw f refl
        ]
    | inr e ↦ let rest = check_names-foreign u n names (rw e at h) other in rw rest (ground arith)
  ]

  dispatch_signal-foreign :
      (infos : List (MatchRuleInfo F)) (m : IncomingMessage) (names : List Text)
      → check_names m.header.sender_of names ≡ false
      → dispatch_signal react fuel infos m names ≡ done tt
  unfolding dispatch_signal
  dispatch_signal-foreign [] m names foreign = refl
  dispatch_signal-foreign (i ∷ infos) m names foreign =
      rw (foreign-matches i.rule m names foreign, dispatch_signal)
        (dispatch_signal-foreign infos m names foreign)

  contains-later :
      (u n : Text) (names : List Text) → contains names n ≡ true → contains (u ∷ names) n ≡ true
  unfolding contains
  contains-later u n names h = ground (arith, h)

  -- Once the cache has a well-known name for a unique connection name `u`, a signal whose sender is
  -- `u` invokes no handler at all, whatever rules there are, and nothing is thrown.
  pub dispatch-silenced :
      (s : State F) (m : IncomingMessage) (u n : Text)
      → m.header.message_type ≡ signal
      → m.header.sender_of ≡ some u
      → contains (set_of (find s.name_cache u)) n ≡ true
      → n ≢ u
      → dispatch react fuel s m ≡ record { invoked = []; sent = []; result = ok tt }
  unfolding get_well_known_names
  dispatch-silenced s m u n is from owned other =
      let names : List Text = set_of (find s.name_cache u) in
      let foreign : check_names (some u) (u ∷ names) ≡ false =
        check_names-foreign u n (u ∷ names) (contains-later u n names owned) other in
      dispatch-signal s m is
      ∙ (ap
            (λ o.
              dispatch_signal react fuel s.match_rules m
                (get_well_known_names (text_of o) s.name_cache))
            from
          ∙ dispatch_signal-foreign s.match_rules m (u ∷ names)
              (ap (λ o. check_names o (u ∷ names)) from ∙ foreign))
