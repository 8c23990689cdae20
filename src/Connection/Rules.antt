-- ===== src/Connection/Rules.antt =====
-- The registry of match rules of a connection: AddMatchRuleImpl and RemoveMatchRuleImpl of
-- src/DBusConnection.txx, against the history of the requests.
use mathlib.Core.Logic.{ite}
use cxx_bus.Base.{
  ◌≡◌, refl, ◌∙◌, ap, Bool, List, [], ◌∷◌, ◌++◌, if◌then◌else◌, Result, ok, err, inl, inr, arith,
  Bool-cases,
}
use cxx_bus.Message.{Message}
use cxx_bus.Incoming.{IncomingMessage}
use cxx_bus.MatchRule.{MatchRule}
use cxx_bus.Connection.State.{State, Run, modify}
use cxx_bus.Connection.Requests.{
  MatchRule-discrete, add_match_call, remove_match_call, add_rule, remove_rule, add_match_rule,
  remove_match_rule,
}
use cxx_bus.Connection.Sending.{
  Result-cases, is_ok, answer, state_of, call_and-ok, call_and-err, call_and-ready,
}
use cxx_bus.Connection.Registry.{
  registered, Distinct, registered-add, Distinct-add, registered-remove, Distinct-remove,
}

-- What the bus makes of a message at one time: the reply, or an exception.
abbrev pub Bus : Type 0
Bus = Message → Result IncomingMessage

-- What a user asks of a connection.
pub data Wish (F : Type 0) : Type 0 where
  adds : MatchRule → F → Bool → Wish F
  removes : MatchRule → Wish F

module _ (bus : Message → Result IncomingMessage) where
  abbrev pub perform : {F : Type 0} → Wish F → Run F (Unit {0})
  perform (adds r c u) = add_match_rule bus r c u
  perform (removes r) = remove_match_rule bus r

  -- The handlers that a wish leaves a rule with, as far as the bus agrees; where the connection is
  -- not ready, the wish waits.
  abbrev pub heeds : {F : Type 0} → Bool → MatchRule → Wish F → List F → List F
  heeds ready r (adds q c u) cs =
      if is_ok (answer bus ready (add_match_call q))
      then ite (MatchRule-discrete q r) (cs ++ (c ∷ [])) cs
      else cs
  heeds ready r (removes q) cs =
      if is_ok (answer bus ready (remove_match_call q))
      then ite (MatchRule-discrete q r) [] cs
      else cs

  rules-state_of :
      {F : Type 0} (call : Result Message) (s : State F)
      → (state_of call s).match_rules ≡ s.match_rules
  rules-state_of (err e) s = refl
  rules-state_of (ok m) s = ground arith

  perform-adds :
      {F : Type 0} (q : MatchRule) (c : F) (u : Bool) (s : State F)
      → (perform (adds q c u) s).state.match_rules ≡ (
          if is_ok (answer bus s.connection_ready (add_match_call q))
          then add_rule q c u s.match_rules
          else s.match_rules)
  unfolding add_match_rule
  perform-adds {F} q c u s =
      elim (Result-cases (answer bus s.connection_ready (add_match_call q))) [
        | inl (e, refused) ↦ rw refused (
            ap (λ o. o.state.match_rules) (call_and-err bus (add_match_call q) rest s e refused)
            ∙ rules-state_of (add_match_call q) s)
        | inr (reply, agreed) ↦ rw agreed (
            ap (λ o. o.state.match_rules) (call_and-ok bus (add_match_call q) rest s reply agreed)
            ∙ ap (add_rule q c u) (rules-state_of (add_match_call q) s))
      ]
    where
      rest : IncomingMessage → Run F (Unit {0})
      rest reply = modify (λ s. record s { match_rules = add_rule q c u s.match_rules })

  perform-removes :
      {F : Type 0} (q : MatchRule) (s : State F)
      → (perform (removes q) s).state.match_rules ≡ (
          if is_ok (answer bus s.connection_ready (remove_match_call q))
          then remove_rule q s.match_rules
          else s.match_rules)
  unfolding remove_match_rule
  perform-removes {F} q s =
      elim (Result-cases (answer bus s.connection_ready (remove_match_call q))) [
        | inl (e, refused) ↦ rw refused (
            ap (λ o. o.state.match_rules) (call_and-err bus (remove_match_call q) rest s e refused)
            ∙ rules-state_of (remove_match_call q) s)
        | inr (reply, agreed) ↦ rw agreed (
            ap (λ o. o.state.match_rules)
              (call_and-ok bus (remove_match_call q) rest s reply agreed)
            ∙ ap (remove_rule q) (rules-state_of (remove_match_call q) s))
      ]
    where
      rest : IncomingMessage → Run F (Unit {0})
      rest reply = modify (λ s. record s { match_rules = remove_rule q s.match_rules })

  ready-perform :
      {F : Type 0} (w : Wish F) (s : State F)
      → (perform w s).state.connection_ready ≡ s.connection_ready
  unfolding add_match_rule remove_match_rule
  ready-perform (adds q c u) s =
      call_and-ready bus (add_match_call q)
        (λ reply. modify (λ t. record t { match_rules = add_rule q c u t.match_rules })) s
        (λ reply t. refl)
  ready-perform (removes q) s =
      call_and-ready bus (remove_match_call q)
        (λ reply. modify (λ t. record t { match_rules = remove_rule q t.match_rules })) s
        (λ reply t. refl)

  Distinct-perform :
      {F : Type 0} (w : Wish F) (s : State F)
      → Distinct s.match_rules
      → Distinct (perform w s).state.match_rules
  Distinct-perform (adds q c u) s d =
      elim (Bool-cases (is_ok (answer bus s.connection_ready (add_match_call q)))) [
        | inl e ↦ rw (perform-adds q c u s, e) (Distinct-add q c u s.match_rules d)
        | inr e ↦ rw (perform-adds q c u s, e) d
      ]
  Distinct-perform (removes q) s d =
      elim (Bool-cases (is_ok (answer bus s.connection_ready (remove_match_call q)))) [
        | inl e ↦ rw (perform-removes q s, e) (Distinct-remove q s.match_rules d)
        | inr e ↦ rw (perform-removes q s, e) d
      ]

  registered-perform :
      {F : Type 0} (r : MatchRule) (w : Wish F) (s : State F)
      → Distinct s.match_rules
      → registered r (perform w s).state.match_rules
        ≡ heeds s.connection_ready r w (registered r s.match_rules)
  registered-perform r (adds q c u) s d =
      elim (Bool-cases (is_ok (answer bus s.connection_ready (add_match_call q)))) [
        | inl e ↦ rw (perform-adds q c u s, e) (registered-add r q c u s.match_rules)
        | inr e ↦ rw (perform-adds q c u s, e) refl
      ]
  registered-perform r (removes q) s d =
      elim (Bool-cases (is_ok (answer bus s.connection_ready (remove_match_call q)))) [
        | inl e ↦ rw (perform-removes q s, e) (registered-remove r q s.match_rules d)
        | inr e ↦ rw (perform-removes q s, e) refl
      ]

module _ {F : Type 0} where
  -- One after the other, each with the answers that the bus gives then, whatever was thrown.
  abbrev pub perform_all : List (Bus × Wish F) → State F → State F
  perform_all [] s = s
  perform_all ((bus, w) ∷ ws) s = perform_all ws (perform bus w s).state

  -- The handlers that a history leaves a rule with: those added since it was last removed, in
  -- order, as far as the bus has agreed.
  abbrev pub history : Bool → MatchRule → List (Bus × Wish F) → List F → List F
  history ready r [] cs = cs
  history ready r ((bus, w) ∷ ws) cs = history ready r ws (heeds bus ready r w cs)

  -- From a registry in which no rule stands twice, as it is at the start, after any sequence of
  -- AddMatchRule and RemoveMatchRule that do not interrupt one another, with any answers of the bus,
  -- the handlers of a rule are exactly those that have been added since the rule was last removed, in
  -- the order in which they were added, where the requests to which the bus or the check of the
  -- message has answered by an exception do not count. Where the connection is not ready, all
  -- requests wait, and none counts.
  pub registered-perform_all :
      (r : MatchRule) (ws : List (Bus × Wish F)) (s : State F)
      → Distinct s.match_rules
      → registered r (perform_all ws s).match_rules
        ≡ history s.connection_ready r ws (registered r s.match_rules)
  registered-perform_all r [] s d = refl
  registered-perform_all r ((bus, w) ∷ ws) s d =
      registered-perform_all r ws (perform bus w s).state (Distinct-perform bus w s d)
      ∙ rw (ready-perform bus w s)
          (ap (history s.connection_ready r ws) (registered-perform bus r w s d))
