-- ===== src/Connection/Farewell.antt =====
-- What closing a connection sends, and what it leaves: CloseImpl of src/DBusConnection.txx where
-- the bus agrees to all requests.
use mathlib.Core.Logic.{if_pos}
use cxx_bus.Base.{
  suspended, if◌then◌else◌, ◌≡◌, refl, ◌∙◌, ap, true, false, List, [], ◌∷◌, ◌++◌, append-nil,
  Result, ok, err, All, Text, text_eq, ℕ, Bool-cases, inl, inr,
}
use cxx_bus.Codec.Types.{uint32, word, basic}
use cxx_bus.Message.{Message}
use cxx_bus.Incoming.{IncomingMessage, get}
use cxx_bus.NameCache.Sets.{text_eq_refl}
use cxx_bus.Connection.State.{State, MatchRuleInfo, Outcome, Run, ◌>>=◌, ◌>>◌, gets, modify}
use cxx_bus.Connection.Requests.{
  MatchRule-discrete, remove_match_call, release_name_call, contains_name, remove_name, remove_rule,
  remove_match_rule, check_owned, note_released, release_well_known_name, close_data, remove_rules,
  release_names, close_ready, close,
}
use cxx_bus.Connection.Sending.{answer, sent_by, call_and, call_and-agreed, after}

-- The requests of CloseImpl.
abbrev pub removals : {F : Type 0} → List (MatchRuleInfo F) → List Message
removals [] = []
removals (i ∷ infos) = sent_by true (remove_match_call i.rule) ++ removals infos

abbrev pub releases : List Text → List Message
releases [] = []
releases (n ∷ names) = sent_by true (release_name_call n) ++ releases names

-- The bus answers the removal of a rule, and the release of a name by a number.
abbrev pub Removable : {F : Type 0} → (Message → Result IncomingMessage) → MatchRuleInfo F → Type 0
Removable bus i =
    (reply : IncomingMessage) × (answer bus true (remove_match_call i.rule) ≡ ok reply)

abbrev pub Releasable : (Message → Result IncomingMessage) → Text → Type 0
Releasable bus n =
    (reply : IncomingMessage) × (code : ℕ) × (answer bus true (release_name_call n) ≡ ok reply)
    × (get (basic (word uint32)) reply ≡ ok code)

-- No name stands twice.
abbrev pub NamesDistinct : List Text → Type 0
NamesDistinct [] = Unit
NamesDistinct (n ∷ names) = (contains_name names n ≡ false) × NamesDistinct names

contains_name-first : (n : Text) (names : List Text) → contains_name (n ∷ names) n ≡ true
unfolding contains_name
contains_name-first n names = rw (text_eq_refl n) refl

remove_name-absent :
    (n : Text) (names : List Text) → contains_name names n ≡ false → remove_name n names ≡ names
unfolding contains_name remove_name
remove_name-absent n [] h = refl
remove_name-absent n (x ∷ names) h = elim (Bool-cases (text_eq x n)) [
  | inl e ↦ absurd (cc (rw e at h))
  | inr e ↦ rw e (ap (◌∷◌ x) (remove_name-absent n names (rw e at h)))
]

remove_name-first :
    (n : Text) (names : List Text)
    → contains_name names n ≡ false
    → remove_name n (n ∷ names) ≡ names
unfolding remove_name
remove_name-first n names h = rw (text_eq_refl n) (remove_name-absent n names h)

-- What the wait for the end of the read loop comes to.
abbrev pub awaited : {F : Type 0} → State F → Result (Unit {0})
awaited s = if s.reading then ok tt else err suspended

module _ {F : Type 0} (bus : Message → Result IncomingMessage) where
  -- A state whose connection is ready.
  abbrev IsReady : State F → Type 0
  IsReady s = s.connection_ready ≡ true

  -- The outcome of code that returns.
  abbrev returns : State F → List Message → Outcome F (Unit {0})
  returns s sent = record { state = s; sent = sent; result = ok tt }

  then_returns : List Message → Outcome F (Unit {0}) → Outcome F (Unit {0})
  then_returns sent o = record { state = o.state; sent = sent ++ o.sent; result = o.result }

  remove_match_rule_lem :
      (i : MatchRuleInfo F) (s : State F)
      → IsReady s
      → Removable bus i
      → remove_match_rule bus i.rule s
        ≡ returns
            (record s { match_rules = remove_rule i.rule s.match_rules })
            (sent_by true (remove_match_call i.rule))
  unfolding remove_match_rule
  remove_match_rule_lem i s ready (reply, agreed) =
      call_and-agreed bus (remove_match_call i.rule) rest s reply ready agreed
      ∙ ap (returns (record s { match_rules = remove_rule i.rule s.match_rules }))
          (append-nil (sent_by true (remove_match_call i.rule)))
    where
      rest : IncomingMessage → Run F (Unit {0})
      rest reply = modify (λ s. record s { match_rules = remove_rule i.rule s.match_rules })

  remove_rule-first :
      (i : MatchRuleInfo F) (infos : List (MatchRuleInfo F))
      → remove_rule i.rule (i ∷ infos) ≡ infos
  unfolding remove_rule
  remove_rule-first i infos =
      let same : i.rule ≡ i.rule = refl in if_pos (MatchRule-discrete i.rule i.rule) same infos _

  remove_rules_lem :
      (infos : List (MatchRuleInfo F)) (s : State F)
      → IsReady s
      → All (Removable bus) infos
      → remove_rules bus infos (record s { match_rules = infos })
        ≡ returns (record s { match_rules = [] }) (removals infos)
  unfolding remove_rules then_returns
  remove_rules_lem [] s ready all = refl
  remove_rules_lem (i ∷ infos) s ready all =
      ap (after (λ u. remove_rules bus infos))
        (remove_match_rule_lem i (record s { match_rules = i ∷ infos }) ready all.0)
      ∙ (ap
            (λ l.
              then_returns (sent_by true (remove_match_call i.rule))
                (remove_rules bus infos (record s { match_rules = l })))
            (remove_rule-first i infos)
          ∙ ap (then_returns (sent_by true (remove_match_call i.rule)))
              (remove_rules_lem infos s ready all.1))

  note_released_lem :
      (n : Text) (names : List Text) (reply : IncomingMessage) (code : ℕ) (s : State F)
      → contains_name names n ≡ false
      → get (basic (word uint32)) reply ≡ ok code
      → note_released bus n reply (record s { well_known_names = n ∷ names })
        ≡ returns (record s { well_known_names = names }) []
  unfolding note_released
  note_released_lem n names reply code s new read =
      rw (read, ◌>>=◌)
        (ap (λ l. returns (record s { well_known_names = l }) []) (remove_name-first n names new))

  check_owned_lem :
      (n : Text) (names : List Text) (s : State F)
      → check_owned bus n (record s { well_known_names = n ∷ names })
        ≡ returns (record s { well_known_names = n ∷ names }) []
  unfolding check_owned
  check_owned_lem n names s = rw (contains_name-first n names) refl

  release_well_known_name_lem :
      (n : Text) (names : List Text) (s : State F)
      → IsReady s
      → contains_name names n ≡ false
      → Releasable bus n
      → release_well_known_name bus n (record s { well_known_names = n ∷ names })
        ≡ returns (record s { well_known_names = names }) (sent_by true (release_name_call n))
  unfolding release_well_known_name then_returns
  release_well_known_name_lem n names s ready new (reply, code, agreed, read) =
      let before : State F = record s { well_known_names = n ∷ names } in
      let call : Result Message = release_name_call n in
      ap (after (λ u. call_and bus call (note_released bus n))) (check_owned_lem n names s)
      ∙ (call_and-agreed bus call (note_released bus n) before reply ready agreed
          ∙ (ap (then_returns (sent_by true call)) (note_released_lem n names reply code s new read)
              ∙ ap (returns (record s { well_known_names = names }))
                  (append-nil (sent_by true call))))

  release_names_lem :
      (names : List Text) (s : State F)
      → IsReady s
      → NamesDistinct names
      → All (Releasable bus) names
      → release_names bus names (record s { well_known_names = names })
        ≡ returns (record s { well_known_names = [] }) (releases names)
  unfolding release_names then_returns
  release_names_lem [] s ready d all = refl
  release_names_lem (n ∷ names) s ready d all =
      ap (after (λ u. release_names bus names))
        (release_well_known_name_lem n names s ready d.0 all.0)
      ∙ ap (then_returns (sent_by true (release_name_call n)))
          (release_names_lem names s ready d.1 all.1)

  -- The state that a connection is left in.
  abbrev pub closed : State F → State F
  closed s = record s {
    match_rules = [];
    well_known_names = [];
    on_incoming = [];
    object_path_handlers = [];
    should_quit = true;
    connection_ready = false;
    socket_open = false;
    reading = false;
  }

  leaves : State F → List Message → Outcome F (Unit {0})
  leaves s sent = record { state = closed s; sent = sent; result = awaited s }

  close_ready_lem :
      (s : State F)
      → IsReady s
      → All (Removable bus) s.match_rules
      → NamesDistinct s.well_known_names
      → All (Releasable bus) s.well_known_names
      → close_ready bus s ≡ leaves s (removals s.match_rules ++ releases s.well_known_names)
  unfolding close_ready close_data then_returns leaves
  close_ready_lem s ready rules d names =
      ap (after (λ u. names_part)) (remove_rules_lem s.match_rules s ready rules)
      ∙ (ap (λ o. then_returns (removals s.match_rules) (after (λ u. close_data bus) o))
            (release_names_lem s.well_known_names (record s { match_rules = [] }) ready d names)
          ∙ ap (λ l. leaves s (removals s.match_rules ++ l))
              (append-nil (releases s.well_known_names)))
    where
      names_part : Run F (Unit {0})
      names_part = do
        names ← gets (λ s. s.well_known_names)
        release_names bus names
        close_data bus

  -- Closing an open connection that is ready, of which no name stands twice, and where the bus
  -- answers each request, sends exactly one RemoveMatch for each rule and then one ReleaseName for
  -- each name, in order, and leaves the connection closed, with no rule, no name and no handler. It
  -- returns where a read loop runs, whose end it waits for.
  pub close-sent :
      (s : State F)
      → s.socket_open ≡ true
      → s.connection_ready ≡ true
      → All (Removable bus) s.match_rules
      → NamesDistinct s.well_known_names
      → All (Releasable bus) s.well_known_names
      → close bus s ≡ record {
        state = closed s;
        sent = removals s.match_rules ++ releases s.well_known_names;
        result = awaited s;
      }
  unfolding close leaves
  close-sent s open_socket ready rules d names =
      simp (open_socket, ready) (close_ready_lem s ready rules d names)
