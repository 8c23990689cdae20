-- ===== src/Connection/OwnedNames.antt =====
-- The well-known names that a connection takes for its own: RequestWellKnownNameImpl and
-- ReleaseWellKnownNameImpl of src/DBusConnection.txx, against the history of the requests.
use cxx_bus.Base.{
  ℕ, ◌≡◌, refl, ◌∙◌, ap, Bool, true, false, List, [], ◌∷◌, ◌++◌, if◌then◌else◌, Result, ok, err,
  arith, Text, text_eq, text_eq_iff, Bool-cases, inl, inr,
}
use cxx_bus.Codec.Types.{uint32, word, basic}
use cxx_bus.Message.{Message}
use cxx_bus.Incoming.{IncomingMessage, get}
use cxx_bus.NameCache.Sets.{text_eq_refl}
use cxx_bus.Connection.State.{State, Run, ◌>>=◌, lift, modify}
use cxx_bus.Connection.Requests.{
  request_name_call, release_name_call, contains_name, remove_name, check_not_owned, note_owned,
  request_well_known_name, check_owned, note_released, release_well_known_name,
}
use cxx_bus.Connection.Sending.{
  Result-cases, is_ok, answer, state_of, call_and, call_and-ok, call_and-err, call_and-ready,
}
use cxx_bus.Connection.Farewell.{NamesDistinct}
use cxx_bus.Connection.Rules.{Bus}
use cxx_bus.Connection.NameLists.{
  contains_name-append, contains_name-remove, NamesDistinct-append, NamesDistinct-remove,
}

-- What a user asks of a connection.
pub data NameWish : Type 0 where
  requests : Text → ℕ → NameWish
  releases : Text → NameWish

abbrev is_number : Result IncomingMessage → Bool
is_number (err e) = false
is_number (ok reply) = is_ok (get (basic (word uint32)) reply)

module _ (bus : Message → Result IncomingMessage) where
  -- The bus answers the request by a number.
  abbrev pub numbered : Bool → Result Message → Bool
  numbered ready call = is_number (answer bus ready call)

  abbrev pub perform : {F : Type 0} → NameWish → Run F (Unit {0})
  perform (requests n flags) = request_well_known_name bus n flags
  perform (releases n) = release_well_known_name bus n

  -- Whether a name is owned behind a wish, by the answer of the bus alone; where the connection is not
  -- ready, the wish waits.
  abbrev pub keeps : Bool → Text → NameWish → Bool → Bool
  keeps ready n (requests k flags) owned =
      if text_eq k n
      then (if numbered ready (request_name_call k flags) then true else owned)
      else owned
  keeps ready n (releases k) owned =
      if text_eq k n then (if numbered ready (release_name_call k) then false else owned) else owned

  names-state_of :
      {F : Type 0} (call : Result Message) (s : State F)
      → (state_of call s).well_known_names ≡ s.well_known_names
  names-state_of (err e) s = refl
  names-state_of (ok m) s = ground arith

  -- A request for a number, and the names that are left by it.
  call_and-names :
      {F : Type 0} (call : Result Message) (f : List Text → List Text) (s : State F)
      → (call_and bus call
          (λ reply. do
            code ← lift (get (basic (word uint32)) reply)
            modify (λ (s : State F). record s { well_known_names = f s.well_known_names }))
          s).state.well_known_names
        ≡ (if numbered s.connection_ready call then f s.well_known_names else s.well_known_names)
  call_and-names {F} call f s = elim (Result-cases (answer bus s.connection_ready call)) [
    | inl (e, refused) ↦ rw refused (
        ap (λ o. o.state.well_known_names) (call_and-err bus call rest s e refused)
        ∙ names-state_of call s)
    | inr (reply, agreed) ↦ rw agreed (
        ap (λ o. o.state.well_known_names) (call_and-ok bus call rest s reply agreed)
        ∙ by_number reply)
  ]
    where
      rest : IncomingMessage → Run F (Unit {0})
      rest reply = do
        code ← lift (get (basic (word uint32)) reply)
        modify (λ s. record s { well_known_names = f s.well_known_names })

      by_number :
          (reply : IncomingMessage)
          → (rest reply (state_of call s)).state.well_known_names
            ≡ (if is_number (ok reply) then f s.well_known_names else s.well_known_names)
      by_number reply = elim (Result-cases (get (basic (word uint32)) reply)) [
        | inl (e, unread) ↦ rw (unread, ◌>>=◌) (names-state_of call s)
        | inr (code, read) ↦ rw (read, ◌>>=◌) (ap f (names-state_of call s))
      ]

  perform-requests :
      {F : Type 0} (k : Text) (flags : ℕ) (s : State F)
      → (perform (requests k flags) s).state.well_known_names ≡ (
          if contains_name s.well_known_names k
          then s.well_known_names
          else if numbered s.connection_ready (request_name_call k flags)
          then s.well_known_names ++ (k ∷ [])
          else s.well_known_names)
  unfolding request_well_known_name check_not_owned note_owned
  perform-requests k flags s = elim (Bool-cases (contains_name s.well_known_names k)) [
    | inl e ↦ rw (e, ◌>>=◌) refl
    | inr e ↦ rw (e, ◌>>=◌) (call_and-names (request_name_call k flags) (λ l. l ++ (k ∷ [])) s)
  ]

  perform-releases :
      {F : Type 0} (k : Text) (s : State F)
      → (perform (releases k) s).state.well_known_names ≡ (
          if contains_name s.well_known_names k
          then if numbered s.connection_ready (release_name_call k)
            then remove_name k s.well_known_names
            else s.well_known_names
          else s.well_known_names)
  unfolding release_well_known_name check_owned note_released
  perform-releases k s = elim (Bool-cases (contains_name s.well_known_names k)) [
    | inl e ↦ rw (e, ◌>>=◌) (call_and-names (release_name_call k) (remove_name k) s)
    | inr e ↦ rw (e, ◌>>=◌) refl
  ]

  -- One wish, on whether a name is owned.
  owned-perform :
      {F : Type 0} (n : Text) (w : NameWish) (s : State F)
      → contains_name (perform w s).state.well_known_names n
        ≡ keeps s.connection_ready n w (contains_name s.well_known_names n)
  owned-perform n (requests k flags) s =
      rw (perform-requests k flags s) (elim (Bool-cases (text_eq k n)) [
        | inl e ↦
            let same : k ≡ n = (text_eq_iff k n).0 e in
            rw (e, same)
              (elim (Bool-cases (contains_name s.well_known_names n)) [
                | inl owned ↦ rw (owned, owned) (ground arith)
                | inr new ↦
                    rw new
                      (elim (Bool-cases (numbered s.connection_ready (request_name_call n flags))) [
                        | inl agreed ↦
                            rw agreed (
                              contains_name-append s.well_known_names n n
                              ∙ rw (text_eq_refl n) refl)
                        | inr refused ↦ rw refused new
                      ])
              ])
        | inr e ↦ rw e (elim (Bool-cases (contains_name s.well_known_names k)) [
          | inl owned ↦ rw owned refl
          | inr new ↦
              rw new (elim (Bool-cases (numbered s.connection_ready (request_name_call k flags))) [
                | inl agreed ↦ rw agreed (contains_name-append s.well_known_names k n ∙ rw e refl)
                | inr refused ↦ rw refused refl
              ])
        ])
      ])
  owned-perform n (releases k) s = rw (perform-releases k s) (elim (Bool-cases (text_eq k n)) [
    | inl e ↦
        let same : k ≡ n = (text_eq_iff k n).0 e in
        rw (e, same)
          (elim (Bool-cases (contains_name s.well_known_names n)) [
            | inr missing ↦ rw (missing, missing) (ground arith)
            | inl owned ↦
                rw owned (elim (Bool-cases (numbered s.connection_ready (release_name_call n))) [
                  | inl agreed ↦
                      rw agreed
                        (contains_name-remove n s.well_known_names n ∙ rw (text_eq_refl n) refl)
                  | inr refused ↦ rw refused owned
                ])
          ])
    | inr e ↦ rw e (elim (Bool-cases (contains_name s.well_known_names k)) [
      | inr missing ↦ rw missing refl
      | inl owned ↦
          rw owned (elim (Bool-cases (numbered s.connection_ready (release_name_call k))) [
            | inl agreed ↦ rw agreed (contains_name-remove k s.well_known_names n ∙ rw e refl)
            | inr refused ↦ rw refused refl
          ])
    ])
  ])

  -- What is done behind the reply to a request.
  abbrev number_then : {F : Type 0} → (List Text → List Text) → IncomingMessage → Run F (Unit {0})
  number_then f reply = do
    code ← lift (get (basic (word uint32)) reply)
    modify (λ s. record s { well_known_names = f s.well_known_names })

  numbered-ready :
      {F : Type 0} (f : List Text → List Text) (reply : IncomingMessage) (t : State F)
      → (number_then f reply t).state.connection_ready ≡ t.connection_ready
  numbered-ready f reply t = elim (Result-cases (get (basic (word uint32)) reply)) [
    | inl (e, unread) ↦ rw (unread, ◌>>=◌) refl
    | inr (code, read) ↦ rw (read, ◌>>=◌) refl
  ]

  ready-perform :
      {F : Type 0} (w : NameWish) (s : State F)
      → (perform w s).state.connection_ready ≡ s.connection_ready
  unfolding request_well_known_name check_not_owned note_owned release_well_known_name check_owned
      note_released
  ready-perform (requests k flags) s = elim (Bool-cases (contains_name s.well_known_names k)) [
    | inl e ↦ rw (e, ◌>>=◌) refl
    | inr e ↦
        rw (e, ◌>>=◌)
          (call_and-ready bus (request_name_call k flags) (number_then (λ l. l ++ (k ∷ []))) s
            (numbered-ready (λ l. l ++ (k ∷ []))))
  ]
  ready-perform (releases k) s = elim (Bool-cases (contains_name s.well_known_names k)) [
    | inl e ↦
        rw (e, ◌>>=◌)
          (call_and-ready bus (release_name_call k) (number_then (remove_name k)) s
            (numbered-ready (remove_name k)))
    | inr e ↦ rw (e, ◌>>=◌) refl
  ]

  NamesDistinct-perform :
      {F : Type 0} (w : NameWish) (s : State F)
      → NamesDistinct s.well_known_names
      → NamesDistinct (perform w s).state.well_known_names
  NamesDistinct-perform (requests k flags) s d =
      rw (perform-requests k flags s) (elim (Bool-cases (contains_name s.well_known_names k)) [
        | inl owned ↦ rw owned d
        | inr new ↦
            rw new (elim (Bool-cases (numbered s.connection_ready (request_name_call k flags))) [
              | inl agreed ↦ rw agreed (NamesDistinct-append k s.well_known_names new d)
              | inr refused ↦ rw refused d
            ])
      ])
  NamesDistinct-perform (releases k) s d =
      rw (perform-releases k s) (elim (Bool-cases (contains_name s.well_known_names k)) [
        | inr missing ↦ rw missing d
        | inl owned ↦
            rw owned (elim (Bool-cases (numbered s.connection_ready (release_name_call k))) [
              | inl agreed ↦ rw agreed (NamesDistinct-remove k s.well_known_names d)
              | inr refused ↦ rw refused d
            ])
      ])

-- Whether a name is owned after a history.
abbrev pub ledger : Bool → Text → List (Bus × NameWish) → Bool → Bool
ledger ready n [] owned = owned
ledger ready n ((bus, w) ∷ ws) owned = ledger ready n ws (keeps bus ready n w owned)

module _ {F : Type 0} where
  -- One after the other, each with the answers that the bus gives then, whatever was thrown.
  abbrev pub perform_all : List (Bus × NameWish) → State F → State F
  perform_all [] s = s
  perform_all ((bus, w) ∷ ws) s = perform_all ws (perform bus w s).state

  -- After any sequence of requests and releases that do not interrupt one another, with any answers
  -- of the bus, no name stands twice among the names of the connection, if none did before, and a
  -- name stands there exactly according to the latest request or release of it that the bus has
  -- answered by a number, whatever the number. Where the connection is not ready, all of them wait,
  -- and none counts.
  pub owned-perform_all :
      (n : Text) (ws : List (Bus × NameWish)) (s : State F)
      → NamesDistinct s.well_known_names
      → (contains_name (perform_all ws s).well_known_names n
          ≡ ledger s.connection_ready n ws (contains_name s.well_known_names n))
        × NamesDistinct (perform_all ws s).well_known_names
  owned-perform_all n [] s d = (refl, d)
  owned-perform_all n ((bus, w) ∷ ws) s d =
      let (owned, distinct) =
        owned-perform_all n ws (perform bus w s).state (NamesDistinct-perform bus w s d) in
      (
        owned
            ∙ (ap (λ b. ledger b n ws (contains_name (perform bus w s).state.well_known_names n))
                  (ready-perform bus w s)
                ∙ ap (ledger s.connection_ready n ws) (owned-perform bus n w s)),
        distinct,
      )
