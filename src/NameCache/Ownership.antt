-- ===== src/NameCache/Ownership.antt =====
-- What the name cache of src/DBusNameCache.txx promises: the owners that the bus has announced.
use cxx_bus.Base.{
  ◌≡◌, ◌≢◌, ◌⊎◌, refl, sym, ap, ◌∙◌, Bool, true, false, not, ◌&&◌, List, [], ◌∷◌, none, some, arith,
  if◌then◌else◌, Bool-cases, Option-cases, inl, inr, Text, text_eq, text_eq_iff,
}
use cxx_bus.NameCache.{
  NameSet, Cache, contains, insert, erase, find, is_empty, set_of, forget, remember,
  on_name_owner_changed, assign, erase_key,
}
use cxx_bus.NameCache.Sets.{contains-insert, contains-erase, find-assign, find-erase_key}

-- The cache has `n` among the names of `u`.
abbrev pub owns : Cache → Text → Text → Bool
owns c u n = contains (set_of (find c u)) n

-- A NameOwnerChanged signal: the name, its old owner and its new one, empty for no owner.
pub record Change : Type 0 where
  pub name : Text
  pub old : Text
  pub new : Text

-- The cache after a history of signals, the latest first.
abbrev pub replay : List Change → Cache
replay [] = []
replay (e ∷ es) = on_name_owner_changed (Change.name e) (Change.old e) (Change.new e) (replay es)

-- The owner of a name after a history: the new owner in the latest signal about it.
abbrev pub owner_of : List Change → Text → Text
owner_of [] n = []
owner_of (e ∷ es) n = if text_eq (Change.name e) n then Change.new e else owner_of es n

-- Each signal names the owner at that time as the old one.
abbrev pub IsHistory : List Change → Type 0
IsHistory [] = Unit
IsHistory (e ∷ es) = (Change.old e ≡ owner_of es (Change.name e)) × IsHistory es

abbrev without : Text → Text → Bool → Bool
without name n before = if text_eq name n then false else before

contains-rest :
    (names : NameSet) (name n : Text)
    → contains (if contains names name then erase name names else names) n
      ≡ without name n (contains names n)
contains-rest names name n = elim (Bool-cases (contains names name)) [
  | inl e ↦ rw e (contains-erase name names n)
  | inr e ↦ elim (Bool-cases (text_eq name n)) [
    | inl f ↦
        let q : name ≡ n = (text_eq_iff name n).0 f in rw (e, f) (ap (contains names) (sym q) ∙ e)
    | inr f ↦ rw (e, f) refl
  ]
]

-- Whether the emptied set is dropped or kept.
owns-kept :
    (old : Text) (rest : NameSet) (c : Cache) (u n : Text)
    → owns (if is_empty rest then erase_key old (assign old rest c) else assign old rest c) u n
      ≡ (if text_eq old u then contains rest n else owns c u n)
unfolding contains
owns-kept old [] c u n =
    rw (find-erase_key old (assign old [] c) u, find-assign old [] c u) (ground arith)
owns-kept old (x ∷ rest) c u n = rw (find-assign old (x ∷ rest) c u) (ground arith)

owns-forget :
    (name old : Text) (c : Cache) (u n : Text)
    → owns (forget name old c) u n
      ≡ (if text_eq old u then without name n (owns c u n) else owns c u n)
unfolding forget contains
owns-forget name old c u n = elim (Option-cases (find c old)) [
  | inl e ↦ rw (forget, e) (unknown e (Bool-cases (text_eq old u)))
  | inr (names, e) ↦
      rw
        (
          forget,
          e,
          owns-kept old (if contains names name then erase name names else names) c u n,
          contains-rest names name n,
        )
        (known names e (Bool-cases (text_eq old u)))
]
  where
    unknown :
        find c old ≡ none
        → (text_eq old u ≡ true) ⊎ (text_eq old u ≡ false)
        → owns c u n ≡ (if text_eq old u then without name n (owns c u n) else owns c u n)
    unknown e (inl f) =
        let z : find c u ≡ none = ap (find c) (sym ((text_eq_iff old u).0 f)) ∙ e in
        rw (f, z) (ground arith)
    unknown e (inr f) = rw f refl

    known :
        (names : NameSet)
        → find c old ≡ some names
        → (text_eq old u ≡ true) ⊎ (text_eq old u ≡ false)
        → (if text_eq old u then without name n (contains names n) else owns c u n)
          ≡ (if text_eq old u then without name n (owns c u n) else owns c u n)
    known names e (inl f) =
        let z : find c u ≡ some names = ap (find c) (sym ((text_eq_iff old u).0 f)) ∙ e in
        rw (f, z) refl
    known names e (inr f) = rw f refl

owns-remember :
    (name unique : Text) (c : Cache) (u n : Text)
    → owns (remember name unique c) u n
      ≡ (if text_eq unique u then (if text_eq name n then true else owns c u n) else owns c u n)
unfolding remember
owns-remember name unique c u n =
    rw (find-assign unique (insert name (set_of (find c unique))) c u)
      (elim (Bool-cases (text_eq unique u)) [
        | inl f ↦
            let q : unique ≡ u = (text_eq_iff unique u).0 f in
            rw (f, contains-insert name (set_of (find c unique)) n, q) refl
        | inr f ↦ rw f refl
      ])

-- One signal, on the names of `u`: the new owner gets the name, and the old one loses it, where
-- these are not empty; nothing else changes.
pub owns-on_name_owner_changed :
    (name old new : Text) (c : Cache) (u n : Text)
    → owns (on_name_owner_changed name old new c) u n ≡ (
        if not (is_empty new) && (text_eq new u && text_eq name n)
        then true
        else if not (is_empty old) && (text_eq old u && text_eq name n)
        then false
        else owns c u n)
unfolding on_name_owner_changed
owns-on_name_owner_changed name [] [] c u n = refl
owns-on_name_owner_changed name (x ∷ old) [] c u n =
    rw (owns-forget name (x ∷ old) c u n) (ground arith)
owns-on_name_owner_changed name [] (y ∷ new) c u n =
    rw (owns-remember name (y ∷ new) c u n) (ground arith)
owns-on_name_owner_changed name (x ∷ old) (y ∷ new) c u n =
    rw
      (owns-remember name (y ∷ new) (forget name (x ∷ old) c) u n, owns-forget name (x ∷ old) c u n)
      (ground arith)

settle :
    (new old owner u : Text) (b : Bool)
    → u ≢ []
    → (b ≡ true → old ≡ owner)
    → (if not (is_empty new) && (text_eq new u && b)
        then true
        else if not (is_empty old) && (text_eq old u && b)
        then false
        else text_eq owner u)
      ≡ text_eq (if b then new else owner) u
settle new old owner [] b ne h = absurd (ne refl)
settle [] [] owner (x ∷ u) true ne h = rw (← h refl) refl
settle [] (y ∷ old) owner (x ∷ u) true ne h = rw (← h refl) (ground arith)
settle (z ∷ new) [] owner (x ∷ u) true ne h = rw (← h refl) (ground arith)
settle (z ∷ new) (y ∷ old) owner (x ∷ u) true ne h = rw (← h refl) (ground arith)
settle new old owner (x ∷ u) false ne h = ground arith

-- After a history of signals that each name the old owner rightly, a unique connection name owns
-- exactly the names whose latest signal gives it as the new owner. So no name has two owners.
pub owns-replay :
    (es : List Change) (u n : Text)
    → IsHistory es
    → u ≢ []
    → owns (replay es) u n ≡ text_eq (owner_of es n) u
unfolding find contains
owns-replay [] [] n h ne = absurd (ne refl)
owns-replay [] (x ∷ u) n h ne = refl
owns-replay (e ∷ es) u n h ne =
    rw
      (
        owns-on_name_owner_changed (Change.name e) (Change.old e) (Change.new e) (replay es) u n,
        owns-replay es u n h.1 ne,
      )
      (settle (Change.new e) (Change.old e) (owner_of es n) u (text_eq (Change.name e) n) ne
        (λ q. h.0 ∙ ap (owner_of es) ((text_eq_iff (Change.name e) n).0 q)))
