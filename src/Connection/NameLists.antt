-- ===== src/Connection/NameLists.antt =====
-- The list of well-known names that RequestWellKnownNameImpl and ReleaseWellKnownNameImpl of
-- src/DBusConnection.txx keep.
use cxx_bus.Base.{
  ◌≡◌, refl, sym, ◌∙◌, ap, true, false, List, [], ◌∷◌, ◌++◌, if◌then◌else◌, arith, Text, text_eq,
  text_eq_iff, Bool-cases, inl, inr,
}
use cxx_bus.NameCache.Sets.{text_eq_sym}
use cxx_bus.Connection.Requests.{contains_name, remove_name}
use cxx_bus.Connection.Farewell.{NamesDistinct}

pub contains_name-append :
    (xs : List Text) (k n : Text)
    → contains_name (xs ++ (k ∷ [])) n ≡ (if text_eq k n then true else contains_name xs n)
unfolding contains_name
contains_name-append [] k n = refl
contains_name-append (x ∷ xs) k n = ground (arith, contains_name-append xs k n)

pub contains_name-remove :
    (k : Text) (xs : List Text) (n : Text)
    → contains_name (remove_name k xs) n ≡ (if text_eq k n then false else contains_name xs n)
unfolding contains_name remove_name
contains_name-remove k [] n = ground arith
contains_name-remove k (x ∷ xs) n = elim (Bool-cases (text_eq x k)) [
  | inl e ↦
      let same : x ≡ k = (text_eq_iff x k).0 e in
      rw (e, contains_name-remove k xs n, same) (ground arith)
  | inr e ↦ elim (Bool-cases (text_eq x n)) [
    | inl f ↦
        let same : x ≡ n = (text_eq_iff x n).0 f in
        let apart : text_eq k n ≡ false =
          text_eq_sym k n ∙ (ap (λ z. text_eq z k) (sym same) ∙ e) in
        rw (e, f, apart) refl
    | inr f ↦ rw (e, f, contains_name-remove k xs n) refl
  ]
]

pub NamesDistinct-append :
    (k : Text) (xs : List Text)
    → contains_name xs k ≡ false
    → NamesDistinct xs
    → NamesDistinct (xs ++ (k ∷ []))
unfolding contains_name
NamesDistinct-append k [] new d = (refl, tt)
NamesDistinct-append k (x ∷ xs) new d = elim (Bool-cases (text_eq x k)) [
  | inl e ↦ absurd (cc (rw e at new))
  | inr e ↦ (
    contains_name-append xs k x ∙ rw (text_eq_sym k x, e) d.0,
    NamesDistinct-append k xs (rw e at new) d.1,
  )
]

pub NamesDistinct-remove :
    (k : Text) (xs : List Text) → NamesDistinct xs → NamesDistinct (remove_name k xs)
unfolding remove_name
NamesDistinct-remove k [] d = tt
NamesDistinct-remove k (x ∷ xs) d = elim (Bool-cases (text_eq x k)) [
  | inl e ↦ rw e (NamesDistinct-remove k xs d.1)
  | inr e ↦
      rw e
        (contains_name-remove k xs x ∙ rw (text_eq_sym k x, e) d.0, NamesDistinct-remove k xs d.1)
]
