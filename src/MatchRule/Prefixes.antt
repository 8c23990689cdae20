-- ===== src/MatchRule/Prefixes.antt =====
-- What IsPathPrefixed of src/DBusMatchRule.cpp decides on the pieces of two paths.
use cxx_bus.Base.{
  ◌≡◌, ◌↔◌, refl, sym, ap, ◌∙◌, true, List, [], ◌∷◌, ◌++◌, append_assoc, append-nil, ◌==◌, ==_iff,
  Bool-cases, inl, inr, Text, text_eq, text_eq_iff,
}
use cxx_bus.MatchRule.Paths.{flush, split_from, split_string, is_path_prefixed}

abbrev concat : List Text → Text
concat [] = []
concat (x ∷ xs) = x ++ concat xs

concat-append : (xs ys : List Text) → concat (xs ++ ys) ≡ concat xs ++ concat ys
concat-append [] ys = refl
concat-append (x ∷ xs) ys =
    ap (◌++◌ x) (concat-append xs ys) ∙ sym (append_assoc x (concat xs) (concat ys))

concat-flush : (line : Text) → concat (flush line) ≡ line
concat-flush [] = refl
concat-flush (c ∷ cs) = append-nil (c ∷ cs)

concat-split_from : (line s : Text) → concat (split_from line s) ≡ line ++ s
unfolding split_from
concat-split_from line [] = concat-flush line ∙ sym (append-nil line)
concat-split_from line (c ∷ cs) = elim (Bool-cases (c == b'/')) [
  | inl e ↦
      let q : c ≡ b'/' = (==_iff c b'/').0 e in
      rw
        (
          e,
          q,
          concat-append (flush line) ((b'/' ∷ []) ∷ split_from [] cs),
          concat-flush line,
          concat-split_from [] cs,
        )
        refl
  | inr e ↦ rw (e, concat-split_from (line ++ c ∷ []) cs) (append_assoc line (c ∷ []) cs)
]

split_from-append :
    (line s t : Text)
    → split_from line (s ++ (b'/' ∷ t)) ≡ split_from line (s ++ b'/' ∷ []) ++ split_from [] t
unfolding split_from
split_from-append line [] t = sym (append_assoc (flush line) ((b'/' ∷ []) ∷ []) (split_from [] t))
split_from-append line (c ∷ s) t = elim (Bool-cases (c == b'/')) [
  | inl e ↦
      rw (e, split_from-append [] s t)
        (sym (
          append_assoc (flush line) ((b'/' ∷ []) ∷ split_from [] (s ++ b'/' ∷ []))
            (split_from [] t)))
  | inr e ↦ rw (e) (split_from-append (line ++ c ∷ []) s t)
]

prefixed_append : (xs ys : List Text) → is_path_prefixed xs (xs ++ ys) ≡ true
unfolding is_path_prefixed
prefixed_append [] ys = refl
prefixed_append (x ∷ xs) ys = rw ((text_eq_iff x x).1 refl, prefixed_append xs ys) refl

prefixed_inv :
    (xs ys : List Text) → is_path_prefixed xs ys ≡ true → (zs : List Text) × (ys ≡ xs ++ zs)
unfolding is_path_prefixed
prefixed_inv [] ys h = (ys, refl)
prefixed_inv (x ∷ xs) [] h = absurd (cc h)
prefixed_inv (x ∷ xs) (y ∷ ys) h = elim (Bool-cases (text_eq y x)) [
  | inl e ↦
      let (zs, q) = prefixed_inv xs ys (rw e at h) in
      let p : y ≡ x = (text_eq_iff y x).0 e in (zs, ap (λ z. z ∷ ys) p ∙ ap (◌∷◌ x) q)
  | inr e ↦ absurd (cc (rw e at h))
]

-- A path that ends with a slash is a prefix of another by pieces exactly if it is one as a text.
pub is_path_prefixed_lem :
    (s t : Text)
    → (is_path_prefixed (split_string (s ++ b'/' ∷ [])) (split_string t) ≡ true)
      ↔ ((rest : Text) × (t ≡ (s ++ b'/' ∷ []) ++ rest))
unfolding split_string
is_path_prefixed_lem s t = (
  λ h.
      let (zs, q) = prefixed_inv (split_from [] (s ++ b'/' ∷ [])) (split_from [] t) h in
      (
        concat zs,
        sym (concat-split_from [] t)
            ∙ (ap concat q
                ∙ (concat-append (split_from [] (s ++ b'/' ∷ [])) zs
                    ∙ ap (λ z. z ++ concat zs) (concat-split_from [] (s ++ b'/' ∷ [])))),
      ),
  λ h.
      let (rest, q) = h in
      rw (q, append_assoc s (b'/' ∷ []) rest, split_from-append [] s rest)
        (prefixed_append (split_from [] (s ++ b'/' ∷ [])) (split_from [] rest)),
)
