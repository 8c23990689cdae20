-- ===== src/NameCache/Sets.antt =====
-- The sets and the map of the name cache, by what they contain.
use cxx_bus.Base.{
  ◌≡◌, refl, sym, ap, ◌∙◌, true, false, [], ◌∷◌, none, some, arith, ltb, ◌==◌, ==_iff,
  if◌then◌else◌, Bool-cases, inl, inr, Text, text_eq, text_eq_iff,
}
use cxx_bus.Codec.Types.{text_less}
use cxx_bus.NameCache.{NameSet, Cache, contains, insert, erase, find, assign, erase_key}

text_less_total : (s t : Text) → text_less s t ≡ false → text_less t s ≡ false → s ≡ t
unfolding text_less
text_less_total [] [] h k = refl
text_less_total [] (y ∷ t) h k = absurd (cc h)
text_less_total (x ∷ s) [] h k = absurd (cc k)
text_less_total (x ∷ s) (y ∷ t) h k = elim (Bool-cases (x == y)) [
  | inl e ↦
      let q : x ≡ y = (==_iff x y).0 e in
      let e' : (y == x) ≡ true = (==_iff y x).1 (sym q) in
      let r : s ≡ t = text_less_total s t (rw e at h) (rw e' at k) in cc
  | inr e ↦
      let e' : (y == x) ≡ false = ground arith in
      let h' : ltb x y ≡ false = rw e at h in
      let k' : ltb y x ≡ false = rw e' at k in absurd (ground arith)
]

pub text_eq_refl : (s : Text) → text_eq s s ≡ true
text_eq_refl s = (text_eq_iff s s).1 refl

pub text_eq_sym : (s t : Text) → text_eq s t ≡ text_eq t s
text_eq_sym s t = elim (Bool-cases (text_eq s t)) [
  | inl e ↦ let q : s ≡ t = (text_eq_iff s t).0 e in cc (text_eq_refl s)
  | inr e ↦ elim (Bool-cases (text_eq t s)) [
    | inl f ↦
        let q : t ≡ s = (text_eq_iff t s).0 f in
        let r : text_eq s t ≡ true = (text_eq_iff s t).1 (sym q) in cc
    | inr f ↦ e ∙ sym f
  ]
]

pub contains-insert :
    (n : Text) (s : NameSet) (m : Text)
    → contains (insert n s) m ≡ (if text_eq n m then true else contains s m)
unfolding contains insert
contains-insert n [] m = refl
contains-insert n (x ∷ s) m = elim (Bool-cases (text_less n x)) [
  | inl e ↦ rw e refl
  | inr e ↦ elim (Bool-cases (text_less x n)) [
    | inl f ↦ rw (e, f, contains-insert n s m) (ground arith)
    | inr f ↦ let q : n ≡ x = text_less_total n x e f in rw (e, f, q) (ground arith)
  ]
]

pub contains-erase :
    (n : Text) (s : NameSet) (m : Text)
    → contains (erase n s) m ≡ (if text_eq n m then false else contains s m)
unfolding contains erase
contains-erase n [] m = ground arith
contains-erase n (x ∷ s) m = elim (Bool-cases (text_eq x n)) [
  | inl e ↦ let q : x ≡ n = (text_eq_iff x n).0 e in rw (e, q, contains-erase n s m) (ground arith)
  | inr e ↦ elim (Bool-cases (text_eq x m)) [
    | inl f ↦
        let q : x ≡ m = (text_eq_iff x m).0 f in
        let g : text_eq n m ≡ false = text_eq_sym n m ∙ (ap (λ z. text_eq z n) (sym q) ∙ e) in
        rw (e, f, g) refl
    | inr f ↦ rw (e, f, contains-erase n s m) refl
  ]
]

pub find-assign :
    (u : Text) (s : NameSet) (c : Cache) (v : Text)
    → find (assign u s c) v ≡ (if text_eq u v then some s else find c v)
unfolding find assign
find-assign u s [] v = refl
find-assign u s ((k, t) ∷ c) v = elim (Bool-cases (text_eq k u)) [
  | inl e ↦ let q : k ≡ u = (text_eq_iff k u).0 e in rw (e, q) (ground arith)
  | inr e ↦ elim (Bool-cases (text_eq k v)) [
    | inl f ↦
        let q : k ≡ v = (text_eq_iff k v).0 f in
        let g : text_eq u v ≡ false = text_eq_sym u v ∙ (ap (λ z. text_eq z u) (sym q) ∙ e) in
        rw (e, f, g) refl
    | inr f ↦ rw (e, f, find-assign u s c v) refl
  ]
]

pub find-erase_key :
    (u : Text) (c : Cache) (v : Text)
    → find (erase_key u c) v ≡ (if text_eq u v then none else find c v)
unfolding find erase_key
find-erase_key u [] v = ground arith
find-erase_key u ((k, t) ∷ c) v = elim (Bool-cases (text_eq k u)) [
  | inl e ↦ let q : k ≡ u = (text_eq_iff k u).0 e in rw (e, q, find-erase_key u c v) (ground arith)
  | inr e ↦ elim (Bool-cases (text_eq k v)) [
    | inl f ↦
        let q : k ≡ v = (text_eq_iff k v).0 f in
        let g : text_eq u v ≡ false = text_eq_sym u v ∙ (ap (λ z. text_eq z u) (sym q) ∙ e) in
        rw (e, f, g) refl
    | inr f ↦ rw (e, f, find-erase_key u c v) refl
  ]
]
