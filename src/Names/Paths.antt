-- ===== src/Names/Paths.antt =====
-- Which object paths ValidateDBusObjectPath of src/DBusTypes.cpp accepts.
use cxx_bus.Base.{
  ℕ, ◌+◌, ◌≤◌, ◌≡◌, ◌≢◌, ◌↔◌, ◌⊎◌, inl, inr, refl, sym, ap, ◌∙◌, true, false, List, [], ◌∷◌, ◌++◌,
  arith, none, ◌==◌, ==_iff, Bool-cases, All, Text,
}
use cxx_bus.Names.{is_path_char, path_loop, validate_object_path}

-- An element of a path: one character or more, all of them allowed.
abbrev pub IsElement : Text → Type 0
IsElement s = (s ≢ []) × All (λ c. is_path_char c ≡ true) s

-- The elements, each behind a slash.
abbrev pub joined : List Text → Text
joined [] = []
joined (e ∷ es) = b'/' ∷ (e ++ joined es)

-- The root, or one element or more.
abbrev pub IsObjectPath : Text → Type 0
IsObjectPath s =
    (s ≡ b'/' ∷ []) ⊎ ((es : List Text) × (es ≢ []) × All IsElement es × (s ≡ joined es))

is_path_char_slash : is_path_char b'/' ≡ false
unfolding is_path_char
is_path_char_slash = refl

slash-is_path_char : (c : ℕ) → is_path_char c ≡ true → (c == b'/') ≡ false
slash-is_path_char c h = elim (Bool-cases (c == b'/')) [
  | inl e ↦
      let s : c ≡ b'/' = (==_iff c b'/').0 e in
      let bad : true ≡ false = sym (rw s at h) ∙ is_path_char_slash in cc bad
  | inr e ↦ e
]

-- An element that is not at its end, with what follows it.
walk_element :
    (w rest : Text) (start i : ℕ)
    → All (λ c. is_path_char c ≡ true) w
    → start ≤ i
    → (i ≡ start → w ≢ [])
    → ((j : ℕ) → start ≤ j → j ≢ start → path_loop start j rest ≡ none)
    → path_loop start i (w ++ rest) ≡ none
unfolding path_loop
walk_element [] rest start i h le nonempty k = k i le (λ e. nonempty e refl)
walk_element (c ∷ w) rest start i h le nonempty k =
    rw (slash-is_path_char c h.0, h.0)
      (walk_element w rest start (i + 1) h.1 (omega arith) (λ e. absurd (omega arith)) k)

-- From inside an element on: the rest of it, and the other elements.
path_loop-joined :
    (es : List Text) (w : Text) (start i : ℕ)
    → All (λ c. is_path_char c ≡ true) w
    → All IsElement es
    → start ≤ i
    → (i ≡ start → w ≢ [])
    → path_loop start i (w ++ joined es) ≡ none
unfolding path_loop
path_loop-joined [] w start i h hs le nonempty =
    walk_element w [] start i h le nonempty (λ j l ne. ground arith)
path_loop-joined (e ∷ es) w start i h hs le nonempty =
    walk_element w (b'/' ∷ (e ++ joined es)) start i h le nonempty (λ j l ne.
      let differ : (j == start) ≡ false = ground arith in
      rw differ (path_loop-joined es e (j + 1) (j + 1) hs.0.1 hs.1 (omega arith) (λ q. hs.0.0)))

-- What the loop accepts from inside an element on.
path_loop_inv :
    (cs : Text) (start i : ℕ)
    → start ≤ i
    → path_loop start i cs ≡ none
    → (w : Text) × (es : List Text) × (All (λ c. is_path_char c ≡ true) w)
      × (All IsElement es)
      × (i ≡ start → w ≢ [])
      × (cs ≡ w ++ joined es)
unfolding path_loop
path_loop_inv [] start i le h = (
  [],
  [],
  tt,
  tt,
  λ e. let t : (i == start) ≡ true = (==_iff i start).1 e in absurd (cc (rw t at h)),
  refl,
)
path_loop_inv (c ∷ cs) start i le h = elim (Bool-cases (c == b'/')) [
  | inl s ↦ elim (Bool-cases (i == start)) [
    | inl q ↦ absurd (cc (rw (s, q) at h))
    | inr q ↦
        let (w, es, hw, hs, ne, e) =
          path_loop_inv cs (i + 1) (i + 1) (omega arith) (rw (s, q) at h) in
        (
          [],
          w ∷ es,
          tt,
          ((ne refl, hw), hs),
          λ r. let t : (i == start) ≡ true = (==_iff i start).1 r in absurd (cc t),
          ap (λ x. x ∷ cs) ((==_iff c b'/').0 s) ∙ ap (◌∷◌ b'/') e,
        )
  ]
  | inr s ↦ elim (Bool-cases (is_path_char c)) [
    | inl p ↦
        let (w, es, hw, hs, ne, e) =
          path_loop_inv cs start (i + 1) (omega arith) (rw (s, p) at h) in
        (c ∷ w, es, (p, hw), hs, λ r z. cc z, ap (◌∷◌ c) e)
    | inr p ↦ absurd (cc (rw (s, p) at h))
  ]
]

-- ValidateDBusObjectPath accepts exactly the root path and the paths that are made of one element
-- or more, each behind a slash, not empty, and of letters, digits and underscores.
pub validate_object_path-IsObjectPath :
    (s : Text) → (validate_object_path s ≡ none) ↔ IsObjectPath s
unfolding validate_object_path
validate_object_path-IsObjectPath s = (accepted s, λ h. refused s h)
  where
    accepted : (s : Text) → validate_object_path s ≡ none → IsObjectPath s
    accepted [] h = absurd (cc h)
    accepted (c ∷ []) h = elim (Bool-cases (c == b'/')) [
      | inl e ↦ inl (ap (λ x. x ∷ []) ((==_iff c b'/').0 e))
      | inr e ↦ absurd (cc (rw e at h))
    ]
    accepted (c ∷ d ∷ cs) h = elim (Bool-cases (c == b'/')) [
      | inl e ↦
          let (w, es, hw, hs, ne, q) = path_loop_inv (d ∷ cs) 1 1 (omega arith) (rw e at h) in
          inr (
            w ∷ es,
            (λ z. cc z),
            ((ne refl, hw), hs),
            ap (λ x. x ∷ d ∷ cs) ((==_iff c b'/').0 e) ∙ ap (◌∷◌ b'/') q,
          )
      | inr e ↦ absurd (cc (rw e at h))
    ]

    from_elements :
        (es : List Text) → es ≢ [] → All IsElement es → validate_object_path (joined es) ≡ none
    from_elements [] ne hs = absurd (ne refl)
    from_elements ([] ∷ es) ne hs = absurd (hs.0.0 refl)
    from_elements ((c ∷ e) ∷ es) ne hs =
        path_loop-joined es (c ∷ e) 1 1 hs.0.1 hs.1 (omega arith) (λ q. hs.0.0)

    refused : (s : Text) → IsObjectPath s → validate_object_path s ≡ none
    refused s (inl e) = rw e refl
    refused s (inr (es, ne, hs, e)) = rw e (from_elements es ne hs)
