-- ===== src/Codec/Maps.antt =====
-- Maps: the loops of MarshalDBusMap and UnmarshalDBusMap are those of an array of entries, and a
-- map that is filled in the order of its keys is the list of its entries.
use cxx_bus.Base.{
  ℕ, zero, suc, ◌≡◌, refl, sym, ap, ◌∙◌, Bool, true, false, List, [], ◌∷◌, ◌++◌, append_assoc,
  append-nil, length, Result, ok, ◌>>=◌, >>=-eq-ok, throw_if, All, leb, ltb, add32, sub32, inl, inr,
  if◌then◌else◌, malformed_input, Bool-cases,
}
use cxx_bus.Codec.Bytes.{Bytes, skip_padding, add_padding_to_size}
use cxx_bus.Codec.Fits.{IsRising}
use cxx_bus.Codec.Unmarshal.{unmarshal_elements, emplace, unmarshal_entry, unmarshal_entries}

module _ {A B : Type 0} (less : A → A → Bool) where
  -- The map after all entries.
  pub emplace_all : List (A × B) → List (A × B) → List (A × B)
  emplace_all acc [] = acc
  emplace_all acc (e ∷ es) = emplace_all (emplace less e.0 e.1 acc) es

  abbrev pub Below : A × B → A × B → Type 0
  Below e f = (less e.0 f.0 ≡ true) × (less f.0 e.0 ≡ false)

  emplace_last :
      (e : A × B) (acc : List (A × B))
      → All (λ f. Below f e) acc
      → emplace less e.0 e.1 acc ≡ acc ++ (e ∷ [])
  unfolding emplace
  emplace_last e [] h = refl
  emplace_last e (f ∷ acc) h = rw (h.0.1, h.0.0, emplace_last e acc h.1)

  All-snoc :
      (e f : A × B) (acc : List (A × B))
      → All (λ g. Below g f) acc
      → Below e f
      → All (λ g. Below g f) (acc ++ (e ∷ []))
  All-snoc e f [] h k = (k, tt)
  All-snoc e f (g ∷ acc) h k = (h.0, All-snoc e f acc h.1 k)

  -- Every entry of `acc` lies below every entry of `es`.
  abbrev pub AllBelow : List (A × B) → List (A × B) → Type 0
  AllBelow acc es = All (λ f. All (λ g. Below g f) acc) es

  AllBelow-snoc :
      (e : A × B) (acc es : List (A × B))
      → AllBelow acc es
      → All (λ f. Below e f) es
      → AllBelow (acc ++ (e ∷ [])) es
  AllBelow-snoc e acc [] h k = tt
  AllBelow-snoc e acc (f ∷ es) h k = (All-snoc e f acc h.0 k.0, AllBelow-snoc e acc es h.1 k.1)

  pub emplace_all_rising :
      (acc es : List (A × B)) → AllBelow acc es → IsRising less es → emplace_all acc es ≡ acc ++ es
  unfolding emplace_all
  emplace_all_rising acc [] h r = sym (append-nil acc)
  emplace_all_rising acc (e ∷ es) h r = rw (emplace_last e acc h.0) (
      emplace_all_rising (acc ++ (e ∷ [])) es (AllBelow-snoc e acc es h.1 r.0) r.1
      ∙ append_assoc acc (e ∷ []) es)

  pub AllBelow-nil : (es : List (A × B)) → AllBelow [] es
  AllBelow-nil [] = tt
  AllBelow-nil (e ∷ es) = (tt, AllBelow-nil es)

module _ {A B : Type 0} (u : Bytes → ℕ → Result (A × ℕ)) (w : Bytes → ℕ → Result (B × ℕ))
    (alignment : ℕ) (less : A → A → Bool) where
  abbrev loop_total : ℕ → ℕ → ℕ → ℕ → ℕ
  loop_total n k p next =
      let read = add32 k (sub32 next p) in
      if ltb read n
      then add32 read (sub32 (if ltb read n then skip_padding next 8 else next) next)
      else read

  abbrev loop_pointer : ℕ → ℕ → ℕ → ℕ → ℕ
  loop_pointer n k p next = if ltb (add32 k (sub32 next p)) n then skip_padding next 8 else next

  -- Where the loop of an array of entries succeeds, the loop of a map fills it with these entries.
  pub entries_of_elements :
      (fuel n k p q : ℕ) (bytes : Bytes) (acc es : List (A × B))
      → unmarshal_elements (unmarshal_entry u w alignment) 8 fuel n k bytes p ≡ ok (es, q)
      → unmarshal_entries u w alignment less fuel n k acc bytes p ≡ ok (emplace_all less acc es, q)
  unfolding unmarshal_elements unmarshal_entries emplace_all add_padding_to_size skip_padding
  entries_of_elements zero n k p q bytes acc es e = cc
  entries_of_elements (suc fuel) n k p q bytes acc es e = elim (Bool-cases (ltb k n)) [
    | inl more ↦
        let (_, _, after_check) =
          >>=-eq-ok (throw_if (leb (length bytes) p) malformed_input) _ (rw more at e) in
        let ((x, next), read, after_read) =
          >>=-eq-ok (unmarshal_entry u w alignment bytes p) _ after_check in
        let ((xs, end), others, last) = >>=-eq-ok _ _ after_read in
        rw (more, read)
          (entries_of_elements fuel n (loop_total n k p next) (loop_pointer n k p next) end bytes
              (emplace less x.0 x.1 acc) xs others
            ∙ ap (λ (r : Result (List (A × B) × ℕ)). r >>= λ s. ok (emplace_all less acc s.0, s.1))
                last)
    | inr done ↦
        let nothing : ok ([], p) ≡ ok (es, q) = rw done at e in
        rw done (
          ap (λ (r : Result (List (A × B) × ℕ)). r >>= λ s. ok (emplace_all less acc s.0, s.1))
            nothing)
  ]
