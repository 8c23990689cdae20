-- ===== src/Codec/Termination.antt =====
-- The loop of UnmarshalDBusArray of src/DBus.h ends, and looks inside the buffer only.
use cxx_bus.Base.{
  ℕ, zero, suc, ◌+◌, ◌-◌, ◌^◌, ◌≤◌, ◌<◌, ◌≡◌, ◌⊎◌, inl, inr, refl, true, false, arith, List, [],
  ◌∷◌, length, Result, Error, ok, err, ◌>>=◌, leb, ltb, sub32, add32, add32_lem, Bool-cases,
  malformed_input, length_error,
}
use cxx_bus.Codec.Bytes.{Bytes, padding, skip_padding}
use cxx_bus.Codec.Layout.{IsAlignment, padding-lt}
use cxx_bus.Codec.Unmarshal.{unmarshal_elements, unmarshal_array}
use cxx_bus.Codec.Bounds.{IsReadError, StaysInside, read_fixed-StaysInside}

module _ {A : Type 0} (u : Bytes → ℕ → Result (A × ℕ)) (alignment : ℕ) (inside : StaysInside u)
    (v : IsAlignment alignment) where
  -- The pointer ends at most 7 bytes of padding behind the buffer.
  abbrev pub Ends : Bytes → Result (List A × ℕ) → Type 0
  Ends bytes r =
      ((xs : List A) × (q : ℕ) × (r ≡ ok (xs, q)) × (q ≤ length bytes + 7))
      ⊎ ((e : Error) × (r ≡ err e) × IsReadError e)

  skip_inside :
      (p : ℕ) (bytes : Bytes)
      → p ≤ length bytes
      → length bytes + 8 < 2 ^ 32
      → skip_padding p alignment ≡ p + padding p alignment
  unfolding skip_padding
  skip_inside p bytes h k =
      add32_lem p (padding p alignment) (omega (arith, padding-lt p alignment v))

  step :
      (bytes : Bytes) (a : A) (r : Result (List A × ℕ))
      → Ends bytes r
      → Ends bytes (r >>= λ z. ok (a ∷ z.0, z.1))
  step bytes a r (inl (xs, z, er, lz)) = inl (a ∷ xs, z, rw er refl, lz)
  step bytes a r (inr (x, ex, i)) = inr (x, rw ex refl, i)

  one_round :
      (fuel n k : ℕ) (bytes : Bytes) (p : ℕ)
      → n < suc fuel + k
      → k ≤ p
      → length bytes + 8 < 2 ^ 32
      → ((j r : ℕ)
          → 0 < fuel
          → n < fuel + j
          → j ≤ r
          → r ≤ length bytes + 7
          → Ends bytes (unmarshal_elements u alignment fuel n j bytes r))
      → (a : A) (q : ℕ) → ltb k n ≡ true
      → leb (length bytes) p ≡ false
      → u bytes p ≡ ok (a, q)
      → p < q
      → q ≤ length bytes
      → (ltb (k + (q - p)) n ≡ true) ⊎ (ltb (k + (q - p)) n ≡ false)
      → Ends bytes (unmarshal_elements u alignment (suc fuel) n k bytes p)
  unfolding unmarshal_elements
  one_round fuel n k bytes p enough kp size again a q e f ea lt le (inl g) =
      let below : k < n = ground arith in
      let read : add32 k (sub32 q p) ≡ k + (q - p) = omega arith in
      let pad = padding q alignment in
      let small : pad < 8 = padding-lt q alignment v in
      let total : add32 (k + (q - p)) (sub32 (q + pad) q) ≡ k + (q - p) + pad = omega arith in
      rw (e, f, ea, read, g, skip_inside q bytes le size, total)
        (step bytes a _ (
          again (k + (q - p) + pad) (q + pad) (omega arith) (omega arith) (omega arith)
            (omega arith)))
  one_round fuel n k bytes p enough kp size again a q e f ea lt le (inr g) =
      let below : k < n = ground arith in
      let read : add32 k (sub32 q p) ≡ k + (q - p) = omega arith in
      rw (e, f, ea, read, g)
        (step bytes a _
          (again (k + (q - p)) q (omega arith) (omega arith) (omega arith) (omega arith)))

  elements_end :
      (fuel n k : ℕ) (bytes : Bytes) (p : ℕ)
      → 0 < fuel
      → n < fuel + k
      → k ≤ p
      → p ≤ length bytes + 7
      → length bytes + 8 < 2 ^ 32
      → Ends bytes (unmarshal_elements u alignment fuel n k bytes p)
  unfolding unmarshal_elements
  elements_end zero n k bytes p pos enough kp pl size = absurd (omega arith)
  elements_end (suc fuel) n k bytes p pos enough kp pl size = elim (Bool-cases (ltb k n)) [
    | inr e ↦ inl ([], p, rw e refl, pl)
    | inl e ↦ elim (Bool-cases (leb (length bytes) p)) [
      | inl f ↦ inr (malformed_input, rw (e, f) refl, tt)
      | inr f ↦ elim (inside bytes p (ground arith) (omega arith)) [
        | inr (x, ex, i) ↦ inr (x, rw (e, f, ex) refl, i)
        | inl (a, q, ea, lt, le) ↦
            one_round fuel n k bytes p enough kp size
              (λ j r pos' enough' jr rl. elements_end fuel n j bytes r pos' enough' jr rl size) a q
              e f ea lt le (Bool-cases (ltb (k + (q - p)) n))
      ]
    ]
  ]

  -- If the reader of the elements moves forward in the buffer or throws, UnmarshalDBusArray at a
  -- pointer in a buffer ends: it gives elements and a pointer at most 7 bytes of padding behind the
  -- buffer, or throws that the length is 64 MiB or more, that the input is malformed, or that a name
  -- or a path is invalid. It never reads outside the buffer, and the fuel is enough.
  pub unmarshal_array-Ends :
      (bytes : Bytes) (p : ℕ)
      → p ≤ length bytes
      → length bytes + 8 < 2 ^ 32
      → Ends bytes (unmarshal_array u alignment bytes p)
        ⊎ (unmarshal_array u alignment bytes p ≡ err length_error)
  unfolding unmarshal_array
  unmarshal_array-Ends bytes p h size =
      elim (read_fixed-StaysInside 4 (omega arith) bytes p h (omega arith)) [
        | inr (x, ex, i) ↦ inl (inr (x, rw ex refl, i))
        | inl (n, q, e, lt, le) ↦ elim (Bool-cases (leb (2 ^ 26) n)) [
          | inl f ↦ inr (rw (e, f) refl)
          | inr f ↦ inl (
              rw (e, f, skip_inside q bytes le size)
                (elements_end (suc n) n 0 bytes (q + padding q alignment) (omega arith)
                  (omega arith) (omega arith) (omega (arith, padding-lt q alignment v)) size))
        ]
      ]
