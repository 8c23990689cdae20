-- ===== src/Codec/Arrays.antt =====
-- Arrays of other elements: the loops of MarshalDBusArray and UnmarshalDBusArray.
use cxx_bus.Base.{
  ℕ, zero, suc, ◌+◌, ◌-◌, ◌%◌, ◌^◌, ◌≤◌, ◌<◌, ◌≡◌, ap, ◌∙◌, List, [], ◌∷◌, ◌++◌, append_assoc,
  arith, length, length-append, replicate, Result, ok, ◌>>=◌, >>=-eq-ok, All, leb-false, ltb-false,
  ltb-true, add32, add32_lem, sub32_lem,
}
use cxx_bus.Codec.Bytes.{Bytes, padding, apply_padding, skip_padding}
use cxx_bus.Codec.Layout.{Appends, Grows, IsAlignment, length-apply_padding, length-zeros}
use cxx_bus.Codec.Marshal.{marshal_elements, marshal_array}
use cxx_bus.Codec.Appending.{marshal_elements-Appends, marshal_array_inv, length-array_prefix}
use cxx_bus.Codec.Unmarshal.{unmarshal_elements, unmarshal_array}
use cxx_bus.Codec.Header.{
  sized, front, length-front, length-sized, sized-front, read-sized, skip-sized,
}
use cxx_bus.Codec.Reading.{Reads, length-three, append-cancel}

-- What the elements of an array, or the entries of a map, have to bring.
abbrev pub IsCoded :
    {A : Type 0} → (A → Bytes → Result Bytes) → (Bytes → ℕ → Result (A × ℕ)) → A → Type 0
IsCoded m u a = Appends (m a) × Grows (m a) × Reads (m a) u a

module _ {A : Type 0} (m : A → Bytes → Result Bytes) (u : Bytes → ℕ → Result (A × ℕ))
    (alignment : ℕ) where
  finished :
      (fuel n p : ℕ) (bytes : Bytes)
      → unmarshal_elements u alignment (suc fuel) n n bytes p ≡ ok ([], p)
  unfolding unmarshal_elements
  finished fuel n p bytes = rw (ltb-false n n (omega arith))

  -- One round, at the last element and at another.
  last_round :
      (fuel n k p q : ℕ) (bytes : Bytes) (x : A)
      → u bytes p ≡ ok (x, q)
      → p < q
      → q ≤ length bytes
      → length bytes < 2 ^ 32
      → k + (q - p) ≡ n
      → n < 2 ^ 32
      → unmarshal_elements u alignment (suc fuel) n k bytes p
        ≡ (unmarshal_elements u alignment fuel n n bytes q >>= λ r. ok (x ∷ r.0, r.1))
  unfolding unmarshal_elements
  last_round fuel n k p q bytes x e lt le size sum small = rw (
    ltb-true k n (omega arith),
    leb-false (length bytes) p (omega arith),
    e,
    sub32_lem q p (omega arith) (omega arith),
    add32_lem k (q - p) (omega arith),
    sum,
    ltb-false n n (omega arith),
  )

  next_round :
      (fuel n k p q : ℕ) (bytes : Bytes) (x : A)
      → u bytes p ≡ ok (x, q)
      → p < q
      → q + padding q alignment ≤ length bytes
      → length bytes < 2 ^ 32
      → k + (q - p) < n
      → k + (q - p) + padding q alignment < 2 ^ 32
      → n < 2 ^ 32
      → unmarshal_elements u alignment (suc fuel) n k bytes p ≡ (
          unmarshal_elements u alignment fuel n
            (k + (q - p) + padding q alignment)
            bytes
            (q + padding q alignment)
          >>= λ r. ok (x ∷ r.0, r.1))
  unfolding unmarshal_elements skip_padding
  next_round fuel n k p q bytes x e lt le size sum room small = rw (
    ltb-true k n (omega arith),
    leb-false (length bytes) p (omega arith),
    e,
    sub32_lem q p (omega arith) (omega arith),
    add32_lem k (q - p) (omega arith),
    ltb-true (k + (q - p)) n sum,
    add32_lem q (padding q alignment) (omega arith),
    sub32_lem (q + padding q alignment) q (omega arith) (omega arith),
    total,
  )
    where
      total : add32 (k + (q - p)) (q + padding q alignment - q) ≡ k + (q - p) + padding q alignment
      total = omega arith

  pub elements-Appends : (xs : List A) → All (IsCoded m u) xs → All (λ x. Appends (m x)) xs
  elements-Appends [] h = tt
  elements-Appends (x ∷ xs) h = (h.0.0, elements-Appends xs h.1)

  pub elements-Grows :
      (x : A) (xs : List A)
      → All (IsCoded m u) (x ∷ xs)
      → IsAlignment alignment
      → Grows (marshal_elements m alignment (x ∷ xs))
  unfolding marshal_elements
  elements-Grows x [] h v b r e = h.0.1 b r e
  elements-Grows x (x' ∷ xs) h v b r e =
      let (g, em, ek) = >>=-eq-ok (m x b) _ e in
      omega (
        arith,
        h.0.1 b g em,
        length-apply_padding g alignment,
        elements-Grows x' xs h.1 v (apply_padding g alignment) r ek,
      )

  -- The bytes of two or more elements: those of the first, padding, and those of the others.
  record Split (x : A) (others : List A) (b y : Bytes) : Type 0 where
    first : Bytes
    left : Bytes
    first_marshals : m x b ≡ ok (b ++ first)
    others_marshal :
        let at = b ++ (first ++ replicate (padding (length b + length first) alignment) 0) in
        marshal_elements m alignment others at ≡ ok (at ++ left)
    joined : y ≡ first ++ (replicate (padding (length b + length first) alignment) 0 ++ left)

  elements_apart :
      (x x' : A) (xs : List A) (b y : Bytes)
      → All (IsCoded m u) (x ∷ x' ∷ xs)
      → IsAlignment alignment
      → marshal_elements m alignment (x ∷ x' ∷ xs) b ≡ ok (b ++ y)
      → Split x (x' ∷ xs) b y
  unfolding marshal_elements apply_padding
  elements_apart x x' xs b y h v e =
      let (g, em, ek) = >>=-eq-ok (m x b) _ e in
      let (first, eg, _) = h.0.0 b g em in
      let pad : Bytes = replicate (padding (length b + length first) alignment) 0 in
      let place : apply_padding g alignment ≡ b ++ (first ++ pad) =
        rw (eg, length-append b first) (append_assoc b first pad) in
      let (left, el, _) =
        marshal_elements-Appends m alignment v (x' ∷ xs) (elements-Appends (x' ∷ xs) h.1)
          (apply_padding g alignment) (b ++ y) ek in
      record {
        first = first;
        left = left;
        first_marshals = rw em (ap ok eg);
        others_marshal = rw (← place) (rw ek (ap ok el));
        joined = append-cancel b _ _ (rw (el, place) (simp append_assoc));
      }

  -- The elements are read back from where they stand: `k` bytes of the array's `n` lie before.
  pub elements_read :
      (xs : List A)
      → All (IsCoded m u) xs
      → IsAlignment alignment
      → (fuel n k : ℕ) (b y rest : Bytes) → marshal_elements m alignment xs b ≡ ok (b ++ y)
      → k + length y ≡ n
      → length y < fuel
      → n < 2 ^ 32
      → length b + (length y + length rest) < 2 ^ 32
      → unmarshal_elements u alignment fuel n k (b ++ (y ++ rest)) (length b)
        ≡ ok (xs, length b + length y)
  unfolding marshal_elements
  elements_read xs h v zero n k b y rest e sum more small size = absurd (omega arith)
  elements_read [] h v (suc fuel) n k b y rest e sum more small size =
      let none_left : b ≡ b ++ y = cc in
      let empty : length y ≡ 0 = omega (arith, ap length none_left, length-append b y) in
      let all : k ≡ n = omega arith in
      rw all
        (finished fuel n (length b) (b ++ (y ++ rest)) ∙ ap (λ (p : ℕ). ok ([], p)) (omega arith))
  elements_read (x ∷ []) h v (suc zero) n k b y rest e sum more small size =
      absurd (omega (arith, h.0.1 b (b ++ y) e, length-append b y))
  elements_read (x ∷ []) h v (suc (suc fuel)) n k b y rest e sum more small size =
      let grows = h.0.1 b (b ++ y) e in
      rw (
        last_round (suc fuel) n k (length b) (length b + length y) (b ++ (y ++ rest)) x
            (h.0.2 b y rest e size) (omega (arith, length-append b y))
            (omega (arith, length-three b y rest)) (omega (arith, length-three b y rest))
            (omega arith) small,
        finished fuel n (length b + length y) (b ++ (y ++ rest)),
      )
  elements_read (x ∷ x' ∷ xs) h v (suc fuel) n k b y rest e sum more small size =
      let s = elements_apart x x' xs b y h v e in
      let f = s.first in
      let p = padding (length b + length f) alignment in
      let pad : Bytes = replicate p 0 in
      let b' = b ++ (f ++ pad) in
      let whole : b ++ (y ++ rest) ≡ b ++ (f ++ (pad ++ (s.left ++ rest))) =
        rw s.joined (simp append_assoc) in
      let whole' : b ++ (y ++ rest) ≡ b' ++ (s.left ++ rest) = rw whole (simp append_assoc) in
      let lb : length b' ≡ length b + length f + p =
        omega (arith, length-append b (f ++ pad), length-append f pad, length-zeros p) in
      let ly : length y ≡ length f + (p + length s.left) = omega (
        arith,
        ap length s.joined,
        length-append f (pad ++ s.left),
        length-append pad s.left,
        length-zeros p,
      ) in
      let grows : length b < length (b ++ f) = h.0.1 b (b ++ f) s.first_marshals in
      let grows' : length b' < length (b' ++ s.left) =
        elements-Grows x' xs h.1 v b' (b' ++ s.left) s.others_marshal in
      let total = length-three b y rest in
      let left_pos : 0 < length s.left = omega (arith, length-append b' s.left) in
      let first_pos : 0 < length f = omega (arith, length-append b f) in
      let now : u (b ++ (y ++ rest)) (length b) ≡ ok (x, length b + length f) = rw whole (
        h.0.2 b f (pad ++ (s.left ++ rest)) s.first_marshals (
          omega (
            arith,
            length-append pad (s.left ++ rest),
            length-append s.left rest,
            length-zeros p,
          ))) in
      let later : unmarshal_elements u alignment fuel n (k + (length b + length f - length b) + p)
            (b ++ (y ++ rest)) (length b + length f + p)
          ≡ ok (x' ∷ xs, length b' + length s.left) =
        rw (whole', ← lb)
          (elements_read (x' ∷ xs) h.1 v fuel n (k + (length b + length f - length b) + p) b' s.left
            rest s.others_marshal (omega arith) (omega arith) small (omega arith)) in
      rw
        (
          next_round fuel n k (length b) (length b + length f) (b ++ (y ++ rest)) x now
              (omega arith) (omega arith) (omega arith) (omega arith) (omega arith) small,
          later,
        )
        (ap (λ (q : ℕ). ok (x ∷ x' ∷ xs, q)) (omega arith))

  -- An array below 2 ^ 32 bytes whose elements are read back is read back itself.
  pub unmarshal_array-Reads :
      (xs : List A)
      → All (IsCoded m u) xs
      → IsAlignment alignment
      → Reads (marshal_array m alignment xs) (unmarshal_array u alignment) xs
  unfolding unmarshal_array
  unmarshal_array-Reads xs h v b x rest e size =
      let elements = marshal_elements-Appends m alignment v xs (elements-Appends xs h) in
      let (y, _, small, er, sy) = marshal_array_inv m alignment xs elements b (b ++ x) e in
      let n = length y % 2 ^ 32 in
      let ex : x ≡ sized alignment (length b) n y = append-cancel b _ _ er in
      let lx : length x ≡ 4 + (padding (length b + 4) alignment + length y) =
        omega (arith, ap length ex, length-sized alignment b n y) in
      let exact : n ≡ length y = omega arith in
      let lf = length-front alignment b n in
      let marshals = sy (front alignment b n) (omega (arith, length-array_prefix alignment b)) in
      rw ex (
        rw
          (
            read-sized alignment b n y rest (omega arith) (omega (arith, ap length ex)),
            small,
            skip-sized alignment b n (omega arith),
            sized-front alignment b n y rest,
            elements_read xs h v (suc n) n 0 (front alignment b n) y rest marshals (omega arith)
                (omega arith) (omega arith) (omega arith),
          )
          (ap (λ (q : ℕ). ok (xs, q)) (omega (arith, length-sized alignment b n y))))

  pub marshal_array-Grows :
      (xs : List A)
      → All (IsCoded m u) xs
      → IsAlignment alignment
      → Grows (marshal_array m alignment xs)
  marshal_array-Grows xs h v b r e =
      let elements = marshal_elements-Appends m alignment v xs (elements-Appends xs h) in
      let (y, _, small, er, sy) = marshal_array_inv m alignment xs elements b r e in
      let n = length y % 2 ^ 32 in
      omega (
        arith,
        ap length er,
        length-append b (sized alignment (length b) n y),
        length-sized alignment b n y,
      )
