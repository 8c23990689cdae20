-- ===== src/Codec/Pairs.antt =====
-- Two values one after the other, with padding between: the members of a tuple, and the key and
-- the value of an entry.
use cxx_bus.Base.{
  ℕ, ◌+◌, ◌≡◌, ap, ◌++◌, append_assoc, arith, length, length-append, replicate, Result, ok, ◌>>=◌,
  >>=-eq-ok, add32_lem,
}
use cxx_bus.Codec.Bytes.{Bytes, padding, apply_padding, skip_padding}
use cxx_bus.Codec.Layout.{Appends, length-zeros}
use cxx_bus.Codec.Reading.{Reads, append-cancel}

module _ {A B : Type 0} (m : Bytes → Result Bytes) (n : Bytes → Result Bytes)
    (u : Bytes → ℕ → Result (A × ℕ)) (w : Bytes → ℕ → Result (B × ℕ)) (alignment : ℕ) where
  abbrev pub marshal_two : Bytes → Result Bytes
  marshal_two b = m b >>= λ g. n (apply_padding g alignment)

  abbrev pub read_two : Bytes → ℕ → Result ((A × B) × ℕ)
  read_two bytes p =
      u bytes p >>= λ r. w bytes (skip_padding r.1 alignment) >>= λ s. ok ((r.0, s.0), s.1)

  pub two-Reads :
      (a : A) (c : B)
      → Appends m
      → Appends n
      → Reads m u a
      → Reads n w c
      → Reads marshal_two read_two (a, c)
  unfolding apply_padding skip_padding
  two-Reads a c hm hn ru rw' b x rest e size =
      let (g, em, ek) = >>=-eq-ok (m b) _ e in
      let (f, eg, _) = hm b g em in
      let p = padding (length b + length f) alignment in
      let pad : Bytes = replicate p 0 in
      let b' = b ++ (f ++ pad) in
      let place : apply_padding g alignment ≡ b' =
        rw (eg, length-append b f) (append_assoc b f pad) in
      let (y, el, _) = hn (apply_padding g alignment) (b ++ x) ek in
      let joined : x ≡ f ++ (pad ++ y) = append-cancel b _ _ (rw (el, place) (simp append_assoc)) in
      let lx : length x ≡ length f + (p + length y) = omega (
        arith,
        ap length joined,
        length-append f (pad ++ y),
        length-append pad y,
        length-zeros p,
      ) in
      let lb : length b' ≡ length b + length f + p =
        omega (arith, length-append b (f ++ pad), length-append f pad, length-zeros p) in
      let whole : b ++ (x ++ rest) ≡ b ++ (f ++ (pad ++ (y ++ rest))) =
        rw joined (simp append_assoc) in
      let whole' : b ++ (x ++ rest) ≡ b' ++ (y ++ rest) = rw whole (simp append_assoc) in
      let now : u (b ++ (x ++ rest)) (length b) ≡ ok (a, length b + length f) = rw whole (
        ru b f (pad ++ (y ++ rest)) (rw em (ap ok eg))
          (omega (arith, length-append pad (y ++ rest), length-append y rest, length-zeros p))) in
      let later : w (b ++ (x ++ rest)) (length b + length f + p) ≡ ok (c, length b' + length y) =
        rw (whole', ← lb) (rw' b' y rest (rw (← place) (rw ek (ap ok el))) (omega arith)) in
      rw (now, add32_lem (length b + length f) p (omega arith), later)
        (ap (λ (q : ℕ). ok ((a, c), q)) (omega arith))
