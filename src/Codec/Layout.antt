-- ===== src/Codec/Layout.antt =====
-- What marshalling does to the buffer: it appends bytes, and these depend on the buffer only
-- through the offset that it leaves in a block of eight.
use mathlib.Core.Logic.{◌⊎◌}
use cxx_bus.Base.{
  ℕ, zero, suc, ◌+◌, ◌/◌, ◌%◌, ◌≤◌, ◌<◌, ◌≡◌, refl, ap, ◌∙◌, ◌++◌, append_assoc, arith, length,
  length-append, length-replicate, replicate, take-append, drop-append, Result, ok, err, ◌>>=◌,
  >>=-eq-ok, inl, inr,
}
use cxx_bus.Codec.Bytes.{Bytes, padding, apply_padding, le_bytes, write_bytes}

abbrev pub Appends : (Bytes → Result Bytes) → Type 0
Appends m =
    (b r : Bytes)
    → m b ≡ ok r
    → (x : Bytes) × (r ≡ b ++ x) × ((c : Bytes) → length c % 8 ≡ length b % 8 → m c ≡ ok (c ++ x))

-- The result is longer than the buffer.
abbrev pub Grows : (Bytes → Result Bytes) → Type 0
Grows m = (b r : Bytes) → m b ≡ ok r → length b < length r

abbrev pub IsAlignment : ℕ → Type 0
IsAlignment a = (a ≡ 1) ⊎ (a ≡ 2) ⊎ (a ≡ 4) ⊎ (a ≡ 8)

pub padding-mod : (m n a : ℕ) → IsAlignment a → m % 8 ≡ n % 8 → padding m a ≡ padding n a
unfolding padding
padding-mod m n a (inl e) h = rw e (ground arith)
padding-mod m n a (inr (inl e)) h = rw e (ground arith)
padding-mod m n a (inr (inr (inl e))) h = rw e (ground arith)
padding-mod m n a (inr (inr (inr e))) h = rw e (ground arith)

pub padding-lt : (n a : ℕ) → IsAlignment a → padding n a < 8
unfolding padding
padding-lt n a (inl e) = rw e (ground arith)
padding-lt n a (inr (inl e)) = rw e (ground arith)
padding-lt n a (inr (inr (inl e))) = rw e (ground arith)
padding-lt n a (inr (inr (inr e))) = rw e (ground arith)

pub padding_eight : (n : ℕ) → (n + padding n 8) % 8 ≡ 0
unfolding padding
padding_eight n = ground arith

pub length-apply_padding :
    (b : Bytes) (a : ℕ) → length (apply_padding b a) ≡ length b + padding (length b) a
unfolding apply_padding
length-apply_padding b a =
    length-append b _ ∙ ap (λ (n : ℕ). length b + n) (length-replicate (padding (length b) a) 0)

-- Appending a constant.
pub Appends-const : (x : Bytes) → Appends (λ b. ok (b ++ x))
Appends-const x b r e = (x, cc, λ c h. refl)

pub Appends-padding : (a : ℕ) → IsAlignment a → Appends (λ b. ok (apply_padding b a))
unfolding apply_padding
Appends-padding a v b r e =
    (replicate (padding (length b) a) 0, cc, λ c h. rw (padding-mod (length c) (length b) a v h))

-- One after the other.
pub Appends-bind : (m k : Bytes → Result Bytes) → Appends m → Appends k → Appends (λ b. m b >>= k)
Appends-bind m k hm hk b r e =
    let (g, em, ek) = >>=-eq-ok (m b) k e in
    let (x, ex, sx) = hm b g em in
    let (y, ey, sy) = hk g r ek in
    (
      x ++ y,
      rw (ey, ex) (append_assoc b x y),
      λ c h. rw (sx c h, sy (c ++ x) (lengths c g x h ex), append_assoc c x y),
    )
  where
    lengths :
        (c g x : Bytes)
        → length c % 8 ≡ length b % 8
        → g ≡ b ++ x
        → length (c ++ x) % 8 ≡ length g % 8
    lengths c g x h ex = rw ex (omega (arith, length-append c x, length-append b x))

-- After a computation that does not touch the buffer.
pub Appends-after :
    (p : Result Bytes) (k : Bytes → Bytes → Result Bytes)
    → ((x : Bytes) → Appends (k x))
    → Appends (λ b. p >>= λ x. k x b)
Appends-after (ok x) k h = h x
Appends-after (err e) k h = λ b r q. cc

pub Grows-bind_left :
    (m k : Bytes → Result Bytes)
    → Grows m
    → ((b r : Bytes) → k b ≡ ok r → length b ≤ length r)
    → Grows (λ b. m b >>= k)
Grows-bind_left m k hm hk b r e =
    let (g, em, ek) = >>=-eq-ok (m b) k e in omega (arith, hm b g em, hk g r ek)

pub Appends-le :
    (m : Bytes → Result Bytes) → Appends m → (b r : Bytes) → m b ≡ ok r → length b ≤ length r
Appends-le m h b r e = let (x, ex, s) = h b r e in rw ex (omega (arith, length-append b x))

pub length-le_bytes : (n w : ℕ) → length (le_bytes n w) ≡ n
unfolding le_bytes
length-le_bytes zero w = refl
length-le_bytes (suc n) w = ap suc (length-le_bytes n (w / 256))

-- Four bytes written behind `b` replace those that stand there.
pub write_bytes-append :
    (b new old rest : Bytes)
    → length new ≡ length old
    → write_bytes (length b) new (b ++ (old ++ rest)) ≡ b ++ (new ++ rest)
unfolding write_bytes
write_bytes-append b new old rest h = rw (take-append b (old ++ rest)) (
    ap (λ (t : Bytes). b ++ (new ++ t))
      (rw (h, ← length-append b old, ← append_assoc b old rest) (drop-append (b ++ old) rest)))

pub length-zeros : (n : ℕ) → length {A = ℕ} (replicate n 0) ≡ n
length-zeros n = length-replicate n 0
