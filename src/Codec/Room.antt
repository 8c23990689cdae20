-- ===== src/Codec/Room.antt =====
-- How much marshalling adds to a buffer at most, for the parts of values (src/DBus.h).
use cxx_bus.Base.{
  ℕ, ◌+◌, ◌-◌, ◌*◌, ◌%◌, ◌^◌, ◌≤◌, ◌<◌, ◌≡◌, refl, ap, false, List, [], ◌∷◌, ◌++◌, arith, length,
  length-append, take, drop, length-take, length-drop, Result, ok, ◌>>=◌, inr, All, leb-false,
  if◌then◌else◌, contains_code, sub64,
}
use cxx_bus.Codec.Types.{Key, KeyValue, size_of, word, boolean, text}
use cxx_bus.Codec.Bytes.{Bytes, apply_padding, le_bytes, write_bytes}
use cxx_bus.Codec.Layout.{IsAlignment, padding-lt, length-apply_padding, length-le_bytes}
use cxx_bus.Codec.Marshal.{
  marshal_fixed, marshal_bool, length_size, marshal_stringlike, marshal_key, finish_array,
  marshal_elements, marshal_array, packed, marshal_packed, marshal_entry, marshal_entries,
  marshal_map,
}
use cxx_bus.Codec.Packed.{length-packed}

-- Marshalling succeeds at every buffer, and adds `n` bytes at most.
abbrev pub Within : ℕ → (Bytes → Result Bytes) → Type 0
Within n m =
    (b : Bytes) → (r : Bytes) × (m b ≡ ok r) × (length b ≤ length r) × (length r ≤ length b + n)

pub Within-bind :
    (n k : ℕ) (f g : Bytes → Result Bytes)
    → Within n f
    → Within k g
    → Within (n + k) (λ b. f b >>= g)
Within-bind n k f g hf hg b =
    let (r, e, l, u) = hf b in let (s, e', l', u') = hg r in (s, rw e e', omega arith, omega arith)

pub Within-padding : (a : ℕ) → IsAlignment a → Within 7 (λ b. ok (apply_padding b a))
Within-padding a v b = (
  apply_padding b a,
  refl,
  omega (arith, length-apply_padding b a),
  omega (arith, length-apply_padding b a, padding-lt (length b) a v),
)

pub Within-fixed : (n v : ℕ) → Within n (λ b. ok (marshal_fixed n v b))
unfolding marshal_fixed
Within-fixed n v b = (
  b ++ le_bytes n v,
  refl,
  omega (arith, length-append b (le_bytes n v)),
  omega (arith, length-append b (le_bytes n v), length-le_bytes n v),
)

pub Within-weaken : (n k : ℕ) (m : Bytes → Result Bytes) → n ≤ k → Within n m → Within k m
Within-weaken n k m h w b = let (r, e, l, u) = w b in (r, e, l, omega arith)

-- The room of a basic value.
abbrev pub room_of_key : (k : Key) → KeyValue k → ℕ
room_of_key (word w) v = size_of w
room_of_key boolean v = 4
room_of_key (text s) str = length_size s + (length str + 1)

-- The texts have no terminator in them.
abbrev pub IsClean : (k : Key) → KeyValue k → Type 0
IsClean (word w) v = Unit
IsClean boolean v = Unit
IsClean (text s) str = contains_code str 0 ≡ false

pub Within-key :
    (k : Key) (v : KeyValue k) → IsClean k v → Within (room_of_key k v) (marshal_key k v)
unfolding marshal_key marshal_bool marshal_stringlike
Within-key (word w) v h = Within-fixed (size_of w) v
Within-key boolean v h = Within-fixed 4 (if v then 1 else 0)
Within-key (text s) str h = λ b.
    let field = length str % 256 ^ length_size s in
    let (r, e, l, u) = Within-fixed (length_size s) field b in
    let q : marshal_fixed (length_size s) field b ≡ r = cc in
    (
      marshal_fixed (length_size s) field b ++ (str ++ 0 ∷ []),
      rw h refl,
      omega (
        arith,
        ap length q,
        length-append (marshal_fixed (length_size s) field b) (str ++ 0 ∷ []),
      ),
      omega (
        arith,
        ap length q,
        length-append (marshal_fixed (length_size s) field b) (str ++ 0 ∷ []),
        length-append str (0 ∷ []),
      ),
    )

abbrev pub sum_by {ℓ} : {A : Type ℓ} → (A → ℕ) → List A → ℕ
sum_by f [] = 0
sum_by f (x ∷ xs) = f x + 7 + sum_by f xs

array_size : (full p : ℕ) → p ≤ full → full < p + 2 ^ 26 → sub64 full (p % 2 ^ 32) % 2 ^ 32 < 2 ^ 26
array_size full p h k = omega arith

length-fixed : (b : Bytes) → length (marshal_fixed 4 0 b) ≡ length b + 4
unfolding marshal_fixed
length-fixed b = omega (arith, length-append b (le_bytes 4 0), length-le_bytes 4 0)

length-write_bytes :
    (pos : ℕ) (new b : Bytes)
    → pos + length new ≤ length b
    → length (write_bytes pos new b) ≡ length b
unfolding write_bytes
length-write_bytes pos new b h = omega (
  arith,
  length-append (take pos b) (new ++ drop (pos + length new) b),
  length-append new (drop (pos + length new) b),
  length-take pos b,
  length-drop (pos + length new) b,
)

module _ {A : Type 0} (m : A → Bytes → Result Bytes) (size : A → ℕ) (alignment : ℕ)
    (v : IsAlignment alignment) where
  Within-elements :
      (xs : List A)
      → All (λ x. Within (size x) (m x)) xs
      → Within (sum_by size xs) (marshal_elements m alignment xs)
  unfolding marshal_elements
  Within-elements [] h = λ b. (b, refl, omega arith, omega arith)
  Within-elements (x ∷ []) h = Within-weaken (size x) (size x + 7 + 0) (m x) (omega arith) h.0
  Within-elements (x ∷ y ∷ xs) h = λ b.
      let (r, e, l, u) =
        Within-bind (size x) (7 + sum_by size (y ∷ xs)) (m x)
          (λ g. marshal_elements m alignment (y ∷ xs) (apply_padding g alignment)) h.0
          (Within-bind 7 (sum_by size (y ∷ xs)) (λ g. ok (apply_padding g alignment))
            (marshal_elements m alignment (y ∷ xs)) (Within-padding alignment v)
            (Within-elements (y ∷ xs) h.1))
          b in
      (r, e, l, omega arith)

  pub Within-array :
      (xs : List A)
      → All (λ x. Within (size x) (m x)) xs
      → sum_by size xs < 2 ^ 26
      → Within (11 + sum_by size xs) (marshal_array m alignment xs)
  unfolding marshal_array finish_array
  Within-array xs h small b =
      let sized = marshal_fixed 4 0 b in
      let padded = apply_padding sized alignment in
      let (g, eg, lg, ug) = Within-fixed 4 0 b in
      let qg : sized ≡ g = cc in
      let (p, ep, lp, up) = Within-padding alignment v sized in
      let qp : padded ≡ p = cc in
      let (full, e, l, u) = Within-elements xs h padded in
      let n = sub64 (length full) (length padded % 2 ^ 32) % 2 ^ 32 in
      let fits : n < 2 ^ 26 =
        array_size (length full) (length padded) (omega arith) (omega arith) in
      let four : length sized ≡ length b + 4 = length-fixed b in
      let whole : length (write_bytes (length sized - 4) (le_bytes 4 n) full) ≡ length full =
        length-write_bytes (length sized - 4) (le_bytes 4 n) full
          (omega (arith, length-le_bytes 4 n, ap length qp)) in
      (
        write_bytes (length sized - 4) (le_bytes 4 n) full,
        rw (e, leb-false (2 ^ 26) n fits) refl,
        omega (arith, ap length qp),
        omega (arith, ap length qp, ap length qg),
      )

pub Within-packed :
    (n : ℕ) (xs : List ℕ)
    → IsAlignment n
    → Within (11 + length xs * n) (λ b. ok (marshal_packed n xs b))
unfolding marshal_packed
Within-packed n xs v b =
    let sized = marshal_fixed 4 (length xs * n % 2 ^ 32) b in
    let (g, eg, lg, ug) = Within-fixed 4 (length xs * n % 2 ^ 32) b in
    let qg : sized ≡ g = cc in
    let (p, ep, lp, up) = Within-padding n v sized in
    let qp : apply_padding sized n ≡ p = cc in
    let both = length-append (apply_padding sized n) (packed n xs) in
    (
      apply_padding sized n ++ packed n xs,
      refl,
      omega (arith, ap length qg, ap length qp, both),
      omega (arith, ap length qg, ap length qp, both, length-packed n xs),
    )

module _ {A B : Type 0} (m : A → Bytes → Result Bytes) (n : B → Bytes → Result Bytes) (size : A → ℕ)
    (size' : B → ℕ) (alignment : ℕ) (v : IsAlignment alignment) where
  Within-entry :
      (e : A × B)
      → Within (size e.0) (m e.0)
      → Within (size' e.1) (n e.1)
      → Within (size e.0 + (7 + size' e.1)) (marshal_entry m n alignment e)
  unfolding marshal_entry
  Within-entry (a, b) h k =
      Within-bind (size a) (7 + size' b) (m a) (λ g. n b (apply_padding g alignment)) h
        (Within-bind 7 (size' b) (λ g. ok (apply_padding g alignment)) (n b)
          (Within-padding alignment v) k)

  abbrev room_of_entry : A × B → ℕ
  room_of_entry e = size e.0 + (7 + size' e.1)

  Within-entries :
      (es : List (A × B))
      → All (λ e. Within (size e.0) (m e.0) × Within (size' e.1) (n e.1)) es
      → Within (sum_by room_of_entry es) (marshal_entries m n alignment es)
  unfolding marshal_entries
  Within-entries [] h = λ b. (b, refl, omega arith, omega arith)
  Within-entries (e ∷ es) h = λ b.
      let (r, q, l, u) =
        Within-bind (7 + room_of_entry e) (sum_by room_of_entry es)
          (λ b. marshal_entry m n alignment e (apply_padding b 8))
          (marshal_entries m n alignment es)
          (Within-bind 7 (room_of_entry e) (λ b. ok (apply_padding b 8))
            (marshal_entry m n alignment e) (Within-padding 8 (inr (inr (inr refl))))
            (Within-entry e h.0.0 h.0.1))
          (Within-entries es h.1) b in
      (r, q, l, omega arith)

  Within-prefix :
      (size : ℕ) (x : Bytes)
      → Within (11 + length x) (λ b. ok (apply_padding (marshal_fixed 4 size b) 8 ++ x))
  Within-prefix size x b =
      let sized = marshal_fixed 4 size b in
      let (g, eg, lg, ug) = Within-fixed 4 size b in
      let qg : sized ≡ g = cc in
      let (p, ep, lp, up) = Within-padding 8 (inr (inr (inr refl))) sized in
      let qp : apply_padding sized 8 ≡ p = cc in
      let both = length-append (apply_padding sized 8) x in
      (
        apply_padding sized 8 ++ x,
        refl,
        omega (arith, ap length qg, ap length qp, both),
        omega (arith, ap length qg, ap length qp, both),
      )

  pub Within-map :
      (es : List (A × B))
      → All (λ e. Within (size e.0) (m e.0) × Within (size' e.1) (n e.1)) es
      → Within (18 + sum_by room_of_entry es) (marshal_map m n alignment es)
  unfolding marshal_map
  Within-map [] h =
      Within-bind 11 7 (λ b. ok (apply_padding (marshal_fixed 4 0 b) 8))
        (λ b. ok (apply_padding b 8))
        (Within-bind 4 7 (λ b. ok (marshal_fixed 4 0 b)) (λ b. ok (apply_padding b 8))
          (Within-fixed 4 0) (Within-padding 8 (inr (inr (inr refl)))))
        (Within-padding 8 (inr (inr (inr refl))))
  Within-map (e ∷ es) h = λ b.
      let (g, eg, lg, ug) = Within-entry e h.0.0 h.0.1 [] in
      let (r, er, lr, ur) = Within-entries es h.1 g in
      let (s, es', ls, us) = Within-prefix (length r % 2 ^ 32) r b in
      (s, rw (eg, er) es', omega arith, omega arith)
