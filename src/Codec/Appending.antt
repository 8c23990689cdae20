-- ===== src/Codec/Appending.antt =====
-- Every marshalling function of src/DBus.h appends to its buffer.
use cxx_bus.Base.{
  ℕ, ◌+◌, ◌-◌, ◌*◌, ◌%◌, ◌^◌, ◌≡◌, refl, sym, ap, ◌∙◌, Bool, true, false, List, [], ◌∷◌, ◌++◌,
  append_assoc, append-nil, arith, length, length-append, replicate, Result, ok, err, ◌>>=◌,
  >>=-eq-ok, inl, inr, Bool-cases, All, Text, contains_code, sub64, leb, if◌then◌else◌,
  length_error, throw_if,
}
use cxx_bus.Codec.Types.{Stringlike, Key, KeyValue, size_of, word, boolean, text}
use cxx_bus.Codec.Bytes.{Bytes, padding, apply_padding, le_bytes}
use cxx_bus.Codec.Layout.{
  Appends, IsAlignment, length-apply_padding, Appends-const, Appends-padding, Appends-bind,
  length-le_bytes, write_bytes-append,
}
use cxx_bus.Codec.Marshal.{
  marshal_fixed, marshal_bool, length_size, marshal_stringlike, marshal_key, marshal_elements,
  finish_array, marshal_array, packed, marshal_packed,
}

-- What a string-like value is on the wire.
abbrev pub string_bytes : Stringlike → Text → Bytes
string_bytes s str = le_bytes (length_size s) (length str % 256 ^ length_size s) ++ (str ++ 0 ∷ [])

pub marshal_stringlike_lem :
    (s : Stringlike) (str : Text) (b r : Bytes)
    → marshal_stringlike s str b ≡ ok r
    → (contains_code str 0 ≡ false) × (r ≡ b ++ string_bytes s str)
unfolding marshal_stringlike marshal_fixed
marshal_stringlike_lem s str b r e = elim (Bool-cases (contains_code str 0)) [
  | inl bad ↦ cc
  | inr good ↦ (
    good,
    cc (
      rw good at e,
      append_assoc b (le_bytes (length_size s) (length str % 256 ^ length_size s)) (str ++ 0 ∷ []),
    ),
  )
]

marshal_stringlike-Appends : (s : Stringlike) (str : Text) → Appends (marshal_stringlike s str)
unfolding marshal_stringlike marshal_fixed
marshal_stringlike-Appends s str b r e =
    let (good, er) = marshal_stringlike_lem s str b r e in
    (string_bytes s str, er, λ c h. rw good (ap ok (append_assoc c _ _)))

pub marshal_key-Appends : (k : Key) (v : KeyValue k) → Appends (marshal_key k v)
unfolding marshal_key marshal_fixed marshal_bool
marshal_key-Appends (word w) v = Appends-const (le_bytes (size_of w) v)
marshal_key-Appends boolean v = Appends-const (le_bytes 4 (if v then 1 else 0))
marshal_key-Appends (text s) v = marshal_stringlike-Appends s v

pub packed-Appends :
    (n : ℕ) (values : List ℕ) → IsAlignment n → Appends (λ b. ok (marshal_packed n values b))
unfolding marshal_packed marshal_fixed
packed-Appends n values v =
    Appends-bind (λ b. ok (apply_padding (marshal_fixed 4 (length values * n % 2 ^ 32) b) n))
      (λ b. ok (b ++ packed n values))
      (Appends-bind (λ b. ok (marshal_fixed 4 (length values * n % 2 ^ 32) b))
        (λ b. ok (apply_padding b n)) (Appends-const _) (Appends-padding n v))
      (Appends-const _)

module _ {A : Type 0} (m : A → Bytes → Result Bytes) (alignment : ℕ)
    (v : IsAlignment alignment) where
  pub marshal_elements-Appends :
      (xs : List A) → All (λ x. Appends (m x)) xs → Appends (marshal_elements m alignment xs)
  unfolding marshal_elements
  marshal_elements-Appends [] h = λ b r e. ([], cc (append-nil b), λ c k. rw append-nil)
  marshal_elements-Appends (x ∷ []) h = h.0
  marshal_elements-Appends (x ∷ y ∷ xs) h =
      Appends-bind (m x) (λ g. marshal_elements m alignment (y ∷ xs) (apply_padding g alignment))
        h.0
        (Appends-bind (λ g. ok (apply_padding g alignment)) (marshal_elements m alignment (y ∷ xs))
          (Appends-padding alignment v) (marshal_elements-Appends (y ∷ xs) h.1))

array_size : (p y : ℕ) → sub64 (p + y) (p % 2 ^ 32) % 2 ^ 32 ≡ y % 2 ^ 32
array_size p y = omega arith

-- The bytes of an array that starts at an offset and whose elements marshal to `y`.
abbrev pub array_bytes : ℕ → ℕ → Bytes → Bytes
array_bytes alignment start y =
    le_bytes 4 (length y % 2 ^ 32) ++ (replicate (padding (start + 4) alignment) 0 ++ y)

-- The buffer in which the elements are marshalled.
abbrev pub array_prefix : ℕ → Bytes → Bytes
array_prefix alignment b = apply_padding (marshal_fixed 4 0 b) alignment

length-marshal_fixed : (n w : ℕ) (b : Bytes) → length (marshal_fixed n w b) ≡ length b + n
unfolding marshal_fixed
length-marshal_fixed n w b =
    length-append b (le_bytes n w) ∙ ap (λ (k : ℕ). length b + k) (length-le_bytes n w)

pub array_prefix_lem :
    (alignment : ℕ) (b y : Bytes)
    → array_prefix alignment b ++ y
      ≡ b ++ (le_bytes 4 0 ++ (replicate (padding (length b + 4) alignment) 0 ++ y))
unfolding apply_padding
array_prefix_lem alignment b y =
    rw (length-marshal_fixed 4 0 b) (unfold marshal_fixed in simp append_assoc)

pub length-array_prefix :
    (alignment : ℕ) (b : Bytes)
    → length (array_prefix alignment b) ≡ length b + 4 + padding (length b + 4) alignment
length-array_prefix alignment b =
    rw (length-apply_padding (marshal_fixed 4 0 b) alignment, length-marshal_fixed 4 0 b)

finish_array_lem :
    (alignment : ℕ) (b y : Bytes)
    → finish_array
        (length b)
        (length (array_prefix alignment b) % 2 ^ 32)
        (array_prefix alignment b ++ y)
      ≡ (if leb (2 ^ 26) (length y % 2 ^ 32)
          then err length_error
          else ok (b ++ array_bytes alignment (length b) y))
unfolding finish_array
finish_array_lem alignment b y =
    rw
      (
        length-append (array_prefix alignment b) y,
        array_size (length (array_prefix alignment b)) (length y),
        array_prefix_lem alignment b y,
        write_bytes-append b (le_bytes 4 (length y % 2 ^ 32)) (le_bytes 4 0)
            (replicate (padding (length b + 4) alignment) 0 ++ y) (same (length y % 2 ^ 32)),
      )
      (either (leb (2 ^ 26) (length y % 2 ^ 32)))
  where
    same : (n : ℕ) → length (le_bytes 4 n) ≡ length (le_bytes 4 0)
    same n = length-le_bytes 4 n ∙ sym (length-le_bytes 4 0)

    either :
        (t : Bool)
        → (throw_if t length_error >>= λ _. ok (b ++ array_bytes alignment (length b) y))
          ≡ (if t then err length_error else ok (b ++ array_bytes alignment (length b) y))
    either true = refl
    either false = refl

module _ {A : Type 0} (m : A → Bytes → Result Bytes) (alignment : ℕ) where
  pub marshal_array_lem :
      (values : List A) (b y : Bytes)
      → marshal_elements m alignment values (array_prefix alignment b)
        ≡ ok (array_prefix alignment b ++ y)
      → marshal_array m alignment values b ≡ (
          if leb (2 ^ 26) (length y % 2 ^ 32)
          then err length_error
          else ok (b ++ array_bytes alignment (length b) y))
  unfolding marshal_array
  marshal_array_lem values b y e = rw (e, size_position) (finish_array_lem alignment b y)
    where
      size_position : length (marshal_fixed 4 0 b) - 4 ≡ length b
      size_position = omega (arith, length-marshal_fixed 4 0 b)

  -- An array that marshals has elements that marshal, to less than 64 MiB.
  pub marshal_array_inv :
      (values : List A)
      → Appends (marshal_elements m alignment values)
      → (b r : Bytes) → marshal_array m alignment values b ≡ ok r
      → (y : Bytes) × (marshal_elements m alignment values (array_prefix alignment b)
          ≡ ok (array_prefix alignment b ++ y))
        × (leb (2 ^ 26) (length y % 2 ^ 32) ≡ false)
        × (r ≡ b ++ array_bytes alignment (length b) y)
        × ((c : Bytes)
            → length c % 8 ≡ length (array_prefix alignment b) % 8
            → marshal_elements m alignment values c ≡ ok (c ++ y))
  unfolding marshal_array
  marshal_array_inv values h b r e =
      let (full, ef, _) =
        >>=-eq-ok (marshal_elements m alignment values (array_prefix alignment b)) _ e in
      let (y, ey, sy) = h (array_prefix alignment b) full ef in
      let whole : marshal_elements m alignment values (array_prefix alignment b)
          ≡ ok (array_prefix alignment b ++ y) =
        rw ef (ap ok ey) in
      elim (Bool-cases (leb (2 ^ 26) (length y % 2 ^ 32))) [
        | inl big ↦ cc (rw big at (marshal_array_lem values b y whole))
        | inr small ↦ (y, whole, small, cc (rw small at (marshal_array_lem values b y whole)), sy)
      ]
