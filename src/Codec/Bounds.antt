-- ===== src/Codec/Bounds.antt =====
-- Where the readers of src/DBus.h look: inside the buffer, as long as the pointer is in it.
use cxx_bus.Base.{
  ◌==◌, ℕ, ◌+◌, ◌-◌, ◌^◌, ◌≤◌, ◌<◌, ◌≡◌, ◌⊎◌, inl, inr, refl, false, arith, length, Result, Error,
  ok, err, leb, ltb, leb-true, leb-false, ltb-false, sub64, sub64_lem, add32_lem, Bool-cases, take,
  drop, Text, malformed_input, out_of_bounds, invalid_name, invalid_object_path, Option-cases,
}
use cxx_bus.Names.{
  object_path as make_object_path, interface_name as make_interface_name, validate_object_path,
  validate_interface_name,
}
use cxx_bus.Codec.Types.{
  Stringlike, string, object_path, interface_name, signature, Key, Word, size_of, word, boolean,
  text, construct, uint8,
}
use cxx_bus.Codec.Bytes.{Bytes, read_bytes, from_le}
use cxx_bus.Codec.Marshal.{length_size}
use cxx_bus.Codec.Variants.{read_fixed, read_bool, read_stringlike, read_key}

-- The exceptions that reading a basic value may throw.
abbrev pub IsReadError : Error → Type 0
IsReadError malformed_input = Unit
IsReadError invalid_name = Unit
IsReadError invalid_object_path = Unit
IsReadError _ = ⊥

-- The reader moves forward and stays in the buffer, or throws.
abbrev pub StaysInside : {A : Type 0} → (Bytes → ℕ → Result (A × ℕ)) → Type 0
StaysInside {A} u =
    (bytes : Bytes) (p : ℕ)
    → p ≤ length bytes
    → length bytes < 2 ^ 32
    → ((a : A) × (q : ℕ) × (u bytes p ≡ ok (a, q)) × (p < q) × (q ≤ length bytes))
      ⊎ ((e : Error) × (u bytes p ≡ err e) × IsReadError e)

read_bytes_inside :
    (n p : ℕ) (bytes : Bytes)
    → p + n ≤ length bytes
    → read_bytes n bytes p ≡ ok (take n (drop p bytes))
unfolding read_bytes
read_bytes_inside n p bytes h = rw (leb-true (p + n) (length bytes) h) refl

read_fixed_inside :
    (n : ℕ) (bytes : Bytes) (p : ℕ)
    → 0 < n
    → p ≤ length bytes
    → length bytes < 2 ^ 32
    → ((a : ℕ) × (q : ℕ) × (read_fixed n bytes p ≡ ok (a, q)) × (q ≡ p + n) × (q ≤ length bytes))
      ⊎ (read_fixed n bytes p ≡ err malformed_input)
unfolding read_fixed
read_fixed_inside n bytes p pos h k = elim (Bool-cases (ltb (length bytes - p) n)) [
  | inl e ↦ inr (rw (sub64_lem (length bytes) p h (omega arith), e) refl)
  | inr e ↦
      let room : p + n ≤ length bytes = fits (length bytes) p n h e in
      inl (
        from_le (take n (drop p bytes)),
        p + n,
        rw
            (
              sub64_lem (length bytes) p h (omega arith),
              e,
              read_bytes_inside n p bytes room,
              add32_lem p n (omega arith),
            )
            refl,
        refl,
        room,
      )
]
  where
    fits : (l p n : ℕ) → p ≤ l → ltb (l - p) n ≡ false → p + n ≤ l
    fits l p n h e = ground arith

-- Once padding has moved the pointer past the end, the test on what is left wraps around, and a
-- value is read outside the buffer.
pub read_fixed-out_of_bounds :
    (n : ℕ) (bytes : Bytes) (p : ℕ)
    → n ≤ 8
    → length bytes < p
    → p < 2 ^ 32
    → read_fixed n bytes p ≡ err out_of_bounds
unfolding read_fixed read_bytes
read_fixed-out_of_bounds n bytes p small past h =
    let left : 2 ^ 32 ≤ sub64 (length bytes) p = omega arith in
    rw
      (
        ltb-false (sub64 (length bytes) p) n (omega arith),
        leb-false (p + n) (length bytes) (omega arith),
      )
      refl

pub read_fixed-StaysInside : (n : ℕ) → 0 < n → StaysInside (read_fixed n)
read_fixed-StaysInside n pos bytes p h k = elim (read_fixed_inside n bytes p pos h k) [
  | inl r ↦ inl (r.0, r.1, r.2, omega (arith, r.3), r.4)
  | inr e ↦ inr (malformed_input, e, tt)
]

read_bool-StaysInside : StaysInside read_bool
unfolding read_bool
read_bool-StaysInside bytes p h k = elim (read_fixed_inside 4 bytes p (omega arith) h k) [
  | inl r ↦ inl (r.0 == 1, r.1, rw (r.2) refl, omega (arith, r.3), r.4)
  | inr e ↦ inr (malformed_input, rw e refl, tt)
]

construct_total :
    (s : Stringlike) (str : Text)
    → ((w : Text) × (construct s str ≡ ok w))
      ⊎ ((e : Error) × (construct s str ≡ err e) × IsReadError e)
unfolding construct make_object_path make_interface_name
construct_total string str = inl (str, refl)
construct_total signature str = inl (str, refl)
construct_total object_path str = elim (Option-cases (validate_object_path str)) [
  | inl e ↦ inl (str, rw e refl)
  | inr (f, e) ↦ inr (invalid_object_path, rw e refl, tt)
]
construct_total interface_name str = elim (Option-cases (validate_interface_name str)) [
  | inl e ↦ inl (str, rw e refl)
  | inr (f, e) ↦ inr (invalid_name, rw e refl, tt)
]

length_size_pos : (s : Stringlike) → 0 < length_size s
length_size_pos signature = omega arith
length_size_pos _ = omega arith

read_stringlike-StaysInside : (s : Stringlike) → StaysInside (read_stringlike s)
unfolding read_stringlike
read_stringlike-StaysInside s bytes p h k =
    elim (read_fixed_inside (length_size s) bytes p (length_size_pos s) h k) [
      | inr e ↦ inr (malformed_input, rw e refl, tt)
      | inl (n, q, e, eq, l) ↦ elim (Bool-cases (leb (length bytes - q) n)) [
        | inl f ↦
            inr (malformed_input, rw (e, sub64_lem (length bytes) q l (omega arith), f) refl, tt)
        | inr f ↦
            let room : q + n < length bytes = fits (length bytes) q n l f in
            let str = take n (drop q bytes) in
            elim (construct_total s str) [
              | inl (w, c) ↦ inl (
                w,
                q + (n + 1),
                rw
                    (
                      e,
                      sub64_lem (length bytes) q l (omega arith),
                      f,
                      read_bytes_inside n q bytes (omega arith),
                      c,
                      add32_lem q (n + 1) (omega arith),
                    )
                    refl,
                omega (arith, eq, length_size_pos s),
                omega arith,
              )
              | inr (x, c, i) ↦ inr (
                x,
                rw
                    (
                      e,
                      sub64_lem (length bytes) q l (omega arith),
                      f,
                      read_bytes_inside n q bytes (omega arith),
                      c,
                    )
                    refl,
                i,
              )
            ]
      ]
    ]
  where
    fits : (l q n : ℕ) → q ≤ l → leb (l - q) n ≡ false → q + n < l
    fits l q n h e = ground arith

-- Reading a basic value with the pointer inside a buffer below 4 GiB, or at its end, moves the
-- pointer forward and not past the end, or throws that the input is malformed or that a name or a
-- path is invalid. It never reads outside the buffer.
pub read_key-StaysInside : (k : Key) → StaysInside (read_key k)
unfolding read_key
read_key-StaysInside (word uint8) = read_fixed-StaysInside 1 (omega arith)
read_key-StaysInside (word w) = read_fixed-StaysInside (size_of w) (size_pos w)
  where
    size_pos : (w : Word) → 0 < size_of w
    size_pos uint8 = omega arith
    size_pos _ = omega arith
read_key-StaysInside boolean = read_bool-StaysInside
read_key-StaysInside (text s) = read_stringlike-StaysInside s
