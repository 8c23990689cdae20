-- ===== src/Codec/Reading.antt =====
-- Reading back what was written, for the basic types of src/DBus.h.
use native.Mathlib.Nat.{pow-suc}
use cxx_bus.Base.{
  ℕ, zero, suc, ◌+◌, ◌-◌, ◌/◌, ◌%◌, ◌^◌, ◌<◌, ◌≡◌, refl, sym, ap, Bool, true, false, [], ◌∷◌, ◌++◌,
  append_assoc, arith, length, length-append, drop, take-append, drop-append, Result, ok,
  if◌then◌else◌, Text, leb-true, leb-false, ltb-false, sub64_lem, add32_lem,
}
use cxx_bus.Codec.Types.{
  Stringlike, Key, KeyValue, size_of, word, boolean, text, signature, string, object_path,
  interface_name,
}
use cxx_bus.Codec.Bytes.{Bytes, le_bytes, from_le, read_bytes}
use cxx_bus.Codec.Fits.{FitsKey}
use cxx_bus.Codec.Layout.{length-le_bytes}
use cxx_bus.Codec.Marshal.{marshal_fixed, marshal_bool, length_size, marshal_key}
use cxx_bus.Codec.Appending.{marshal_stringlike_lem, string_bytes}
use cxx_bus.Codec.Variants.{read_fixed, read_bool, read_stringlike, read_key}

-- The reader `u` reads `a` off the bytes that `m` appends, wherever they stand in a buffer that a
-- `uint32_t` can index, and stops behind them.
abbrev pub Reads : {A : Type 0} → (Bytes → Result Bytes) → (Bytes → ℕ → Result (A × ℕ)) → A → Type 0
Reads m u a =
    (b x rest : Bytes)
    → m b ≡ ok (b ++ x)
    → length b + (length x + length rest) < 2 ^ 32
    → u (b ++ (x ++ rest)) (length b) ≡ ok (a, length b + length x)

pub from_le-le_bytes : (n w : ℕ) → w < 256 ^ n → from_le (le_bytes n w) ≡ w
unfolding from_le le_bytes
from_le-le_bytes zero w h = omega arith
from_le-le_bytes (suc n) w h =
    omega (arith, from_le-le_bytes n (w / 256) (omega (arith, pow-suc 256 n)))

pub length-three :
    (b x rest : Bytes) → length (b ++ (x ++ rest)) ≡ length b + (length x + length rest)
length-three b x rest = omega (arith, length-append b (x ++ rest), length-append x rest)

pub append-cancel : (b x y : Bytes) → b ++ x ≡ b ++ y → x ≡ y
append-cancel b x y e = rw (drop-append b x, drop-append b y) at (ap (drop (length b)) e)

pub read_bytes-append :
    (n : ℕ) (b x rest : Bytes) → length x ≡ n → read_bytes n (b ++ (x ++ rest)) (length b) ≡ ok x
unfolding read_bytes
read_bytes-append n b x rest h = rw (
  ← h,
  length-three b x rest,
  drop-append b (x ++ rest),
  take-append x rest,
  leb-true (length b + length x) (length b + (length x + length rest)) (omega arith),
)

-- The same at a buffer and a pointer given by equations.
pub read_bytes-at :
    (n p : ℕ) (buffer b x rest : Bytes)
    → buffer ≡ b ++ (x ++ rest)
    → p ≡ length b
    → length x ≡ n
    → read_bytes n buffer p ≡ ok x
read_bytes-at n p buffer b x rest e h k = rw (e, h) (read_bytes-append n b x rest k)

pub read_fixed-append :
    (n w : ℕ) (b rest : Bytes)
    → w < 256 ^ n
    → length b + (n + length rest) < 2 ^ 32
    → read_fixed n (b ++ (le_bytes n w ++ rest)) (length b) ≡ ok (w, length b + n)
unfolding read_fixed
read_fixed-append n w b rest h size = rw (
  length-three b (le_bytes n w) rest,
  length-le_bytes n w,
  read_bytes-append n b (le_bytes n w) rest (length-le_bytes n w),
  from_le-le_bytes n w h,
  sub64_lem (length b + (n + length rest)) (length b) (omega arith) (omega arith),
  ltb-false (length b + (n + length rest) - length b) n (omega arith),
  add32_lem (length b) n (omega arith),
)

read_bool-append :
    (v : Bool) (b rest : Bytes)
    → length b + (4 + length rest) < 2 ^ 32
    → read_bool (b ++ (le_bytes 4 (if v then 1 else 0) ++ rest)) (length b) ≡ ok (v, length b + 4)
unfolding read_bool
read_bool-append true b rest size = rw (read_fixed-append 4 1 b rest (omega arith) size)
read_bool-append false b rest size = rw (read_fixed-append 4 0 b rest (omega arith) size)

length_size-lt : (s : Stringlike) (n : ℕ) → n < 256 ^ length_size s → n % 256 ^ length_size s ≡ n
length_size-lt string n h = omega arith
length_size-lt object_path n h = omega arith
length_size-lt interface_name n h = omega arith
length_size-lt signature n h = omega arith

-- Behind its length field, the text is read and the terminator skipped.
read_stringlike-append :
    (s : Stringlike) (str : Text) (b rest : Bytes)
    → FitsKey (text s) str
    → length b + (length_size s + (length str + (1 + length rest))) < 2 ^ 32
    → read_stringlike s (b ++ (string_bytes s str ++ rest)) (length b)
      ≡ ok (str, length b + (length_size s + (length str + 1)))
unfolding read_stringlike
read_stringlike-append s str b rest h size =
    let field = le_bytes (length_size s) (length str) in
    let tail = str ++ (0 ∷ rest) in
    let whole = b ++ (field ++ tail) in
    let e : b ++ (string_bytes s str ++ rest) ≡ whole =
      rw (length_size-lt s (length str) h.0) (simp append_assoc) in
    let size' : length whole ≡ length b + (length_size s + (length str + (1 + length rest))) =
      omega (
        arith,
        length-three b field tail,
        length-le_bytes (length_size s) (length str),
        length-append str (0 ∷ rest),
      ) in
    let raw : read_bytes (length str) whole (length b + length_size s) ≡ ok str =
      read_bytes-at (length str) (length b + length_size s) whole (b ++ field) str (0 ∷ rest)
        (sym (append_assoc b field tail))
        (omega (arith, length-append b field, length-le_bytes (length_size s) (length str))) refl in
    rw
      (
        e,
        read_fixed-append (length_size s) (length str) b tail h.0
            (omega (arith, length-append str (0 ∷ rest))),
        raw,
        size',
        sub64_lem (length b + (length_size s + (length str + (1 + length rest))))
            (length b + length_size s) (omega arith) (omega arith),
        leb-false
            (length b
              + (length_size s + (length str + (1 + length rest)))
              - (length b + length_size s))
            (length str) (omega arith),
        h.1,
        add32_lem (length b + length_size s) (length str + 1) (omega arith),
      )
      (ap (λ (n : ℕ). ok (str, n)) (omega arith))

pub length-string_bytes :
    (s : Stringlike) (str : Text) → length (string_bytes s str) ≡ length_size s + (length str + 1)
length-string_bytes s str =
    let field = le_bytes (length_size s) (length str % 256 ^ length_size s) in
    omega (
      arith,
      length-append field (str ++ 0 ∷ []),
      length-le_bytes (length_size s) (length str % 256 ^ length_size s),
      length-append str (0 ∷ []),
    )

pub read_key-Reads :
    (k : Key) (v : KeyValue k) → FitsKey k v → Reads (marshal_key k v) (read_key k) v
unfolding read_key marshal_key marshal_fixed marshal_bool
read_key-Reads (word w) v h b x rest e size =
    let ex : le_bytes (size_of w) v ≡ x = append-cancel b _ _ (cc) in
    rw (← ex) (
      rw (length-le_bytes (size_of w) v) (
        read_fixed-append (size_of w) v b rest h
          (omega (arith, ap length ex, length-le_bytes (size_of w) v))))
read_key-Reads boolean v h b x rest e size =
    let ex : le_bytes 4 (if v then 1 else 0) ≡ x = append-cancel b _ _ (cc) in
    rw (← ex) (
      rw (length-le_bytes 4 (if v then 1 else 0)) (
        read_bool-append v b rest
          (omega (arith, ap length ex, length-le_bytes 4 (if v then 1 else 0)))))
read_key-Reads (text s) str h b x rest e size =
    let ex : string_bytes s str ≡ x =
      append-cancel b _ _ (sym (marshal_stringlike_lem s str b (b ++ x) e).1) in
    rw (← ex) (
      rw (length-string_bytes s str) (
        read_stringlike-append s str b rest h
          (omega (arith, ap length ex, length-string_bytes s str))))
