-- ===== src/Codec/Packed.antt =====
-- Vectors of numbers: what MarshalDBusArray copies is what UnmarshalDBusArray copies back.
use cxx_bus.Base.{
  ℕ, ◌+◌, ◌*◌, ◌/◌, ◌%◌, ◌^◌, ◌<◌, ◌≡◌, refl, ap, ==_true, List, [], ◌∷◌, ◌++◌, append_assoc, arith,
  length, length-append, take, drop, take-append, drop-append, ok, All, leb-false, ltb-false,
  add32_lem, inl, inr,
}
use cxx_bus.Codec.Bytes.{Bytes, apply_padding, le_bytes, read_bytes}
use cxx_bus.Codec.Layout.{IsAlignment, length-le_bytes}
use cxx_bus.Codec.Marshal.{marshal_fixed, packed, marshal_packed}
use cxx_bus.Codec.Unmarshal.{unpacked, unmarshal_packed}
use cxx_bus.Codec.Header.{
  sized, front, length-front, length-sized, sized-front, read-sized, skip-sized,
}
use cxx_bus.Codec.Reading.{Reads, from_le-le_bytes, length-three, append-cancel, read_bytes-at}

pub length-packed : (n : ℕ) (xs : List ℕ) → length (packed n xs) ≡ length xs * n
unfolding packed
length-packed n [] = omega arith
length-packed n (x ∷ xs) =
    omega
      (arith, length-append (le_bytes n x) (packed n xs), length-le_bytes n x, length-packed n xs)

take-first : (n : ℕ) (xs ys : Bytes) → length xs ≡ n → take n (xs ++ ys) ≡ xs
take-first n xs ys h = rw (← h) (take-append xs ys)

drop-first : (n : ℕ) (xs ys : Bytes) → length xs ≡ n → drop n (xs ++ ys) ≡ ys
drop-first n xs ys h = rw (← h) (drop-append xs ys)

pub unpacked-packed :
    (n : ℕ) (xs : List ℕ) → All (λ x. x < 256 ^ n) xs → unpacked n (length xs) (packed n xs) ≡ xs
unfolding packed unpacked
unpacked-packed n [] h = refl
unpacked-packed n (x ∷ xs) h = rw (
  take-first n (le_bytes n x) (packed n xs) (length-le_bytes n x),
  drop-first n (le_bytes n x) (packed n xs) (length-le_bytes n x),
  from_le-le_bytes n x h.0,
  unpacked-packed n xs h.1,
)

mul-div : (k n : ℕ) → IsAlignment n → k * n / n ≡ k
mul-div k n (inl e) = rw e (omega arith)
mul-div k n (inr (inl e)) = rw e (omega arith)
mul-div k n (inr (inr (inl e))) = rw e (omega arith)
mul-div k n (inr (inr (inr e))) = rw e (omega arith)

pub marshal_packed_lem :
    (n : ℕ) (xs : List ℕ) (b : Bytes)
    → marshal_packed n xs b ≡ b ++ sized n (length b) (length xs * n % 2 ^ 32) (packed n xs)
unfolding marshal_packed marshal_fixed apply_padding
marshal_packed_lem n xs b =
    rw
      (
        length-append b (le_bytes 4 (length xs * n % 2 ^ 32)),
        length-le_bytes 4 (length xs * n % 2 ^ 32),
      )
      (simp append_assoc)

packed_read :
    (n : ℕ) (xs : List ℕ) (b rest : Bytes)
    → IsAlignment n
    → length xs * n < 2 ^ 26
    → All (λ x. x < 256 ^ n) xs
    → length b + (length (sized n (length b) (length xs * n) (packed n xs)) + length rest) < 2 ^ 32
    → unmarshal_packed n
        (b ++ (sized n (length b) (length xs * n) (packed n xs) ++ rest))
        (length b)
      ≡ ok (xs, length b + length (sized n (length b) (length xs * n) (packed n xs)))
unfolding unmarshal_packed
packed_read n xs b rest v small h size =
    let len = length xs * n in
    let y = packed n xs in
    let x = sized n (length b) len y in
    let sum : length (front n b len) + len ≡ length b + length x =
      omega (arith, length-front n b len, length-sized n b len y, length-packed n xs) in
    let raw : read_bytes len (b ++ (x ++ rest)) (length (front n b len)) ≡ ok y =
      read_bytes-at len (length (front n b len)) (b ++ (x ++ rest)) (front n b len) y rest
        (sized-front n b len y rest) refl (length-packed n xs) in
    rw
      (
        read-sized n b len y rest (omega arith) size,
        leb-false (2 ^ 26) len (omega arith),
        skip-sized n b len (omega (arith, length-sized n b len y)),
        add32_lem (length (front n b len)) len (omega arith),
        length-three b x rest,
        ltb-false (length b + (length x + length rest)) (length (front n b len) + len)
            (omega arith),
        mul-div (length xs) n v,
        ==_true len,
        raw,
        unpacked-packed n xs h,
      )
      (ap (λ (k : ℕ). ok (xs, k)) sum)

-- A vector of numbers of `n` bytes, below 64 MiB, is read back.
pub unmarshal_packed-Reads :
    (n : ℕ) (xs : List ℕ)
    → IsAlignment n
    → length xs * n < 2 ^ 26
    → All (λ x. x < 256 ^ n) xs
    → Reads (λ b. ok (marshal_packed n xs b)) (unmarshal_packed n) xs
unmarshal_packed-Reads n xs v small h b x rest e size =
    let len = length xs * n in
    let exact : len % 2 ^ 32 ≡ len = omega arith in
    let whole : b ++ sized n (length b) (len % 2 ^ 32) (packed n xs) ≡ b ++ x =
      cc (marshal_packed_lem n xs b) in
    let ex : sized n (length b) len (packed n xs) ≡ x =
      append-cancel b (sized n (length b) len (packed n xs)) x (rw exact at whole) in
    let size' : length b + (length (sized n (length b) len (packed n xs)) + length rest) < 2 ^ 32 =
      omega (arith, ap length ex) in
    rw (← ex) (packed_read n xs b rest v small h size')
