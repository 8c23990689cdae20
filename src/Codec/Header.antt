-- ===== src/Codec/Header.antt =====
-- The start of an array or a map on the wire: its length, and padding up to the first element.
use cxx_bus.Base.{
  ℕ, ◌+◌, ◌^◌, ◌<◌, ◌≡◌, ◌++◌, append_assoc, arith, length, length-append, replicate, ok, add32_lem,
}
use cxx_bus.Codec.Bytes.{Bytes, padding, skip_padding, le_bytes}
use cxx_bus.Codec.Layout.{length-le_bytes, length-zeros}
use cxx_bus.Codec.Variants.{read_fixed}
use cxx_bus.Codec.Reading.{read_fixed-append}

-- A length field, padding, and the data `y`, from the offset `start` on.
abbrev pub sized : ℕ → ℕ → ℕ → Bytes → Bytes
sized alignment start len y = le_bytes 4 len ++ (replicate (padding (start + 4) alignment) 0 ++ y)

-- The buffer up to the data.
abbrev pub front : ℕ → Bytes → ℕ → Bytes
front alignment b len = b ++ (le_bytes 4 len ++ replicate (padding (length b + 4) alignment) 0)

module _ (alignment : ℕ) (b : Bytes) (len : ℕ) where
  pub length-front :
      length (front alignment b len) ≡ length b + 4 + padding (length b + 4) alignment
  length-front =
      let pad : Bytes = replicate (padding (length b + 4) alignment) 0 in
      omega (
        arith,
        length-append b (le_bytes 4 len ++ pad),
        length-append (le_bytes 4 len) pad,
        length-le_bytes 4 len,
        length-zeros (padding (length b + 4) alignment),
      )

  pub length-sized :
      (y : Bytes)
      → length (sized alignment (length b) len y)
        ≡ 4 + (padding (length b + 4) alignment + length y)
  length-sized y =
      let pad : Bytes = replicate (padding (length b + 4) alignment) 0 in
      omega (
        arith,
        length-append (le_bytes 4 len) (pad ++ y),
        length-append pad y,
        length-le_bytes 4 len,
        length-zeros (padding (length b + 4) alignment),
      )

  pub sized-front :
      (y rest : Bytes)
      → b ++ (sized alignment (length b) len y ++ rest) ≡ front alignment b len ++ (y ++ rest)
  sized-front y rest = simp append_assoc

  pub read-sized :
      (y rest : Bytes)
      → len < 2 ^ 32
      → length b + (length (sized alignment (length b) len y) + length rest) < 2 ^ 32
      → read_fixed 4 (b ++ (sized alignment (length b) len y ++ rest)) (length b)
        ≡ ok (len, length b + 4)
  read-sized y rest h size =
      let pad : Bytes = replicate (padding (length b + 4) alignment) 0 in
      rw append_assoc (
        read_fixed-append 4 len b ((pad ++ y) ++ rest) h (
          omega (
            arith,
            length-sized y,
            length-append (pad ++ y) rest,
            length-append pad y,
            length-zeros (padding (length b + 4) alignment),
          )))

  pub skip-sized :
      length b + 4 + padding (length b + 4) alignment < 2 ^ 32
      → skip_padding (length b + 4) alignment ≡ length (front alignment b len)
  unfolding skip_padding
  skip-sized h = rw length-front (add32_lem (length b + 4) (padding (length b + 4) alignment) h)
