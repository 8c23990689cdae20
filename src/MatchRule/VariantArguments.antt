-- ===== src/MatchRule/VariantArguments.antt =====
-- Variant arguments in WalkSignature of src/DBusMatchRule.cpp.
use cxx_bus.Base.{
  ℕ, suc, ◌+◌, ◌-◌, ◌^◌, ◌≤◌, ◌<◌, ◌≡◌, refl, sym, ap, [], ◌∷◌, ◌++◌, append_assoc, arith, length,
  length-append, ok, err, malformed_input, leb-true, ltb-false, sub64_lem, codes,
}
use cxx_bus.Codec.Types.{word, text, basic, uint8, signature}
use cxx_bus.Codec.Bytes.{Bytes, read_bytes, from_le}
use cxx_bus.Codec.Variants.{read_fixed, read_stringlike}
use cxx_bus.Codec.Unmarshal.{unmarshal_type}
use cxx_bus.Codec.Reading.{read_bytes-at}
use cxx_bus.MatchRule.Arguments.{Walk, byte_at, variant_signature}

from_le_one : (n : ℕ) → from_le (n ∷ []) ≡ n
unfolding from_le
from_le_one n = omega arith

byte_alone : (n : ℕ) → unmarshal_type (basic (word uint8)) (n ∷ []) (codes "y") ≡ ok n
unfolding unmarshal_type
byte_alone n = ap ok (omega arith)

read_first :
    (c : ℕ) (chars : Bytes) → length chars + 1 < 2 ^ 32 → read_fixed 1 (c ∷ chars) 0 ≡ ok (c, 1)
unfolding read_fixed
read_first c chars h =
    rw
      (
        sub64_lem (suc (length chars)) 0 (omega arith) (omega arith),
        ltb-false (suc (length chars) - 0) 1 (omega arith),
        read_bytes-at 1 0 (c ∷ chars) [] (c ∷ []) chars refl refl refl,
        from_le_one c,
      )
      refl

-- The first character of a signature is taken for a length that the span does not have.
short_span :
    (c : ℕ) (chars : Bytes)
    → length chars ≤ c
    → length chars + 1 < 2 ^ 32
    → read_stringlike signature (c ∷ chars) 0 ≡ err malformed_input
unfolding read_stringlike
short_span c chars h k =
    rw
      (
        read_first c chars k,
        sub64_lem (suc (length chars)) 1 (omega arith) (omega arith),
        leb-true (suc (length chars) - 1) c (omega arith),
      )
      refl

signature_refused :
    (c : ℕ) (chars : Bytes)
    → length chars ≤ c
    → length chars + 1 < 2 ^ 32
    → unmarshal_type (basic (text signature)) (c ∷ chars) (codes "g") ≡ err malformed_input
unfolding unmarshal_type
signature_refused c chars h k =
    let e : read_stringlike signature (c ∷ chars) 0 ≡ err malformed_input =
      short_span c chars h k in
    rw e refl

-- A variant argument whose signature, a first code `c` and the codes `chars`, has no more characters
-- than the number of `c` and one, makes the walk over the arguments throw that the input is
-- malformed, whatever stands before and behind it. The codes are letters and brackets, whose
-- numbers are 40 and more.
pub variant_signature-malformed :
    (before chars behind : Bytes) (c : ℕ) (w : Walk)
    → length chars ≤ c
    → length chars + 1 < 2 ^ 32
    → w.pointer ≡ length before
    → variant_signature (before ++ ((suc (length chars) ∷ []) ++ ((c ∷ chars) ++ behind))) w
      ≡ err malformed_input
unfolding variant_signature byte_at
variant_signature-malformed before chars behind c w h k at_start =
    let whole = before ++ ((suc (length chars) ∷ []) ++ ((c ∷ chars) ++ behind)) in
    let one : read_bytes 1 whole w.pointer ≡ ok (suc (length chars) ∷ []) =
      read_bytes-at 1 w.pointer whole before (suc (length chars) ∷ []) ((c ∷ chars) ++ behind) refl
        at_start refl in
    let span : read_bytes (suc (length chars)) whole (w.pointer + 1) ≡ ok (c ∷ chars) =
      read_bytes-at (suc (length chars)) (w.pointer + 1) whole (before ++ (suc (length chars) ∷ []))
        (c ∷ chars) behind
        (sym (append_assoc before (suc (length chars) ∷ []) ((c ∷ chars) ++ behind)))
        (omega (arith, at_start, length-append before (suc (length chars) ∷ []))) refl in
    rw (one, byte_alone (suc (length chars)), span, signature_refused c chars h k) refl
