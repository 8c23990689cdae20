-- ===== src/Codec/Signatures.antt =====
-- The signatures that GetTypeSignature of src/DBusHelpers.h builds, against the checks of
-- src/DBusHelpers.cpp on a signature.
use cxx_bus.Base.{
  ℕ, ◌+◌, ◌≡◌, refl, true, [], ◌∷◌, ◌++◌, append_assoc, append-nil, arith, ◌∙◌, Text, text_eq_iff,
  get_or, ok, Bool-cases, inl, inr, ==_true,
}
use cxx_bus.TypeCodes.{
  are_type_codes, is_type_code, opens, closes, type_code, are_brackets_even, bracket_loop,
  alignment_of_signature,
}
use cxx_bus.Codec.Types.{
  uint8, int16, uint16, int32, uint32, int64, uint64, string, object_path, interface_name,
  signature, Key, Ty, Tys, word, boolean, text, basic, double, array, struct, map, variant, one,
  more, key_code, type_signature, member_signatures, alignment_of_member,
}
use cxx_bus.Codec.Unmarshal.{check_signature}

are_type_codes-append :
    (s t : Text)
    → are_type_codes s ≡ true
    → are_type_codes t ≡ true
    → are_type_codes (s ++ t) ≡ true
unfolding are_type_codes
are_type_codes-append [] t h k = k
are_type_codes-append (c ∷ s) t h k = elim (Bool-cases (is_type_code c)) [
  | inl e ↦ rw e (are_type_codes-append s t (rw e at h) k)
  | inr e ↦ cc (rw e at h)
]

is_type_code-key_code : (k : Key) → is_type_code (key_code k) ≡ true
unfolding is_type_code key_code
is_type_code-key_code (word uint8) = refl
is_type_code-key_code (word int16) = refl
is_type_code-key_code (word uint16) = refl
is_type_code-key_code (word int32) = refl
is_type_code-key_code (word uint32) = refl
is_type_code-key_code (word int64) = refl
is_type_code-key_code (word uint64) = refl
is_type_code-key_code boolean = refl
is_type_code-key_code (text string) = refl
is_type_code-key_code (text object_path) = refl
is_type_code-key_code (text interface_name) = refl
is_type_code-key_code (text signature) = refl

mutual
  unfolding are_type_codes type_signature is_type_code

  pub are_type_codes-type_signature : (t : Ty) → are_type_codes (type_signature t) ≡ true
  are_type_codes-type_signature (basic k) = rw (is_type_code-key_code k) refl
  are_type_codes-type_signature double = refl
  are_type_codes-type_signature (array t) = are_type_codes-type_signature t
  are_type_codes-type_signature (struct ts) =
      are_type_codes-append (member_signatures ts) (b')' ∷ []) (are_type_codes-member_signatures ts)
        refl
  are_type_codes-type_signature (map k t) =
      rw (is_type_code-key_code k) (
        are_type_codes-append (type_signature t) (b'}' ∷ []) (are_type_codes-type_signature t) refl)
  are_type_codes-type_signature variant = refl

  are_type_codes-member_signatures : (ts : Tys) → are_type_codes (member_signatures ts) ≡ true
  are_type_codes-member_signatures (one t) = are_type_codes-type_signature t
  are_type_codes-member_signatures (more t ts) =
      are_type_codes-append (type_signature t) (member_signatures ts)
        (are_type_codes-type_signature t) (are_type_codes-member_signatures ts)

-- The text opens as many brackets as it closes.
abbrev Balances : Text → Type 0
Balances s =
    (n : ℕ) × ((up down : ℕ) (rest : Text)
      → bracket_loop up down (s ++ rest) ≡ bracket_loop (up + n) (down + n) rest)

bracket_loop-cong :
    {up down more_up more_down : ℕ} (rest : Text)
    → up ≡ more_up
    → down ≡ more_down
    → bracket_loop up down rest ≡ bracket_loop more_up more_down rest
bracket_loop-cong rest h k = cc

Balances-append : (s t : Text) → Balances s → Balances t → Balances (s ++ t)
Balances-append s t (n, h) (m, k) = (
  n + m,
  λ up down rest.
      rw (append_assoc s t rest, h up down (t ++ rest), k (up + n) (down + n) rest)
        (bracket_loop-cong rest (omega arith) (omega arith)),
)

-- A code that opens, one that closes and one that does neither.
bracket_loop-open :
    (c up down : ℕ) (rest : Text)
    → opens (type_code c) ≡ 1
    → closes (type_code c) ≡ 0
    → bracket_loop up down (c ∷ rest) ≡ bracket_loop (up + 1) down rest
unfolding bracket_loop
bracket_loop-open c up down rest h k = bracket_loop-cong rest (omega arith) (omega arith)

bracket_loop-close :
    (c up down : ℕ) (rest : Text)
    → opens (type_code c) ≡ 0
    → closes (type_code c) ≡ 1
    → bracket_loop up down (c ∷ rest) ≡ bracket_loop up (down + 1) rest
unfolding bracket_loop
bracket_loop-close c up down rest h k = bracket_loop-cong rest (omega arith) (omega arith)

Balances-code : (c : ℕ) → opens (type_code c) ≡ 0 → closes (type_code c) ≡ 0 → Balances (c ∷ [])
unfolding bracket_loop
Balances-code c h k = (0, λ up down rest. bracket_loop-cong rest (omega arith) (omega arith))

Balances-pair :
    (c d : ℕ) (s : Text)
    → opens (type_code c) ≡ 1
    → closes (type_code c) ≡ 0
    → opens (type_code d) ≡ 0
    → closes (type_code d) ≡ 1
    → Balances s
    → Balances (c ∷ (s ++ d ∷ []))
Balances-pair c d s o o' k k' (n, h) = (
  n + 1,
  λ up down rest.
      rw
        (
          append_assoc s (d ∷ []) rest,
          bracket_loop-open c up down (s ++ (d ∷ rest)) o o',
          h (up + 1) down (d ∷ rest),
          bracket_loop-close d (up + 1 + n) (down + n) rest k k',
        )
        (bracket_loop-cong rest (omega arith) (omega arith)),
)

Balances-key_code : (k : Key) → Balances (key_code k ∷ [])
unfolding bracket_loop key_code
Balances-key_code (word uint8) = Balances-code b'y' refl refl
Balances-key_code (word int16) = Balances-code b'n' refl refl
Balances-key_code (word uint16) = Balances-code b'q' refl refl
Balances-key_code (word int32) = Balances-code b'i' refl refl
Balances-key_code (word uint32) = Balances-code b'u' refl refl
Balances-key_code (word int64) = Balances-code b'x' refl refl
Balances-key_code (word uint64) = Balances-code b't' refl refl
Balances-key_code boolean = Balances-code b'b' refl refl
Balances-key_code (text string) = Balances-code b's' refl refl
Balances-key_code (text object_path) = Balances-code b'o' refl refl
Balances-key_code (text interface_name) = Balances-code b's' refl refl
Balances-key_code (text signature) = Balances-code b'g' refl refl

Balances-double : Balances (b'd' ∷ [])
unfolding bracket_loop
Balances-double = Balances-code b'd' refl refl

Balances-variant : Balances (b'v' ∷ [])
unfolding bracket_loop
Balances-variant = Balances-code b'v' refl refl

Balances-round : (s : Text) → Balances s → Balances (b'(' ∷ (s ++ b')' ∷ []))
unfolding bracket_loop
Balances-round s h = Balances-pair b'(' b')' s refl refl refl refl h

Balances-curly : (s : Text) → Balances s → Balances (b'{' ∷ (s ++ b'}' ∷ []))
unfolding bracket_loop
Balances-curly s h = Balances-pair b'{' b'}' s refl refl refl refl h

Balances-array : (s : Text) → Balances s → Balances (b'a' ∷ s)
unfolding bracket_loop
Balances-array s h = Balances-append (b'a' ∷ []) s (Balances-code b'a' refl refl) h

mutual
  unfolding type_signature

  Balances-type_signature : (t : Ty) → Balances (type_signature t)
  Balances-type_signature (basic k) = Balances-key_code k
  Balances-type_signature double = Balances-double
  Balances-type_signature (array t) = Balances-array (type_signature t) (Balances-type_signature t)
  Balances-type_signature (struct ts) =
      Balances-round (member_signatures ts) (Balances-member_signatures ts)
  Balances-type_signature (map k t) =
      Balances-array (b'{' ∷ key_code k ∷ (type_signature t ++ b'}' ∷ [])) (
        Balances-curly (key_code k ∷ type_signature t) (
          Balances-append (key_code k ∷ []) (type_signature t) (Balances-key_code k)
            (Balances-type_signature t)))
  Balances-type_signature variant = Balances-variant

  Balances-member_signatures : (ts : Tys) → Balances (member_signatures ts)
  Balances-member_signatures (one t) = Balances-type_signature t
  Balances-member_signatures (more t ts) =
      Balances-append (type_signature t) (member_signatures ts) (Balances-type_signature t)
        (Balances-member_signatures ts)

bracket_loop_even : (n : ℕ) → bracket_loop n n [] ≡ true
unfolding bracket_loop
bracket_loop_even n = ==_true n

are_brackets_even-type_signature : (t : Ty) → are_brackets_even (type_signature t) ≡ true
unfolding are_brackets_even
are_brackets_even-type_signature t =
    let (n, h) = Balances-type_signature t in
    let e : bracket_loop 0 0 (type_signature t ++ []) ≡ bracket_loop (0 + n) (0 + n) [] =
      h 0 0 [] in
    rw (append-nil (type_signature t)) at e ∙ bracket_loop_even (0 + n)

-- The signature that is built for any type holds nothing but type codes, has as many closing
-- brackets as opening ones, and so passes the checks of UnmarshalDBusType at that type.
pub check_signature-type_signature :
    (t : Ty) → check_signature (type_signature t) (type_signature t) ≡ ok tt
unfolding check_signature
check_signature-type_signature t =
    rw
      (
        are_type_codes-type_signature t,
        are_brackets_even-type_signature t,
        (text_eq_iff (type_signature t) (type_signature t)).1 refl,
      )
      refl

-- The alignment that is read off the first code of a type's signature is the one that the
-- marshalling of tuples and maps takes from the type itself.
pub alignment_of_signature-type_signature :
    (t : Ty) → alignment_of_signature (get_or (type_signature t) 0 0) ≡ ok (alignment_of_member t)
unfolding alignment_of_signature type_signature
alignment_of_signature-type_signature (basic (word uint8)) = refl
alignment_of_signature-type_signature (basic (word int16)) = refl
alignment_of_signature-type_signature (basic (word uint16)) = refl
alignment_of_signature-type_signature (basic (word int32)) = refl
alignment_of_signature-type_signature (basic (word uint32)) = refl
alignment_of_signature-type_signature (basic (word int64)) = refl
alignment_of_signature-type_signature (basic (word uint64)) = refl
alignment_of_signature-type_signature (basic boolean) = refl
alignment_of_signature-type_signature (basic (text string)) = refl
alignment_of_signature-type_signature (basic (text object_path)) = refl
alignment_of_signature-type_signature (basic (text interface_name)) = refl
alignment_of_signature-type_signature (basic (text signature)) = refl
alignment_of_signature-type_signature double = refl
alignment_of_signature-type_signature (array t) = refl
alignment_of_signature-type_signature (struct ts) = refl
alignment_of_signature-type_signature (map k t) = refl
alignment_of_signature-type_signature variant = refl
