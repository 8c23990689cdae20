-- ===== src/Incoming/Required.antt =====
-- What UnmarshalDBusHeader of src/IncomingDBusMessage.cpp makes sure of.
use cxx_bus.Base.{
  ℕ, ◌≡◌, refl, sym, ◌∙◌, subst, Bool, true, false, not, ◌&&◌, List, [], Option, none, some, ◌==◌,
  Text, Bool-cases, inl, inr, arith, ok, malformed_input, throw_if, >>=-eq-ok, ok-injective,
}
use cxx_bus.Codec.Types.{
  uint32, string, object_path, interface_name, signature, Ty, Variant, Value, word, text, basic,
}
use cxx_bus.Codec.Bytes.{Bytes}
use cxx_bus.Codec.Unmarshal.{unmarshal, check_signature, unmarshal_data}
use cxx_bus.Message.{
  MessageType, method_call, method_return, error, signal, none_type, invalid, optional, FieldCode,
  path, interface, member, error_name, reply_serial, destination, sender, signature_field,
  requires_field, header_fields,
}
use cxx_bus.Incoming.{
  Header, find_field, required_types, is_none, check_field, field_value, header_of,
  unmarshal_header, fields_type, first_pointer,
}

abbrev pub IsGiven : {A : Type 0} → Option A → Type 0
IsGiven none = ⊥
IsGiven (some a) = Unit

-- The fields that the protocol requires of a message.
abbrev pub IsComplete : MessageType → Header → Type 0
IsComplete method_call h = IsGiven h.object × IsGiven h.method
IsComplete method_return h = IsGiven h.reply_to
IsComplete error h = IsGiven h.error_of × IsGiven h.reply_to
IsComplete signal h = IsGiven h.object × IsGiven h.interface_of × IsGiven h.method
IsComplete _ h = Unit

abbrev Holds : MessageType → FieldCode → List (ℕ × Variant) → Type 0
Holds t code fields =
    requires_field (required_types code header_fields) t ≡ true
    → is_none (find_field code fields) ≡ false

check_field-Holds :
    (code : FieldCode) (t : MessageType) (fields : List (ℕ × Variant)) (u : Unit {0})
    → check_field code t fields ≡ ok u
    → Holds t code fields
unfolding check_field
check_field-Holds code t fields u e r = elim (Bool-cases (is_none (find_field code fields))) [
  | inl n ↦ absurd (cc (rw (n, r) at e))
  | inr n ↦ n
]

field_value-IsGiven :
    (t : Ty) (o : Option Variant) (v : Option (Value t))
    → field_value t o ≡ ok v
    → is_none o ≡ false
    → IsGiven v
unfolding field_value
field_value-IsGiven t none v e n = absurd (cc n)
field_value-IsGiven t (some w) v e n =
    let (a, ea, e') = >>=-eq-ok (unmarshal_data t [] w) _ e in
    let q : some a ≡ v = cc in subst IsGiven q tt

abbrev made_of :
    ℕ
    → MessageType
    → ℕ
    → ℕ
    → Option ℕ
    → Option Text
    → Option Text
    → Option Text
    → Option Text
    → Option Text
    → Option Text
    → Option Text
    → Header
made_of n t l k reply object face method fault sig from to = record {
  serial = n;
  reply_to = reply;
  message_type = t;
  object = object;
  interface_of = face;
  method = method;
  error_of = fault;
  signature_of = sig;
  sender_of = from;
  destination_of = to;
  message_length = k;
  header_field_length = l;
}

-- Every step of the function, when none of them throws.
abbrev IsRead : MessageType → List (ℕ × Variant) → ℕ → Header → Type 0
IsRead t fields message_length h =
    (is_none (find_field signature_field fields) && not (message_length == 0) ≡ false)
    × Holds t reply_serial fields
    × Holds t path fields
    × Holds t interface fields
    × Holds t member fields
    × Holds t sender fields
    × Holds t destination fields
    × Holds t error_name fields
    × (field_value (basic (word uint32)) (find_field reply_serial fields) ≡ ok h.reply_to)
    × (field_value (basic (text object_path)) (find_field path fields) ≡ ok h.object)
    × (field_value (basic (text interface_name)) (find_field interface fields) ≡ ok h.interface_of)
    × (field_value (basic (text string)) (find_field member fields) ≡ ok h.method)
    × (field_value (basic (text string)) (find_field error_name fields) ≡ ok h.error_of)
    × (field_value (basic (text signature)) (find_field signature_field fields) ≡ ok h.signature_of)
    × (field_value (basic (text string)) (find_field sender fields) ≡ ok h.sender_of)
    × (field_value (basic (text string)) (find_field sender fields) ≡ ok h.destination_of)
    × (h.message_type ≡ t)
    × (h.message_length ≡ message_length)

throw_if_ok : (b : Bool) (x : Unit {0}) → throw_if b malformed_input ≡ ok x → b ≡ false
throw_if_ok true x e = absurd (cc e)
throw_if_ok false x e = refl

header_of-IsRead :
    (fields : List (ℕ × Variant)) (n : ℕ) (t : MessageType) (l k : ℕ) (h : Header)
    → header_of fields n t l k ≡ ok h
    → IsRead t fields k h
unfolding header_of
header_of-IsRead fields n t l k h e0 =
    let (u0, f0, e1) =
      >>=-eq-ok
        (throw_if (is_none (find_field signature_field fields) && not (k == 0)) malformed_input) _
        e0 in
    let (u1, f1, e2) = >>=-eq-ok (check_field reply_serial t fields) _ e1 in
    let (u2, f2, e3) = >>=-eq-ok (check_field path t fields) _ e2 in
    let (u3, f3, e4) = >>=-eq-ok (check_field interface t fields) _ e3 in
    let (u4, f4, e5) = >>=-eq-ok (check_field member t fields) _ e4 in
    let (u5, f5, e6) = >>=-eq-ok (check_field sender t fields) _ e5 in
    let (u6, f6, e7) = >>=-eq-ok (check_field destination t fields) _ e6 in
    let (u7, f7, e8) = >>=-eq-ok (check_field error_name t fields) _ e7 in
    let (v8, f8, e9) =
      >>=-eq-ok (field_value (basic (word uint32)) (find_field reply_serial fields)) _ e8 in
    let (v9, f9, e10) =
      >>=-eq-ok (field_value (basic (text object_path)) (find_field path fields)) _ e9 in
    let (v10, f10, e11) =
      >>=-eq-ok (field_value (basic (text interface_name)) (find_field interface fields)) _ e10 in
    let (v11, f11, e12) =
      >>=-eq-ok (field_value (basic (text string)) (find_field member fields)) _ e11 in
    let (v12, f12, e13) =
      >>=-eq-ok (field_value (basic (text string)) (find_field error_name fields)) _ e12 in
    let (v13, f13, e14) =
      >>=-eq-ok (field_value (basic (text signature)) (find_field signature_field fields)) _ e13 in
    let (v14, f14, e15) =
      >>=-eq-ok (field_value (basic (text string)) (find_field sender fields)) _ e14 in
    let (v15, f15, e16) =
      >>=-eq-ok (field_value (basic (text string)) (find_field sender fields)) _ e15 in
    let q : made_of n t l k v8 v9 v10 v11 v12 v13 v14 v15 ≡ h = ok-injective e16 in
    subst (IsRead t fields k) q (
      throw_if_ok (is_none (find_field signature_field fields) && not (k == 0)) u0 f0,
      check_field-Holds reply_serial t fields u1 f1,
      check_field-Holds path t fields u2 f2,
      check_field-Holds interface t fields u3 f3,
      check_field-Holds member t fields u4 f4,
      check_field-Holds sender t fields u5 f5,
      check_field-Holds destination t fields u6 f6,
      check_field-Holds error_name t fields u7 f7,
      f8,
      f9,
      f10,
      f11,
      f12,
      f13,
      f14,
      f15,
      refl,
      refl,
    )

-- A header that is read of a message of a type of the protocol has the fields that the type needs:
-- path and member for a call, the reply serial for a return, error name and reply serial for an
-- error, and path, interface and member for a signal.
pub unmarshal_header-IsComplete :
    (bytes : Bytes) (n : ℕ) (t : MessageType) (l k : ℕ) (h : Header)
    → unmarshal_header bytes n t l k ≡ ok h
    → IsComplete t h
unfolding unmarshal_header required_types requires_field
unmarshal_header-IsComplete bytes n t l k h e =
    let (u, f, e') = >>=-eq-ok (check_signature _ _) _ e in
    let (r, g, e'') = >>=-eq-ok (unmarshal fields_type bytes first_pointer) _ e' in
    complete r.0 t (header_of-IsRead r.0 n t l k h e'')
  where
    given :
        (ty : Ty) (code : FieldCode) (fields : List (ℕ × Variant)) (v : Option (Value ty))
        → field_value ty (find_field code fields) ≡ ok v
        → is_none (find_field code fields) ≡ false
        → IsGiven v
    given ty code fields v e i = field_value-IsGiven ty (find_field code fields) v e i

    complete : (fs : List (ℕ × Variant)) (t : MessageType) → IsRead t fs k h → IsComplete t h
    complete fs method_call (s, c1, c2, c3, c4, c5, c6, c7, v1, v2, v3, v4, v5, v6, v7, v8, i, j) =
        (
          given (basic (text object_path)) path fs h.object v2 (c2 refl),
          given (basic (text string)) member fs h.method v4 (c4 refl),
        )
    complete fs method_return
          (s, c1, c2, c3, c4, c5, c6, c7, v1, v2, v3, v4, v5, v6, v7, v8, i, j) =
        given (basic (word uint32)) reply_serial fs h.reply_to v1 (c1 refl)
    complete fs error (s, c1, c2, c3, c4, c5, c6, c7, v1, v2, v3, v4, v5, v6, v7, v8, i, j) = (
      given (basic (text string)) error_name fs h.error_of v5 (c7 refl),
      given (basic (word uint32)) reply_serial fs h.reply_to v1 (c1 refl),
    )
    complete fs signal (s, c1, c2, c3, c4, c5, c6, c7, v1, v2, v3, v4, v5, v6, v7, v8, i, j) = (
      given (basic (text object_path)) path fs h.object v2 (c2 refl),
      given (basic (text interface_name)) interface fs h.interface_of v3 (c3 refl),
      given (basic (text string)) member fs h.method v4 (c4 refl),
    )
    complete fs invalid i = tt
    complete fs optional i = tt
    complete fs none_type i = tt

-- A header that is read without a signature is of a message without a body.
pub unmarshal_header-signature :
    (bytes : Bytes) (n : ℕ) (t : MessageType) (l k : ℕ) (h : Header)
    → unmarshal_header bytes n t l k ≡ ok h
    → h.signature_of ≡ none
    → h.message_length ≡ 0
unfolding unmarshal_header
unmarshal_header-signature bytes n t l k h e none_there =
    let (u, f, e') = >>=-eq-ok (check_signature _ _) _ e in
    let (r, g, e'') = >>=-eq-ok (unmarshal fields_type bytes first_pointer) _ e' in
    let (s, c1, c2, c3, c4, c5, c6, c7, v1, v2, v3, v4, v5, v6, v7, v8, i, j) =
      header_of-IsRead r.0 n t l k h e'' in
    elim (Bool-cases (is_none (find_field signature_field r.0))) [
      | inl a ↦ j ∙ length_zero k (rw a at s)
      | inr a ↦ absurd (
          subst IsGiven none_there (
            field_value-IsGiven (basic (text signature)) (find_field signature_field r.0)
              h.signature_of v6 a))
    ]
  where
    length_zero : (k : ℕ) → not (k == 0) ≡ false → k ≡ 0
    length_zero k e = ground arith

-- The destination of a header that is read is the sender of it.
pub unmarshal_header-destination :
    (bytes : Bytes) (n : ℕ) (t : MessageType) (l k : ℕ) (h : Header)
    → unmarshal_header bytes n t l k ≡ ok h
    → h.destination_of ≡ h.sender_of
unfolding unmarshal_header
unmarshal_header-destination bytes n t l k h e =
    let (u, f, e') = >>=-eq-ok (check_signature _ _) _ e in
    let (r, g, e'') = >>=-eq-ok (unmarshal fields_type bytes first_pointer) _ e' in
    let (s, c1, c2, c3, c4, c5, c6, c7, v1, v2, v3, v4, v5, v6, v7, v8, i, j) =
      header_of-IsRead r.0 n t l k h e'' in
    ok-injective (sym v8 ∙ v7)
