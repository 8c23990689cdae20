-- ===== src/Message/Sound.antt =====
-- The Variants that CreateDBusMessage of src/DBusMessage.cpp puts into a header are sound: their data
-- is appended to the buffer.
use cxx_bus.Base.{
  ℕ, ◌≡◌, subst, List, [], ◌∷◌, ◌++◌, Option, none, some, Text, ok, >>=-eq-ok, All, Bool-cases, inl,
  inr,
}
use cxx_bus.Codec.Types.{
  uint32, string, object_path, interface_name, signature, Ty, Value, word, text, basic, Variant,
}
use cxx_bus.Codec.Marshal.{create_variant}
use cxx_bus.Codec.AppendingAll.{IsSound, IsSoundValue, create_variant-IsSound}
use cxx_bus.Message.{
  Message, MessageType, FieldCode, invalid_field, path, interface, member, error_name, reply_serial,
  destination, sender, signature_field, unix_fds, none_field, field_number, fields_of,
  required_fields, is_wanted, header_fields, field_variant, required_text, required_serial,
  has_field, optional_interface, optional_destination,
}

abbrev pub AreSoundFields : List (ℕ × Variant) → Type 0
AreSoundFields = All (λ f. IsSound f.1)

text-IsSound :
    (s : Text → Variant) (o : Option Text) (v : Variant)
    → ((t : Text) → IsSound (s t))
    → required_text s o ≡ ok v
    → IsSound v
unfolding required_text
text-IsSound s none v h e = absurd (cc e)
text-IsSound s (some []) v h e = absurd (cc e)
text-IsSound s (some (c ∷ cs)) v h e = let q : s (c ∷ cs) ≡ v = cc in subst IsSound q (h (c ∷ cs))

made : (t : Ty) (v : Value t) → IsSoundValue t v → IsSound (create_variant t v)
made t v h = create_variant-IsSound t v h

field_variant-IsSound :
    (code : FieldCode) (m : Message) (v : Variant) → field_variant code m ≡ ok v → IsSound v
unfolding field_variant required_serial IsSoundValue
field_variant-IsSound none_field m v e = absurd (cc e)
field_variant-IsSound invalid_field m v e = absurd (cc e)
field_variant-IsSound sender m v e = absurd (cc e)
field_variant-IsSound destination m v e = absurd (cc e)
field_variant-IsSound unix_fds m v e = absurd (cc e)
field_variant-IsSound reply_serial m v e = serial m.reply_to e
  where
    serial : (o : Option ℕ) → required_serial o ≡ ok v → IsSound v
    serial none e = absurd (cc e)
    serial (some n) e =
        let q : create_variant (basic (word uint32)) n ≡ v = cc in
        subst IsSound q (made (basic (word uint32)) n tt)
field_variant-IsSound error_name m v e =
    text-IsSound _ m.error_of v (λ t. made (basic (text string)) t tt) e
field_variant-IsSound path m v e =
    text-IsSound _ m.object v (λ t. made (basic (text object_path)) t tt) e
field_variant-IsSound interface m v e =
    text-IsSound _ m.interface_of v (λ t. made (basic (text interface_name)) t tt) e
field_variant-IsSound member m v e =
    text-IsSound _ m.method v (λ t. made (basic (text string)) t tt) e
field_variant-IsSound signature_field m v e =
    text-IsSound _ m.signature_of v (λ t. made (basic (text signature)) t tt) e

required_fields_sound :
    (rows : List (FieldCode × (MessageType × MessageType))) (m : Message) (fs : List (ℕ × Variant))
    → required_fields rows m ≡ ok fs
    → AreSoundFields fs
unfolding required_fields
required_fields_sound [] m [] e = tt
required_fields_sound [] m (f ∷ fs) e = absurd (cc e)
required_fields_sound ((code, required) ∷ rows) m fs e =
    elim (Bool-cases (is_wanted code required m)) [
      | inl w ↦
          let (v, ev, e') = >>=-eq-ok (field_variant code m) _ (rw w at e) in
          let (gs, eg, e'') = >>=-eq-ok (required_fields rows m) _ e' in
          let q : (field_number code, v) ∷ gs ≡ fs = cc in
          subst AreSoundFields q
            (field_variant-IsSound code m v ev, required_fields_sound rows m gs eg)
      | inr w ↦ required_fields_sound rows m fs (rw w at e)
    ]

append_sound :
    (fs gs : List (ℕ × Variant)) → AreSoundFields fs → AreSoundFields gs → AreSoundFields (fs ++ gs)
append_sound [] gs h k = k
append_sound (f ∷ fs) gs h k = (h.0, append_sound fs gs h.1 k)

optional_interface_sound :
    (o : Option Text) (fs : List (ℕ × Variant)) → AreSoundFields (optional_interface o fs)
unfolding optional_interface IsSoundValue
optional_interface_sound none fs = tt
optional_interface_sound (some s) fs = elim (Bool-cases (has_field 2 fs)) [
  | inl e ↦ rw e tt
  | inr e ↦ rw e (made (basic (text interface_name)) s tt, tt)
]

optional_destination_sound : (o : Option Text) → AreSoundFields (optional_destination o)
unfolding optional_destination IsSoundValue
optional_destination_sound none = tt
optional_destination_sound (some []) = tt
optional_destination_sound (some (c ∷ cs)) = (made (basic (text string)) (c ∷ cs) tt, tt)

pub fields_of_sound :
    (m : Message) (fs : List (ℕ × Variant)) → fields_of m ≡ ok fs → AreSoundFields fs
unfolding fields_of
fields_of_sound m fs e =
    let (gs, eg, e') = >>=-eq-ok (required_fields header_fields m) _ e in
    let all =
      (gs ++ optional_interface m.interface_of gs) ++ optional_destination m.destination_of in
    let q : all ≡ fs = cc in
    subst AreSoundFields q (
      append_sound (gs ++ optional_interface m.interface_of gs)
        (optional_destination m.destination_of)
        (append_sound gs (optional_interface m.interface_of gs)
          (required_fields_sound header_fields m gs eg)
          (optional_interface_sound m.interface_of gs))
        (optional_destination_sound m.destination_of))
