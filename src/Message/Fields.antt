-- ===== src/Message/Fields.antt =====
-- Which header fields CreateDBusMessage of src/DBusMessage.cpp writes, and when it refuses.
use cxx_bus.Base.{
  ℕ, ◌≡◌, refl, ap, false, List, [], ◌∷◌, ◌++◌, append-nil, append_assoc, Option, none, some, Text,
  ok,
}
use cxx_bus.Codec.Types.{uint32, signature, word, text, basic, Variant}
use cxx_bus.Codec.Bytes.{Bytes}
use cxx_bus.Codec.Marshal.{create_variant}
use cxx_bus.Message.{
  Message, MessageType, method_call, method_return, error, signal, optional, none_type, invalid,
  fields_of, required_fields, is_wanted, field_variant, required_text, required_serial,
  requires_field, has_field, optional_interface, optional_destination,
}
use cxx_bus.Message.Described.{maybe, maybe_full, as_path, as_interface, as_string, described}

-- What the end of the function adds to fields without an interface.
added :
    (fs : List (ℕ × Variant)) (i d : Option Text)
    → has_field 2 fs ≡ false
    → (fs ++ optional_interface i fs) ++ optional_destination d
      ≡ fs ++ (maybe 2 as_interface i ++ (maybe_full 6 as_string d ++ []))
unfolding optional_interface optional_destination
added fs none none h = simp append-nil
added fs none (some []) h = simp append-nil
added fs none (some (c ∷ cs)) h = simp append-nil
added fs (some s) none h = rw h (simp append-nil)
added fs (some s) (some []) h = rw h (simp append-nil)
added fs (some s) (some (c ∷ cs)) h = rw h (simp append_assoc)

module _ (o m i s d e : Option Text) (r : Option ℕ) (b : Bytes) (f : ℕ) where
  abbrev of_type : MessageType → Message
  of_type t = record {
    method = m;
    object = o;
    interface_of = i;
    flags = f;
    message_type = t;
    signature_of = s;
    destination_of = d;
    error_of = e;
    reply_to = r;
    body = b;
  }

added_destination :
    (fs : List (ℕ × Variant)) (d : Option Text)
    → (fs ++ []) ++ optional_destination d ≡ fs ++ (maybe_full 6 as_string d ++ [])
unfolding optional_destination
added_destination fs none = simp append-nil
added_destination fs (some []) = simp append-nil
added_destination fs (some (c ∷ cs)) = simp append-nil

call_fields :
    (o m i s d e : Option Text) (r : Option ℕ) (b : Bytes) (f : ℕ)
    → fields_of (of_type o m i s d e r b f method_call)
      ≡ described method_call (of_type o m i s d e r b f method_call)
unfolding fields_of required_fields is_wanted requires_field field_variant required_text
    required_serial has_field optional_interface
call_fields none m i s d e r b f = refl
call_fields (some []) m i s d e r b f = refl
call_fields (some (x ∷ o)) none i s d e r b f = refl
call_fields (some (x ∷ o)) (some []) i s d e r b f = refl
call_fields (some (x ∷ o)) (some (y ∷ m)) i s d e r [] f =
    ap ok (added ((1, as_path (x ∷ o)) ∷ (3, as_string (y ∷ m)) ∷ []) i d refl)
call_fields (some (x ∷ o)) (some (y ∷ m)) i none d e r (z ∷ b) f = refl
call_fields (some (x ∷ o)) (some (y ∷ m)) i (some []) d e r (z ∷ b) f = refl
call_fields (some (x ∷ o)) (some (y ∷ m)) i (some (w ∷ s)) d e r (z ∷ b) f = ap ok (
    added
      ((1, as_path (x ∷ o))
        ∷ (3, as_string (y ∷ m))
        ∷ (8, create_variant (basic (text signature)) (w ∷ s))
        ∷ [])
      i d refl)

return_fields :
    (o m i s d e : Option Text) (r : Option ℕ) (b : Bytes) (f : ℕ)
    → fields_of (of_type o m i s d e r b f method_return)
      ≡ described method_return (of_type o m i s d e r b f method_return)
unfolding fields_of required_fields is_wanted requires_field field_variant required_text
    required_serial has_field optional_interface
return_fields o m i s d e none b f = refl
return_fields o m i s d e (some n) [] f =
    ap ok (added ((5, create_variant (basic (word uint32)) n) ∷ []) i d refl)
return_fields o m i none d e (some n) (z ∷ b) f = refl
return_fields o m i (some []) d e (some n) (z ∷ b) f = refl
return_fields o m i (some (w ∷ s)) d e (some n) (z ∷ b) f = ap ok (
    added
      ((5, create_variant (basic (word uint32)) n)
        ∷ (8, create_variant (basic (text signature)) (w ∷ s))
        ∷ [])
      i d refl)

error_fields :
    (o m i s d e : Option Text) (r : Option ℕ) (b : Bytes) (f : ℕ)
    → fields_of (of_type o m i s d e r b f error)
      ≡ described error (of_type o m i s d e r b f error)
unfolding fields_of required_fields is_wanted requires_field field_variant required_text
    required_serial has_field optional_interface
error_fields o m i s d none r b f = refl
error_fields o m i s d (some []) r b f = refl
error_fields o m i s d (some (v ∷ e)) none b f = refl
error_fields o m i s d (some (v ∷ e)) (some n) [] f =
    ap ok
      (added ((4, as_string (v ∷ e)) ∷ (5, create_variant (basic (word uint32)) n) ∷ []) i d refl)
error_fields o m i none d (some (v ∷ e)) (some n) (z ∷ b) f = refl
error_fields o m i (some []) d (some (v ∷ e)) (some n) (z ∷ b) f = refl
error_fields o m i (some (w ∷ s)) d (some (v ∷ e)) (some n) (z ∷ b) f = ap ok (
    added
      ((4, as_string (v ∷ e))
        ∷ (5, create_variant (basic (word uint32)) n)
        ∷ (8, create_variant (basic (text signature)) (w ∷ s))
        ∷ [])
      i d refl)

signal_fields :
    (o m i s d e : Option Text) (r : Option ℕ) (b : Bytes) (f : ℕ)
    → fields_of (of_type o m i s d e r b f signal)
      ≡ described signal (of_type o m i s d e r b f signal)
unfolding fields_of required_fields is_wanted requires_field field_variant required_text
    required_serial has_field optional_interface
signal_fields none m i s d e r b f = refl
signal_fields (some []) m i s d e r b f = refl
signal_fields (some (x ∷ o)) m none s d e r b f = refl
signal_fields (some (x ∷ o)) m (some []) s d e r b f = refl
signal_fields (some (x ∷ o)) none (some (u ∷ i)) s d e r b f = refl
signal_fields (some (x ∷ o)) (some []) (some (u ∷ i)) s d e r b f = refl
signal_fields (some (x ∷ o)) (some (y ∷ m)) (some (u ∷ i)) s d e r [] f = ap ok (
    added_destination
      ((1, as_path (x ∷ o)) ∷ (2, as_interface (u ∷ i)) ∷ (3, as_string (y ∷ m)) ∷ []) d)
signal_fields (some (x ∷ o)) (some (y ∷ m)) (some (u ∷ i)) none d e r (z ∷ b) f = refl
signal_fields (some (x ∷ o)) (some (y ∷ m)) (some (u ∷ i)) (some []) d e r (z ∷ b) f = refl
signal_fields (some (x ∷ o)) (some (y ∷ m)) (some (u ∷ i)) (some (w ∷ s)) d e r (z ∷ b) f = ap ok (
    added_destination
      ((1, as_path (x ∷ o))
        ∷ (2, as_interface (u ∷ i))
        ∷ (3, as_string (y ∷ m))
        ∷ (8, create_variant (basic (text signature)) (w ∷ s))
        ∷ [])
      d)

-- The four types of message that the protocol has.
abbrev pub IsProtocolType : MessageType → Type 0
IsProtocolType method_call = Unit
IsProtocolType method_return = Unit
IsProtocolType error = Unit
IsProtocolType signal = Unit
IsProtocolType _ = ⊥

-- For a message of one of the four types of the protocol, CreateDBusMessage builds exactly the
-- fields that its type is described by, in that order, and refuses the message with a serialization
-- error exactly where a part that its type has to give is missing or empty: path and member for a
-- call, the reply serial for a return, error name and reply serial for an error, path, interface and
-- member for a signal, and a signature for each that has a body.
pub fields_of-described :
    (m : Message) → IsProtocolType m.message_type → fields_of m ≡ described m.message_type m
fields_of-described m h = by_type m.message_type h
  where
    by_type :
        (t : MessageType)
        → IsProtocolType t
        → fields_of (record m { message_type = t }) ≡ described t (record m { message_type = t })
    by_type method_call h =
        call_fields m.object m.method m.interface_of m.signature_of m.destination_of m.error_of
          m.reply_to m.body m.flags
    by_type method_return h =
        return_fields m.object m.method m.interface_of m.signature_of m.destination_of m.error_of
          m.reply_to m.body m.flags
    by_type error h =
        error_fields m.object m.method m.interface_of m.signature_of m.destination_of m.error_of
          m.reply_to m.body m.flags
    by_type signal h =
        signal_fields m.object m.method m.interface_of m.signature_of m.destination_of m.error_of
          m.reply_to m.body m.flags
    by_type invalid h = absurd h
    by_type optional h = absurd h
    by_type none_type h = absurd h
