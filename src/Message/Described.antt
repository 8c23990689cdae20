-- ===== src/Message/Described.antt =====
-- The header fields by which each type of message is described, for CreateDBusMessage of
-- src/DBusMessage.cpp.
use cxx_bus.Base.{
  ℕ, List, [], ◌∷◌, ◌++◌, Option, none, some, if◌then◌else◌, Text, Result, ok, err, serialization,
  runtime_error, ◌>>=◌,
}
use cxx_bus.Codec.Types.{
  uint32, string, object_path, interface_name, signature, word, text, basic, Variant,
}
use cxx_bus.Codec.Marshal.{create_variant}
use cxx_bus.Message.{Message, MessageType, method_call, method_return, error, signal, is_empty}

-- A field that the message has to give, and that is not empty, with its code.
abbrev given : ℕ → (Text → Variant) → Option Text → Result (List (ℕ × Variant))
given n make none = err serialization
given n make (some []) = err serialization
given n make (some (c ∷ cs)) = ok ((n, make (c ∷ cs)) ∷ [])

abbrev given_serial : Option ℕ → Result (List (ℕ × Variant))
given_serial none = err serialization
given_serial (some n) = ok ((5, create_variant (basic (word uint32)) n) ∷ [])

-- A field that is left out where it is not given.
abbrev pub maybe : ℕ → (Text → Variant) → Option Text → List (ℕ × Variant)
maybe n make none = []
maybe n make (some s) = (n, make s) ∷ []

-- A field that is left out where it is not given or empty.
abbrev pub maybe_full : ℕ → (Text → Variant) → Option Text → List (ℕ × Variant)
maybe_full n make none = []
maybe_full n make (some []) = []
maybe_full n make (some (c ∷ cs)) = (n, make (c ∷ cs)) ∷ []

-- The parts one after the other; the first that is refused decides.
abbrev all_of : List (Result (List (ℕ × Variant))) → Result (List (ℕ × Variant))
all_of [] = ok []
all_of (part ∷ parts) = part >>= λ xs. all_of parts >>= λ ys. ok (xs ++ ys)

abbrev pub as_path : Text → Variant
as_path s = create_variant (basic (text object_path)) s

abbrev pub as_interface : Text → Variant
as_interface s = create_variant (basic (text interface_name)) s

abbrev pub as_string : Text → Variant
as_string s = create_variant (basic (text string)) s

-- The signature is given with a body, and only then.
abbrev signature_part : Message → Result (List (ℕ × Variant))
signature_part m =
    if is_empty m.body
    then ok []
    else given 8 (λ s. create_variant (basic (text signature)) s) m.signature_of

-- The fields of each type of message, part by part.
abbrev pub described : MessageType → Message → Result (List (ℕ × Variant))
described method_call m = all_of (
    given 1 as_path m.object
    ∷ given 3 as_string m.method
    ∷ signature_part m
    ∷ ok (maybe 2 as_interface m.interface_of)
    ∷ ok (maybe_full 6 as_string m.destination_of)
    ∷ [])
described method_return m = all_of (
    given_serial m.reply_to
    ∷ signature_part m
    ∷ ok (maybe 2 as_interface m.interface_of)
    ∷ ok (maybe_full 6 as_string m.destination_of)
    ∷ [])
described error m = all_of (
    given 4 as_string m.error_of
    ∷ given_serial m.reply_to
    ∷ signature_part m
    ∷ ok (maybe 2 as_interface m.interface_of)
    ∷ ok (maybe_full 6 as_string m.destination_of)
    ∷ [])
described signal m = all_of (
    given 1 as_path m.object
    ∷ given 2 as_interface m.interface_of
    ∷ given 3 as_string m.method
    ∷ signature_part m
    ∷ ok (maybe_full 6 as_string m.destination_of)
    ∷ [])
described _ m = err runtime_error
