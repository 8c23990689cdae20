-- ===== src/Tests/Streams.antt =====
-- What ReadLoop of src/DBusConnection.txx hears on two streams.
use cxx_bus.Base.{◌≡◌, refl, true, false, [], ◌∷◌}
use cxx_bus.Codec.Bytes.{Bytes, skip_padding, padding, add_padding_to_size, from_le, read_bytes}
use cxx_bus.Codec.Types.{construct, type_signature, member_signatures}
use cxx_bus.Codec.Variants.{
  read_fixed, read_bool, read_stringlike, read_key, read_variant, walk, walk_step, walk_code,
  align_code, skip_dict,
}
use cxx_bus.Codec.Unmarshal.{
  check_signature, unmarshal, unpacked, unmarshal_packed, unmarshal_elements, unmarshal_array,
  unmarshal_array_of, emplace, unmarshal_entry, unmarshal_entries, unmarshal_map, unmarshal_data,
  unmarshal_complete_type, unmarshal_complete,
}
use cxx_bus.TypeCodes.{are_type_codes, are_brackets_even, alignment_of_signature}
use cxx_bus.Message.{requires_field}
use cxx_bus.Incoming.{
  unmarshal_header, header_of, find_field, required_types, check_field, field_value,
}
use cxx_bus.Connection.Reading.{
  message_type_of, read_exactly, read_front, remaining_size, build_message, read_message, read_loop,
}
use cxx_bus.Tests.Messages.{first_bytes, call_header}

-- One message.
one_heard : read_loop 2 first_bytes ≡ record {
  messages = record { header = record call_header { serial = 1 }; body = [] } ∷ [];
  undefined = false;
}
unfolding read_loop read_message read_exactly read_front remaining_size build_message
    message_type_of unmarshal_header header_of find_field required_types check_field field_value
    requires_field unmarshal_complete_type unmarshal_complete unmarshal read_fixed read_bool
    read_stringlike read_key read_variant walk walk_step walk_code align_code skip_dict unpacked
    unmarshal_packed unmarshal_elements unmarshal_array unmarshal_array_of emplace unmarshal_entry
    unmarshal_entries unmarshal_map unmarshal_data skip_padding padding add_padding_to_size from_le
    read_bytes construct check_signature are_type_codes are_brackets_even type_signature
    member_signatures alignment_of_signature
one_heard = refl

-- A header whose only field is a variant with the data behind the end of the header.
abbrev outside : Bytes
outside =
    b'l' ∷ 1 ∷ 0 ∷ 1 ∷ 0 ∷ 0 ∷ 0 ∷ 0 ∷ 1 ∷ 0 ∷ 0 ∷ 0 ∷ 4 ∷ 0 ∷ 0 ∷ 0 ∷ 5 ∷ 1 ∷ b't' ∷ 0 ∷ 0 ∷ 0 ∷ 0
    ∷ 0 ∷ []

undefined_heard : read_loop 2 outside ≡ record { messages = []; undefined = true }
unfolding read_loop read_message read_exactly read_front remaining_size build_message
    message_type_of unmarshal_header header_of find_field required_types check_field field_value
    requires_field unmarshal_complete_type unmarshal_complete unmarshal read_fixed read_bool
    read_stringlike read_key read_variant walk walk_step walk_code align_code skip_dict unpacked
    unmarshal_packed unmarshal_elements unmarshal_array unmarshal_array_of emplace unmarshal_entry
    unmarshal_entries unmarshal_map unmarshal_data skip_padding padding add_padding_to_size from_le
    read_bytes construct check_signature are_type_codes are_brackets_even type_signature
    member_signatures alignment_of_signature
undefined_heard = refl
