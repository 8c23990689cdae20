-- ===== src/Tests/Messages.antt =====
-- Messages of src/DBusMessage.cpp and src/IncomingDBusMessage.cpp.
use cxx_bus.Base.{◌≡◌, refl, [], ◌∷◌, none, some, codes, ok}
use cxx_bus.Codec.Bytes.{
  Bytes, apply_padding, padding, le_bytes, write_bytes, skip_padding, add_padding_to_size, from_le,
  read_bytes,
}
use cxx_bus.Codec.Types.{construct, type_signature}
use cxx_bus.Codec.Marshal.{
  create_variant, until_terminator, marshal_complete, marshal, marshal_key, marshal_stringlike,
  marshal_bool, marshal_fixed, marshal_array_of, marshal_packed, packed, marshal_array,
  finish_array, marshal_elements, marshal_map, marshal_entries, marshal_entry, marshal_variant,
}
use cxx_bus.Message.{
  required_fields, is_wanted, requires_field, field_variant, required_text, required_serial,
  has_field, optional_interface, optional_destination,
}
use cxx_bus.Message.{Message, method_call, fields_of, serialize}
use cxx_bus.Message.Building.{blank}
use cxx_bus.Message.Fields.{fields_of-described}
use cxx_bus.Message.Described.{described}
use cxx_bus.Incoming.{
  Header, unmarshal_header, header_of, find_field, required_types, check_field, field_value,
}
use cxx_bus.Codec.Variants.{
  read_fixed, read_bool, read_stringlike, read_key, read_variant, walk, walk_step, walk_code,
  align_code, skip_dict,
}
use cxx_bus.Codec.Unmarshal.{
  check_signature, unmarshal, unpacked, unmarshal_packed, unmarshal_elements, unmarshal_array,
  unmarshal_array_of, emplace, unmarshal_entry, unmarshal_entries, unmarshal_map, unmarshal_data,
}
use cxx_bus.TypeCodes.{are_type_codes, are_brackets_even, alignment_of_signature}
use cxx_bus.Incoming.Required.{IsComplete, unmarshal_header-IsComplete}

abbrev pub call : Message
call = record (blank method_call) { method = some (codes "Ping"); object = some (codes "/a") }

fields_of-described_example : fields_of call ≡ described method_call call
fields_of-described_example = fields_of-described call tt

abbrev pub call_bytes : Bytes
call_bytes =
    108 ∷ 1 ∷ 0 ∷ 1 ∷ 0 ∷ 0 ∷ 0 ∷ 0 ∷ 5 ∷ 0 ∷ 0 ∷ 0 ∷ 29 ∷ 0 ∷ 0 ∷ 0 ∷ 1 ∷ 1 ∷ 111 ∷ 0 ∷ 2 ∷ 0 ∷ 0
    ∷ 0 ∷ 47 ∷ 97 ∷ 0 ∷ 0 ∷ 0 ∷ 0 ∷ 0 ∷ 0 ∷ 3 ∷ 1 ∷ 115 ∷ 0 ∷ 4 ∷ 0 ∷ 0 ∷ 0 ∷ 80 ∷ 105 ∷ 110 ∷ 103
    ∷ 0 ∷ 0 ∷ 0 ∷ 0 ∷ []

pub call_serialized : serialize call 5 ≡ ok call_bytes
unfolding serialize fields_of required_fields is_wanted requires_field field_variant required_text
    required_serial has_field optional_interface optional_destination create_variant
    until_terminator construct type_signature marshal_complete marshal marshal_key
    marshal_stringlike marshal_bool marshal_fixed marshal_array_of marshal_packed packed
    marshal_array finish_array marshal_elements marshal_map marshal_entries marshal_entry
    marshal_variant apply_padding padding le_bytes write_bytes
call_serialized = refl

-- The call as the first message of a connection.
abbrev pub first_bytes : Bytes
first_bytes =
    108 ∷ 1 ∷ 0 ∷ 1 ∷ 0 ∷ 0 ∷ 0 ∷ 0 ∷ 1 ∷ 0 ∷ 0 ∷ 0 ∷ 29 ∷ 0 ∷ 0 ∷ 0 ∷ 1 ∷ 1 ∷ 111 ∷ 0 ∷ 2 ∷ 0 ∷ 0
    ∷ 0 ∷ 47 ∷ 97 ∷ 0 ∷ 0 ∷ 0 ∷ 0 ∷ 0 ∷ 0 ∷ 3 ∷ 1 ∷ 115 ∷ 0 ∷ 4 ∷ 0 ∷ 0 ∷ 0 ∷ 80 ∷ 105 ∷ 110 ∷ 103
    ∷ 0 ∷ 0 ∷ 0 ∷ 0 ∷ []

pub first_serialized : serialize call 1 ≡ ok first_bytes
unfolding serialize fields_of required_fields is_wanted requires_field field_variant required_text
    required_serial has_field optional_interface optional_destination create_variant
    until_terminator construct type_signature marshal_complete marshal marshal_key
    marshal_stringlike marshal_bool marshal_fixed marshal_array_of marshal_packed packed
    marshal_array finish_array marshal_elements marshal_map marshal_entries marshal_entry
    marshal_variant apply_padding padding le_bytes write_bytes
first_serialized = refl

-- The call above, as it arrives.
abbrev pub call_header : Header
call_header = record {
  serial = 5;
  reply_to = none;
  message_type = method_call;
  object = some (codes "/a");
  interface_of = none;
  method = some (codes "Ping");
  error_of = none;
  signature_of = none;
  sender_of = none;
  destination_of = none;
  message_length = 0;
  header_field_length = 29;
}

call_read : unmarshal_header call_bytes 5 method_call 29 0 ≡ ok call_header
unfolding unmarshal_header header_of find_field required_types check_field field_value
    requires_field check_signature unmarshal read_fixed read_bool read_stringlike read_key
    read_variant walk walk_step walk_code align_code skip_dict unpacked unmarshal_packed
    unmarshal_elements unmarshal_array unmarshal_array_of emplace unmarshal_entry unmarshal_entries
    unmarshal_map skip_padding padding add_padding_to_size from_le read_bytes construct
    type_signature are_type_codes are_brackets_even unmarshal_data alignment_of_signature
call_read = refl

unmarshal_header-IsComplete_example : IsComplete method_call call_header
unmarshal_header-IsComplete_example =
    unmarshal_header-IsComplete call_bytes 5 method_call 29 0 call_header call_read
