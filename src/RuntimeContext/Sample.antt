-- ===== src/RuntimeContext/Sample.antt =====
-- A context packet with GPS text for the tests, parsed.
use vrtio.Common.{ℕ, ◌≡◌, refl, true, List, [], ◌∷◌, done}
use vrtio.Buffer.{
  little, read_u32, read_u64, read_word, copy_from, network_to_host, host_to_network, byteswap,
  of_memory, le_bytes, of_le_bytes,
}
use vrtio.Memory.{Pointer, to, is_null}
use vrtio.Types.{ValidationError, has_tsi, has_tsf, packet_type_value}
use vrtio.Header.{decode_header, has_stream_id_field}
use vrtio.Cif.{field_at, has_bit}
use vrtio.Cif.Masks.{has_unsupported}
use vrtio.Cif.Offset.{
  add_fixed, add_cif0, cif0_round, go_on, add_later, offset_runtime, dispatch_branch,
  compute_variable_field_size, gps_ascii_trait_size, context_assoc_trait_size, gps_trait_words,
  gps_words, assoc_words, read_gps_ascii_length_words, read_context_assoc_length_words,
  calculate_field_offset_runtime,
}
use vrtio.RuntimeContext.{
  RuntimeContextPacket, empty_context, is_context_type, add_cif0_fixed, add_cif_words,
  has_unsupported_bits, check_size, count_context_assoc, count_gps_ascii, count_fields, read_cif3,
  read_cif2, read_cif1, read_cif0, check_header, validate_internal, parse,
}
use vrtio.RuntimeContext.Access.{
  make_field_proxy, is_field_present, field_table, bytes, timestamp_integer, is_valid,
}

unfoldable pub context_program : Unit {0}
unfolding parse validate_internal check_header read_cif0 read_cif1 read_cif2 read_cif3 count_fields
    count_gps_ascii count_context_assoc check_size has_unsupported_bits add_cif_words add_cif0_fixed
    is_context_type read_u32 read_u64 read_word copy_from network_to_host host_to_network byteswap
    of_memory le_bytes of_le_bytes is_null has_tsi has_tsf packet_type_value decode_header
    has_stream_id_field field_at has_bit has_unsupported add_fixed add_cif0 cif0_round go_on
    add_later offset_runtime dispatch_branch compute_variable_field_size gps_ascii_trait_size
    context_assoc_trait_size gps_trait_words gps_words assoc_words read_gps_ascii_length_words
    read_context_assoc_length_words calculate_field_offset_runtime make_field_proxy is_field_present
    field_table bytes timestamp_integer is_valid
context_program = tt

-- A context packet with a stream id and UTC seconds: bandwidth, GPS text of five characters and, in
-- CIF1, the auxiliary gain.
abbrev pub gps_packet : List ℕ
gps_packet =
    0x40 ∷ 0x40 ∷ 0 ∷ 11 ∷ 0 ∷ 0 ∷ 0 ∷ 42 ∷ 0 ∷ 0 ∷ 1 ∷ 0 ∷ 0x20 ∷ 0 ∷ 4 ∷ 2 ∷ 0 ∷ 0 ∷ 0x40 ∷ 0 ∷ 0
    ∷ 1 ∷ 2 ∷ 3 ∷ 4 ∷ 5 ∷ 6 ∷ 7 ∷ 0 ∷ 0 ∷ 0 ∷ 5 ∷ 0x24 ∷ 0x47 ∷ 0x50 ∷ 0x47 ∷ 0x53 ∷ 0 ∷ 0 ∷ 0 ∷ 0
    ∷ 0 ∷ 0 ∷ 9 ∷ []

abbrev pub gps_buffer : Pointer
gps_buffer = to gps_packet

abbrev pub found : RuntimeContextPacket
found = record {
  buffer = gps_buffer;
  buffer_size = 44;
  error = ValidationError.none;
  structure = record empty_context {
    header = decode_header 0x4040_000B;
    has_stream_id = true;
    cif0 = 0x2000_0402;
    cif1 = 0x4000;
    gps_ascii = record { present = true; offset_bytes = 28; size_words = 3 };
    context_base_bytes = 20;
    calculated_size_words = 11;
  };
}

pub found-parse : parse little gps_buffer 44 ≡ done found
unfolding context_program
found-parse = refl

pub gps_proxy :
    make_field_proxy little found 0 10
    ≡ done (record { offset_bytes = 28; size_bytes = 12; present = true })
unfolding context_program
gps_proxy = refl
