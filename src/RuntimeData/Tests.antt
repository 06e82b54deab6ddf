-- ===== src/RuntimeData/Tests.antt =====
-- Two data packets parsed and read: one with every field, and one that the parser rejects.
use vrtio.Common.{ℕ, ◌≡◌, refl, false, List, [], ◌∷◌, done, arith, if◌then◌else◌}
use mathlib.Core.Option.{some}
use vrtio.Buffer.{
  little, big, read_u32, read_u64, read_word, copy_from, network_to_host, host_to_network, byteswap,
  of_memory, le_bytes, of_le_bytes,
}
use vrtio.Memory.{Pointer, to, is_null, IsWithin}
use vrtio.Types.{ValidationError, buffer_too_small, has_tsi, has_tsf, packet_type_value}
use vrtio.ClassId.{from_words}
use vrtio.Header.{decode_header, has_stream_id_field}
use vrtio.Header.View
use vrtio.Header.Indicators.{decode_data_indicators}
use vrtio.RuntimeData.{
  RuntimeDataPacket, parse, validate_internal, validate_header, validate_structure, place_fields,
  is_data_type, is_valid, has_trailer, stream_id, class_id, timestamp_integer, timestamp_fractional,
  trailer, payload, as_bytes, packet_size_bytes,
}
use vrtio.RuntimeData.Layout.{expected_error, Accepts}
use vrtio.RuntimeData.Safety.{first_word, too_short, parsed, parse-done, parse_total, parse-Accepts}
use vrtio.RuntimeData.Access.{Reads, parse-Reads}

data_program : Unit {0}
unfolding parse validate_internal validate_header validate_structure place_fields is_data_type
    is_valid has_trailer stream_id class_id timestamp_integer timestamp_fractional trailer payload
    as_bytes packet_size_bytes read_u32 read_u64 read_word copy_from network_to_host host_to_network
    byteswap of_memory le_bytes of_le_bytes is_null has_tsi has_tsf packet_type_value from_words
    decode_header has_stream_id_field View.has_trailer decode_data_indicators
data_program = tt

-- Signal data with stream id, class id, UTC and picoseconds, a payload of one word and a trailer.
abbrev full_bytes : List ℕ
full_bytes =
    0x1C ∷ 0x65 ∷ 0 ∷ 9 ∷ 0 ∷ 0 ∷ 0 ∷ 42 ∷ 0 ∷ 0x12 ∷ 0x34 ∷ 0x56 ∷ 0 ∷ 1 ∷ 0 ∷ 2 ∷ 0 ∷ 0 ∷ 1 ∷ 0
    ∷ 0 ∷ 0 ∷ 0 ∷ 0 ∷ 0 ∷ 0 ∷ 2 ∷ 0 ∷ 0xDE ∷ 0xAD ∷ 0xBE ∷ 0xEF ∷ 0x40 ∷ 0x04 ∷ 0 ∷ 0 ∷ []

abbrev full_buffer : Pointer
full_buffer = to full_bytes

abbrev full : RuntimeDataPacket
full = parsed little full_buffer 36 (omega arith)

full-parse : parse little full_buffer 36 ≡ done full
full-parse = parse-done little full_buffer 36 (omega arith)

full_accepted : full.error ≡ ValidationError.none
unfolding data_program parsed
full_accepted = refl

full_read :
    (stream_id little full ≡ done (some 42))
    × (timestamp_integer little full ≡ done (some 256))
    × (timestamp_fractional little full ≡ done (some 512))
    × (trailer little full ≡ done (some 0x4004_0000))
    × (payload full ≡ record { offset = 28; size = 4 })
unfolding data_program parsed
full_read = (refl, refl, refl, refl, refl)

-- The same bytes with the last one not given.
abbrev cut : RuntimeDataPacket
cut = parsed big full_buffer 35 (omega arith)

cut_rejected : cut.error ≡ buffer_too_small
unfolding data_program parsed
cut_rejected = refl

parse_total_example :
    (p : RuntimeDataPacket) × (parse big full_buffer 35 ≡ done p)
    × (p.buffer ≡ full_buffer)
    × (p.buffer_size ≡ 35)
    × (p.error ≡ (
        if too_short big full_buffer 35 (omega arith)
        then buffer_too_small
        else expected_error 35 (first_word big full_buffer 35 (omega arith))))
parse_total_example = parse_total big full_buffer 35 (omega arith)

parse-Accepts_example :
    (too_short little full_buffer 36 (omega arith) ≡ false)
    × Accepts 36 (decode_header (first_word little full_buffer 36 (omega arith))) full.structure
    × IsWithin (payload full) full.buffer
    × IsWithin (as_bytes full) full.buffer
parse-Accepts_example =
    parse-Accepts little full_buffer 36 (omega arith) full full-parse full_accepted

parse-Reads_example : Reads little full
parse-Reads_example = parse-Reads little full_buffer 36 full (omega arith) full-parse full_accepted
