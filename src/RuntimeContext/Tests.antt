-- ===== src/RuntimeContext/Tests.antt =====
-- A context packet with GPS text, parsed and read; and packets that show what a rejected one gives.
use vrtio.Common.{
  ◌≤◌, inl, ℕ, ◌+◌, ◌*◌, ◌≡◌, refl, true, false, List, [], ◌∷◌, done, arith, if◌then◌else◌,
}
use vrtio.Buffer.{little}
use vrtio.Memory.{to, IsWithin}
use vrtio.Types.{size_field_mismatch}
use vrtio.Header.{decode_header}
use vrtio.RuntimeContext.{RuntimeContextPacket, empty_context, parse}
use vrtio.RuntimeContext.Access.{
  FieldProxy, no_field, make_field_proxy, is_field_present, bytes, packet_size_bytes,
}
use vrtio.RuntimeContext.Reads.{ReadsContext, parse-ReadsContext}
use vrtio.RuntimeContext.Order.{make_field_proxy-apart}
use vrtio.RuntimeContext.Layout.{AcceptsContext, context_prologue, base_words}
use vrtio.RuntimeContext.Safety.{first_word, too_short, parse_context_total, parse-AcceptsContext}
use vrtio.RuntimeContext.Fields.{make_field_proxy-places}
use vrtio.RuntimeContext.Widths.{words_before_field, field_words}
use vrtio.RuntimeContext.Sample.{
  context_program, gps_packet, gps_buffer, found, found-parse, gps_proxy,
}

parse_context_total_example :
    (p : RuntimeContextPacket) × (parse little gps_buffer 44 ≡ done p)
    × (p.buffer ≡ gps_buffer)
    × (p.buffer_size ≡ 44)
parse_context_total_example = parse_context_total little gps_buffer 44 (omega arith)

parse-AcceptsContext_example :
    (too_short little gps_buffer 44 (omega arith) ≡ false)
    × AcceptsContext little gps_packet 44
        (decode_header (first_word little gps_buffer 44 (omega arith)))
        found.structure
parse-AcceptsContext_example =
    parse-AcceptsContext little gps_buffer 44 (omega arith) found found-parse refl

make_field_proxy-places_example :
    (f : FieldProxy) × (make_field_proxy little found 1 14 ≡ done f)
    × (f ≡ (
        if is_field_present 1 14 found.structure
        then record {
          offset_bytes = 20 + 4 * words_before_field found.structure 1 14;
          size_bytes = 4 * field_words found.structure 1 14;
          present = true;
        }
        else no_field))
    × IsWithin (bytes f) gps_buffer
make_field_proxy-places_example =
    make_field_proxy-places little gps_buffer 44 (omega arith) (omega arith) found found-parse 1 14
      refl (omega arith) (omega arith)

-- Twelve bytes whose bandwidth would stand behind the packet: the size check rejects the packet, and
-- the access to the field, which does not ask for the error, says that eight bytes at 12 are there.
abbrev short_packet : List ℕ
short_packet = 0x40 ∷ 0 ∷ 0 ∷ 3 ∷ 0 ∷ 0 ∷ 0 ∷ 42 ∷ 0x20 ∷ 0 ∷ 0 ∷ 0 ∷ []

abbrev refused : RuntimeContextPacket
refused = record {
  buffer = to short_packet;
  buffer_size = 12;
  error = size_field_mismatch;
  structure = record empty_context {
    header = decode_header 0x4000_0003;
    has_stream_id = true;
    cif0 = 0x2000_0000;
    context_base_bytes = 12;
    calculated_size_words = 5;
  };
}

refused-parse : parse little (to short_packet) 12 ≡ done refused
unfolding context_program
refused-parse = refl

refused_field :
    make_field_proxy little refused 0 29
    ≡ done (record { offset_bytes = 12; size_bytes = 8; present = true })
unfolding context_program
refused_field = refl

parse-ReadsContext_example : ReadsContext little found
parse-ReadsContext_example =
    parse-ReadsContext little gps_buffer 44 found (omega arith) found-parse refl

gain_proxy :
    make_field_proxy little found 1 14
    ≡ done (record { offset_bytes = 40; size_bytes = 4; present = true })
unfolding context_program
gain_proxy = refl

-- The GPS text ends where the auxiliary gain begins, which ends where the packet does.
make_field_proxy-apart_example :
    (4 * base_words (context_prologue found.structure.header) found.structure.cif0 ≤ 28)
    × (28 + 12 ≤ 40)
    × (40 + 4 ≤ packet_size_bytes found)
make_field_proxy-apart_example =
    make_field_proxy-apart little gps_buffer 44 (omega arith) (omega arith) found found-parse 0 10 1
      14 (record { offset_bytes = 28; size_bytes = 12; present = true })
      (record { offset_bytes = 40; size_bytes = 4; present = true }) refl (omega arith)
      (omega arith) (omega arith) (omega arith) (inl (omega arith)) gps_proxy gain_proxy refl refl
