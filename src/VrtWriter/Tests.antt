-- ===== src/VrtWriter/Tests.antt =====
-- A data packet of a stream id and one word of payload, parsed and written.
use vrtio.Common.{ℕ, ◌≡◌, refl, true, List, [], ◌∷◌, ◌++◌, length, Run, done, fault, arith}
use mathlib.Core.Option.{some}
use vrtio.Buffer.{
  little, read_u32, read_word, copy_from, network_to_host, host_to_network, byteswap, of_memory,
  le_bytes, of_le_bytes,
}
use vrtio.Memory.{null, to, is_null}
use vrtio.Types.{ValidationError, has_tsi, has_tsf, packet_type_value}
use vrtio.Header.{decode_header, has_stream_id_field}
use vrtio.RuntimeData.{
  RuntimeDataPacket, empty_structure, parse, validate_internal, validate_header, validate_structure,
  place_fields, is_data_type, is_valid,
}
use vrtio.Parser.{PacketVariant, data_packet, invalid_packet, parse_packet, dispatch}
use vrtio.Parser
use vrtio.FileWriter.{Written, create}
use vrtio.FileWriter.Faithful.{TakesAll, Holds}
use vrtio.VrtWriter.{VrtFileWriter, ready, write_packet}
use vrtio.VrtWriter.Variants.{Stores, write_packet-Stores}

writing_program : Unit {0}
unfolding Parser.is_valid parse_packet dispatch parse validate_internal validate_header
    validate_structure place_fields is_data_type is_valid read_u32 read_word copy_from
    network_to_host host_to_network byteswap of_memory le_bytes of_le_bytes is_null has_tsi has_tsf
    packet_type_value decode_header has_stream_id_field create
writing_program = tt

abbrev append_all : List ℕ → List ℕ → Written (List ℕ)
append_all file bytes = record { count = some (length bytes); errno = 0; os = file ++ bytes }

abbrev same_bytes : List ℕ → List ℕ
same_bytes file = file

takes_all : TakesAll append_all same_bytes
takes_all = record { count = λ os bytes. refl; adds = λ os bytes. refl }

abbrev packet_bytes : List ℕ
packet_bytes = 0x10 ∷ 0 ∷ 0 ∷ 3 ∷ 0 ∷ 0 ∷ 0 ∷ 42 ∷ 0xDE ∷ 0xAD ∷ 0xBE ∷ 0xEF ∷ []

abbrev data_of : Run RuntimeDataPacket → RuntimeDataPacket → RuntimeDataPacket
data_of (done p) q = p
data_of fault q = q

abbrev writer : VrtFileWriter (List ℕ)
writer = record { raw_writer = create append_all 3 [] packet_bytes; high_level_status = ready }

writer_holds : Holds append_all same_bytes 3 [] writer.raw_writer
unfolding create
writer_holds = record {
  still_open = refl;
  no_error = refl;
  room = refl;
  used = omega arith;
  whole = refl;
  bytes = refl;
}

abbrev unread : RuntimeDataPacket
unread = record {
  buffer = null;
  buffer_size = 0;
  error = ValidationError.none;
  structure = empty_structure;
}

abbrev parsed : RuntimeDataPacket
parsed = data_of (parse little (to packet_bytes) 12) unread

packet_parsed : parse_packet little (to packet_bytes) 12 ≡ done (data_packet parsed)
unfolding writing_program
packet_parsed = refl

write_packet-Stores_example :
    Stores append_all same_bytes 3 takes_all [] writer writer_holds true packet_bytes ready
      (write_packet append_all 3 writer (data_packet parsed))
unfolding writing_program
write_packet-Stores_example =
    write_packet-Stores append_all same_bytes 3 takes_all [] writer writer_holds little
      (to packet_bytes) 12 (omega arith) (data_packet parsed) packet_parsed
