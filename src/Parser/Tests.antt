-- ===== src/Parser/Tests.antt =====
-- Packets of three kinds through the dispatch of the parser.
use vrtio.Common.{if◌then◌else◌, ℕ, ◌≡◌, refl, List, [], ◌∷◌, done, arith}
use vrtio.Buffer.{
  little, read_u32, read_word, copy_from, network_to_host, host_to_network, byteswap, of_memory,
  le_bytes, of_le_bytes,
}
use vrtio.Memory.{to}
use vrtio.Types.{PacketType, unsupported_field, packet_type_value}
use vrtio.Header.{decode_header}
use vrtio.Parser.{PacketVariant, rejected, dispatch, parse_packet, packet_type, is_context_packet}
use vrtio.Parser.Kinds.{packet_type-parse_packet}
use vrtio.Buffer.Access.{word_at}
use vrtio.Parser.Totality.{IsSound, parse_packet_total}

parser_program : Unit {0}
unfolding parse_packet dispatch read_u32 read_word copy_from network_to_host host_to_network
    byteswap of_memory le_bytes of_le_bytes packet_type_value decode_header
parser_program = tt

-- A command packet, which no parser takes.
abbrev command_bytes : List ℕ
command_bytes = 0x60 ∷ 0 ∷ 0 ∷ 2 ∷ 0 ∷ 0 ∷ 0 ∷ 1 ∷ []

command_rejected :
    parse_packet little (to command_bytes) 8
    ≡ done (rejected little (to command_bytes) 8 unsupported_field (decode_header 0x6000_0002))
unfolding parser_program
command_rejected = refl

parse_packet_total_example :
    (v : PacketVariant) × (parse_packet little (to command_bytes) 8 ≡ done v)
    × IsSound little (to command_bytes) 8 v
parse_packet_total_example = parse_packet_total little (to command_bytes) 8 (omega arith)

packet_type-parse_packet_example :
    packet_type (rejected little (to command_bytes) 8 unsupported_field (decode_header 0x6000_0002))
    ≡ (if is_context_packet
          (rejected little (to command_bytes) 8 unsupported_field (decode_header 0x6000_0002))
        then PacketType.context
        else (decode_header (word_at little 4 command_bytes 0)).type)
packet_type-parse_packet_example =
    packet_type-parse_packet little (to command_bytes) 8 (omega arith)
      (rejected little (to command_bytes) 8 unsupported_field (decode_header 0x6000_0002))
      command_rejected refl
