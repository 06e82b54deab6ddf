-- ===== src/FileWriter/Tests.antt =====
-- A writer over a system that appends what it is given.
use vrtio.Common.{ℕ, ◌≡◌, refl, true, false, List, [], ◌∷◌, ◌++◌, length, done, arith}
use mathlib.Core.Option.{some}
use vrtio.Buffer.{
  little, network_to_host, host_to_network, byteswap, of_memory, le_bytes, of_le_bytes,
}
use vrtio.Buffer.Access.{word_at}
use vrtio.Types.{packet_type_value}
use vrtio.Header.{decode_header, is_valid_packet_type}
use vrtio.FileReader.{open_file, for_each_packet}
use vrtio.FileReader.Packets.{keep, IsPacket, GivesAll}
use vrtio.VrtReader.{read_next_packet}
use vrtio.VrtReader.Packets.{keep_packet, GivesParsed}
use vrtio.Iteration.{for_each_validated_packet}
use vrtio.FileWriter.{Written, Writer, create, destroy, write_all}
use vrtio.FileWriter.Faithful.{TakesAll}
use vrtio.FileWriter.Files.{write_all-file}
use vrtio.FileWriter.RoundTrip.{write_all-for_each_packet}

abbrev append_all : List ℕ → List ℕ → Written (List ℕ)
append_all file bytes = record { count = some (length bytes); errno = 0; os = file ++ bytes }

abbrev same_bytes : List ℕ → List ℕ
same_bytes file = file

takes_all : TakesAll append_all same_bytes
takes_all = record { count = λ os bytes. refl; adds = λ os bytes. refl }

abbrev command_bytes : List ℕ
command_bytes = 0x60 ∷ 0 ∷ 0 ∷ 2 ∷ 0 ∷ 0 ∷ 0 ∷ 1 ∷ []

abbrev scratch : List ℕ
scratch = 9 ∷ 9 ∷ 9 ∷ 9 ∷ 9 ∷ 9 ∷ 9 ∷ 9 ∷ 9 ∷ 9 ∷ 9 ∷ 9 ∷ []

-- Three bytes are not a number of words.
abbrev calls : List (List ℕ)
calls = command_bytes ∷ (1 ∷ 2 ∷ 3 ∷ []) ∷ command_bytes ∷ []

write_all-file_example :
    (written gone : Writer append_all 3) × (write_all append_all 3
        (create append_all 3 [] scratch)
        calls
      ≡ done (true ∷ false ∷ true ∷ [], written))
    × (destroy append_all 3 written ≡ done gone)
    × (gone.os ≡ command_bytes ++ command_bytes)
write_all-file_example = write_all-file append_all same_bytes 3 takes_all [] scratch calls refl refl

command_word :
    ((decode_header (word_at little 4 command_bytes 0)).size_words ≡ 2)
    × (is_valid_packet_type (decode_header (word_at little 4 command_bytes 0)).type ≡ true)
unfolding network_to_host host_to_network byteswap of_memory le_bytes of_le_bytes decode_header
    is_valid_packet_type packet_type_value
command_word = (refl, refl)

command-IsPacket : IsPacket little 3 command_bytes
command-IsPacket = record {
  header = record {
    valid_type = command_word.1;
    positive = omega (arith, command_word.0);
    small = omega (arith, command_word.0);
  };
  size = omega (arith, command_word.0);
}

abbrev two_packets : List (List ℕ)
two_packets = command_bytes ∷ command_bytes ∷ []

write_all-for_each_packet_example :
    (written gone : Writer append_all 3) × (write_all append_all 3
        (create append_all 3 [] scratch)
        two_packets
      ≡ done (true ∷ true ∷ [], written))
    × (destroy append_all 3 written ≡ done gone)
    × (GivesAll little 3
          (open_file gone.os scratch)
          0
          []
          two_packets
          (for_each_packet little 3 keep 3 0 [] (open_file gone.os scratch))
        × GivesParsed little 3 (open_file gone.os scratch) 0 [] two_packets (
            for_each_validated_packet
              (read_next_packet little 3)
              keep_packet
              3
              []
              (open_file gone.os scratch)))
write_all-for_each_packet_example =
    write_all-for_each_packet little append_all same_bytes 3 takes_all [] scratch scratch
      two_packets 3 refl refl refl (command-IsPacket, (command-IsPacket, tt)) (omega arith)
