-- ===== src/FileReader/Tests.antt =====
-- A file of a command packet of two words and the first word of a packet of three.
use vrtio.Common.{ℕ, ◌≡◌, refl, List, [], ◌∷◌, ◌++◌, Run, done, arith}
use mathlib.Core.Option.{Option, none, some}
use vrtio.Buffer.{
  little, read_u32, read_word, copy_from, copy_to, network_to_host, host_to_network, byteswap,
  of_memory, le_bytes, of_le_bytes,
}
use vrtio.Header.{decode_header, is_valid_packet_type}
use vrtio.Types.{packet_type_value}
use vrtio.FileReader.{
  RawVrtFileReader, open_file, rewind, fread, fseek, read_body, read_checked, read_next,
  read_next_span, for_each_packet, is_valid, is_eof,
}
use vrtio.FileReader.Steps.{open_file-IsReady}
use vrtio.FileReader.Outcome.{ReadsOf}
use vrtio.FileReader.Next.{read_next-Reads}
use vrtio.FileReader.Loop.{Ends, for_each_packet-Ends}
use vrtio.FileReader.Packets.{keep}

reader_program : Unit {0}
unfolding open_file rewind fread fseek read_body read_checked read_next read_next_span
    for_each_packet is_valid is_eof read_u32 read_word copy_from copy_to network_to_host
    host_to_network byteswap of_memory le_bytes of_le_bytes decode_header is_valid_packet_type
    packet_type_value
reader_program = tt

abbrev pub command_bytes : List ℕ
command_bytes = 0x60 ∷ 0 ∷ 0 ∷ 2 ∷ 0 ∷ 0 ∷ 0 ∷ 1 ∷ []

abbrev cut_file : List ℕ
cut_file = command_bytes ++ (0x60 ∷ 0 ∷ 0 ∷ 3 ∷ [])

abbrev scratch : List ℕ
scratch = 9 ∷ 9 ∷ 9 ∷ 9 ∷ 9 ∷ 9 ∷ 9 ∷ 9 ∷ 9 ∷ 9 ∷ 9 ∷ 9 ∷ []

abbrev count_of : Run (Option (ℕ × List (List ℕ) × RawVrtFileReader)) → Option (ℕ × List (List ℕ))
count_of (done (some (n, kept, r))) = some (n, kept)
count_of _ = none

one_packet :
    count_of (for_each_packet little 3 keep 5 0 [] (open_file cut_file scratch))
    ≡ some (1, command_bytes ∷ [])
unfolding reader_program
one_packet = refl

read_next-Reads_example :
    ReadsOf little 3
      (open_file cut_file scratch)
      scratch
      12
      (read_next little 3 (open_file cut_file scratch) scratch 12)
read_next-Reads_example =
    read_next-Reads little 3 (open_file cut_file scratch) scratch 12 (omega arith)
      (open_file-IsReady 3 cut_file scratch refl)

for_each_packet-Ends_example :
    Ends little 3 keep
      (open_file cut_file scratch)
      0
      (for_each_packet little 3 keep 13 0 [] (open_file cut_file scratch))
unfolding open_file
for_each_packet-Ends_example =
    for_each_packet-Ends little 3 keep 13 0 [] (open_file cut_file scratch)
      (open_file-IsReady 3 cut_file scratch refl) (omega arith)
