-- ===== src/VrtReader/Tests.antt =====
-- A file of the header word of a packet of three words.
use vrtio.Common.{ℕ, ◌≡◌, refl, Bool, true, List, [], ◌∷◌, done, arith}
use mathlib.Core.Option.{none}
use vrtio.Buffer.{
  little, network_to_host, host_to_network, byteswap, of_memory, le_bytes, of_le_bytes,
}
use vrtio.Types.{packet_type_value}
use vrtio.Header.{decode_header, is_valid_packet_type}
use vrtio.FileReader.{open_file}
use vrtio.FileReader.Steps.{open_file-IsReady}
use vrtio.FileReader.Spans.{here}
use vrtio.VrtReader.{read_next_packet}
use vrtio.VrtReader.Truncated.{IsTruncated, for_each_data_packet-never_ends}
use vrtio.Iteration.{for_each_data_packet, for_each_context_packet, for_each_packet_with_stream_id}

abbrev cut_file : List ℕ
cut_file = 0x60 ∷ 0 ∷ 0 ∷ 3 ∷ []

abbrev scratch : List ℕ
scratch = 9 ∷ 9 ∷ 9 ∷ 9 ∷ 9 ∷ 9 ∷ 9 ∷ 9 ∷ 9 ∷ 9 ∷ 9 ∷ 9 ∷ []

cut_word :
    ((decode_header (here little 3 (open_file cut_file scratch))).size_words ≡ 3)
    × (is_valid_packet_type (decode_header (here little 3 (open_file cut_file scratch))).type
        ≡ true)
unfolding open_file network_to_host host_to_network byteswap of_memory le_bytes of_le_bytes
    decode_header is_valid_packet_type packet_type_value
cut_word = (refl, refl)

cut_reader : IsTruncated little 3 (open_file cut_file scratch)
unfolding open_file
cut_reader = record {
  ready = open_file-IsReady 3 cut_file scratch refl;
  there = omega arith;
  known = record {
    valid_type = cut_word.1;
    positive = omega (arith, cut_word.0);
    small = omega (arith, cut_word.0);
  };
  short = omega (arith, cut_word.0);
}

abbrev stop {ℓ} : {A : Type ℓ} → ℕ → A → Bool × ℕ
stop n a = (true, n)

for_each_data_packet-never_ends_example :
    (for_each_data_packet (read_next_packet little 3) stop 1000 0 (open_file cut_file scratch)
      ≡ done none)
    × (for_each_context_packet (read_next_packet little 3) stop 1000 0 (open_file cut_file scratch)
        ≡ done none)
    × (for_each_packet_with_stream_id
          (read_next_packet little 3)
          little
          7
          stop
          1000
          0
          (open_file cut_file scratch)
        ≡ done none)
for_each_data_packet-never_ends_example =
    for_each_data_packet-never_ends little 3 stop stop stop 7 1000 0 (open_file cut_file scratch)
      cut_reader
