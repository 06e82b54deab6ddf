-- ===== src/FileWriter/RoundTrip.antt =====
-- A file that raw_vrt_file_writer.hpp has written, read by raw_vrt_file_reader.hpp and vrt_file_reader.hpp.
use vrtio.Common.{
  ℕ, ◌*◌, ◌%◌, ◌<◌, ◌≡◌, refl, ◌∙◌, List, [], ◌∷◌, length, drop, true, not, ◌||◌, ◌==◌, ==_iff,
  done, arith,
}
use vrtio.Buffer.{Endian}
use vrtio.FileReader.{open_file, for_each_packet}
use vrtio.FileReader.Steps.{open_file-IsReady}
use vrtio.FileReader.Spans.{not_zero}
use vrtio.FileReader.Packets.{concat, keep, ArePackets, GivesAll, for_each_packet-GivesAll}
use vrtio.VrtReader.{read_next_packet}
use vrtio.VrtReader.Packets.{keep_packet, GivesParsed, for_each_validated_packet-GivesParsed}
use vrtio.Iteration.{for_each_validated_packet}
use vrtio.FileWriter.{Written, Writer, write_all, create, destroy}
use vrtio.FileWriter.Faithful.{TakesAll}
use vrtio.FileWriter.Files.{accepted, answers, write_all-file}

pub whole_words : (n size : ℕ) → size * 4 ≡ n → 0 < size → not (n == 0 || not (n % 4 == 0)) ≡ true
whole_words n size e h =
    let m : n % 4 ≡ 0 = omega (arith, e) in
    rw (not_zero n (omega (arith, e, h)), (==_iff (n % 4) 0).1 m) refl

front_of :
    (contents scratch bytes : List ℕ)
    → contents ≡ bytes
    → drop (open_file contents scratch).current_offset (open_file contents scratch).file.contents
      ≡ bytes
unfolding open_file
front_of contents scratch bytes e = e

module _ (host : Endian) {Os : Type 0} (write : Os → List ℕ → Written Os) (contents : Os → List ℕ)
    (max_packet_words : ℕ) where
  all_accepted :
      (packets : List (List ℕ))
      → ArePackets host max_packet_words packets
      → accepted write contents max_packet_words packets ≡ concat packets
  all_accepted [] all = refl
  all_accepted (p ∷ packets) all =
      rw (whole_words (length p) _ all.0.size all.0.header.positive, all_accepted packets all.1)
        refl

  -- Where the system takes all bytes of each `::write`: packets that are written to an empty file by a
  -- writer that is then destroyed are what readers of that file give, in order. `for_each_packet` of
  -- the raw reader gives the packets, `for_each_validated_packet` what `parse_packet` makes of each. Each
  -- ends at the end of the file, with one round more than there are packets.
  pub write_all-for_each_packet :
      TakesAll write contents
      → (os : Os) (buffer scratch : List ℕ) (packets : List (List ℕ)) (fuel : ℕ) → contents os ≡ []
      → length buffer ≡ max_packet_words * 4
      → length scratch ≡ max_packet_words * 4
      → ArePackets host max_packet_words packets
      → length packets < fuel
      → (written gone : Writer write max_packet_words) × (write_all write max_packet_words
            (create write max_packet_words os buffer)
            packets
          ≡ done (answers write contents max_packet_words packets, written))
        × (destroy write max_packet_words written ≡ done gone)
        × (let reader = open_file (contents gone.os) scratch in
            GivesAll host max_packet_words reader 0 [] packets
              (for_each_packet host max_packet_words keep fuel 0 [] reader)
            × GivesParsed host max_packet_words reader 0 [] packets (
                for_each_validated_packet
                  (read_next_packet host max_packet_words)
                  keep_packet
                  fuel
                  []
                  reader))
  write_all-for_each_packet takes os buffer scratch packets fuel empty room room₂ all enough =
      let w = write_all-file write contents max_packet_words takes os buffer packets empty room in
      let reader = open_file (contents w.1.os) scratch in
      let ready = open_file-IsReady max_packet_words (contents w.1.os) scratch room₂ in
      let front = w.4 ∙ all_accepted packets all in
      (
        w.0,
        w.1,
        w.2,
        w.3,
        (
          for_each_packet-GivesAll host max_packet_words packets fuel 0 [] reader ready all
              (front_of (contents w.1.os) scratch _ front) enough,
          for_each_validated_packet-GivesParsed host max_packet_words packets fuel reader ready all
              (front_of (contents w.1.os) scratch _ front) enough,
        ),
      )
