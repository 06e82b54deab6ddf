-- ===== src/VrtReader/Packets.antt =====
-- iteration_helpers.hpp over a VRTFileReader, on a file that is one packet after the other.
use vrtio.Common.{
  ℕ, zero, suc, ◌+◌, ◌<◌, ◌≡◌, ◌==◌, ap, ◌∙◌, List, [], ◌∷◌, ◌++◌, length, drop, Bool, true, false,
  sym, Run, done, arith,
}
use mathlib.Core.Option.{Option, some}
use mathlib.Core.List.{append-nil, append_assoc}
use vrtio.Buffer.{Endian}
use vrtio.Memory.{to}
use vrtio.Parser.{PacketVariant, parse_packet}
use vrtio.Parser.Totality.{parse_packet_total}
use vrtio.FileReader.{RawVrtFileReader, is_eof}
use vrtio.FileReader.Steps.{IsReady}
use vrtio.FileReader.Spans.{not_zero, read_next_span-Spans}
use vrtio.FileReader.Packets.{Answer, answer, concat, ArePackets, packet_here, end_here}
use vrtio.VrtReader.{read_next_packet}
use vrtio.Iteration.{for_each, for_each_validated_packet}

-- The callback that keeps every packet it is given and always goes on.
abbrev pub keep_packet : List PacketVariant → PacketVariant → Bool × List PacketVariant
keep_packet kept pkt = (true, kept ++ (pkt ∷ []))

module _ (host : Endian) (max_packet_words : ℕ) where
  -- Each packet is what the parser makes of the bytes.
  abbrev pub Parses : List (List ℕ) → List PacketVariant → Type 0
  Parses [] [] = Unit {0}
  Parses (p ∷ ps) (v ∷ vs) = (parse_packet host (to p) (length p) ≡ done v) × Parses ps vs
  Parses _ _ = false ≡ true

  -- The loop has given a parsed packet for each packet of the file and stands at its end.
  pub record GivesParsed (r : RawVrtFileReader) (count : ℕ) (kept : List PacketVariant)
      (packets : List (List ℕ)) (run : Run (Option (Answer PacketVariant))) : Type 0 where
    pub given : List PacketVariant
    pub parses : Parses packets given
    pub after : RawVrtFileReader
    pub returns : run ≡ done (some (count + length packets, kept ++ given, after))
    pub at_end : is_eof after.last_error ≡ true
    pub whole : after.current_offset ≡ r.file_size

  rounds-GivesParsed :
      (packets : List (List ℕ)) (fuel count : ℕ) (kept : List PacketVariant) (r : RawVrtFileReader)
      → IsReady max_packet_words r
      → ArePackets host max_packet_words packets
      → drop r.current_offset r.file.contents ≡ concat packets
      → length packets < fuel
      → GivesParsed r count kept packets (
          for_each
            (read_next_packet host max_packet_words)
            (λ pkt. done (some pkt))
            keep_packet
            fuel
            count
            kept
            r)
  unfolding for_each read_next_packet
  rounds-GivesParsed packets zero count kept r ready all front enough =
      absurd (omega (arith, enough))
  rounds-GivesParsed [] (suc fuel) count kept r ready all front enough =
      let s = read_next_span-Spans host max_packet_words r ready in
      let e = end_here host max_packet_words r ready front s in
      rw (s.returns, e.0, e.1)
        (record {
          given = [];
          parses = tt;
          after = s.after;
          returns =
              answer count (count + 0) kept (kept ++ []) s.after (omega arith)
                (sym (append-nil kept));
          at_end = e.1;
          whole = e.2;
        })
  rounds-GivesParsed (p ∷ packets) (suc fuel) count kept r ready all front enough =
      let s = read_next_span-Spans host max_packet_words r ready in
      let h = packet_here host max_packet_words r ready p (concat packets) front all.0 s in
      let some_bytes : (length p == 0) ≡ false =
        not_zero (length p) (omega (arith, all.0.size, all.0.header.positive)) in
      let size : s.after.file_size ≡ r.file_size =
        s.ready.sized ∙ ap length s.same ∙ sym ready.sized in
      let v = parse_packet_total host (to p) (length p) (omega arith) in
      let g =
        rounds-GivesParsed packets fuel (suc count) (kept ++ (v.0 ∷ [])) s.after s.ready all.1 h.3
          (omega (arith, enough)) in
      rw (s.returns, h.0, some_bytes, v.1)
        (record {
          given = v.0 ∷ g.given;
          parses = (v.1, g.parses);
          after = g.after;
          returns =
              g.returns
              ∙ answer _ _ _ _ g.after (omega arith) (append_assoc kept (v.0 ∷ []) g.given);
          at_end = g.at_end;
          whole = g.whole ∙ size;
        })

  -- On a reader whose members fit the file and in front of which the file is one packet after the other,
  -- `for_each_validated_packet` gives a callback that goes on what `parse_packet` makes of each packet, in
  -- order, counts them and ends at the end of the file. One round more than there are packets is enough.
  pub for_each_validated_packet-GivesParsed :
      (packets : List (List ℕ)) (fuel : ℕ) (r : RawVrtFileReader)
      → IsReady max_packet_words r
      → ArePackets host max_packet_words packets
      → drop r.current_offset r.file.contents ≡ concat packets
      → length packets < fuel
      → GivesParsed r 0 [] packets
          (for_each_validated_packet (read_next_packet host max_packet_words) keep_packet fuel [] r)
  unfolding for_each_validated_packet
  for_each_validated_packet-GivesParsed packets fuel r ready all front enough =
      rounds-GivesParsed packets fuel 0 [] r ready all front enough
