-- ===== src/FileReader/Packets.antt =====
-- raw_vrt_file_reader.hpp on a file that is one packet after the other.
use vrtio.Common.{
  ℕ, zero, suc, ◌+◌, ◌*◌, ◌≤◌, ◌<◌, ◌≡◌, refl, ap, sym, ◌∙◌, subst, List, [], ◌∷◌, ◌++◌, length,
  take, drop, slice, Bool, true, false, ◌==◌, length-append, length-drop, take-append, drop-append,
  drop-add, Run, done, arith,
}
use mathlib.Core.Option.{Option, some}
use mathlib.Core.List.{append-nil, append_assoc}
use vrtio.Buffer.{Endian, network_to_host, of_memory}
use vrtio.Buffer.Access.{word_at}
use vrtio.Header.{decode_header}
use vrtio.FileReader.{ReadResult, RawVrtFileReader, for_each_packet, is_eof}
use vrtio.FileReader.Steps.{IsReady, IsHeader}
use vrtio.FileReader.Spans.{
  Spans, not_zero, read_next_span-Spans, here, bytes_here, ended, delivered, refused, truncated,
}

abbrev pub concat : List (List ℕ) → List ℕ
concat [] = []
concat (p ∷ ps) = p ++ concat ps

take_within : (n : ℕ) (xs ys : List ℕ) → n ≤ length xs → take n (xs ++ ys) ≡ take n xs
take_within zero xs ys h = refl
take_within (suc n) [] ys h = absurd (omega (arith, h))
take_within (suc n) (x ∷ xs) ys h = ap (λ zs. x ∷ zs) (take_within n xs ys (omega (arith, h)))

-- The answer of a loop that has come to an end.
abbrev pub Answer : Type 0 → Type 0
Answer A = ℕ × List A × RawVrtFileReader

pub answer :
    {A : Type 0} (n m : ℕ) (kept all : List A) (r : RawVrtFileReader)
    → n ≡ m
    → kept ≡ all
    → ◌≡◌ {A = Run (Option (Answer A))} (done (some (n, kept, r))) (done (some (m, all, r)))
answer n m kept all r e f = cc (e, f)

-- The callback that keeps every span it is given and always goes on.
abbrev pub keep : List (List ℕ) → List ℕ → ReadResult → Bool × List (List ℕ)
keep kept span result = (true, kept ++ (span ∷ []))

module _ (host : Endian) (max_packet_words : ℕ) where
  -- The header word of the bytes is one that the reader takes, and says how many there are.
  pub record IsPacket (bytes : List ℕ) : Type 0 where
    pub header : IsHeader host max_packet_words (word_at host 4 bytes 0)
    pub size : (decode_header (word_at host 4 bytes 0)).size_words * 4 ≡ length bytes

  abbrev pub ArePackets : List (List ℕ) → Type 0
  ArePackets [] = Unit {0}
  ArePackets (p ∷ ps) = IsPacket p × ArePackets ps

  -- The loop has given all packets and stands at the end of the file.
  pub record GivesAll (r : RawVrtFileReader) (processed : ℕ) (kept packets : List (List ℕ))
      (run : Run (Option (Answer (List ℕ)))) : Type 0 where
    pub after : RawVrtFileReader
    pub returns : run ≡ done (some (processed + length packets, kept ++ packets, after))
    pub at_end : is_eof after.last_error ≡ true
    pub whole : after.current_offset ≡ r.file_size
    pub counted : after.packets_read ≡ r.packets_read + length packets

  -- What lies in front of the reader when a packet follows.
  module _ (r : RawVrtFileReader) (ready : IsReady max_packet_words r) (p others : List ℕ)
      (front : drop r.current_offset r.file.contents ≡ p ++ others) (packet : IsPacket p) where
    left : r.file_size ≡ r.current_offset + length p + length others
    left = omega (
      arith,
      ready.sized,
      ready.inside,
      length-drop r.current_offset r.file.contents,
      ap length front,
      length-append p others,
    )

    here_is : here host max_packet_words r ≡ word_at host 4 p 0
    here_is =
        ap (λ bs. network_to_host host 4 (of_memory host bs))
          (ap (take 4) front
            ∙ take_within 4 p others (omega (arith, packet.size, packet.header.positive)))

    pub packet_here :
        (s : Spans host max_packet_words r)
        → (s.span ≡ p)
          × (s.after.current_offset ≡ r.current_offset + length p)
          × (s.after.packets_read ≡ suc r.packets_read)
          × (drop s.after.current_offset s.after.file.contents ≡ others)
    packet_here s =
        let size : bytes_here host max_packet_words r ≡ length p =
          ap (λ (w : ℕ). (decode_header w).size_words * 4) here_is ∙ packet.size in
        let good : IsHeader host max_packet_words (here host max_packet_words r) =
          subst (IsHeader host max_packet_words) (sym here_is) packet.header in
        elim s.outcome [
          | ended short empty eof stays count ↦
              absurd (omega (arith, left, short, packet.size, packet.header.positive))
          | refused there bad empty eof moves count ↦ absurd (bad good)
          | truncated there known short empty eof error stays count ↦
              absurd (omega (arith, left, size, short))
          | delivered known inside gives moves count ↦ (
            gives
                ∙ ap (slice r.file.contents r.current_offset) size
                ∙ ap (take (length p)) front
                ∙ take-append p others,
            omega (arith, moves, size),
            count,
            ap (λ (k : ℕ). drop k s.after.file.contents)
                  (moves ∙ ap (λ (k : ℕ). r.current_offset + k) size)
                ∙ ap (drop (r.current_offset + length p)) s.same
                ∙ drop-add r.current_offset (length p) r.file.contents
                ∙ ap (drop (length p)) front
                ∙ drop-append p others,
          )
        ]

  -- What a read finds behind the last packet.
  pub end_here :
      (r : RawVrtFileReader)
      → IsReady max_packet_words r
      → drop r.current_offset r.file.contents ≡ []
      → (s : Spans host max_packet_words r)
      → (s.span ≡ [])
        × (is_eof s.after.last_error ≡ true)
        × (s.after.current_offset ≡ r.file_size)
        × (s.after.packets_read ≡ r.packets_read)
  end_here r ready front s =
      let left : r.file_size ≡ r.current_offset = omega (
        arith,
        ready.sized,
        ready.inside,
        length-drop r.current_offset r.file.contents,
        ap length front,
      ) in
      elim s.outcome [
        | ended short empty eof stays count ↦ (empty, eof, omega (arith, stays, left), count)
        | refused there bad empty eof moves count ↦ absurd (omega (arith, there, left))
        | truncated there known short empty eof error stays count ↦
            absurd (omega (arith, there, left))
        | delivered known inside gives moves count ↦
            absurd (omega (arith, inside, left, known.positive))
      ]

  -- On a reader whose members fit the file and in front of which the file is one packet after the other,
  -- `for_each_packet` gives its callback exactly these packets, in order, when that keeps them and goes on;
  -- it counts them, ends when the reader reports the end of the file, and leaves no byte unread. One round
  -- more than there are packets is enough.
  pub for_each_packet-GivesAll :
      (packets : List (List ℕ)) (fuel processed : ℕ) (kept : List (List ℕ)) (r : RawVrtFileReader)
      → IsReady max_packet_words r
      → ArePackets packets
      → drop r.current_offset r.file.contents ≡ concat packets
      → length packets < fuel
      → GivesAll r processed kept packets
          (for_each_packet host max_packet_words keep fuel processed kept r)
  unfolding for_each_packet
  for_each_packet-GivesAll packets zero processed kept r ready all front enough =
      absurd (omega (arith, enough))
  for_each_packet-GivesAll [] (suc fuel) processed kept r ready all front enough =
      let s = read_next_span-Spans host max_packet_words r ready in
      let e = end_here r ready front s in
      rw (s.returns, e.0)
        (record {
          after = s.after;
          returns =
              answer processed (processed + 0) kept (kept ++ []) s.after (omega arith)
                (sym (append-nil kept));
          at_end = e.1;
          whole = e.2;
          counted = omega (arith, e.3);
        })
  for_each_packet-GivesAll (p ∷ packets) (suc fuel) processed kept r ready all front enough =
      let s = read_next_span-Spans host max_packet_words r ready in
      let h = packet_here r ready p (concat packets) front all.0 s in
      let some_bytes : (length p == 0) ≡ false =
        not_zero (length p) (omega (arith, all.0.size, all.0.header.positive)) in
      let size : s.after.file_size ≡ r.file_size =
        s.ready.sized ∙ ap length s.same ∙ sym ready.sized in
      let g =
        for_each_packet-GivesAll packets fuel (suc processed) (kept ++ (p ∷ [])) s.after s.ready
          all.1 h.3 (omega (arith, enough)) in
      rw (s.returns, h.0, some_bytes)
        (record {
          after = g.after;
          returns =
              g.returns ∙ answer _ _ _ _ g.after (omega arith) (append_assoc kept (p ∷ []) packets);
          at_end = g.at_end;
          whole = g.whole ∙ size;
          counted = omega (arith, g.counted, h.2);
        })
