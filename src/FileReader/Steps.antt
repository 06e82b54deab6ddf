-- ===== src/FileReader/Steps.antt =====
-- One call of `read_next_span` of raw_vrt_file_reader.hpp on a file that is not changed while it is read.
use vrtio.Common.{
  ℕ, suc, ◌+◌, ◌-◌, ◌*◌, ◌≤◌, ◌<◌, ◌≡◌, refl, ap, sym, ◌∙◌, subst, List, [], ◌++◌, length, take,
  drop, slice, splice, length-splice, length-slice, take-append, take-splice, slice-splice_self,
  true, ltb, Bool-cases, inl, inr, le→leb, ==_iff, ltb→le, done, arith,
}
use vrtio.Buffer.{Endian, copy_to}
use vrtio.Buffer.Regions.{take-add}
use mathlib.Core.List.{append-nil}
use vrtio.Types.{ValidationError}
use vrtio.Header.{decode_header, is_valid_packet_type}
use vrtio.FileReader.{open_file, File, fread, ReadResult, RawVrtFileReader, read_as, read_body}

copy_to-splice :
    (buffer : List ℕ) (offset : ℕ) (bytes : List ℕ)
    → offset + length bytes ≤ length buffer
    → copy_to buffer offset bytes ≡ done (splice buffer offset bytes)
unfolding copy_to
copy_to-splice buffer offset bytes fits = rw (le→leb _ _ fits) refl

-- A header at the front of a buffer, and the rest behind it.
front_lem :
    (buffer header rest : List ℕ)
    → length header ≡ 4
    → 4 ≤ length buffer
    → take (4 + length rest) (splice (splice buffer 0 header) 4 rest) ≡ header ++ rest
front_lem buffer header rest four room =
    let with_header = splice buffer 0 header in
    let size : length with_header ≡ length buffer = length-splice buffer 0 header (omega arith) in
    let fits : 4 ≤ length with_header = omega arith in
    let front : take 4 with_header ≡ header =
      subst (λ (n : ℕ). take n with_header ≡ header) four (take-append header _) in
    take-add 4 (length rest) (splice with_header 4 rest)
    ∙ ap (λ ys. ys ++ slice (splice with_header 4 rest) 4 (length rest))
        (take-splice with_header 4 rest fits ∙ front)
    ∙ ap (λ ys. header ++ ys) (slice-splice_self with_header 4 rest fits)

-- Nothing but the header.
alone_lem :
    (header others : List ℕ) (rest : ℕ → List ℕ) (k n : ℕ)
    → k ≡ length header
    → n ≡ 0
    → rest 0 ≡ []
    → take k (header ++ others) ≡ header ++ rest n
alone_lem header others rest k n all none empty =
    ap (λ (i : ℕ). take i (header ++ others)) all
    ∙ take-append header others
    ∙ sym (ap (λ ys. header ++ ys) (ap rest none ∙ empty) ∙ append-nil header)

-- The reader's members fit each other and the file.
pub record IsReady (max_packet_words : ℕ) (r : RawVrtFileReader) : Type 0 where
  pub placed : r.file.position ≡ r.current_offset
  pub sized : r.file_size ≡ length r.file.contents
  pub inside : r.current_offset ≤ r.file_size
  pub room : length r.scratch_buffer ≡ max_packet_words * 4

-- A reader that was just opened.
pub open_file-IsReady :
    (max_packet_words : ℕ) (contents scratch : List ℕ)
    → length scratch ≡ max_packet_words * 4
    → IsReady max_packet_words (open_file contents scratch)
unfolding open_file
open_file-IsReady max_packet_words contents scratch room = record {
  placed = refl;
  sized = refl;
  inside = omega arith;
  room = room;
}

module _ (host : Endian) (max_packet_words : ℕ) where
  -- A header word that `read_next` takes.
  pub record IsHeader (word : ℕ) : Type 0 where
    pub valid_type : is_valid_packet_type (decode_header word).type ≡ true
    pub positive : 0 < (decode_header word).size_words
    pub small : (decode_header word).size_words ≤ max_packet_words

  -- What follows the checks: the buffer filled, and the reader behind the packet.
  pub record FillsBuffer (r : RawVrtFileReader) (header_raw buffer : List ℕ) (result : ReadResult)
      : Type 0 where
    pub filled : List ℕ
    pub file : File
    pub same : file.contents ≡ r.file.contents
    pub position : file.position ≡ r.file.position + (result.packet_size_bytes - 4)
    pub size : length filled ≡ length buffer
    pub holds :
        take result.packet_size_bytes filled
        ≡ header_raw ++ slice r.file.contents r.file.position (result.packet_size_bytes - 4)
    pub returns :
        read_body host max_packet_words r header_raw buffer result
        ≡ done (
            read_as
              (record result { error = ValidationError.none })
              filled
              (record r {
                file = file;
                current_offset = r.current_offset + result.packet_size_bytes;
                packets_read = suc r.packets_read;
              }))

  pub read_body-FillsBuffer :
      (r : RawVrtFileReader) (header_raw buffer : List ℕ) (result : ReadResult)
      → length header_raw ≡ 4
      → 4 ≤ result.packet_size_bytes
      → result.packet_size_bytes ≤ length buffer
      → r.file.position + (result.packet_size_bytes - 4) ≤ length r.file.contents
      → FillsBuffer r header_raw buffer result
  unfolding read_body fread
  read_body-FillsBuffer r header_raw buffer result four more fits there =
      let n = result.packet_size_bytes - 4 in
      let rest = slice r.file.contents r.file.position n in
      let got : length rest ≡ n = length-slice r.file.contents r.file.position n there in
      let with_header = splice buffer 0 header_raw in
      let size₁ : length with_header ≡ length buffer =
        length-splice buffer 0 header_raw (omega arith) in
      let fits₁ : 4 + length rest ≤ length with_header = omega arith in
      let front = front_lem buffer header_raw rest four (omega arith) in
      let whole : 4 + length rest ≡ result.packet_size_bytes = omega arith in
      elim (Bool-cases (ltb 0 n)) [
        | inl e ↦ record {
          filled = splice with_header 4 rest;
          file = record r.file { position = r.file.position + length rest };
          same = refl;
          position = omega arith;
          size = length-splice with_header 4 rest fits₁ ∙ size₁;
          holds =
              subst (λ (k : ℕ). take k (splice with_header 4 rest) ≡ header_raw ++ rest) whole
                front;
          returns =
              rw
                (
                  copy_to-splice buffer 0 header_raw (omega arith),
                  e,
                  copy_to-splice with_header 4 rest fits₁,
                  (==_iff (length rest) n).1 got,
                )
                refl;
        }
        | inr e ↦ record {
          filled = with_header;
          file = r.file;
          same = refl;
          position = omega (arith, ltb→le 0 n e);
          size = size₁;
          holds =
              alone_lem header_raw (drop (0 + length header_raw) buffer)
                (slice r.file.contents r.file.position) result.packet_size_bytes n
                (omega (arith, ltb→le 0 n e)) (omega (arith, ltb→le 0 n e)) refl;
          returns = rw (copy_to-splice buffer 0 header_raw (omega arith), e) refl;
        }
      ]
