-- ===== src/FileReader/Next.antt =====
-- What `read_next` of raw_vrt_file_reader.hpp finds and does, by the header word at its offset.
use vrtio.Common.{
  ℕ, ◌+◌, ◌-◌, ◌≤◌, ◌<◌, ◌≡◌, refl, ap, sym, ◌∙◌, subst, List, length, slice, length-slice, ltb,
  leb, Bool-cases, inl, inr, ==_iff, ltb→le, ltb→lt, leb→le, done, arith,
}
use native.Mathlib.Nat.{add-zero}
use vrtio.Buffer.{Endian, network_to_host, of_memory}
use vrtio.Buffer.Access.{word_at, read_u32-done}
use vrtio.Buffer.Regions.{slice-slice}
use vrtio.Types.{buffer_too_small}
use vrtio.FileReader.{no_result, fread, RawVrtFileReader, read_as, read_checked, read_next, is_eof}
use vrtio.FileReader.Outcome.{ReadsOf, ended}
use vrtio.FileReader.Steps.{IsReady}
use vrtio.FileReader.Checked.{checked-Reads}

module _ (host : Endian) (max_packet_words : ℕ) (r : RawVrtFileReader) (buffer : List ℕ)
    (buffer_size : ℕ) (given : buffer_size ≤ length buffer)
    (ready : IsReady max_packet_words r) where
  ended-Reads :
      r.file_size < r.current_offset + 4
      → ReadsOf host max_packet_words r buffer buffer_size (
          done (
            read_as
              (record no_result { file_offset = r.current_offset; error = buffer_too_small })
              buffer
              r))
  unfolding is_eof
  ended-Reads short = record {
    got =
        read_as (record no_result { file_offset = r.current_offset; error = buffer_too_small })
          buffer r;
    returns = refl;
    leaves = record {
      same = refl;
      same_size = refl;
      placed = ready.placed;
      inside = ready.inside;
      room = refl;
    };
    outcome = ended short refl refl refl;
  }

  -- The word that was read is the one at the offset, and the checks follow.
  behind-Reads :
      r.current_offset + 4 ≤ r.file_size
      → (position : ℕ) → position ≡ r.current_offset
      → length (slice r.file.contents position 4) ≡ 4
      → ReadsOf host max_packet_words r buffer buffer_size (
          read_checked host max_packet_words
            (record r {
              file = record r.file {
                position = position + length (slice r.file.contents position 4);
              };
            })
            (slice r.file.contents position 4)
            buffer
            buffer_size
            (record no_result { file_offset = r.current_offset })
            (word_at host 4 (slice r.file.contents position 4) 0))
  behind-Reads there position same got =
      let behind = record r {
        file = record r.file { position = position + length (slice r.file.contents position 4) };
      } in
      let result = record no_result { file_offset = r.current_offset } in
      let read =
        slice-slice r.current_offset 4 0 4 r.file.contents (omega arith)
        ∙ ap (λ (k : ℕ). slice r.file.contents k 4) (add-zero r.current_offset) in
      let here : word_at host 4 (slice r.file.contents r.current_offset 4) 0
          ≡ word_at host 4 r.file.contents r.current_offset =
        ap (λ bs. network_to_host host 4 (of_memory host bs)) read in
      subst
        (λ (k : ℕ). ReadsOf host max_packet_words r buffer buffer_size (
          read_checked host max_packet_words behind (slice r.file.contents k 4) buffer buffer_size
            result (word_at host 4 (slice r.file.contents k 4) 0)))
        (sym same)
        (subst
          (λ (w : ℕ). ReadsOf host max_packet_words r buffer buffer_size (
            read_checked host max_packet_words behind (slice r.file.contents r.current_offset 4)
              buffer buffer_size result w))
          (sym here)
          (checked-Reads host max_packet_words behind buffer buffer_size given ready.sized there
            result (omega (arith, same, got))))

  -- On a reader whose members fit the file and a buffer of which the given size may be written,
  -- `read_next` returns and leaves a reader that fits the file. It reports the end where fewer than four
  -- bytes are left; else by the header word there it delivers the bytes of the packet and goes behind it, or
  -- refuses the word and goes behind the word, or stays in front of the packet, when the buffer is
  -- too small for it or the file ends before it does.
  pub read_next-Reads :
      ReadsOf host max_packet_words r buffer buffer_size
        (read_next host max_packet_words r buffer buffer_size)
  unfolding read_next fread
  read_next-Reads = elim (Bool-cases (leb r.file_size r.current_offset)) [
    | inl e ↦ rw e (ended-Reads (omega (arith, leb→le _ _ e)))
    | inr e ↦ elim (Bool-cases (ltb (r.file_size - r.current_offset) 4)) [
      | inl f ↦ rw (e, f) (ended-Reads (omega (arith, ltb→lt _ _ f)))
      | inr f ↦
          let there : r.current_offset + 4 ≤ r.file_size =
            omega (arith, ltb→le _ _ f, ready.inside) in
          let got : length (slice r.file.contents r.file.position 4) ≡ 4 =
            length-slice r.file.contents r.file.position 4
              (omega (arith, ready.placed, ready.sized, there)) in
          rw
            (
              e,
              f,
              (==_iff (length (slice r.file.contents r.file.position 4)) 4).1 got,
              read_u32-done host (slice r.file.contents r.file.position 4) 0 (omega (arith, got)),
            )
            (behind-Reads there r.file.position ready.placed got)
    ]
  ]
