-- ===== src/FileReader/Spans.antt =====
-- `read_next_span` of raw_vrt_file_reader.hpp: `read_next` with the scratch buffer.
use vrtio.Common.{
  ℕ, suc, ◌+◌, ◌*◌, ◌≤◌, ◌<◌, ◌≡◌, ◌⊎◌, refl, ap, sym, ◌∙◌, List, [], length, take, slice, true,
  false, ◌==◌, if◌then◌else◌, inl, inr, done, arith,
}
use vrtio.Buffer.{Endian}
use vrtio.Types.{ValidationError, buffer_too_small, invalid_packet_type, size_field_mismatch}
use vrtio.FileReader.{ReadResult, RawVrtFileReader, Read, read_next_span, is_valid, is_eof}
use vrtio.FileReader.Steps.{IsReady, IsHeader}
use vrtio.FileReader.Outcome.{Outcome, word, size}
use vrtio.FileReader.Next.{read_next-Reads}

valid_lem : (r : ReadResult) → r.error ≡ ValidationError.none → is_valid r ≡ true
unfolding is_valid
valid_lem r e = rw e refl

refused_lem :
    (r : ReadResult)
    → (r.error ≡ invalid_packet_type) ⊎ (r.error ≡ size_field_mismatch)
    → (is_valid r ≡ false) × (is_eof r ≡ false)
unfolding is_valid is_eof
refused_lem r (inl e) = (rw e refl, rw e refl)
refused_lem r (inr e) = (rw e refl, rw e refl)

pub not_zero : (n : ℕ) → 0 < n → (n == 0) ≡ false
not_zero n h = ground arith

held_lem :
    (r : ReadResult)
    → r.error ≡ buffer_too_small
    → 0 < r.packet_size_bytes
    → (is_valid r ≡ false) × (is_eof r ≡ false)
unfolding is_valid is_eof
held_lem r e more = (rw e refl, rw e (not_zero r.packet_size_bytes more))

eof_lem : (r : ReadResult) → is_eof r ≡ true → is_valid r ≡ false
unfolding is_valid is_eof
eof_lem r e = ground arith

module _ (host : Endian) (max_packet_words : ℕ) (r : RawVrtFileReader) where
  abbrev pub here : ℕ
  here = word host max_packet_words r.file.contents r.current_offset r.file_size r.packets_read

  abbrev pub bytes_here : ℕ
  bytes_here =
      size host max_packet_words r.file.contents r.current_offset r.file_size r.packets_read

  -- What a call of `read_next_span` finds in the file, and does.
  pub data SpanOutcome (span : List ℕ) (after : RawVrtFileReader) : Type 0 where
    ended :
        r.file_size < r.current_offset + 4
        → span ≡ []
        → is_eof after.last_error ≡ true
        → after.current_offset ≡ r.current_offset
        → after.packets_read ≡ r.packets_read
        → SpanOutcome span after
    delivered :
        IsHeader host max_packet_words here
        → r.current_offset + bytes_here ≤ r.file_size
        → span ≡ slice r.file.contents r.current_offset bytes_here
        → after.current_offset ≡ r.current_offset + bytes_here
        → after.packets_read ≡ suc r.packets_read
        → SpanOutcome span after
    refused :
        r.current_offset + 4 ≤ r.file_size
        → ¬ (IsHeader host max_packet_words here)
        → span ≡ []
        → is_eof after.last_error ≡ false
        → after.current_offset ≡ r.current_offset + 4
        → after.packets_read ≡ r.packets_read
        → SpanOutcome span after
    truncated :
        r.current_offset + 4 ≤ r.file_size
        → IsHeader host max_packet_words here
        → r.file_size < r.current_offset + bytes_here
        → span ≡ []
        → is_eof after.last_error ≡ false
        → after.last_error.error ≡ buffer_too_small
        → after.current_offset ≡ r.current_offset
        → after.packets_read ≡ r.packets_read
        → SpanOutcome span after

  pub record Spans : Type 0 where
    pub span : List ℕ
    pub after : RawVrtFileReader
    pub returns : read_next_span host max_packet_words r ≡ done (span, after)
    pub ready : IsReady max_packet_words after
    pub same : after.file.contents ≡ r.file.contents
    pub outcome : SpanOutcome span after

  span_of : Read → List ℕ × RawVrtFileReader
  unfolding is_valid
  span_of got = (
    (if is_valid got.result then take got.result.packet_size_bytes got.buffer else []),
    record got.reader { scratch_buffer = got.buffer; last_error = got.result },
  )

  span_outcome :
      (got : Read)
      → length r.scratch_buffer ≡ max_packet_words * 4
      → Outcome host max_packet_words r.file.contents r.current_offset r.file_size r.packets_read
          (max_packet_words * 4)
          got
      → SpanOutcome (span_of got).0 (span_of got).1
  unfolding span_of is_valid is_eof
  span_outcome got room (Outcome.ended short eof stays count) =
      ended short (rw (eof_lem got.result eof) refl) eof stays count
  span_outcome got room (Outcome.delivered good inside fine whole holds moves count) =
      delivered good inside (rw (valid_lem got.result fine, whole) holds) moves count
  span_outcome got room (Outcome.refused there bad errors moves count) =
      let e = refused_lem got.result errors in refused there bad (rw e.0 refl) e.1 moves count
  span_outcome got room (Outcome.held there good (inl small) error whole required stays count) =
      absurd (omega (arith, good.small, small))
  span_outcome got room (Outcome.held there good (inr short) error whole required stays count) =
      let e = held_lem got.result error (omega (arith, whole, good.positive)) in
      truncated there good short (rw e.0 refl) e.1 error stays count

  -- On a reader whose members fit the file, `read_next_span` returns and leaves such a reader. It reports
  -- the end where fewer than four bytes are left; else by the header word there it gives the bytes of
  -- the packet and goes behind it, or refuses the word and goes behind the word, or reports an error and
  -- stays where the file ends before the packet does.
  pub read_next_span-Spans : IsReady max_packet_words r → Spans
  unfolding read_next_span span_of
  read_next_span-Spans ready =
      let room : max_packet_words * 4 ≤ length r.scratch_buffer = omega (arith, ready.room) in
      let n =
        read_next-Reads host max_packet_words r r.scratch_buffer (max_packet_words * 4) room
          ready in
      let s = span_of n.got in
      record {
        span = s.0;
        after = s.1;
        returns = rw n.returns refl;
        ready = record {
          placed = n.leaves.placed;
          sized = n.leaves.same_size ∙ ready.sized ∙ ap length (sym n.leaves.same);
          inside = omega (arith, n.leaves.inside, n.leaves.same_size);
          room = n.leaves.room ∙ ready.room;
        };
        same = n.leaves.same;
        outcome = span_outcome n.got ready.room n.outcome;
      }
