-- ===== src/FileReader/Loop.antt =====
-- The rounds of `for_each_packet` of raw_vrt_file_reader.hpp.
use vrtio.Common.{
  ℕ, zero, suc, ◌+◌, ◌-◌, ◌≤◌, ◌<◌, ◌≡◌, refl, ap, sym, ◌∙◌, List, [], length, Bool, false, ◌==◌,
  if◌then◌else◌, Bool-cases, length-slice, inl, inr, Run, done, arith,
}
use mathlib.Core.Option.{Option, some}
use vrtio.Buffer.{Endian}
use vrtio.FileReader.{ReadResult, RawVrtFileReader, for_each_packet}
use vrtio.FileReader.Steps.{IsReady}
use vrtio.FileReader.Spans.{
  Spans, not_zero, read_next_span-Spans, bytes_here, ended, delivered, refused, truncated,
}

module _ (host : Endian) (max_packet_words : ℕ) {C : Type 0}
    (callback : C → List ℕ → ReadResult → Bool × C) where
  -- The loop has come to an end.
  pub record Ends (r : RawVrtFileReader) (processed : ℕ)
      (run : Run (Option (ℕ × C × RawVrtFileReader))) : Type 0 where
    pub count : ℕ
    pub state : C
    pub after : RawVrtFileReader
    pub returns : run ≡ done (some (count, state, after))
    pub ready : IsReady max_packet_words after
    pub same : after.file.contents ≡ r.file.contents
    pub counted : count + r.packets_read ≡ processed + after.packets_read
    pub onward : r.current_offset ≤ after.current_offset

  -- The reader after a span that the loop stops at.
  stopped :
      (r : RawVrtFileReader) (processed : ℕ) (c : C) (s : Spans host max_packet_words r)
      → s.span ≡ []
      → s.after.packets_read ≡ r.packets_read
      → r.current_offset ≤ s.after.current_offset
      → Ends r processed (done (some (processed, c, s.after)))
  stopped r processed c s empty count onward = record {
    count = processed;
    state = c;
    after = s.after;
    returns = refl;
    ready = s.ready;
    same = s.same;
    counted = omega (arith, count);
    onward = onward;
  }

  -- A round, when the rounds behind a packet end.
  round-Ends :
      (r : RawVrtFileReader) (processed : ℕ) (c : C) (s : Spans host max_packet_words r)
      → IsReady max_packet_words r
      → (rest : Run (Option (ℕ × C × RawVrtFileReader)))
      → (r.current_offset < s.after.current_offset → Ends s.after (suc processed) rest)
      → Ends r processed (
          if length s.span == 0
          then done (some (processed, c, s.after))
          else if (callback c s.span s.after.last_error).0
          then rest
          else done (some (suc processed, (callback c s.span s.after.last_error).1, s.after)))
  round-Ends r processed c s ready rest goes = elim s.outcome [
    | ended short empty eof stays count ↦
        rw empty (stopped r processed c s empty count (omega (arith, stays)))
    | refused there bad empty eof moves count ↦
        rw empty (stopped r processed c s empty count (omega (arith, moves)))
    | truncated there good short empty eof error stays count ↦
        rw empty (stopped r processed c s empty count (omega (arith, stays)))
    | delivered good inside gives moves count ↦
        let size : length s.span ≡ bytes_here host max_packet_words r =
          ap length gives
          ∙ length-slice r.file.contents r.current_offset _ (omega (arith, inside, ready.sized)) in
        let some_bytes : (length s.span == 0) ≡ false =
          not_zero (length s.span) (omega (arith, size, good.positive)) in
        elim (Bool-cases (callback c s.span s.after.last_error).0) [
          | inl e ↦
              let g = goes (omega (arith, moves, good.positive)) in
              rw (some_bytes, e)
                (record {
                  count = g.count;
                  state = g.state;
                  after = g.after;
                  returns = g.returns;
                  ready = g.ready;
                  same = g.same ∙ s.same;
                  counted = omega (arith, g.counted, count);
                  onward = omega (arith, g.onward, moves);
                })
          | inr e ↦
              rw (some_bytes, e)
                (record {
                  count = suc processed;
                  state = (callback c s.span s.after.last_error).1;
                  after = s.after;
                  returns = refl;
                  ready = s.ready;
                  same = s.same;
                  counted = omega (arith, count);
                  onward = omega (arith, moves);
                })
        ]
  ]

  -- On a reader whose members fit the file, `for_each_packet` ends, whatever the callback does: as many
  -- rounds suffice as there are bytes left, and one. It counts the packets that were read, and does not
  -- go back in the file.
  pub for_each_packet-Ends :
      (fuel processed : ℕ) (c : C) (r : RawVrtFileReader)
      → IsReady max_packet_words r
      → r.file_size - r.current_offset < fuel
      → Ends r processed (for_each_packet host max_packet_words callback fuel processed c r)
  unfolding for_each_packet
  for_each_packet-Ends zero processed c r ready enough = absurd (omega (arith, enough))
  for_each_packet-Ends (suc fuel) processed c r ready enough =
      let s = read_next_span-Spans host max_packet_words r ready in
      let size : s.after.file_size ≡ r.file_size =
        s.ready.sized ∙ ap length s.same ∙ sym ready.sized in
      rw s.returns (
        round-Ends r processed c s ready _ (λ on.
          for_each_packet-Ends fuel (suc processed) (callback c s.span s.after.last_error).1 s.after
            s.ready (omega (arith, enough, on, size, s.ready.inside))))
