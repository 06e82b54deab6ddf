-- ===== src/VrtReader/Truncated.antt =====
-- iteration_helpers.hpp over a VRTFileReader, on a file that ends in the middle of a packet.
use vrtio.Common.{
  ℕ, zero, suc, ◌+◌, ◌*◌, ◌≤◌, ◌<◌, ◌≡◌, refl, ap, ◌∙◌, subst, List, length, Bool, sym, Run, done,
  arith,
}
use mathlib.Core.Option.{Option, none, some}
use vrtio.Buffer.{Endian}
use vrtio.Buffer.Access.{word_at}
use vrtio.Header.{decode_header}
use vrtio.RuntimeData.{RuntimeDataPacket}
use vrtio.RuntimeContext.{RuntimeContextPacket}
use vrtio.Parser.{PacketVariant}
use vrtio.Parser
use vrtio.FileReader.{ReadResult, RawVrtFileReader}
use vrtio.FileReader.Steps.{IsReady, IsHeader}
use vrtio.FileReader.Spans.{
  read_next_span-Spans, here, bytes_here, ended, delivered, refused, truncated,
}
use vrtio.VrtReader.{failed, read_next_packet}
use vrtio.Iteration.{
  get_data_packet, get_context_packet, with_stream_id, for_each, for_each_data_packet,
  for_each_context_packet, for_each_packet_with_stream_id,
}

module _ (host : Endian) (max_packet_words : ℕ) where
  -- The reader stands in front of a packet of which the file has the header word but not all bytes.
  pub record IsTruncated (r : RawVrtFileReader) : Type 0 where
    pub ready : IsReady max_packet_words r
    pub there : r.current_offset + 4 ≤ r.file_size
    pub known : IsHeader host max_packet_words (here host max_packet_words r)
    pub short : r.file_size < r.current_offset + bytes_here host max_packet_words r

  -- A read reports a packet that is not valid, and the reader stays where it is.
  pub record Stays (r : RawVrtFileReader) : Type 0 where
    pub error : ReadResult
    pub after : RawVrtFileReader
    pub returns : read_next_packet host max_packet_words r ≡ done (some (failed error), after)
    pub again : IsTruncated after

  pub read_next_packet-Stays : (r : RawVrtFileReader) → IsTruncated r → Stays r
  unfolding read_next_packet
  read_next_packet-Stays r t =
      let s = read_next_span-Spans host max_packet_words r t.ready in
      elim s.outcome [
        | ended short empty eof stays count ↦ absurd (omega (arith, short, t.there))
        | refused there bad empty eof moves count ↦ absurd (bad t.known)
        | delivered known inside gives moves count ↦ absurd (omega (arith, inside, t.short))
        | truncated there known short empty eof error stays count ↦
            let size : s.after.file_size ≡ r.file_size =
              s.ready.sized ∙ ap length s.same ∙ sym t.ready.sized in
            let word : here host max_packet_words s.after ≡ here host max_packet_words r =
              ap (λ (bs : List ℕ). word_at host 4 bs s.after.current_offset) s.same
              ∙ ap (word_at host 4 r.file.contents) stays in
            let bytes : bytes_here host max_packet_words s.after
                ≡ bytes_here host max_packet_words r =
              ap (λ (w : ℕ). (decode_header w).size_words * 4) word in
            record {
              error = s.after.last_error;
              after = s.after;
              returns = rw (s.returns, empty, eof) refl;
              again = record {
                ready = s.ready;
                there = omega (arith, there, stays, size);
                known = subst (IsHeader host max_packet_words) (sym word) known;
                short = omega (arith, short, stays, size, bytes);
              };
            }
      ]

  module _ {C A : Type 0} (select : PacketVariant → Run (Option A)) (callback : C → A → Bool × C)
      (unwanted : (e : ReadResult) → select (failed e) ≡ done none) where
    goes_on :
        (fuel count : ℕ) (c : C) (r : RawVrtFileReader)
        → IsTruncated r
        → for_each (read_next_packet host max_packet_words) select callback fuel count c r
          ≡ done none
    unfolding for_each
    goes_on zero count c r t = refl
    goes_on (suc fuel) count c r t =
        let s = read_next_packet-Stays r t in
        rw (s.returns, unwanted s.error) (goes_on fuel count c s.after s.again)

  -- In front of a packet of which the file has the header word but not all bytes the loops over data
  -- packets, over context packets and over packets with a stream id never end: no number of rounds is
  -- enough, whatever the callback does.
  pub for_each_data_packet-never_ends :
      {C : Type 0} (on_data : C → RuntimeDataPacket → Bool × C)
      (on_context : C → RuntimeContextPacket → Bool × C) (on_packet : C → PacketVariant → Bool × C)
      (stream_id_filter fuel : ℕ) (c : C) (r : RawVrtFileReader)
      → IsTruncated r
      → (for_each_data_packet (read_next_packet host max_packet_words) on_data fuel c r ≡ done none)
        × (for_each_context_packet (read_next_packet host max_packet_words) on_context fuel c r
            ≡ done none)
        × (for_each_packet_with_stream_id
              (read_next_packet host max_packet_words)
              host
              stream_id_filter
              on_packet
              fuel
              c
              r
            ≡ done none)
  unfolding for_each_data_packet for_each_context_packet for_each_packet_with_stream_id
      get_data_packet get_context_packet with_stream_id failed Parser.stream_id
  for_each_data_packet-never_ends on_data on_context on_packet stream_id_filter fuel c r t = (
    goes_on (λ pkt. done (get_data_packet pkt)) on_data (λ e. refl) fuel 0 c r t,
    goes_on (λ pkt. done (get_context_packet pkt)) on_context (λ e. refl) fuel 0 c r t,
    goes_on (with_stream_id host stream_id_filter) on_packet (λ e. refl) fuel 0 c r t,
  )
