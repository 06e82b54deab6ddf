-- ===== src/VrtWriter/Variants.antt =====
-- vrt_file_writer.hpp on the packets that `parse_packet` gives.
use vrtio.Common.{
  ℕ, ◌+◌, ◌*◌, ◌≤◌, ◌<◌, ◌≡◌, refl, ap, sym, ◌∙◌, subst, List, ◌++◌, length, take, length-take,
  Bool, true, if◌then◌else◌, le→leb, done-injective, Run, done, arith,
}
use vrtio.Buffer.{Endian, copy_from}
use vrtio.Buffer.Access.{word_at}
use vrtio.Memory.{Pointer, memory}
use vrtio.Types.{ValidationError}
use vrtio.Header.{decode_header}
use vrtio.RuntimeData.{RuntimeDataPacket}
use vrtio.RuntimeData
use vrtio.RuntimeData.Safety
use vrtio.RuntimeContext.{RuntimeContextPacket}
use vrtio.RuntimeContext
use vrtio.RuntimeContext.Access
use vrtio.RuntimeContext.Safety.{parse-AcceptsContext}
use vrtio.RuntimeContext.Safety as ContextSafety
use vrtio.Parser.{
  PacketVariant, data_packet, context_packet, invalid_packet, parse_packet, is_valid,
}
use vrtio.Parser.Totality.{IsSound, parse_packet_total}
use vrtio.FileWriter.{Written}
use vrtio.FileWriter.Faithful.{TakesAll, Holds, accepts, write_packet-Answers}
use vrtio.FileWriter.RoundTrip.{whole_words}
use vrtio.VrtWriter.{
  VrtFileWriter, WriterStatus, ready, invalid, write_bytes, write_data_packet, write_context_packet,
  write_packet,
}

module _ {Os : Type 0} (write : Os → List ℕ → Written Os) (contents : Os → List ℕ)
    (max_packet_words : ℕ) (takes : TakesAll write contents) (log : List ℕ) (w : VrtFileWriter Os)
    (holds : Holds write contents max_packet_words log w.raw_writer) where
  -- The call answers so, the file and the buffer hold the log, and the status is that.
  pub record Stores (answer : Bool) (new_log : List ℕ) (status : WriterStatus)
      (run : Run (Bool × VrtFileWriter Os)) : Type 0 where
    pub after : VrtFileWriter Os
    pub returns : run ≡ done (answer, after)
    pub still_holds : Holds write contents max_packet_words new_log after.raw_writer
    pub status_is : after.high_level_status ≡ status

  write_bytes-Stores :
      (buffer : Pointer) (words : ℕ)
      → 0 < words
      → words * 4 ≤ length (memory buffer)
      → Stores true
          (log ++ take (words * 4) (memory buffer))
          ready
          (write_bytes write max_packet_words w buffer 0 (words * 4))
  unfolding write_bytes copy_from
  write_bytes-Stores buffer words more fits =
      let bytes = take (words * 4) (memory buffer) in
      let size : words * 4 ≡ length bytes =
        omega (arith, length-take (words * 4) (memory buffer), fits) in
      let taken : accepts write contents max_packet_words bytes ≡ true =
        whole_words (length bytes) words size more in
      let a =
        write_packet-Answers write contents max_packet_words takes log bytes w.raw_writer holds in
      record {
        after = record w { raw_writer = a.after; high_level_status = ready };
        returns =
            rw
              (
                le→leb (0 + words * 4) (length (memory buffer)) (omega (arith, fits)),
                a.returns,
                taken,
              )
              refl;
        still_holds =
            subst
              (λ (b : Bool).
                Holds write contents max_packet_words (if b then log ++ bytes else log) a.after)
              taken a.holds;
        status_is = refl;
      }

  module _ (host : Endian) (buffer : Pointer) (size : ℕ)
      (given : size ≤ length (memory buffer)) where
    abbrev words : ℕ
    words = (decode_header (word_at host 4 (memory buffer) 0)).size_words

    data-Stores :
        (p : RuntimeDataPacket)
        → RuntimeData.parse host buffer size ≡ done p
        → p.error ≡ ValidationError.none
        → Stores true
            (log ++ take (words * 4) (memory buffer))
            ready
            (write_data_packet write max_packet_words w p)
    unfolding write_data_packet RuntimeData.as_bytes RuntimeData.is_valid
        RuntimeData.packet_size_bytes
    data-Stores p parsed ok =
        let a = Safety.parse-Accepts host buffer size given p parsed ok in
        let l = a.1.layout in
        let same : p.structure.header.size_words ≡ words = ap (λ h. h.size_words) a.1.header_kept in
        rw (Safety.buffer_kept host buffer size given p parsed, ok, same)
          (write_bytes-Stores buffer words (omega (arith, l.payload_at, l.payload_ends, same))
            (omega (arith, a.1.in_buffer, same, given)))

    context-Stores :
        (p : RuntimeContextPacket)
        → RuntimeContext.parse host buffer size ≡ done p
        → p.error ≡ ValidationError.none
        → Stores true
            (log ++ take (words * 4) (memory buffer))
            ready
            (write_context_packet write max_packet_words w p)
    unfolding write_context_packet Access.packet_size_bytes
    context-Stores p parsed ok =
        let a = (parse-AcceptsContext host buffer size given p parsed ok).1 in
        let same : p.structure.header.size_words ≡ words = ap (λ h. h.size_words) a.header_kept in
        rw ((ContextSafety.buffer_kept host buffer size given p parsed).0, same)
          (write_bytes-Stores buffer words (omega (arith, a.base_at, a.ends, same))
            (omega (arith, a.header_good.in_buffer, given)))

    -- Where the system takes all bytes of each `::write`: what `parse_packet` makes of a buffer of which the
    -- given size may be read is written, if it is valid, as exactly the bytes that the header
    -- word in the buffer counts, and the status is ready; a packet that is not valid is
    -- refused, nothing of it is written, and the status says so.
    pub write_packet-Stores :
        (v : PacketVariant)
        → parse_packet host buffer size ≡ done v
        → Stores
            (is_valid v)
            (if is_valid v then log ++ take (words * 4) (memory buffer) else log)
            (if is_valid v then ready else invalid)
            (write_packet write max_packet_words w v)
    unfolding write_packet is_valid
    write_packet-Stores v parsed =
        let t = parse_packet_total host buffer size given in
        go v (subst (IsSound host buffer size) (done-injective (sym t.1 ∙ parsed)) t.2)
      where
        go :
            (u : PacketVariant)
            → IsSound host buffer size u
            → Stores
                (is_valid u)
                (if is_valid u then log ++ take (words * 4) (memory buffer) else log)
                (if is_valid u then ready else invalid)
                (write_packet write max_packet_words w u)
        go (data_packet p) sound = data-Stores p sound.0 sound.1
        go (context_packet p) sound = context-Stores p sound.0 sound.1
        go (invalid_packet i) sound = record {
          after = record w { high_level_status = invalid };
          returns = refl;
          still_holds = holds;
          status_is = refl;
        }
