-- ===== src/RuntimeData/Access.antt =====
-- What the accessors of a data packet return.
use vrtio.Common.{
  ℕ, ◌+◌, ◌-◌, ◌*◌, ◌≤◌, ◌≡◌, ap, true, false, bit_of, if◌then◌else◌, length, Bool-cases, inl, inr,
  done, arith,
}
use mathlib.Core.Option.{none, some}
use vrtio.Buffer.{Endian}
use vrtio.Buffer.Access.{word_at, read_u32-done, read_u64-done}
use vrtio.ClassId.{from_words}
use vrtio.Memory.{Pointer, memory}
use vrtio.Types.{ValidationError, PacketType, packet_type_value, has_tsi, has_tsf}
use vrtio.Header.{DecodedHeader}
use vrtio.Header.View
use vrtio.Header.View.{decoded}
use vrtio.Header.Indicators.{has_trailer-data}
use vrtio.RuntimeData.{
  RuntimeDataPacket, ParsedStructure, parse, is_valid, is_data_type, has_trailer, stream_id,
  class_id, timestamp_integer, timestamp_fractional, trailer,
}
use vrtio.RuntimeData.Layout.{Accepts, prologue_words}
use vrtio.RuntimeData.Safety.{parse-Accepts, buffer_kept}

-- What each accessor of a packet returns: the word at the field's place, read in network order, if the
-- packet has the field.
pub record Reads (host : Endian) (p : RuntimeDataPacket) : Type 0 where
  pub stream_read :
      stream_id host p
      ≡ done (if p.structure.has_stream_id then some (word_at host 4 (memory p.buffer) 4) else none)
  pub class_read :
      class_id host p
      ≡ done (
          if p.structure.header.has_class_id
          then some (
              from_words
                (word_at host 4 (memory p.buffer) (4 * (1 + bit_of p.structure.has_stream_id)))
                (word_at host 4 (memory p.buffer) (4 * (1 + bit_of p.structure.has_stream_id) + 4)))
          else none)
  pub integer_read :
      timestamp_integer host p
      ≡ done (
          if has_tsi p.structure.header.tsi
          then some (
              word_at host 4 (memory p.buffer) (
                4
                * prologue_words p.structure.has_stream_id p.structure.header.has_class_id false
                    false))
          else none)
  pub fractional_read :
      timestamp_fractional host p
      ≡ done (
          if has_tsf p.structure.header.tsf
          then some (
              word_at host 8 (memory p.buffer) (
                4
                * prologue_words p.structure.has_stream_id p.structure.header.has_class_id
                    (has_tsi p.structure.header.tsi)
                    false))
          else none)
  pub trailer_read :
      trailer host p
      ≡ done (
          if p.structure.header.trailer_included
          then some (word_at host 4 (memory p.buffer) (4 * p.structure.header.size_words - 4))
          else none)

pub small_type : (t : PacketType) → is_data_type t ≡ true → packet_type_value t ≤ 3
unfolding is_data_type packet_type_value
small_type t h = ground arith

module _ (host : Endian) (p : RuntimeDataPacket) (size : ℕ) (g : DecodedHeader)
    (ok : p.error ≡ ValidationError.none) (a : Accepts size g p.structure)
    (given : size ≤ length (memory p.buffer)) where
  valid : is_valid p ≡ true
  unfolding is_valid
  valid = rw ok

  trailer_same : has_trailer p ≡ p.structure.header.trailer_included
  unfolding has_trailer View.has_trailer
  trailer_same =
      has_trailer-data p.structure.header (rw a.header_kept (small_type g.type a.data_type))

  s : ParsedStructure
  s = p.structure

  -- The words before the payload and the trailer lie in the buffer.
  room :
      4
        * (prologue_words s.has_stream_id s.header.has_class_id
              (has_tsi s.header.tsi)
              (has_tsf s.header.tsf)
            + bit_of s.header.trailer_included)
      ≤ length (memory p.buffer)
  unfolding s
  room = omega (arith, a.layout.payload_at, a.layout.payload_ends, a.in_buffer, given)

  stream_lem :
      stream_id host p
      ≡ done (if p.structure.has_stream_id then some (word_at host 4 (memory p.buffer) 4) else none)
  unfolding stream_id s
  stream_lem = elim (Bool-cases p.structure.has_stream_id) [
    | inl e ↦
        let at : p.structure.stream_id_offset ≡ 4 = rw e at a.layout.stream_id_at in
        let fit : 4 + 4 ≤ length (memory p.buffer) = omega (arith, room, ap bit_of e) in
        rw (valid, e, at, read_u32-done host (memory p.buffer) 4 fit)
    | inr e ↦ rw (valid, e)
  ]

  abbrev class_place : ℕ
  class_place = 4 * (1 + bit_of p.structure.has_stream_id)

  class_lem :
      class_id host p
      ≡ done (
          if p.structure.header.has_class_id
          then some (
              from_words
                (word_at host 4 (memory p.buffer) class_place)
                (word_at host 4 (memory p.buffer) (class_place + 4)))
          else none)
  unfolding class_id s
  class_lem = elim (Bool-cases p.structure.header.has_class_id) [
    | inl e ↦
        let at : p.structure.class_id_offset ≡ class_place = rw e at a.layout.class_id_at in
        let one : class_place + 4 ≤ length (memory p.buffer) = omega (arith, room, ap bit_of e) in
        let two : class_place + 4 + 4 ≤ length (memory p.buffer) =
          omega (arith, room, ap bit_of e) in
        rw (
          valid,
          e,
          at,
          read_u32-done host (memory p.buffer) class_place one,
          read_u32-done host (memory p.buffer) (class_place + 4) two,
        )
    | inr e ↦ rw (valid, e)
  ]

  abbrev tsi_place : ℕ
  tsi_place =
      4 * prologue_words p.structure.has_stream_id p.structure.header.has_class_id false false

  integer_lem :
      timestamp_integer host p
      ≡ done (
          if has_tsi p.structure.header.tsi
          then some (word_at host 4 (memory p.buffer) tsi_place)
          else none)
  unfolding timestamp_integer s
  integer_lem = elim (Bool-cases (has_tsi p.structure.header.tsi)) [
    | inl e ↦
        let at : p.structure.tsi_offset ≡ tsi_place = rw e at a.layout.tsi_at in
        let fit : tsi_place + 4 ≤ length (memory p.buffer) = omega (arith, room, ap bit_of e) in
        rw (valid, e, at, read_u32-done host (memory p.buffer) tsi_place fit)
    | inr e ↦ rw (valid, e)
  ]

  abbrev tsf_place : ℕ
  tsf_place =
      4
      * prologue_words p.structure.has_stream_id p.structure.header.has_class_id
          (has_tsi p.structure.header.tsi) false

  fractional_lem :
      timestamp_fractional host p
      ≡ done (
          if has_tsf p.structure.header.tsf
          then some (word_at host 8 (memory p.buffer) tsf_place)
          else none)
  unfolding timestamp_fractional s
  fractional_lem = elim (Bool-cases (has_tsf p.structure.header.tsf)) [
    | inl e ↦
        let at : p.structure.tsf_offset ≡ tsf_place = rw e at a.layout.tsf_at in
        let fit : tsf_place + 8 ≤ length (memory p.buffer) = omega (arith, room, ap bit_of e) in
        rw (valid, e, at, read_u64-done host (memory p.buffer) tsf_place fit)
    | inr e ↦ rw (valid, e)
  ]

  abbrev trailer_place : ℕ
  trailer_place = 4 * p.structure.header.size_words - 4

  trailer_lem :
      trailer host p
      ≡ done (
          if p.structure.header.trailer_included
          then some (word_at host 4 (memory p.buffer) trailer_place)
          else none)
  unfolding trailer s
  trailer_lem = elim (Bool-cases p.structure.header.trailer_included) [
    | inl e ↦
        let at : p.structure.trailer_offset ≡ trailer_place =
          ground (arith, a.layout.trailer_at, a.layout.payload_ends) in
        let fit : trailer_place + 4 ≤ length (memory p.buffer) =
          omega (arith, room, a.layout.payload_at, a.layout.payload_ends, a.in_buffer, given) in
        rw (valid, trailer_same, e, at, read_u32-done host (memory p.buffer) trailer_place fit)
    | inr e ↦ rw (valid, trailer_same, e)
  ]

  reads : Reads host p
  reads = record {
    stream_read = stream_lem;
    class_read = class_lem;
    integer_read = integer_lem;
    fractional_read = fractional_lem;
    trailer_read = trailer_lem;
  }

module _ (host : Endian) (buffer : Pointer) (size : ℕ) (p : RuntimeDataPacket)
    (given : size ≤ length (memory buffer)) (parsed : parse host buffer size ≡ done p) where
  -- Where the given size may be read, no accessor of an accepted data packet leaves the buffer: each
  -- returns the word at the place that the header implies for its field, or nothing where the packet
  -- does not have the field.
  pub parse-Reads : p.error ≡ ValidationError.none → Reads host p
  parse-Reads ok =
      let t = parse-Accepts host buffer size given p parsed ok in
      reads host p size _ ok t.1 (rw (buffer_kept host buffer size given p parsed) given)
