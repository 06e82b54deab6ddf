-- ===== src/DataPacket/Own.antt =====
-- What the accessors of a compile-time data packet return, and the view that its `header()` gives.
use vrtio.Common.{
  ℕ, ◌+◌, ◌*◌, ◌/◌, ◌%◌, ◌^◌, ◌≤◌, ◌≡◌, refl, ap, ◌∙◌, List, [], ◌∷◌, length, slice, drop,
  length-slice, done, Bool-cases, inl, inr, le→leb, arith,
}
use mathlib.Core.Option
use mathlib.Core.Option.{Option, none, some}
use vrtio.Common.Bits.{bit_and_mask}
use vrtio.Buffer.{Endian, little, big, of_memory, of_le_bytes, copy_from}
use vrtio.Buffer.Bytes.{IsBytes, IsBytes-take, IsBytes-drop, of_be_bytes}
use vrtio.Buffer.Access.{word_at, word_at-be, read_u32-done, read_u64-done}
use vrtio.Types.{packet_type_of, packet_type_value, has_tsi, has_tsf}
use vrtio.Header.View.{HeaderView, raw_word, raw_word-SameView}
use vrtio.Header.RoundTrip.{decode_header-SameFields}
use vrtio.Header.View
use vrtio.Prologue
use vrtio.DataPacket
use vrtio.DataPacket.{DataPacket, IsDataPacket, prologue_type, size_words}
use vrtio.DataPacket.Contents.{
  Contents, contents, count_of, IsFormed, header_field, stream_field, class_field, tsi_field,
  tsf_field, end, end_fits, place, where_present,
}
use vrtio.DataPacket.Kept.{class_width, stream_width, tsi_width, tsf_width}
use vrtio.DataPacket.Digits.{HasDigits, header_of-HasDigits}

-- Four bytes read in the order of memory on a little-endian host, and in network order.
swapped_type :
    (bs : List ℕ)
    → length bs ≡ 4
    → IsBytes bs
    → of_le_bytes bs / 2 ^ 28 % 16 ≡ of_be_bytes bs / 16 % 16
unfolding of_le_bytes
swapped_type (a ∷ b ∷ c ∷ e ∷ []) h k = omega (arith, k)
swapped_type _ h k = absurd (omega arith)

abbrev pub value_or : ℕ → Option ℕ → ℕ
value_or n none = n
value_or n (some x) = x

module _ (host : Endian) (d : DataPacket) (valid : IsDataPacket d) (buffer : List ℕ)
    (formed : IsFormed host d buffer) where
  abbrev says : Contents
  says = contents host d buffer

  in_range : (f : _) → end d f ≤ length buffer
  in_range f = omega (arith, end_fits d f, formed.fits)

  header_read : Prologue.header host (prologue_type d) buffer ≡ done (word_at host 4 buffer 0)
  unfolding Prologue.header
  header_read = read_u32-done host buffer 0 (in_range header_field)

  digits : HasDigits host d valid (word_at host 4 buffer 0)
  digits = rw formed.header_is (header_of-HasDigits host d valid (count_of host d buffer))

  pub count_lem : DataPacket.packet_count host d buffer ≡ done says.count
  unfolding DataPacket.packet_count Prologue.packet_count
  count_lem =
      rw (header_read, bit_and_mask 4 (word_at host 4 buffer 0 / 2 ^ 16)) (ap done (omega arith))

  pub size_lem : Prologue.packet_size host (prologue_type d) buffer ≡ done (size_words d)
  unfolding Prologue.packet_size
  size_lem =
      rw (header_read, bit_and_mask 16 (word_at host 4 buffer 0))
        (ap done (omega (arith, digits.size_digits)))

  pub stream_lem :
      where_present (Prologue.has_stream_id (prologue_type d)) (DataPacket.stream_id host d buffer)
      ≡ Option.map done says.stream_id
  unfolding DataPacket.stream_id Prologue.stream_id
  stream_lem = elim (Bool-cases (Prologue.has_stream_id (prologue_type d))) [
    | inl e ↦
        rw (e, read_u32-done host buffer 4 (omega (arith, in_range stream_field, stream_width d e)))
          refl
    | inr e ↦ rw e refl
  ]

  pub class_lem :
      where_present (Prologue.has_class_id (prologue_type d)) (DataPacket.class_id host d buffer)
      ≡ Option.map done says.class_id
  unfolding DataPacket.class_id Prologue.class_id
  class_lem = elim (Bool-cases (Prologue.has_class_id (prologue_type d))) [
    | inl e ↦
        let p = place d class_field in
        let q : (Prologue.class_id_offset (prologue_type d) + 1) * 4 ≡ p + 4 = omega arith in
        rw
          (
            e,
            q,
            read_u32-done host buffer p (omega (arith, in_range class_field, class_width d e)),
            read_u32-done host buffer (p + 4)
                (omega (arith, in_range class_field, class_width d e)),
          )
          refl
    | inr e ↦ rw e refl
  ]

  pub tsi_lem : Prologue.tsi_part host (prologue_type d) buffer ≡ done (value_or 0 says.seconds)
  unfolding Prologue.tsi_part
  tsi_lem = elim (Bool-cases (has_tsi (Prologue.tsi (prologue_type d)))) [
    | inl e ↦
        rw
          (
            e,
            read_u32-done host buffer (place d tsi_field)
                (omega (arith, in_range tsi_field, tsi_width d e)),
          )
          refl
    | inr e ↦ rw e refl
  ]

  pub tsf_lem : Prologue.tsf_part host (prologue_type d) buffer ≡ done (value_or 0 says.fraction)
  unfolding Prologue.tsf_part
  tsf_lem = elim (Bool-cases (has_tsf (Prologue.tsf (prologue_type d)))) [
    | inl e ↦
        rw
          (
            e,
            read_u64-done host buffer (place d tsf_field)
                (omega (arith, in_range tsf_field, tsf_width d e)),
          )
          refl
    | inr e ↦ rw e refl
  ]

  abbrev part : List ℕ
  part = slice buffer 0 4

  part_bytes : IsBytes part
  part_bytes = IsBytes-take 4 (drop 0 buffer) (IsBytes-drop 0 buffer formed.bytes)

  part_value : word_at host 4 buffer 0 ≡ of_be_bytes part
  part_value = word_at-be host 4 buffer 0 (in_range header_field) formed.bytes

  abbrev pub view_type : Endian → ℕ
  view_type little = size_words d / 16 % 16
  view_type big = packet_type_value d.packet_type

  view_digits : (e : Endian) → of_memory e part / 2 ^ 28 % 16 ≡ view_type e
  unfolding of_memory
  view_digits little = omega (
    arith,
    swapped_type part (length-slice buffer 0 4 (in_range header_field)) part_bytes,
    part_value,
    digits.size_digits,
  )
  view_digits big = omega (arith, part_value, digits.type_digits)

  view_done :
      Prologue.header_view host (prologue_type d) buffer ≡ done (raw_word (of_memory host part))
  unfolding Prologue.header_view Prologue.header_word copy_from
  view_done = rw (le→leb _ _ (in_range header_field)) refl

  type_of_view : (w : ℕ) → View.packet_type (raw_word w) ≡ packet_type_of (w / 2 ^ 28 % 16)
  unfolding View.packet_type
  type_of_view w = (raw_word-SameView w).same_packet_type ∙ (decode_header-SameFields w).same_type

  -- The packet type that the view of a formed packet's `header()` answers: on a big-endian host the
  -- packet's type, but on a little-endian host bits 4 to 7 of the packet's size, since the view reads the
  -- header word as the host keeps numbers, not in network order.
  pub header_view-packet_type :
      (view : HeaderView) × (DataPacket.header_view host d buffer ≡ done view)
      × (View.packet_type view ≡ packet_type_of (view_type host))
  unfolding DataPacket.header_view
  header_view-packet_type = (
    raw_word (of_memory host part),
    view_done,
    type_of_view _ ∙ ap packet_type_of (view_digits host),
  )
