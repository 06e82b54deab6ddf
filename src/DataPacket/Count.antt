-- ===== src/DataPacket/Count.antt =====
-- The packet count of a data packet, in its header word.
use vrtio.Common.{
  ℕ, ◌+◌, ◌*◌, ◌/◌, ◌%◌, ◌^◌, ◌≤◌, ◌<◌, ◌≡◌, sym, ap, ◌∙◌, List, length, Bool, false, bit_of, arith,
  bit_and, bit_or, complement32, ◌<<<◌,
}
use vrtio.Buffer.{Endian, write_u32, write_word}
use vrtio.Buffer.Bytes.{IsBytes}
use vrtio.Buffer.Access.{word_at, read_u32-done}
use vrtio.Buffer.Regions.{write_word-PutsWord}
use vrtio.Common.Bits.{bit_and_mask}
use vrtio.Common.Fields.{write_field}
use vrtio.Header.{packet_count_mask, packet_count_shift, build_header}
use vrtio.Header.Fields.{build_header-sum, header_sum, tsi_value-lt, tsf_value-lt, bit_of-lt}
use vrtio.Types.{TsiType, TsfType, tsi_value, tsf_value, packet_type_value}
use vrtio.Prologue
use vrtio.Prologue.{Prologue}
use vrtio.DataPacket.{DataPacket, prologue_type, set_packet_count, size_words, size_bytes}
use vrtio.DataPacket.Contents.{
  header_field, end_fits, Contents, Contents_ext, contents, IsFormed, header_of,
}
use vrtio.DataPacket.Kept.{
  kept_stream, kept_class, kept_seconds, kept_fraction, kept_payload, kept_trailer,
}
use vrtio.DataPacket.Calls.{Becomes}

-- The header word with a count put into it, in the words of the code.
abbrev put_count_word : ℕ → ℕ → ℕ
put_count_word h count =
    bit_or (bit_and h (complement32 (packet_count_mask <<< packet_count_shift)))
      (bit_and count packet_count_mask <<< packet_count_shift)

put_count_word-sum :
    (word count : ℕ)
    → put_count_word word count
      ≡ (word / 2 ^ 16 / 2 ^ 4 % 2 ^ 12 * 2 ^ 4 + count % 2 ^ 4) * 2 ^ 16 + word % 2 ^ 16
put_count_word-sum word count = rw (bit_and_mask 4 count) (write_field 12 4 16 word count)

module _ (type : ℕ) (c t : Bool) (tsi : TsiType) (tsf : TsfType) (size : ℕ) where
  abbrev word : ℕ → ℕ
  word n = build_header type c t false false tsi tsf n size

  sum :
      (n : ℕ)
      → word n
        ≡ header_sum
            (type % 16)
            (bit_of c)
            (bit_of t)
            0
            0
            (tsi_value tsi)
            (tsf_value tsf)
            (n % 16)
            (size % 65536)
  sum n = build_header-sum type c t false false tsi tsf n size

  pub build_header-count : (n : ℕ) → word n / 2 ^ 16 % 16 ≡ n % 16
  build_header-count n =
      omega (arith, sum n, bit_of-lt c, bit_of-lt t, tsi_value-lt tsi, tsf_value-lt tsf)

  put_count_word-build_header : (old n : ℕ) → put_count_word (word old) n ≡ word (n % 16)
  put_count_word-build_header old n = omega (
    arith,
    sum old,
    sum (n % 16),
    put_count_word-sum (word old) n,
    bit_of-lt c,
    bit_of-lt t,
    tsi_value-lt tsi,
    tsf_value-lt tsf,
  )

  build_header-lt : (n : ℕ) → word n < 2 ^ 32
  build_header-lt n =
      omega (arith, sum n, bit_of-lt c, bit_of-lt t, tsi_value-lt tsi, tsf_value-lt tsf)

module _ (host : Endian) (d : DataPacket) where
  count_of_header : (n : ℕ) → header_of host d n / 2 ^ 16 % 16 ≡ n % 16
  count_of_header n =
      build_header-count (packet_type_value d.packet_type) (Prologue.has_class_id (prologue_type d))
        d.has_trailer (Prologue.tsi (prologue_type d)) (Prologue.tsf (prologue_type d))
        (size_words d) n

  header_of-lt : (n : ℕ) → header_of host d n < 2 ^ 32
  header_of-lt n =
      build_header-lt (packet_type_value d.packet_type) (Prologue.has_class_id (prologue_type d))
        d.has_trailer (Prologue.tsi (prologue_type d)) (Prologue.tsf (prologue_type d))
        (size_words d) n

  put_count_word-header :
      (c n : ℕ) → put_count_word (header_of host d c) n ≡ header_of host d (n % 16)
  put_count_word-header c n =
      put_count_word-build_header (packet_type_value d.packet_type)
        (Prologue.has_class_id (prologue_type d)) d.has_trailer (Prologue.tsi (prologue_type d))
        (Prologue.tsf (prologue_type d)) (size_words d) c n

abbrev pub put_count : ℕ → Contents → Contents
put_count n s = record s { count = n }

module _ (host : Endian) (d : DataPacket) (buffer : List ℕ) (fits : size_bytes d ≤ length buffer)
    (bytes : IsBytes buffer) where
  -- The packet's header word written, with a count, over whatever stood there.
  pub header_word-Becomes :
      (n : ℕ)
      → n < 16
      → Becomes host d
          (length buffer)
          (write_word host 4 buffer 0 (header_of host d n))
          (put_count n (contents host d buffer))
  header_word-Becomes n small =
      let v = header_of host d n in
      let w =
        write_word-PutsWord host 4 buffer 0 v (omega (arith, fits, end_fits d header_field))
          (header_of-lt host d n) bytes in
      let t = w.touches in
      let count : word_at host 4 w.after 0 / 2 ^ 16 % 16 ≡ n =
        ap (λ (k : ℕ). k / 2 ^ 16 % 16) w.holds ∙ count_of_header host d n ∙ omega (arith, small) in
      record {
        after = w.after;
        returns = w.returns;
        same_length = t.same_length;
        formed = record {
          fits = rw t.same_length fits;
          bytes = t.still_bytes;
          header_is = w.holds ∙ ap (header_of host d) (sym count);
        };
        says =
            Contents_ext _ _ count (kept_stream host d buffer w.after header_field t (omega arith))
              (kept_class host d buffer w.after header_field t (omega arith))
              (kept_seconds host d buffer w.after header_field t (omega arith))
              (kept_fraction host d buffer w.after header_field t (omega arith))
              (kept_payload host d buffer w.after header_field t (omega arith))
              (kept_trailer host d buffer w.after header_field t (omega arith));
      }

module _ (host : Endian) (d : DataPacket) (buffer : List ℕ) (formed : IsFormed host d buffer) where
  pub set_packet_count-Becomes :
      (n : ℕ)
      → Becomes host d
          (length buffer)
          (set_packet_count host d n buffer)
          (put_count (n % 16) (contents host d buffer))
  unfolding set_packet_count Prologue.set_packet_count Prologue.header write_u32
  set_packet_count-Becomes n =
      let fit : 0 + 4 ≤ length buffer = omega (arith, formed.fits, end_fits d header_field) in
      let same : put_count_word (word_at host 4 buffer 0) n ≡ header_of host d (n % 16) =
        ap (λ (h : ℕ). put_count_word h n) formed.header_is ∙ put_count_word-header host d _ n in
      rw (read_u32-done host buffer 0 fit, same)
        (header_word-Becomes host d buffer formed.fits formed.bytes (n % 16) (omega arith))
