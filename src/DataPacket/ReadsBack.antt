-- ===== src/DataPacket/ReadsBack.antt =====
-- The accessors of a compile-time data packet in data_packet.hpp and prologue.hpp, read on a formed packet.
use vrtio.Common.{
  ℕ, ◌+◌, ◌*◌, ◌/◌, ◌%◌, ◌^◌, ◌≡◌, refl, sym, ap, ◌∙◌, List, Bool, true, false, bit_of,
  if◌then◌else◌, done, arith,
}
use mathlib.Core.Option
use mathlib.Core.Path.{ap₂}
use vrtio.Buffer.{Endian}
use vrtio.Buffer.Access.{word_at}
use vrtio.Timestamp.{timestamp}
use vrtio.RuntimeData.Layout.{prologue_words}
use vrtio.Prologue
use vrtio.DataPacket
use vrtio.DataPacket.{DataPacket, IsDataPacket, prologue_type}
use vrtio.DataPacket.Contents.{where_present, class_id_at, IsFormed, tsi_field, tsf_field, place}
use vrtio.DataPacket.Places.{stream, class_present, seconds, fraction, places_match}
use vrtio.DataPacket.Own.{value_or, count_lem, size_lem, stream_lem, class_lem, tsi_lem, tsf_lem}

map_done :
    {A : Type 0} (b : Bool) (x : A) → Option.map done (where_present b x) ≡ where_present b (done x)
map_done true x = refl
map_done false x = refl

value_present : (b : Bool) (x : ℕ) → value_or 0 (where_present b x) ≡ (if b then x else 0)
value_present true x = refl
value_present false x = refl

-- The words of the header, the ids and those parts of the timestamp that are asked for.
abbrev pub words : DataPacket → Bool → Bool → ℕ
words d with_seconds with_fraction =
    prologue_words (stream d) (class_present d) with_seconds with_fraction

module _ (host : Endian) (d : DataPacket) (buffer : List ℕ) where
  -- What the accessors return, from the words at the places that follow from the form alone.
  pub record ReadsBack : Type 0 where
    pub count_read :
        DataPacket.packet_count host d buffer ≡ done (word_at host 4 buffer 0 / 2 ^ 16 % 16)
    pub size_read :
        Prologue.packet_size host (prologue_type d) buffer
        ≡ done (words d (seconds d) (fraction d) + d.payload_words + bit_of d.has_trailer)
    pub stream_read :
        where_present (stream d) (DataPacket.stream_id host d buffer)
        ≡ where_present (stream d) (done (word_at host 4 buffer 4))
    pub class_read :
        where_present (class_present d) (DataPacket.class_id host d buffer)
        ≡ where_present
            (class_present d)
            (done (class_id_at host buffer (4 * (1 + bit_of (stream d)))))
    pub timestamp_read :
        DataPacket.get_timestamp host d buffer
        ≡ done (
            timestamp
              (Prologue.tsf (prologue_type d))
              (if seconds d then word_at host 4 buffer (4 * words d false false) else 0)
              (if fraction d then word_at host 8 buffer (4 * words d (seconds d) false) else 0))
    pub payload_is :
        DataPacket.payload host d
        ≡ record { offset = 4 * words d (seconds d) (fraction d); size = 4 * d.payload_words }

module _ (host : Endian) (d : DataPacket) (valid : IsDataPacket d) (buffer : List ℕ)
    (formed : IsFormed host d buffer) where
  seconds_lem :
      value_or 0 (where_present (seconds d) (word_at host 4 buffer (place d tsi_field)))
      ≡ (if seconds d then word_at host 4 buffer (4 * words d false false) else 0)
  seconds_lem =
      value_present (seconds d) _
      ∙ ap (λ (k : ℕ). if seconds d then word_at host 4 buffer k else 0) (sym (places_match d).1)

  fraction_lem :
      value_or 0 (where_present (fraction d) (word_at host 8 buffer (place d tsf_field)))
      ≡ (if fraction d then word_at host 8 buffer (4 * words d (seconds d) false) else 0)
  fraction_lem =
      value_present (fraction d) _
      ∙ ap (λ (k : ℕ). if fraction d then word_at host 8 buffer k else 0) (sym (places_match d).2)

  -- On a formed packet the packet count, the packet size, the stream and class ids and the timestamp, where
  -- they compile, return what stands at the places that the fields of the form add up to, a timestamp
  -- with 0 for a part that the packet has not; and the payload is the span behind the prologue.
  pub formed-ReadsBack : ReadsBack host d buffer
  unfolding DataPacket.get_timestamp Prologue.get_timestamp DataPacket.payload
  formed-ReadsBack = record {
    count_read = count_lem host d valid buffer formed;
    size_read = size_lem host d valid buffer formed ∙ ap done (sym (places_match d).4);
    stream_read = stream_lem host d valid buffer formed ∙ map_done (stream d) _;
    class_read =
        class_lem host d valid buffer formed
        ∙ map_done (class_present d) _
        ∙ ap (λ (k : ℕ). where_present (class_present d) (done (class_id_at host buffer k)))
            (sym (places_match d).0);
    timestamp_read =
        rw (tsi_lem host d valid buffer formed, tsf_lem host d valid buffer formed)
          (ap₂ (λ (x y : ℕ). done (timestamp (Prologue.tsf (prologue_type d)) x y)) seconds_lem
            fraction_lem);
    payload_is =
        ap₂ (λ (x y : ℕ). record { offset = x; size = y }) (omega (arith, (places_match d).3))
          (omega arith);
  }
