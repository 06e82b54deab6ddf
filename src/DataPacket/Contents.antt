-- ===== src/DataPacket/Contents.antt =====
-- What a data packet says, as a value: the abstract state that the setters change.
use vrtio.Common.{
  ℕ, ◌+◌, ◌*◌, ◌/◌, ◌%◌, ◌^◌, ◌≤◌, ◌<◌, ◌≡◌, ◌≢◌, List, length, slice, Bool, false, ◌⊎◌,
  if◌then◌else◌, arith,
}
use mathlib.Core.Option.{Option, none, some}
use vrtio.Buffer.{Endian}
use vrtio.Buffer.Bytes.{IsBytes}
use vrtio.Buffer.Access.{word_at}
use vrtio.ClassId.{ClassIdValue, from_words}
use vrtio.Types.{packet_type_value, has_tsi, has_tsf}
use vrtio.Header.{build_header}
use vrtio.Prologue
use vrtio.Trailer.State.{TrailerState}
use vrtio.Trailer.Setters.{state_at}
use vrtio.DataPacket.{
  DataPacket, prologue_type, payload_offset, trailer_offset, size_words, size_bytes,
}

pub data Field : Type 0 where
  header_field stream_field class_field tsi_field tsf_field payload_field trailer_field : Field

-- Where a field begins and how many bytes it has: none if the packet does not have it.
abbrev pub place : DataPacket → Field → ℕ
place d header_field = 0
place d stream_field = 4
place d class_field = Prologue.class_id_offset (prologue_type d) * 4
place d tsi_field = Prologue.tsi_offset (prologue_type d) * 4
place d tsf_field = Prologue.tsf_offset (prologue_type d) * 4
place d payload_field = payload_offset d * 4
place d trailer_field = trailer_offset d * 4

abbrev pub width : DataPacket → Field → ℕ
width d header_field = 4
width d stream_field = 4 * Prologue.stream_id_words (prologue_type d)
width d class_field = 4 * Prologue.class_id_words (prologue_type d)
width d tsi_field = 4 * Prologue.tsi_words (prologue_type d)
width d tsf_field = 4 * Prologue.tsf_words (prologue_type d)
width d payload_field = d.payload_words * 4
width d trailer_field = if d.has_trailer then 4 else 0

abbrev pub end : DataPacket → Field → ℕ
end d f = place d f + width d f

abbrev pub rank : Field → ℕ
rank header_field = 0
rank stream_field = 1
rank class_field = 2
rank tsi_field = 3
rank tsf_field = 4
rank payload_field = 5
rank trailer_field = 6

in_order : (d : DataPacket) (f g : Field) → rank f < rank g → end d f ≤ place d g
in_order d header_field g h = ground arith
in_order d stream_field g h = ground arith
in_order d class_field g h = ground arith
in_order d tsi_field g h = ground arith
in_order d tsf_field g h = ground arith
in_order d payload_field g h = ground arith
in_order d trailer_field g h = ground arith

-- Two fields have no byte in common.
pub fields_apart :
    (d : DataPacket) (f g : Field) → rank f ≢ rank g → (end d g ≤ place d f) ⊎ (end d f ≤ place d g)
fields_apart d f g differ = split (rank f) (rank g) differ (in_order d f g) (in_order d g f)
  where
    split :
        (i j : ℕ)
        → i ≢ j
        → (i < j → end d f ≤ place d g)
        → (j < i → end d g ≤ place d f)
        → (end d g ≤ place d f) ⊎ (end d f ≤ place d g)
    split i j differ first second = ground arith

pub end_fits : (d : DataPacket) (f : Field) → end d f ≤ size_bytes d
end_fits d f = ground arith

pub record Contents : Type 0 where
  pub count : ℕ
  pub stream_id : Option ℕ
  pub class_id : Option ClassIdValue
  pub seconds : Option ℕ
  pub fraction : Option ℕ
  pub payload : List ℕ
  pub trailer : Option TrailerState

abbrev pub class_id_at : Endian → List ℕ → ℕ → ClassIdValue
class_id_at host buffer p = from_words (word_at host 4 buffer p) (word_at host 4 buffer (p + 4))

-- A value for a field that the packet may have.
abbrev pub where_present {ℓ} : {A : Type ℓ} → Bool → A → Option A
where_present b x = if b then some x else none

module _ (host : Endian) (d : DataPacket) where
  abbrev pub count_of : List ℕ → ℕ
  count_of buffer = word_at host 4 buffer 0 / 2 ^ 16 % 16

  abbrev pub contents : List ℕ → Contents
  contents buffer = record {
    count = count_of buffer;
    stream_id =
        where_present (Prologue.has_stream_id (prologue_type d))
          (word_at host 4 buffer (place d stream_field));
    class_id =
        where_present (Prologue.has_class_id (prologue_type d))
          (class_id_at host buffer (place d class_field));
    seconds =
        where_present (has_tsi (Prologue.tsi (prologue_type d)))
          (word_at host 4 buffer (place d tsi_field));
    fraction =
        where_present (has_tsf (Prologue.tsf (prologue_type d)))
          (word_at host 8 buffer (place d tsf_field));
    payload = slice buffer (place d payload_field) (width d payload_field);
    trailer = where_present d.has_trailer (state_at host buffer (place d trailer_field));
  }

  -- The header word of the packet, with its count.
  abbrev pub header_of : ℕ → ℕ
  header_of count =
      build_header (packet_type_value d.packet_type) (Prologue.has_class_id (prologue_type d))
        d.has_trailer false false (Prologue.tsi (prologue_type d)) (Prologue.tsf (prologue_type d))
        count (size_words d)

  -- The buffer holds a packet of the form that the template says.
  pub record IsFormed (buffer : List ℕ) : Type 0 where
    pub fits : size_bytes d ≤ length buffer
    pub bytes : IsBytes buffer
    pub header_is : word_at host 4 buffer 0 ≡ header_of (count_of buffer)

pub Contents_ext :
    (s t : Contents)
    → s.count ≡ t.count
    → s.stream_id ≡ t.stream_id
    → s.class_id ≡ t.class_id
    → s.seconds ≡ t.seconds
    → s.fraction ≡ t.fraction
    → s.payload ≡ t.payload
    → s.trailer ≡ t.trailer
    → s ≡ t
Contents_ext s t a b c e f g h = λ i. record {
  count = a i;
  stream_id = b i;
  class_id = c i;
  seconds = e i;
  fraction = f i;
  payload = g i;
  trailer = h i;
}
