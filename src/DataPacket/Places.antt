-- ===== src/DataPacket/Places.antt =====
-- The words of a data packet as the parser counts them.
use vrtio.Common.{
  ℕ, ◌+◌, ◌-◌, ◌*◌, ◌/◌, ◌%◌, ◌^◌, ◌≤◌, ◌≡◌, refl, ap, Bool, true, false, not, List, bit_of, le→ltb,
  ◌==◌, arith,
}
use mathlib.Core.Option
use mathlib.Core.Option.{Option, none, some}
use vrtio.Buffer.{Endian}
use vrtio.Buffer.Access.{word_at}
use vrtio.Types.{
  PacketType, TsiType, TsfType, packet_type_value, packet_type_of, tsi_value, tsf_value, has_tsi,
  has_tsf, ValidationError,
}
use vrtio.Header.{has_stream_id_field}
use vrtio.Prologue
use vrtio.Prologue.{carries_stream_id, class_id_traits_present, class_id_traits_words}
use vrtio.RuntimeData.{is_data_type}
use vrtio.RuntimeData.Layout.{prologue_words, expected_error, needed_words}
use vrtio.Trailer.State.{state_of}
use vrtio.DataPacket.{DataPacket, prologue_type, size_words}
use vrtio.DataPacket.Contents.{
  where_present, place, class_field, tsi_field, tsf_field, payload_field, trailer_field,
}

-- What is stated of a packet type and its number.
pub odd_type :
    (t : PacketType) → is_data_type t ≡ true → has_stream_id_field t ≡ carries_stream_id t
unfolding is_data_type carries_stream_id has_stream_id_field
odd_type t h = ground arith

pub same_type :
    (t : PacketType) → is_data_type t ≡ true → packet_type_of (packet_type_value t % 16) ≡ t
unfolding is_data_type packet_type_value packet_type_of
same_type t h = ground arith

pub odd_number :
    (t : PacketType) → is_data_type t ≡ true → (packet_type_value t % 2 == 1) ≡ carries_stream_id t
unfolding is_data_type carries_stream_id packet_type_value
odd_number t h = ground arith

pub tsi_number : (t : TsiType) → not (tsi_value t == 0) ≡ has_tsi t
unfolding tsi_value has_tsi
tsi_number t = ground arith

pub tsf_number : (t : TsfType) → not (tsf_value t == 0) ≡ has_tsf t
unfolding tsf_value has_tsf
tsf_number t = ground arith

pub bit_back : (b : Bool) → (bit_of b == 1) ≡ b
bit_back b = ground arith

pub expected_none :
    (size word : ℕ)
    → word / 2 ^ 28 % 16 ≤ 3
    → 4 * (word % 65536) ≤ size
    → needed_words word ≤ word % 65536
    → expected_error size word ≡ ValidationError.none
expected_none size word a b c = rw (le→ltb _ _ a, le→ltb _ _ b, le→ltb _ _ c) refl

pub same_word :
    (host : Endian) (b : Bool) (buffer : List ℕ) (i j : ℕ)
    → (b ≡ true → i ≡ j)
    → where_present b (word_at host 4 buffer i) ≡ where_present b (word_at host 4 buffer j)
same_word host true buffer i j h = ap (λ (k : ℕ). some (word_at host 4 buffer k)) (h refl)
same_word host false buffer i j h = refl

pub map_present :
    (b : Bool) (w : ℕ) → Option.map state_of (where_present b w) ≡ where_present b (state_of w)
map_present true w = refl
map_present false w = refl

-- The words of the packet before its payload, counted by what it has.
module _ (d : DataPacket) where
  abbrev pub stream : Bool
  stream = Prologue.has_stream_id (prologue_type d)

  abbrev pub class_present : Bool
  class_present = Prologue.has_class_id (prologue_type d)

  abbrev pub seconds : Bool
  seconds = has_tsi (Prologue.tsi (prologue_type d))

  abbrev pub fraction : Bool
  fraction = has_tsf (Prologue.tsf (prologue_type d))

  pub places_match :
      (4 * (1 + bit_of stream) ≡ place d class_field)
      × (4 * prologue_words stream class_present false false ≡ place d tsi_field)
      × (4 * prologue_words stream class_present seconds false ≡ place d tsf_field)
      × (4 * prologue_words stream class_present seconds fraction ≡ place d payload_field)
      × (prologue_words stream class_present seconds fraction
            + d.payload_words
            + bit_of d.has_trailer
          ≡ size_words d)
      × (4 * size_words d - 4 * bit_of d.has_trailer ≡ place d trailer_field)
  unfolding class_id_traits_present class_id_traits_words
  places_match = ground arith
