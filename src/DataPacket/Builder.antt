-- ===== src/DataPacket/Builder.antt =====
-- detail/builder.hpp: `PacketBuilder`. Each method makes a view of the buffer without initialising it,
-- calls one setter of the view and returns the builder.
use vrtio.Common.{ℕ, List, [], ◌∷◌, Bool, true, false, Run, done, ◌>>=◌}
use vrtio.Buffer.{Endian}
use vrtio.ClassId.{ClassIdValue}
use vrtio.Timestamp.{Timestamp}
use vrtio.Trailer.{Indicator}
use vrtio.Trailer.View.{TrailerBuilder}
use vrtio.Trailer.Setters.{puts_raw, puts_named, puts_count}
use vrtio.DataPacket.{
  DataPacket, construct, set_packet_count, set_stream_id, set_timestamp, set_class_id, trailer,
  set_payload,
}

-- A call of one of the methods. The eight of the named trailer indicators, from `trailer_valid_data` to
-- `trailer_spectral_inversion`, are one constructor; so are the three overloads of `payload`.
pub data Call : Type 0 where
  stream_id : ℕ → Call
  timestamp : Timestamp → Call
  class_id : ClassIdValue → Call
  trailer_word : ℕ → Call
  trailer_builder : TrailerBuilder → Call
  trailer_named : Indicator → Bool → Call
  trailer_context_packet_count : ℕ → Call
  packet_count : ℕ → Call
  payload : List ℕ → Call

module _ (host : Endian) (d : DataPacket) where
  -- `PacketBuilder(buffer)`.
  unfoldable pub start : List ℕ → Run (List ℕ)
  start buffer = construct host d true buffer

  unfoldable pub set : Call → List ℕ → Run (List ℕ)
  set (stream_id id) buffer = set_stream_id host d id buffer
  set (timestamp ts) buffer = set_timestamp host d ts buffer
  set (class_id cid) buffer = set_class_id host d cid buffer
  set (trailer_word t) buffer = trailer host d (puts_raw t) buffer
  set (trailer_builder b) buffer = trailer host d (puts_raw b.value) buffer
  set (trailer_named i x) buffer = trailer host d (puts_named i x) buffer
  set (trailer_context_packet_count n) buffer = trailer host d (puts_count n) buffer
  set (packet_count n) buffer = set_packet_count host d n buffer
  set (payload bytes) buffer = set_payload host d bytes buffer

  unfoldable pub call : Call → List ℕ → Run (List ℕ)
  call c buffer = do view ← construct host d false buffer; set c view

  -- The chain of calls.
  unfoldable pub calls : List Call → List ℕ → Run (List ℕ)
  calls [] buffer = done buffer
  calls (c ∷ cs) buffer = do buffer₁ ← call c buffer; calls cs buffer₁

  -- `build()` after them.
  unfoldable pub build : List Call → List ℕ → Run (List ℕ)
  build cs buffer = do
    buffer₁ ← start buffer
    buffer₂ ← calls cs buffer₁
    construct host d false buffer₂
