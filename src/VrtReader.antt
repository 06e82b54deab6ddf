-- ===== src/VrtReader.antt =====
-- utils/fileio/vrt_file_reader.hpp: the packets of a file, each as a validated view. A `VRTFileReader` is
-- the raw reader that it holds.
pub mod Packets
pub mod Truncated
mod Tests
use vrtio.Common.{ℕ, List, length, ◌==◌, ◌&&◌, if◌then◌else◌, Run, done, ◌>>=◌}
use mathlib.Core.Option.{Option, none, some}
use vrtio.Buffer.{Endian}
use vrtio.Memory.{null, to}
use vrtio.Header.{decode_header}
use vrtio.Parser.{PacketVariant, invalid_packet, parse_packet}
use vrtio.FileReader.{ReadResult, RawVrtFileReader, read_next_span, is_eof}

-- The error of a read as a packet, with an empty span.
unfoldable pub failed : ReadResult → PacketVariant
failed err = invalid_packet (record {
  error = err.error;
  attempted_type = err.type;
  header = decode_header err.header;
  raw_bytes = null;
  raw_size = 0;
})

unfoldable pub read_next_packet :
    Endian → ℕ → RawVrtFileReader → Run (Option PacketVariant × RawVrtFileReader)
unfolding failed
read_next_packet host max_packet_words r = read_next_span host max_packet_words r >>= λ got.
    if length got.0 == 0 && is_eof got.1.last_error
    then done (none, got.1)
    else if length got.0 == 0
    then done (some (failed got.1.last_error), got.1)
    else (parse_packet host (to got.0) (length got.0) >>= λ pkt. done (some pkt, got.1))
