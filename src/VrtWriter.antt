-- ===== src/VrtWriter.antt =====
-- utils/fileio/vrt_file_writer.hpp and writer_status.hpp: packets that were parsed, into a file.
-- The bytes of a span are taken before the raw writer is called, so a span that leaves its buffer is a
-- `fault`. The error numbers are those of Linux.
pub mod Variants
mod Tests
use vrtio.Common.{
  ℕ, ◌*◌, List, Bool, true, false, not, ◌&&◌, ◌||◌, ◌==◌, if◌then◌else◌, Run, done, ◌>>=◌,
}
use vrtio.Memory.{Pointer, memory}
use vrtio.Buffer.{copy_from}
use vrtio.RuntimeData.{RuntimeDataPacket}
use vrtio.RuntimeData
use vrtio.RuntimeContext.{RuntimeContextPacket}
use vrtio.RuntimeContext.Access
use vrtio.Parser.{PacketVariant, data_packet, context_packet, invalid_packet}
use vrtio.FileWriter.{Written, RawVrtFileWriter}
use vrtio.FileWriter

pub data WriterStatus : Type 0 where
  ready write_error flush_error closed disk_full permission_denied invalid : WriterStatus

unfoldable pub map_errno_to_status : ℕ → WriterStatus
map_errno_to_status err =
    if err == 0
    then ready
    else if err == 28
    then disk_full
    else if err == 13 || err == 1
    then permission_denied
    else write_error

pub record VrtFileWriter (Os : Type 0) : Type 0 where
  pub raw_writer : RawVrtFileWriter Os
  pub high_level_status : WriterStatus

module _ {Os : Type 0} (write : Os → List ℕ → Written Os) (max_packet_words : ℕ) where
  -- A call of the raw writer, and the status when it answers true.
  unfoldable pub write_bytes : VrtFileWriter Os → Pointer → ℕ → ℕ → Run (Bool × VrtFileWriter Os)
  unfolding FileWriter.write_packet
  write_bytes w buffer offset size = copy_from (memory buffer) offset size >>= λ bytes.
      FileWriter.write_packet write max_packet_words w.raw_writer bytes >>= λ out. done (
        out.0,
        record w {
          raw_writer = out.1;
          high_level_status = if out.0 then ready else w.high_level_status;
        },
      )

  unfoldable pub write_data_packet :
      VrtFileWriter Os → RuntimeDataPacket → Run (Bool × VrtFileWriter Os)
  unfolding write_bytes RuntimeData.as_bytes
  write_data_packet w packet =
      let bytes = RuntimeData.as_bytes packet in write_bytes w packet.buffer bytes.offset bytes.size

  -- Without a look at whether the packet is valid.
  unfoldable pub write_context_packet :
      VrtFileWriter Os → RuntimeContextPacket → Run (Bool × VrtFileWriter Os)
  unfolding write_bytes Access.packet_size_bytes
  write_context_packet w packet = write_bytes w packet.buffer 0 (Access.packet_size_bytes packet)

  unfoldable pub write_packet : VrtFileWriter Os → PacketVariant → Run (Bool × VrtFileWriter Os)
  unfolding write_data_packet write_context_packet
  write_packet w (invalid_packet i) = done (false, record w { high_level_status = invalid })
  write_packet w (data_packet p) = write_data_packet w p
  write_packet w (context_packet p) = write_context_packet w p

  unfoldable pub flush : VrtFileWriter Os → Run (Bool × VrtFileWriter Os)
  unfolding FileWriter.flush FileWriter.has_error
  flush w = FileWriter.flush write max_packet_words w.raw_writer >>= λ out. done (
    out.0,
    record w {
      raw_writer = out.1;
      high_level_status =
          if not out.0 && FileWriter.has_error write max_packet_words out.1
          then flush_error
          else if out.0
          then ready
          else w.high_level_status;
    },
  )

  unfoldable pub status : VrtFileWriter Os → WriterStatus
  unfolding map_errno_to_status FileWriter.has_error
  status w = elim w.high_level_status [
    | ready ↦
        if FileWriter.has_error write max_packet_words w.raw_writer
        then map_errno_to_status w.raw_writer.last_errno
        else if not w.raw_writer.is_open
        then closed
        else ready
    | other ↦ other
  ]

  unfoldable pub clear_error : VrtFileWriter Os → VrtFileWriter Os
  unfolding FileWriter.clear_error
  clear_error w = record w {
    raw_writer = FileWriter.clear_error write max_packet_words w.raw_writer;
    high_level_status = ready;
  }
