-- ===== src/FileReader.antt =====
-- utils/fileio/raw_vrt_file_reader.hpp: packets out of a file, one after the other.
-- A `FILE` is its bytes and the position of the next read, so a short read is one that meets the end.
-- Offsets are not cut to 64 bits: a file has fewer than 2 ^ 63 bytes and a packet at most 2 ^ 18.
pub mod Steps
pub mod Outcome
pub mod Checked
pub mod Next
pub mod Spans
pub mod Loop
pub mod Packets
mod Tests
use vrtio.Common.{
  ℕ, zero, suc, ◌+◌, ◌-◌, ◌*◌, List, [], length, take, slice, Bool, true, false, not, ◌&&◌, ◌||◌,
  ltb, leb, ◌==◌, if◌then◌else◌, Run, done, ◌>>=◌,
}
use mathlib.Core.Option.{Option, none, some}
use vrtio.Buffer.{Endian, read_u32, copy_to}
use vrtio.Types.{
  PacketType, ValidationError, buffer_too_small, invalid_packet_type, size_field_mismatch,
  vrt_word_size,
}
use vrtio.Header.{DecodedHeader, decode_header, is_valid_packet_type}

pub record File : Type 0 where
  pub contents : List ℕ
  pub position : ℕ

-- `std::fread` of `n` bytes: those that were read, and the file behind them.
unfoldable pub fread : File → ℕ → List ℕ × File
fread f n =
    let got = slice f.contents f.position n in
    (got, record f { position = f.position + length got })

-- `std::fseek(file, offset, SEEK_SET)`.
unfoldable pub fseek : File → ℕ → File
fseek f offset = record f { position = offset }

pub record ReadResult : Type 0 where
  pub error : ValidationError
  pub type : PacketType
  pub packet_size_bytes : ℕ
  pub buffer_size_required : ℕ
  pub file_offset : ℕ
  pub header : ℕ

-- `ReadResult{}`.
abbrev pub no_result : ReadResult
no_result = record {
  error = ValidationError.none;
  type = PacketType.signal_data_no_id;
  packet_size_bytes = 0;
  buffer_size_required = 0;
  file_offset = 0;
  header = 0;
}

unfoldable pub is_valid : ReadResult → Bool
is_valid r = elim r.error [ ValidationError.none ↦ true | _ ↦ false ]

unfoldable pub is_eof : ReadResult → Bool
is_eof r = elim r.error [ buffer_too_small ↦ r.packet_size_bytes == 0 | _ ↦ false ]

pub record RawVrtFileReader : Type 0 where
  pub file : File
  pub file_size : ℕ
  pub current_offset : ℕ
  pub packets_read : ℕ
  pub scratch_buffer : List ℕ
  pub last_error : ReadResult

-- The constructor, for a file that can be opened; what is in the scratch buffer is not set.
unfoldable pub open_file : List ℕ → List ℕ → RawVrtFileReader
open_file contents scratch = record {
  file = record { contents = contents; position = 0 };
  file_size = length contents;
  current_offset = 0;
  packets_read = 0;
  scratch_buffer = scratch;
  last_error = no_result;
}

unfoldable pub rewind : RawVrtFileReader → RawVrtFileReader
unfolding fseek
rewind r = record r {
  file = fseek r.file 0;
  current_offset = 0;
  packets_read = 0;
  last_error = no_result;
}

-- What `read_next` returns, the caller's buffer and the reader it leaves.
pub record Read : Type 0 where
  pub result : ReadResult
  pub buffer : List ℕ
  pub reader : RawVrtFileReader

abbrev pub read_as : ReadResult → List ℕ → RawVrtFileReader → Read
read_as result buffer reader = record { result = result; buffer = buffer; reader = reader }

module _ (host : Endian) (max_packet_words : ℕ) where
  -- The copy of the header and the read of what follows it, with the file behind the header word.
  unfoldable pub read_body : RawVrtFileReader → List ℕ → List ℕ → ReadResult → Run Read
  unfolding fread fseek
  read_body r header_raw buffer result = copy_to buffer 0 header_raw >>= λ with_header.
      let remaining = result.packet_size_bytes - vrt_word_size in
      let rest = fread r.file remaining in
      (if ltb 0 remaining then copy_to with_header vrt_word_size rest.0 else done with_header)
      >>= λ filled. done (
          if ltb 0 remaining && not (length rest.0 == remaining)
          then read_as (record result { error = buffer_too_small }) filled
              (record r { file = fseek rest.1 r.current_offset })
          else read_as (record result { error = ValidationError.none }) filled
              (record r {
                file = if ltb 0 remaining then rest.1 else r.file;
                current_offset = r.current_offset + result.packet_size_bytes;
                packets_read = suc r.packets_read;
              }))

  -- The checks of a header word, with the file behind it.
  unfoldable pub read_checked : RawVrtFileReader → List ℕ → List ℕ → ℕ → ReadResult → ℕ → Run Read
  unfolding fseek
  read_checked r header_raw buffer buffer_size result header_host =
      let decoded = decode_header header_host in
      let known = record result { header = header_host; type = decoded.type } in
      let skipped = record r { current_offset = r.current_offset + vrt_word_size } in
      let bytes = decoded.size_words * vrt_word_size in
      let sized = record known { packet_size_bytes = bytes; buffer_size_required = bytes } in
      let back = record r { file = fseek r.file r.current_offset } in
      if not (is_valid_packet_type decoded.type)
      then done (read_as (record known { error = invalid_packet_type }) buffer skipped)
      else if decoded.size_words == 0 || ltb max_packet_words decoded.size_words
      then done (read_as (record sized { error = size_field_mismatch }) buffer skipped)
      else if ltb buffer_size bytes
      then done (read_as (record sized { error = buffer_too_small }) buffer back)
      else if ltb r.file_size (r.current_offset + bytes)
      then done (read_as (record sized { error = buffer_too_small }) buffer back)
      else read_body r header_raw buffer sized

  unfoldable pub read_next : RawVrtFileReader → List ℕ → ℕ → Run Read
  unfolding fread
  read_next r buffer buffer_size =
      let result = record no_result { file_offset = r.current_offset } in
      let ended = record result { error = buffer_too_small } in
      let word = fread r.file vrt_word_size in
      let behind = record r { file = word.1 } in
      if leb r.file_size r.current_offset
      then done (read_as ended buffer r)
      else if ltb (r.file_size - r.current_offset) vrt_word_size
      then done (read_as ended buffer r)
      else if not (length word.0 == vrt_word_size)
      then done (read_as ended buffer behind)
      else (do
        header_host ← read_u32 host word.0 0
        read_checked behind word.0 buffer buffer_size result header_host)

  -- The span, empty on an error, and the reader.
  unfoldable pub read_next_span : RawVrtFileReader → Run (List ℕ × RawVrtFileReader)
  unfolding is_valid
  read_next_span r = read_next r r.scratch_buffer (max_packet_words * vrt_word_size) >>= λ got.
      let after = record got.reader { scratch_buffer = got.buffer; last_error = got.result } in
      done
        ((if is_valid got.result then take got.result.packet_size_bytes got.buffer else []), after)

  module _ {ℓ} {C : Type ℓ} (callback : C → List ℕ → ReadResult → Bool × C) where
    -- `for_each_packet`: at most `fuel` rounds, `none` when they do not suffice. The callback keeps a
    -- state of its own.
    unfoldable pub for_each_packet :
        ℕ → ℕ → C → RawVrtFileReader → Run (Option (ℕ × C × RawVrtFileReader))
    for_each_packet zero processed c r = done none
    for_each_packet (suc fuel) processed c r = read_next_span r >>= λ got.
        let call = callback c got.0 got.1.last_error in
        let rest = for_each_packet fuel (suc processed) call.1 got.1 in
        if length got.0 == 0
        then done (some (processed, c, got.1))
        else if call.0
        then rest
        else done (some (suc processed, call.1, got.1))
