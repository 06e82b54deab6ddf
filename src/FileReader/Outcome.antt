-- ===== src/FileReader/Outcome.antt =====
-- What a call of `read_next` of raw_vrt_file_reader.hpp may find, do and leave.
use vrtio.Common.{ℕ, suc, Run, done, ◌+◌, ◌*◌, ◌≤◌, ◌<◌, ◌≡◌, ◌⊎◌, List, length, take, slice, true}
use vrtio.Buffer.{Endian}
use vrtio.Buffer.Access.{word_at}
use vrtio.Types.{ValidationError, buffer_too_small, invalid_packet_type, size_field_mismatch}
use vrtio.Header.{decode_header}
use vrtio.FileReader.{RawVrtFileReader, Read, is_eof}
use vrtio.FileReader.Steps.{IsHeader}

module _ (host : Endian) (max_packet_words : ℕ) (contents : List ℕ)
    (offset file_size packets : ℕ) where
  abbrev pub word : ℕ
  word = word_at host 4 contents offset

  abbrev pub size : ℕ
  size = (decode_header word).size_words * 4

  -- What a call of `read_next` finds in the file at its offset, and does.
  pub data Outcome (buffer_size : ℕ) (got : Read) : Type 0 where
    ended :
        file_size < offset + 4
        → is_eof got.result ≡ true
        → got.reader.current_offset ≡ offset
        → got.reader.packets_read ≡ packets
        → Outcome buffer_size got
    delivered :
        IsHeader host max_packet_words word
        → offset + size ≤ file_size
        → got.result.error ≡ ValidationError.none
        → got.result.packet_size_bytes ≡ size
        → take size got.buffer ≡ slice contents offset size
        → got.reader.current_offset ≡ offset + size
        → got.reader.packets_read ≡ suc packets
        → Outcome buffer_size got
    refused :
        offset + 4 ≤ file_size
        → ¬ (IsHeader host max_packet_words word)
        → (got.result.error ≡ invalid_packet_type) ⊎ (got.result.error ≡ size_field_mismatch)
        → got.reader.current_offset ≡ offset + 4
        → got.reader.packets_read ≡ packets
        → Outcome buffer_size got
    held :
        offset + 4 ≤ file_size
        → IsHeader host max_packet_words word
        → (buffer_size < size) ⊎ (file_size < offset + size)
        → got.result.error ≡ buffer_too_small
        → got.result.packet_size_bytes ≡ size
        → got.result.buffer_size_required ≡ size
        → got.reader.current_offset ≡ offset
        → got.reader.packets_read ≡ packets
        → Outcome buffer_size got

  -- What holds after each of them.
  pub record Leaves (buffer : List ℕ) (got : Read) : Type 0 where
    pub same : got.reader.file.contents ≡ contents
    pub same_size : got.reader.file_size ≡ file_size
    pub placed : got.reader.file.position ≡ got.reader.current_offset
    pub inside : got.reader.current_offset ≤ file_size
    pub room : length got.buffer ≡ length buffer

module _ (host : Endian) (max_packet_words : ℕ) (contents : List ℕ) (offset file_size packets : ℕ)
    (buffer : List ℕ) (buffer_size : ℕ) where
  pub record Reads (run : Run Read) : Type 0 where
    pub got : Read
    pub returns : run ≡ done got
    pub leaves : Leaves host max_packet_words contents offset file_size packets buffer got
    pub outcome : Outcome host max_packet_words contents offset file_size packets buffer_size got

-- The same of a reader.
abbrev pub ReadsOf : Endian → ℕ → RawVrtFileReader → List ℕ → ℕ → Run Read → Type 0
ReadsOf host max_packet_words r buffer buffer_size run =
    Reads host max_packet_words r.file.contents r.current_offset r.file_size r.packets_read buffer
      buffer_size run
