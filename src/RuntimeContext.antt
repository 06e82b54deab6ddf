-- ===== src/RuntimeContext.antt =====
-- detail/runtime_context_packet.hpp: the parser of context packets.
pub mod Layout
pub mod Answers
pub mod Counting
pub mod CifWords
pub mod Safety
pub mod Access
pub mod Widths
pub mod Fields
pub mod Reads
pub mod Order
pub mod Sample
mod Tests
use vrtio.Common.{
  ℕ, zero, suc, ◌+◌, ◌-◌, ◌*◌, ◌/◌, ◌%◌, ◌^◌, Bool, true, false, not, ◌&&◌, ◌||◌, ltb, ◌==◌, u64,
  if◌then◌else◌, Run, done, ◌>>=◌,
}
use mathlib.Core.Option.{Option, none, some}
use vrtio.Buffer.{Endian, read_u32, read_u64}
use vrtio.ClassId.{ClassIdValue, from_words}
use vrtio.Memory.{Pointer, is_null, memory, Span, empty_span}
use vrtio.Types.{
  PacketType, TsiType, TsfType, has_tsi, has_tsf, ValidationError, buffer_too_small,
  invalid_packet_type, unsupported_field, size_field_mismatch, vrt_word_size,
}
use vrtio.Header.{DecodedHeader, zero_header, decode_header, has_stream_id_field}
use vrtio.Cif.{
  FieldInfo, field_at, has_bit, cif0_fields, cif1_fields, cif2_fields, cif3_fields, cif1_enable_bit,
  cif2_enable_bit, cif3_enable_bit, context_assoc_bit, gps_ascii_bit,
}
use vrtio.Cif.Masks.{
  has_unsupported, cif0_supported_mask, cif1_supported_mask, cif2_supported_mask,
  cif3_supported_mask,
}
use vrtio.Cif.Offset.{add_fixed, read_gps_ascii_length_words, read_context_assoc_length_words}

pub record VariableFieldInfo : Type 0 where
  pub present : Bool
  pub offset_bytes : ℕ
  pub size_words : ℕ

abbrev pub absent : VariableFieldInfo
absent = record { present = false; offset_bytes = 0; size_words = 0 }

pub record ContextStructure : Type 0 where
  pub header : DecodedHeader
  pub has_stream_id : Bool
  pub cif0 : ℕ
  pub cif1 : ℕ
  pub cif2 : ℕ
  pub cif3 : ℕ
  pub gps_ascii : VariableFieldInfo
  pub context_assoc : VariableFieldInfo
  pub context_base_bytes : ℕ
  pub calculated_size_words : ℕ

abbrev pub empty_context : ContextStructure
empty_context = record {
  header = zero_header;
  has_stream_id = false;
  cif0 = 0;
  cif1 = 0;
  cif2 = 0;
  cif3 = 0;
  gps_ascii = absent;
  context_assoc = absent;
  context_base_bytes = 0;
  calculated_size_words = 0;
}

pub record RuntimeContextPacket : Type 0 where
  pub buffer : Pointer
  pub buffer_size : ℕ
  pub error : ValidationError
  pub structure : ContextStructure

-- The error that a return gives, and the structure that it leaves.
abbrev pub Verdict : Type 0
Verdict = ValidationError × ContextStructure

-- `decoded.type` is one of the two context types.
unfoldable pub is_context_type : PacketType → Bool
is_context_type PacketType.context = true
is_context_type PacketType.extension_context = true
is_context_type _ = false

-- The words before CIF0 (step 6). Sums of words stay below 2^64: the header's fields take at most 11,
-- the fixed fields 1664, and a variable field at most 2^30 + 1.
abbrev pub stream_words : ContextStructure → ℕ
stream_words s = if s.has_stream_id then 1 + 1 else 1

abbrev pub class_words : ContextStructure → ℕ
class_words s = if s.header.has_class_id then stream_words s + 2 else stream_words s

abbrev pub prologue_words_of : ContextStructure → ℕ
prologue_words_of s =
    class_words s
    + (if has_tsi s.header.tsi then 1 else 0)
    + (if has_tsf s.header.tsf then 2 else 0)

-- The loop over CIF0 that leaves out the variable fields, with `n` bits left.
unfoldable pub add_cif0_fixed : ℕ → ℕ → ℕ → ℕ
add_cif0_fixed cif0 zero words = words
add_cif0_fixed cif0 (suc bit) words =
    let next =
      if not (bit == gps_ascii_bit || bit == context_assoc_bit) && has_bit cif0 bit
      then u64 (words + (field_at cif0_fields bit).size_words)
      else words in
    add_cif0_fixed cif0 bit next

-- The three loops over CIF1 to CIF3.
unfoldable pub add_cif_words : ContextStructure → ℕ → ℕ
add_cif_words s w0 =
    let w1 = if has_bit s.cif0 cif1_enable_bit then add_fixed cif1_fields s.cif1 0 32 w0 else w0 in
    let w2 = if has_bit s.cif0 cif2_enable_bit then add_fixed cif2_fields s.cif2 0 32 w1 else w1 in
    if has_bit s.cif0 cif3_enable_bit then add_fixed cif3_fields s.cif3 0 32 w2 else w2

-- The checks of the four CIF words against the masks.
unfoldable pub has_unsupported_bits : ContextStructure → Bool
has_unsupported_bits s =
    has_unsupported cif0_supported_mask s.cif0
    || ((has_bit s.cif0 cif1_enable_bit && has_unsupported cif1_supported_mask s.cif1)
        || ((has_bit s.cif0 cif2_enable_bit && has_unsupported cif2_supported_mask s.cif2)
            || (has_bit s.cif0 cif3_enable_bit && has_unsupported cif3_supported_mask s.cif3)))

-- Steps 9 and 10, with all the fields counted.
unfoldable pub check_size : ℕ → ℕ → ContextStructure → Verdict
check_size offset_words fields s =
    let t = record s { calculated_size_words = u64 (offset_words + add_cif_words s fields) } in
    if not (t.calculated_size_words == t.header.size_words)
    then (size_field_mismatch, t)
    else (ValidationError.none, t)

-- The bytes of `words` words are more than the buffer has.
abbrev pub beyond : ℕ → ℕ → Bool
beyond buffer_size words = ltb buffer_size (u64 (words * 4))

module _ (host : Endian) (buffer : Pointer) (buffer_size : ℕ) where
  -- Step 8, the association lists.
  unfoldable pub count_context_assoc : ℕ → ℕ → ContextStructure → Run Verdict
  count_context_assoc offset_words fields s =
      let offset = u64 ((offset_words + fields) * 4) in
      let found = record s {
        context_assoc = record { present = true; offset_bytes = offset; size_words = 0 };
      } in
      if not (has_bit s.cif0 context_assoc_bit)
      then done (check_size offset_words fields s)
      else if beyond buffer_size (offset_words + fields + 1)
      then done (buffer_too_small, found)
      else (do
        words ← read_context_assoc_length_words host (memory buffer) offset
        let t = record s {
          context_assoc = record { present = true; offset_bytes = offset; size_words = words };
        } in
            done (
              if beyond buffer_size (offset_words + fields + words)
              then (buffer_too_small, t)
              else check_size offset_words (fields + words) t))

  -- Step 8, the GPS text, which comes before the association lists.
  unfoldable pub count_gps_ascii : ℕ → ℕ → ContextStructure → Run Verdict
  count_gps_ascii offset_words fields s =
      let offset = u64 ((offset_words + fields) * 4) in
      let found = record s {
        gps_ascii = record { present = true; offset_bytes = offset; size_words = 0 };
      } in
      if not (has_bit s.cif0 gps_ascii_bit)
      then count_context_assoc offset_words fields s
      else if beyond buffer_size (offset_words + fields + 1)
      then done (buffer_too_small, found)
      else (do
        words ← read_gps_ascii_length_words host (memory buffer) offset
        let t = record s {
          gps_ascii = record { present = true; offset_bytes = offset; size_words = words };
        } in
            if beyond buffer_size (offset_words + fields + words)
            then done (buffer_too_small, t)
            else count_context_assoc offset_words (fields + words) t)

  -- The end of step 7 and the fixed fields of step 8.
  unfoldable pub count_fields : ℕ → ContextStructure → Run Verdict
  count_fields offset_words s =
      if has_unsupported_bits s
      then done (unsupported_field, s)
      else count_gps_ascii offset_words (add_cif0_fixed s.cif0 32 0)
          (record s { context_base_bytes = u64 (offset_words * 4) })

  -- Step 7: the words CIF3, CIF2, CIF1 and CIF0 at `offset_words`.
  unfoldable pub read_cif3 : ℕ → ContextStructure → Run Verdict
  read_cif3 offset_words s =
      if not (has_bit s.cif0 cif3_enable_bit)
      then count_fields offset_words s
      else if beyond buffer_size (offset_words + 1)
      then done (buffer_too_small, s)
      else (do
        word ← read_u32 host (memory buffer) (offset_words * 4)
        count_fields (offset_words + 1) (record s { cif3 = word }))

  unfoldable pub read_cif2 : ℕ → ContextStructure → Run Verdict
  read_cif2 offset_words s =
      if not (has_bit s.cif0 cif2_enable_bit)
      then read_cif3 offset_words s
      else if beyond buffer_size (offset_words + 1)
      then done (buffer_too_small, s)
      else (do
        word ← read_u32 host (memory buffer) (offset_words * 4)
        read_cif3 (offset_words + 1) (record s { cif2 = word }))

  unfoldable pub read_cif1 : ℕ → ContextStructure → Run Verdict
  read_cif1 offset_words s =
      if not (has_bit s.cif0 cif1_enable_bit)
      then read_cif2 offset_words s
      else if beyond buffer_size (offset_words + 1)
      then done (buffer_too_small, s)
      else (do
        word ← read_u32 host (memory buffer) (offset_words * 4)
        read_cif2 (offset_words + 1) (record s { cif1 = word }))

  unfoldable pub read_cif0 : ℕ → ContextStructure → Run Verdict
  read_cif0 offset_words s =
      if beyond buffer_size (offset_words + 1) then done (buffer_too_small, s) else (do
        word ← read_u32 host (memory buffer) (offset_words * 4)
        read_cif1 (offset_words + 1) (record s { cif0 = word }))

  -- Steps 3 to 6, with the header decoded.
  unfoldable pub check_header : ContextStructure → Run Verdict
  check_header s =
      if not (is_context_type s.header.type)
      then done (invalid_packet_type, s)
      else if s.header.bit_26
      then done (unsupported_field, s)
      else if ltb buffer_size (s.header.size_words * 4)
      then done (buffer_too_small, s)
      else if s.has_stream_id && beyond buffer_size (1 + 1)
      then done (buffer_too_small, s)
      else if s.header.has_class_id && beyond buffer_size (stream_words s + 2)
      then done (buffer_too_small, s)
      else read_cif0 (prologue_words_of s) s

  unfoldable pub validate_internal : Run Verdict
  validate_internal =
      if is_null buffer || ltb buffer_size 4 then done (buffer_too_small, empty_context) else (do
        word ← read_u32 host (memory buffer) 0
        check_header (record empty_context {
          header = decode_header word;
          has_stream_id = has_stream_id_field (decode_header word).type;
        }))

  unfoldable pub parse : Run RuntimeContextPacket
  parse = do
    (error, structure) ← validate_internal
    done (record {
      buffer = buffer;
      buffer_size = buffer_size;
      error = error;
      structure = structure;
    })
