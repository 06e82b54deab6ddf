-- ===== src/RuntimeContext/Access.antt =====
-- detail/runtime_context_packet.hpp and detail/field_access.hpp: the accessors of a context packet.
use vrtio.Common.{
  ℕ, ◌+◌, ◌*◌, ◌&&◌, ◌||◌, ◌==◌, u64, size_max, List, Bool, true, false, not, if◌then◌else◌, Run,
  done, ◌>>=◌,
}
use mathlib.Core.Option.{Option, none, some}
use vrtio.Buffer.{Endian, read_u32, read_u64}
use vrtio.ClassId.{ClassIdValue, from_words}
use vrtio.Memory.{memory, Span, empty_span}
use vrtio.Types.{TsfType, sample_count, real_time, free_running, has_tsi, has_tsf, ValidationError}
use vrtio.Cif.{FieldInfo, field_at, has_bit, cif0_fields, cif1_fields, cif2_fields, cif3_fields}
use vrtio.Cif.Offset.{calculate_field_offset_runtime, compute_variable_field_size}
use vrtio.RuntimeContext.{RuntimeContextPacket, ContextStructure}

-- `error_ == ValidationError::none`.
unfoldable pub is_valid : RuntimeContextPacket → Bool
is_valid p = elim p.error [ ValidationError.none ↦ true | _ ↦ false ]

unfoldable pub packet_size_bytes : RuntimeContextPacket → ℕ
packet_size_bytes p = p.structure.header.size_words * 4

unfoldable pub as_bytes : RuntimeContextPacket → Span
unfolding is_valid packet_size_bytes
as_bytes p =
    if not (is_valid p) then empty_span else (record { offset = 0; size = packet_size_bytes p })

-- `offset` after each of the header's optional fields.
abbrev pub after_stream : RuntimeContextPacket → ℕ
after_stream p = if p.structure.has_stream_id then 4 + 4 else 4

abbrev pub after_class : RuntimeContextPacket → ℕ
after_class p = if p.structure.header.has_class_id then after_stream p + 8 else after_stream p

abbrev pub after_integer : RuntimeContextPacket → ℕ
after_integer p = if has_tsi p.structure.header.tsi then after_class p + 4 else after_class p

module _ (host : Endian) where
  unfoldable pub stream_id : RuntimeContextPacket → Run (Option ℕ)
  unfolding is_valid
  stream_id p =
      if not (is_valid p) || not p.structure.has_stream_id
      then done none
      else (do id ← read_u32 host (memory p.buffer) 4; done (some id))

  unfoldable pub class_id : RuntimeContextPacket → Run (Option ClassIdValue)
  unfolding is_valid
  class_id p = if not (is_valid p) || not p.structure.header.has_class_id then done none else (do
    word0 ← read_u32 host (memory p.buffer) (after_stream p)
    word1 ← read_u32 host (memory p.buffer) (after_stream p + 4)
    done (some (from_words word0 word1)))

  unfoldable pub timestamp_integer : RuntimeContextPacket → Run (Option ℕ)
  unfolding is_valid has_tsi
  timestamp_integer p =
      if not (is_valid p) || not (has_tsi p.structure.header.tsi)
      then done none
      else (do seconds ← read_u32 host (memory p.buffer) (after_class p); done (some seconds))

  -- The `switch` on the kind of fraction.
  unfoldable pub fraction_at : TsfType → List ℕ → ℕ → Run (Option ℕ)
  fraction_at TsfType.none buffer offset = done none
  fraction_at sample_count buffer offset = read_u64 host buffer offset >>= λ v. done (some v)
  fraction_at real_time buffer offset = read_u64 host buffer offset >>= λ v. done (some v)
  fraction_at free_running buffer offset = read_u32 host buffer offset >>= λ v. done (some v)

  unfoldable pub timestamp_fractional : RuntimeContextPacket → Run (Option ℕ)
  unfolding is_valid has_tsf
  timestamp_fractional p =
      if not (is_valid p) || not (has_tsf p.structure.header.tsf)
      then done none
      else fraction_at p.structure.header.tsf (memory p.buffer) (after_integer p)

unfoldable pub is_field_present : ℕ → ℕ → ContextStructure → Bool
is_field_present word bit s =
    if word == 0
    then has_bit s.cif0 bit
    else if word == 1
    then has_bit s.cif1 bit
    else if word == 2
    then has_bit s.cif2 bit
    else if word == 3
    then has_bit s.cif3 bit
    else false

-- `field_table`, the table of a CIF word.
unfoldable pub field_table : ℕ → List FieldInfo
field_table word =
    if word == 0
    then cif0_fields
    else if word == 1
    then cif1_fields
    else if word == 2
    then cif2_fields
    else cif3_fields

-- The members of `FieldProxy` but the packet that it points to.
pub record FieldProxy : Type 0 where
  pub offset_bytes : ℕ
  pub size_bytes : ℕ
  pub present : Bool

abbrev pub no_field : FieldProxy
no_field = record { offset_bytes = 0; size_bytes = 0; present = false }

-- `VariableFieldTrait`: the traits of GPS text and association lists have `compute_size_words`.
abbrev pub is_variable_trait : ℕ → ℕ → Bool
is_variable_trait word bit = word == 0 && (bit == 9 || bit == 10)

module _ (host : Endian) where
  -- `make_field_proxy` on a runtime packet, which is its `operator[]`.
  unfoldable pub make_field_proxy : RuntimeContextPacket → ℕ → ℕ → Run FieldProxy
  unfolding is_field_present field_table
  make_field_proxy p word bit =
      let s = p.structure in
      if not (is_field_present word bit s)
      then done no_field
      else (calculate_field_offset_runtime host (memory p.buffer) s.cif0 s.cif1 s.cif2 s.cif3 word
            bit s.context_base_bytes p.buffer_size
          >>= λ field_offset.
              (if field_offset == size_max
                then done no_field
                else if is_variable_trait word bit
                then (compute_variable_field_size host (memory p.buffer) word bit field_offset
                    >>= λ size_words. done (record {
                      offset_bytes = field_offset;
                      size_bytes = u64 (size_words * 4);
                      present = true;
                    }))
                else done (record {
                  offset_bytes = field_offset;
                  size_bytes = (field_at (field_table word) bit).size_words * 4;
                  present = true;
                })))

-- `FieldProxy::bytes`.
unfoldable pub bytes : FieldProxy → Span
bytes f =
    if not f.present then empty_span else (record { offset = f.offset_bytes; size = f.size_bytes })
