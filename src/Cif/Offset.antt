-- ===== src/Cif/Offset.antt =====
-- detail/cif.hpp, detail/variable_field_dispatch.hpp and the two `compute_size_words`: where a CIF field stands in a packet.
-- `uint32_t` and `size_t` sums are cut to 32 and 64 bits where they are formed.
use vrtio.Common.{
  ℕ, zero, suc, ◌+◌, ◌*◌, ◌/◌, bit_and, ◌>>>◌, u16, u32, u64, size_max, List, Bool, ◌&&◌, ◌||◌, not,
  ◌==◌, ltb, leb, if◌then◌else◌, Run, done, ◌>>=◌,
}
use mathlib.Core.Option.{Option, none, some}
use vrtio.Buffer.{Endian, read_u32}
use vrtio.Cif.{
  FieldInfo, field_at, has_bit, cif0_fields, cif1_fields, cif2_fields, cif3_fields, cif1_enable_bit,
  cif2_enable_bit, cif3_enable_bit,
}

-- The words of the two variable fields, from their first word.
unfoldable pub gps_words : ℕ → ℕ
gps_words char_count = 1 + u32 (char_count + 3) / 4

unfoldable pub assoc_words : ℕ → ℕ
assoc_words counts_word =
    1 + u16 (bit_and (counts_word >>> 16) 0xFFFF) + u16 (bit_and counts_word 0xFFFF)

-- `FieldTraits<0, 9>::compute_size_words`, which does not cut its counts to 16 bits.
unfoldable pub assoc_trait_words : ℕ → ℕ
assoc_trait_words counts = u32 (u32 (1 + (counts >>> 16)) + bit_and counts 0xFFFF)

-- `FieldTraits<0, 10>::compute_size_words`.
unfoldable pub gps_trait_words : ℕ → ℕ
gps_trait_words count = 1 + u32 (count + 3) / 4

module _ (host : Endian) (buffer : List ℕ) where
  unfoldable pub read_gps_ascii_length_words : ℕ → Run ℕ
  read_gps_ascii_length_words offset = do
    char_count ← read_u32 host buffer offset
    done (gps_words char_count)

  unfoldable pub read_context_assoc_length_words : ℕ → Run ℕ
  read_context_assoc_length_words offset = do
    counts_word ← read_u32 host buffer offset
    done (assoc_words counts_word)

  -- The two `compute_size_words` of field_traits.hpp.
  unfoldable pub context_assoc_trait_size : ℕ → Run ℕ
  context_assoc_trait_size offset = do
    counts ← read_u32 host buffer offset
    done (assoc_trait_words counts)

  unfoldable pub gps_ascii_trait_size : ℕ → Run ℕ
  gps_ascii_trait_size offset = do count ← read_u32 host buffer offset; done (gps_trait_words count)

  unfoldable pub compute_variable_field_size : ℕ → ℕ → ℕ → Run ℕ
  compute_variable_field_size cif_word bit offset =
      if cif_word == 0 && bit == 9
      then context_assoc_trait_size offset
      else if cif_word == 0 && bit == 10
      then gps_ascii_trait_size offset
      else done size_max

-- `for (bit = 31; bit >= low; --bit)` over a table of fixed fields, with `n` bits left.
unfoldable pub add_fixed : List FieldInfo → ℕ → ℕ → ℕ → ℕ → ℕ
add_fixed table cif low zero offset_words = offset_words
add_fixed table cif low (suc bit) offset_words =
    let next =
      if leb low bit && has_bit cif bit
      then u64 (offset_words + (field_at table bit).size_words)
      else offset_words in
    add_fixed table cif low bit next

-- What follows a loop that may return early: `none` is the return of the error indicator.
unfoldable pub go_on : Option ℕ → (ℕ → Run (Option ℕ)) → Run (Option ℕ)
go_on none next = done none
go_on (some offset_words) next = next offset_words

module _ (variable_words : ℕ → ℕ → ℕ → Run (Option ℕ))
    (cif0 base_offset_bytes buffer_size : ℕ) where
  -- One round of the loop over CIF0: `variable_words bit field_offset offset_words` is its branch on a
  -- variable field whose first word is in the buffer.
  unfoldable pub cif0_round : ℕ → ℕ → Run (Option ℕ)
  cif0_round bit offset_words =
      let field_offset = u64 (base_offset_bytes + u64 (offset_words * 4)) in
      if not (has_bit cif0 bit)
      then done (some offset_words)
      else if (field_at cif0_fields bit).is_variable
      then (if ltb buffer_size (u64 (field_offset + 4))
          then done none
          else variable_words bit field_offset offset_words)
      else done (some (u64 (offset_words + (field_at cif0_fields bit).size_words)))

  unfoldable pub add_cif0 : ℕ → ℕ → ℕ → Run (Option ℕ)
  add_cif0 low zero offset_words = done (some offset_words)
  add_cif0 low (suc bit) offset_words =
      let rest : ℕ → Run (Option ℕ) = add_cif0 low bit in
      if leb low bit
      then (cif0_round bit offset_words >>= λ r. go_on r rest)
      else done (some offset_words)

-- The loops over CIF1 to CIF3.
unfoldable pub add_later : ℕ → ℕ → ℕ → ℕ → ℕ → ℕ → ℕ → ℕ
add_later cif0 cif1 cif2 cif3 target_cif_word target_bit w0 =
    let w1 =
      if leb 1 target_cif_word && has_bit cif0 cif1_enable_bit
      then add_fixed cif1_fields cif1 (if target_cif_word == 1 then suc target_bit else 0) 32 w0
      else w0 in
    let w2 =
      if leb 2 target_cif_word && has_bit cif0 cif2_enable_bit
      then add_fixed cif2_fields cif2 (if target_cif_word == 2 then suc target_bit else 0) 32 w1
      else w1 in
    if target_cif_word == 3 && has_bit cif0 cif3_enable_bit
    then add_fixed cif3_fields cif3 (suc target_bit) 32 w2
    else w2

-- The function, by its branch on variable fields.
unfoldable pub offset_runtime : (ℕ → ℕ → ℕ → Run (Option ℕ)) → ℕ → ℕ → ℕ → ℕ → ℕ → ℕ → ℕ → ℕ → Run ℕ
offset_runtime variable_words cif0 cif1 cif2 cif3 target_cif_word target_bit base size =
    (add_cif0 variable_words cif0 base size (if target_cif_word == 0 then suc target_bit else 0) 32
        0
      >>= λ r. done (elim r [
        | none ↦ size_max
        | some w ↦ u64 (
            base
            + u64 (
                (if target_cif_word == 0
                  then w
                  else add_later cif0 cif1 cif2 cif3 target_cif_word target_bit w)
                * 4))
      ]))

module _ (host : Endian) (buffer : List ℕ) where
  -- The branch of variable_field_dispatch.hpp.
  unfoldable pub dispatch_branch : ℕ → ℕ → ℕ → Run (Option ℕ)
  dispatch_branch bit field_offset offset_words = do
    var_size ← compute_variable_field_size host buffer 0 bit field_offset
    done (if var_size == size_max then none else some (u64 (offset_words + var_size)))

  -- `detail::calculate_field_offset_runtime`.
  unfoldable pub calculate_field_offset_runtime : ℕ → ℕ → ℕ → ℕ → ℕ → ℕ → ℕ → ℕ → Run ℕ
  calculate_field_offset_runtime = offset_runtime dispatch_branch

-- The template parameters CIF0 to CIF3 are arguments; the caller meets the static assertion.
abbrev pub is_enable_bit : ℕ → Bool
is_enable_bit bit = bit == cif1_enable_bit || (bit == cif2_enable_bit || bit == cif3_enable_bit)

-- The loop over CIF0 that skips the enable bits.
unfoldable pub add_cif0_ct : ℕ → ℕ → ℕ → ℕ → ℕ
add_cif0_ct cif0 low zero offset_words = offset_words
add_cif0_ct cif0 low (suc bit) offset_words =
    let next =
      if leb low bit && (not (is_enable_bit bit) && has_bit cif0 bit)
      then u64 (offset_words + (field_at cif0_fields bit).size_words)
      else offset_words in
    add_cif0_ct cif0 low bit next

unfoldable pub calculate_field_offset_ct : ℕ → ℕ → ℕ → ℕ → ℕ → ℕ → ℕ
calculate_field_offset_ct cif0 cif1 cif2 cif3 target_cif target_bit =
    let w0 = add_cif0_ct cif0 (if target_cif == 0 then suc target_bit else 0) 32 0 in
    let w1 =
      if leb 1 target_cif && not (cif1 == 0)
      then add_fixed cif1_fields cif1 (if target_cif == 1 then suc target_bit else 0) 32 w0
      else w0 in
    let w2 =
      if leb 2 target_cif && not (cif2 == 0)
      then add_fixed cif2_fields cif2 (if target_cif == 2 then suc target_bit else 0) 32 w1
      else w1 in
    let w3 =
      if target_cif == 3 && not (cif3 == 0)
      then add_fixed cif3_fields cif3 (suc target_bit) 32 w2
      else w2 in
    u64 ((if target_cif == 0 then w0 else w3) * 4)

unfoldable pub calculate_context_size_ct : ℕ → ℕ → ℕ → ℕ → ℕ
calculate_context_size_ct cif0 cif1 cif2 cif3 =
    let w0 = add_cif0_ct cif0 0 32 0 in
    let w1 = if not (cif1 == 0) then add_fixed cif1_fields cif1 0 32 w0 else w0 in
    let w2 = if not (cif2 == 0) then add_fixed cif2_fields cif2 0 32 w1 else w1 in
    if not (cif3 == 0) then add_fixed cif3_fields cif3 0 32 w2 else w2
