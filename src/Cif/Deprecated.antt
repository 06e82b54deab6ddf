-- ===== src/Cif/Deprecated.antt =====
-- detail/cif.hpp: `cif::calculate_field_offset_runtime`, which is kept for compatibility, with loops of
-- its own.
use vrtio.Common.{
  ℕ, zero, suc, ◌+◌, ◌*◌, u64, size_max, List, ◌&&◌, ◌==◌, ltb, leb, if◌then◌else◌, Run, done,
  ◌>>=◌,
}
use mathlib.Core.Option.{Option, none, some}
use vrtio.Buffer.{Endian}
use vrtio.Cif.{
  FieldInfo, field_at, has_bit, cif0_fields, cif1_fields, cif2_fields, cif3_fields, cif1_enable_bit,
  cif2_enable_bit, cif3_enable_bit, context_assoc_bit, gps_ascii_bit,
}
use vrtio.Cif.Offset.{read_gps_ascii_length_words, read_context_assoc_length_words}

-- `for (bit = 31; bit >= low; --bit)` over CIF1, CIF2 or CIF3, with the bits that are left.
unfoldable pub deprecated_fixed : List FieldInfo → ℕ → ℕ → ℕ → ℕ → ℕ
deprecated_fixed table cif low zero offset_words = offset_words
deprecated_fixed table cif low (suc bit) offset_words =
    if leb low bit
    then deprecated_fixed table cif low bit (
        if has_bit cif bit
        then u64 (offset_words + (field_at table bit).size_words)
        else offset_words)
    else offset_words

module _ (host : Endian) (buffer : List ℕ) (cif0 base_offset_bytes buffer_size : ℕ) where
  -- One round of the loops over CIF0; `none` is the return of SIZE_MAX.
  unfoldable pub deprecated_round : ℕ → ℕ → Run (Option ℕ)
  deprecated_round bit offset_words =
      let info = field_at cif0_fields bit in
      let field_offset = u64 (base_offset_bytes + u64 (offset_words * 4)) in
      if has_bit cif0 bit
      then (if info.is_variable
          then (if ltb buffer_size (u64 (field_offset + 4))
              then done none
              else if bit == gps_ascii_bit
              then (read_gps_ascii_length_words host buffer field_offset >>= λ words.
                  done (some (u64 (offset_words + words))))
              else if bit == context_assoc_bit
              then (read_context_assoc_length_words host buffer field_offset >>= λ words.
                  done (some (u64 (offset_words + words))))
              else done (some offset_words))
          else done (some (u64 (offset_words + info.size_words))))
      else done (some offset_words)

  unfoldable pub deprecated_cif0 : ℕ → ℕ → ℕ → Run (Option ℕ)
  unfolding deprecated_round
  deprecated_cif0 low zero offset_words = done (some offset_words)
  deprecated_cif0 low (suc bit) offset_words =
      if leb low bit
      then (deprecated_round bit offset_words >>= λ r. elim r [
        | none ↦ done none
        | some words ↦ deprecated_cif0 low bit words
      ])
      else done (some offset_words)

-- The three blocks on CIF1, CIF2 and CIF3.
unfoldable pub deprecated_cif1 : ℕ → ℕ → ℕ → ℕ → ℕ → ℕ
unfolding deprecated_fixed
deprecated_cif1 cif0 cif1 target_cif_word target_bit w =
    if leb 1 target_cif_word && has_bit cif0 cif1_enable_bit
    then (if target_cif_word == 1
        then deprecated_fixed cif1_fields cif1 (suc target_bit) 32 w
        else deprecated_fixed cif1_fields cif1 0 32 w)
    else w

unfoldable pub deprecated_cif2 : ℕ → ℕ → ℕ → ℕ → ℕ → ℕ
unfolding deprecated_fixed
deprecated_cif2 cif0 cif2 target_cif_word target_bit w =
    if leb 2 target_cif_word && has_bit cif0 cif2_enable_bit
    then (if target_cif_word == 2
        then deprecated_fixed cif2_fields cif2 (suc target_bit) 32 w
        else deprecated_fixed cif2_fields cif2 0 32 w)
    else w

unfoldable pub deprecated_cif3 : ℕ → ℕ → ℕ → ℕ → ℕ → ℕ
unfolding deprecated_fixed
deprecated_cif3 cif0 cif3 target_cif_word target_bit w =
    if target_cif_word == 3 && has_bit cif0 cif3_enable_bit
    then deprecated_fixed cif3_fields cif3 (suc target_bit) 32 w
    else w

module _ (host : Endian) (buffer : List ℕ) where
  unfoldable pub deprecated_field_offset_runtime : ℕ → ℕ → ℕ → ℕ → ℕ → ℕ → ℕ → ℕ → Run ℕ
  unfolding deprecated_cif0 deprecated_cif1 deprecated_cif2 deprecated_cif3
  deprecated_field_offset_runtime cif0 cif1 cif2 cif3 target_cif_word target_bit base size =
      if target_cif_word == 0
      then (deprecated_cif0 host buffer cif0 base size (suc target_bit) 32 0 >>= λ r.
          done (elim r [ none ↦ size_max | some w ↦ u64 (base + u64 (w * 4)) ]))
      else (deprecated_cif0 host buffer cif0 base size 0 32 0 >>= λ r. done (elim r [
        | none ↦ size_max
        | some w ↦
            let w1 = deprecated_cif1 cif0 cif1 target_cif_word target_bit w in
            let w2 = deprecated_cif2 cif0 cif2 target_cif_word target_bit w1 in
            u64 (base + u64 (deprecated_cif3 cif0 cif3 target_cif_word target_bit w2 * 4))
      ]))
