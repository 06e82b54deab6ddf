-- ===== src/Cif/Versions.antt =====
-- The function of cif.hpp that is kept for compatibility against its successor in
-- variable_field_dispatch.hpp.
use vrtio.Common.{
  ℕ, zero, suc, ◌+◌, ◌*◌, ◌≤◌, ◌<◌, ◌≡◌, refl, ap, sym, ◌∙◌, u64, size_max, List, length, false,
  ◌==◌, ◌&&◌, leb, if◌then◌else◌, Bool-cases, inl, inr, leb→le, Run, done, fault, ◌>>=◌, arith,
}
use mathlib.Core.Option.{Option, none, some}
use vrtio.Buffer.{Endian, read_u32, read_word, copy_from}
use vrtio.Buffer.Access.{word_at, word_at-lt, read_u32-done}
use vrtio.Buffer.Bytes.{IsBytes}
use vrtio.Cif.{
  cif1_fields, cif2_fields, cif3_fields, cif1_enable_bit, cif2_enable_bit, cif3_enable_bit,
  FieldInfo, has_bit, field_at, cif0_fields,
}
use vrtio.Cif.Offset.{
  add_cif0, add_fixed, add_later, cif0_round, go_on, dispatch_branch, compute_variable_field_size,
  gps_ascii_trait_size, context_assoc_trait_size, gps_words, assoc_words,
  read_gps_ascii_length_words, read_context_assoc_length_words, offset_runtime,
  calculate_field_offset_runtime,
}
use vrtio.Cif.Deprecated.{
  deprecated_fixed, deprecated_round, deprecated_cif0, deprecated_cif1, deprecated_cif2,
  deprecated_cif3, deprecated_field_offset_runtime,
}
use vrtio.Cif.Sums.{is_variable-places}
use vrtio.Cif.Places.{gps_words-le, gps_trait_words-same, assoc_words-le, assoc_trait_words-same}

skipped : (table : List FieldInfo) (cif low n w : ℕ) → n ≤ low → add_fixed table cif low n w ≡ w
unfolding add_fixed
skipped table cif low zero w h = refl
skipped table cif low (suc bit) w h =
    let below : leb low bit ≡ false = ground arith in
    rw below (skipped table cif low bit w (omega arith))

fixed_same :
    (table : List FieldInfo) (cif low n w : ℕ)
    → deprecated_fixed table cif low n w ≡ add_fixed table cif low n w
unfolding deprecated_fixed add_fixed
fixed_same table cif low zero w = refl
fixed_same table cif low (suc bit) w = elim (Bool-cases (leb low bit)) [
  | inl e ↦ rw e (fixed_same table cif low bit _)
  | inr e ↦ rw e (sym (skipped table cif low bit w (ground arith)))
]

bind_same :
    {A B : Type 0} (x : Run A) (f g : A → Run B) → ((a : A) → f a ≡ g a) → (x >>= f) ≡ (x >>= g)
bind_same (done a) f g h = h a
bind_same fault f g h = refl

go_on_same :
    (f g : ℕ → Run (Option ℕ))
    → ((w : ℕ) → f w ≡ g w)
    → (r : Option ℕ) → elim r [ none ↦ done none | some w ↦ f w ] ≡ go_on r g
unfolding go_on
go_on_same f g h none = refl
go_on_same f g h (some w) = h w

module _ (host : Endian) (buffer : List ℕ) (octets : IsBytes buffer) (cif0 base size : ℕ) where
  outside :
      (offset : ℕ) → leb (offset + 4) (length buffer) ≡ false → read_u32 host buffer offset ≡ fault
  unfolding read_u32 read_word copy_from
  outside offset e = rw e

  gps_same :
      (offset w : ℕ)
      → (read_gps_ascii_length_words host buffer offset >>= λ words. done (some (u64 (w + words))))
        ≡ dispatch_branch host buffer 10 offset w
  unfolding dispatch_branch compute_variable_field_size gps_ascii_trait_size
      read_gps_ascii_length_words
  gps_same offset w = elim (Bool-cases (leb (offset + 4) (length buffer))) [
    | inl e ↦
        let word = word_at host 4 buffer offset in
        let known : (gps_words word == size_max) ≡ false = ground (arith, gps_words-le word) in
        rw (read_u32-done host buffer offset (leb→le _ _ e), gps_trait_words-same word, known)
    | inr e ↦ rw (outside offset e)
  ]

  assoc_same :
      (offset w : ℕ)
      → (read_context_assoc_length_words host buffer offset >>= λ words.
          done (some (u64 (w + words))))
        ≡ dispatch_branch host buffer 9 offset w
  unfolding dispatch_branch compute_variable_field_size context_assoc_trait_size
      read_context_assoc_length_words
  assoc_same offset w = elim (Bool-cases (leb (offset + 4) (length buffer))) [
    | inl e ↦
        let word = word_at host 4 buffer offset in
        let known : (assoc_words word == size_max) ≡ false = ground (arith, assoc_words-le word) in
        let fit = leb→le _ _ e in
        rw (
          read_u32-done host buffer offset fit,
          assoc_trait_words-same word (word_at-lt host 4 buffer offset fit octets),
          known,
        )
    | inr e ↦ rw (outside offset e)
  ]

  round_same :
      (bit w : ℕ)
      → bit < 32
      → deprecated_round host buffer cif0 base size bit w
        ≡ cif0_round (dispatch_branch host buffer) cif0 base size bit w
  unfolding cif0_round deprecated_round
  round_same bit w inside = elim (Bool-cases (has_bit cif0 bit)) [
    | inr h ↦ rw h refl
    | inl h ↦ elim (Bool-cases (field_at cif0_fields bit).is_variable) [
      | inr e ↦ rw (h, e) refl
      | inl e ↦ elim (Bool-cases (bit == 9)) [
        | inl f ↦
            let nine : bit ≡ 9 = ground arith in
            rw (h, e, nine, assoc_same (u64 (base + u64 (w * 4))) w)
        | inr f ↦
            let ten : bit ≡ 10 = ground (arith, is_variable-places bit inside) in
            rw (h, e, ten, gps_same (u64 (base + u64 (w * 4))) w)
      ]
    ]
  ]

  loop_same :
      (low n w : ℕ)
      → n ≤ 32
      → deprecated_cif0 host buffer cif0 base size low n w
        ≡ add_cif0 (dispatch_branch host buffer) cif0 base size low n w
  unfolding add_cif0 deprecated_cif0
  loop_same low zero w inside = refl
  loop_same low (suc bit) w inside = elim (Bool-cases (leb low bit)) [
    | inr e ↦ rw e refl
    | inl e ↦
        rw (e, round_same bit w (omega arith))
          (bind_same (cif0_round (dispatch_branch host buffer) cif0 base size bit w) _ _
            (go_on_same _ _ (λ x. loop_same low bit x (omega arith))))
  ]

  cif1_same :
      (cif1 word bit w : ℕ)
      → deprecated_cif1 cif0 cif1 word bit w ≡ (
          if leb 1 word && has_bit cif0 cif1_enable_bit
          then add_fixed cif1_fields cif1 (if word == 1 then suc bit else 0) 32 w
          else w)
  unfolding deprecated_cif1
  cif1_same cif1 word bit w = elim (Bool-cases (word == 1)) [
    | inl e ↦ rw (e, fixed_same cif1_fields cif1 (suc bit) 32 w) refl
    | inr e ↦ rw (e, fixed_same cif1_fields cif1 0 32 w) refl
  ]

  cif2_same :
      (cif2 word bit w : ℕ)
      → deprecated_cif2 cif0 cif2 word bit w ≡ (
          if leb 2 word && has_bit cif0 cif2_enable_bit
          then add_fixed cif2_fields cif2 (if word == 2 then suc bit else 0) 32 w
          else w)
  unfolding deprecated_cif2
  cif2_same cif2 word bit w = elim (Bool-cases (word == 2)) [
    | inl e ↦ rw (e, fixed_same cif2_fields cif2 (suc bit) 32 w) refl
    | inr e ↦ rw (e, fixed_same cif2_fields cif2 0 32 w) refl
  ]

  cif3_same :
      (cif3 word bit w : ℕ)
      → deprecated_cif3 cif0 cif3 word bit w ≡ (
          if word == 3 && has_bit cif0 cif3_enable_bit
          then add_fixed cif3_fields cif3 (suc bit) 32 w
          else w)
  unfolding deprecated_cif3
  cif3_same cif3 word bit w = rw (fixed_same cif3_fields cif3 (suc bit) 32 w) refl

  later_same :
      (cif1 cif2 cif3 word bit w : ℕ)
      → deprecated_cif3 cif0 cif3 word bit
          (deprecated_cif2 cif0 cif2 word bit (deprecated_cif1 cif0 cif1 word bit w))
        ≡ add_later cif0 cif1 cif2 cif3 word bit w
  unfolding add_later
  later_same cif1 cif2 cif3 word bit w =
      cif3_same cif3 word bit _
      ∙ ap
          (λ (v : ℕ).
            if word == 3 && has_bit cif0 cif3_enable_bit
            then add_fixed cif3_fields cif3 (suc bit) 32 v
            else v)
          (cif2_same cif2 word bit _
            ∙ ap
                (λ (v : ℕ).
                  if leb 2 word && has_bit cif0 cif2_enable_bit
                  then add_fixed cif2_fields cif2 (if word == 2 then suc bit else 0) 32 v
                  else v)
                (cif1_same cif1 word bit w))

  -- What is made of the words that were counted.
  found :
      (f g : ℕ → ℕ)
      → ((w : ℕ) → f w ≡ g w)
      → (r : Option ℕ)
      → ◌≡◌ {A = Run ℕ}
          (done (elim r [ none ↦ size_max | some w ↦ u64 (base + u64 (f w * 4)) ]))
          (done (elim r [ none ↦ size_max | some w ↦ u64 (base + u64 (g w * 4)) ]))
  found f g h none = refl
  found f g h (some w) = ap (λ (v : ℕ). done (u64 (base + u64 (v * 4)))) (h w)

  -- On every buffer of bytes the function that is kept for compatibility returns, refuses or faults
  -- exactly as its successor does.
  pub deprecated-calculate :
      (cif1 cif2 cif3 word bit : ℕ)
      → deprecated_field_offset_runtime host buffer cif0 cif1 cif2 cif3 word bit base size
        ≡ calculate_field_offset_runtime host buffer cif0 cif1 cif2 cif3 word bit base size
  unfolding deprecated_field_offset_runtime calculate_field_offset_runtime offset_runtime
  deprecated-calculate cif1 cif2 cif3 word bit = elim (Bool-cases (word == 0)) [
    | inl e ↦
        rw (e, loop_same (suc bit) 32 0 (omega arith))
          (bind_same _ _ _ (
            found (λ w. w) (λ w. if word == 0 then w else add_later cif0 cif1 cif2 cif3 word bit w)
              (λ w. rw e refl)))
    | inr e ↦
        rw (e, loop_same 0 32 0 (omega arith))
          (bind_same _ _ _ (
            found
              (λ w.
                deprecated_cif3 cif0 cif3 word bit
                  (deprecated_cif2 cif0 cif2 word bit (deprecated_cif1 cif0 cif1 word bit w)))
              (λ w. if word == 0 then w else add_later cif0 cif1 cif2 cif3 word bit w)
              (λ w. rw e (later_same cif1 cif2 cif3 word bit w))))
  ]
