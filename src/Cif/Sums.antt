-- ===== src/Cif/Sums.antt =====
-- The loops over the CIF tables add up the words of the fields that are present.
use vrtio.Common.{
  ℕ, zero, suc, ◌+◌, ◌*◌, ◌^◌, ◌≤◌, ◌<◌, ◌≡◌, refl, ap, ◌∙◌, List, [], ◌∷◌, Bool, true, false, ◌&&◌,
  ◌||◌, not, leb, u64, if◌then◌else◌, Bool-cases, inl, inr, Run, done, ◌==◌, arith,
}
use mathlib.Core.Option.{Option, some}
use vrtio.Common.Fields.{all_below, all_below-holds}
use vrtio.Cif.{FieldInfo, field_at, has_bit, cif0_fields, cif1_fields, cif2_fields, cif3_fields}
use vrtio.Cif.Offset.{add_fixed, add_cif0, cif0_round, go_on}

-- The words of the fields `low` to `n - 1` of a CIF word that are present.
unfoldable pub words_from : (ℕ → ℕ) → ℕ → ℕ → ℕ → ℕ
words_from size cif low zero = 0
words_from size cif low (suc bit) =
    (if leb low bit && has_bit cif bit then size bit else 0) + words_from size cif low bit

abbrev pub size_in : List FieldInfo → ℕ → ℕ
size_in table bit = (field_at table bit).size_words

pub words_from-empty : (size : ℕ → ℕ) (cif low n : ℕ) → n ≤ low → words_from size cif low n ≡ 0
unfolding words_from
words_from-empty size cif low zero h = refl
words_from-empty size cif low (suc bit) h =
    ground (arith, words_from-empty size cif low bit (omega arith))

pub words_from-split :
    (size : ℕ → ℕ) (cif low mid n : ℕ)
    → low ≤ mid
    → mid ≤ n
    → words_from size cif low n ≡ words_from size cif mid n + words_from size cif low mid
unfolding words_from
words_from-split size cif low mid zero h g =
    omega (arith, words_from-empty size cif low mid (omega arith))
words_from-split size cif low mid (suc bit) h g = elim (Bool-cases (leb mid bit)) [
  | inl e ↦ ground (arith, words_from-split size cif low mid bit h (ground arith))
  | inr e ↦
      let same : mid ≡ suc bit = ground arith in
      let none : words_from size cif mid bit ≡ 0 =
        words_from-empty size cif mid bit (omega arith) in
      rw (e, none, same) (ground arith)
]

pub words_from-agree :
    (f g : ℕ → ℕ) (cif low n : ℕ)
    → ((bit : ℕ) → low ≤ bit → bit < n → has_bit cif bit ≡ true → f bit ≡ g bit)
    → words_from f cif low n ≡ words_from g cif low n
unfolding words_from
words_from-agree f g cif low zero h = refl
words_from-agree f g cif low (suc bit) h =
    ground (arith, words_from-agree f g cif low bit (λ b p q r. h b p (omega arith) r), h bit)

pub words_from-le :
    (size : ℕ → ℕ) (cif low n most : ℕ)
    → ((bit : ℕ) → bit < n → size bit ≤ most)
    → words_from size cif low n ≤ n * most
unfolding words_from
words_from-le size cif low zero most h = omega arith
words_from-le size cif low (suc bit) most h =
    ground
      (arith, words_from-le size cif low bit most (λ b q. h b (omega arith)), h bit (omega arith))

-- No field of the tables has more than 13 words.
pub all_small : List FieldInfo → Bool
all_small [] = true
all_small (info ∷ table) = leb info.size_words 13 && all_small table

pub size_in-le :
    (table : List FieldInfo) (bit : ℕ) → all_small table ≡ true → size_in table bit ≤ 13
unfolding all_small field_at
size_in-le [] bit h = omega arith
size_in-le (info ∷ table) zero h = ground arith
size_in-le (info ∷ table) (suc bit) h = size_in-le table bit (ground arith)

pub tables_small :
    (all_small cif0_fields ≡ true)
    × (all_small cif1_fields ≡ true)
    × (all_small cif2_fields ≡ true)
    × (all_small cif3_fields ≡ true)
unfolding all_small
tables_small = (refl, refl, refl, refl)

-- The loop over a table of fixed fields.
pub add_fixed-words_from :
    (table : List FieldInfo) (cif low n acc : ℕ)
    → all_small table ≡ true
    → acc + n * 13 < 2 ^ 64
    → add_fixed table cif low n acc ≡ acc + words_from (size_in table) cif low n
unfolding add_fixed words_from
add_fixed-words_from table cif low zero acc small fits = omega arith
add_fixed-words_from table cif low (suc bit) acc small fits =
    elim (Bool-cases (leb low bit && has_bit cif bit)) [
      | inl e ↦
          let s = size_in-le table bit small in
          let cut : u64 (acc + size_in table bit) ≡ acc + size_in table bit = omega arith in
          rw (e, cut)
            (omega (
              arith,
              add_fixed-words_from table cif low bit (acc + size_in table bit) small (omega arith),
            ))
      | inr e ↦ rw e (omega (arith, add_fixed-words_from table cif low bit acc small (omega arith)))
    ]

-- Which fields of CIF0 are variable.
variable_places :
    all_below 32 (λ bit. elim (field_at cif0_fields bit).is_variable [
      | true ↦ bit == 9 || bit == 10
      | false ↦ not (bit == 9 || bit == 10)
    ])
    ≡ true
unfolding all_below field_at
variable_places = refl

pub is_variable-places :
    (bit : ℕ) → bit < 32 → (field_at cif0_fields bit).is_variable ≡ (bit == 9 || bit == 10)
is_variable-places bit h = ground (arith, all_below-holds 32 _ bit variable_places h)

low_places : all_below 9 (λ bit. (field_at cif0_fields bit).size_words == 0) ≡ true
unfolding all_below field_at
low_places = refl

pub size_in-low : (bit : ℕ) → bit < 9 → size_in cif0_fields bit ≡ 0
size_in-low bit h = ground (arith, all_below-holds 9 _ bit low_places h)

module _ (variable_words : ℕ → ℕ → ℕ → Run (Option ℕ)) (cif0 base size low : ℕ) where
  loop : ℕ → ℕ → Run (Option ℕ)
  loop n acc = add_cif0 variable_words cif0 base size low n acc

  -- A round on a fixed field adds its words.
  fixed_round :
      (bit acc : ℕ)
      → (field_at cif0_fields bit).is_variable ≡ false
      → acc + 13 < 2 ^ 64
      → cif0_round variable_words cif0 base size bit acc
        ≡ done (some (acc + (if has_bit cif0 bit then size_in cif0_fields bit else 0)))
  unfolding cif0_round
  fixed_round bit acc fixed fits =
      let s = size_in-le cif0_fields bit tables_small.0 in
      let cut : u64 (acc + size_in cif0_fields bit) ≡ acc + size_in cif0_fields bit = omega arith in
      let none : acc ≡ acc + 0 = omega arith in
      elim (Bool-cases (has_bit cif0 bit)) [
        | inl e ↦ rw (e, fixed, cut)
        | inr e ↦ rw e (ap (λ (w : ℕ). done (some w)) none)
      ]

  above : (bit : ℕ) → 11 ≤ bit → bit < 32 → (field_at cif0_fields bit).is_variable ≡ false
  above bit low_end high_end = ground (arith, is_variable-places bit high_end)

  -- The loop where it ends above the variable fields.
  pub add_cif0-above :
      (n acc : ℕ)
      → n ≤ 32
      → 11 ≤ low
      → acc + n * 13 < 2 ^ 64
      → add_cif0 variable_words cif0 base size low n acc
        ≡ done (some (acc + words_from (size_in cif0_fields) cif0 low n))
  unfolding add_cif0 go_on words_from
  add_cif0-above zero acc small inside fits = ap (λ (w : ℕ). done (some w)) (omega arith)
  add_cif0-above (suc bit) acc small inside fits = elim (Bool-cases (leb low bit)) [
    | inl e ↦
        let w = (if has_bit cif0 bit then size_in cif0_fields bit else 0) in
        let s = size_in-le cif0_fields bit tables_small.0 in
        let bound : w ≤ 13 = ground arith in
        rw (e, fixed_round bit acc (above bit (ground arith) (omega arith)) (omega arith))
          (add_cif0-above bit (acc + w) (omega arith) inside (omega arith)
            ∙ ap (λ (w : ℕ). done (some w)) (omega arith))
    | inr e ↦
        rw (e, words_from-empty (size_in cif0_fields) cif0 low bit (ground arith))
          (ap (λ (w : ℕ). done (some w)) (omega arith))
  ]

  upper_step :
      (bit acc : ℕ)
      → leb 11 bit ≡ true
      → leb low bit ≡ true
      → bit < 32
      → acc + 13 < 2 ^ 64
      → add_cif0 variable_words cif0 base size low (suc bit) acc
        ≡ add_cif0 variable_words cif0 base size low bit
            (acc + (if has_bit cif0 bit then size_in cif0_fields bit else 0))
  unfolding add_cif0 go_on
  upper_step bit acc e here b f = rw (here, fixed_round bit acc (above bit (ground arith) b) f)

  -- The rounds above the variable fields, where the loop goes on.
  pub add_cif0-upper :
      (n acc : ℕ)
      → n ≤ 32
      → 11 ≤ n
      → low ≤ 11
      → acc + n * 13 < 2 ^ 64
      → add_cif0 variable_words cif0 base size low n acc
        ≡ add_cif0 variable_words cif0 base size low 11
            (acc + words_from (size_in cif0_fields) cif0 11 n)
  unfolding words_from
  add_cif0-upper zero acc small more inside fits = absurd (omega arith)
  add_cif0-upper (suc bit) acc small more inside fits = elim (Bool-cases (leb 11 bit)) [
    | inl e ↦
        let w = (if has_bit cif0 bit then size_in cif0_fields bit else 0) in
        let s = size_in-le cif0_fields bit tables_small.0 in
        let bound : w ≤ 13 = ground arith in
        let here : leb low bit ≡ true = ground arith in
        upper_step bit acc e here (omega arith) (omega arith)
        ∙ add_cif0-upper bit (acc + w) (omega arith) (ground arith) inside (omega arith)
        ∙ ap (add_cif0 variable_words cif0 base size low 11) (rw e (omega arith))
    | inr e ↦
        let ten : bit ≡ 10 = ground arith in
        rw ten (
          ap (add_cif0 variable_words cif0 base size low 11)
            (omega (arith, words_from-empty (size_in cif0_fields) cif0 11 11 (omega arith))))
  ]
