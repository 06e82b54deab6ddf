-- ===== src/Cif/Present.antt =====
-- A field whose bit is set is among those that the loops count.
use vrtio.Common.{
  ℕ, suc, ◌+◌, ◌≤◌, ◌<◌, ◌≡◌, ap, ◌∙◌, List, true, false, leb, if◌then◌else◌, Bool-cases, inl, inr,
  arith,
}
use vrtio.Cif.{FieldInfo, has_bit}
use vrtio.Cif.Masks.{has_bit-zero}
use vrtio.Cif.Sums.{words_from, words_from-split, size_in}
use vrtio.Cif.Fields.{enabled_words}

-- A field that is present is counted.
pub counted :
    (size : ℕ → ℕ) (cif bit : ℕ)
    → bit < 32
    → has_bit cif bit ≡ true
    → words_from size cif (suc bit) 32 + size bit ≤ words_from size cif 0 32
unfolding words_from
counted size cif bit inside set =
    let first : leb 0 bit ≡ true = ground arith in
    let here : words_from size cif 0 (suc bit) ≡ size bit + words_from size cif 0 bit =
      rw (first, set) in
    omega (arith, here, words_from-split size cif 0 (suc bit) 32 (omega arith) (omega arith))

-- A CIF word with a bit set is enabled.
pub enabled :
    (cif0 enable cif word bit : ℕ)
    → cif ≡ (if has_bit cif0 enable then word else 0)
    → bit < 32
    → has_bit cif bit ≡ true
    → has_bit cif0 enable ≡ true
enabled cif0 enable cif word bit is inside set = elim (Bool-cases (has_bit cif0 enable)) [
  | inl e ↦ e
  | inr e ↦
      let none : cif ≡ 0 = rw e at is in
      let clear : has_bit cif bit ≡ false =
        ap (λ (c : ℕ). has_bit c bit) none ∙ has_bit-zero bit inside in
      absurd (ground (arith, clear))
]

pub enabled-counted :
    (cif0 enable : ℕ) (table : List FieldInfo) (cif word bit : ℕ)
    → cif ≡ (if has_bit cif0 enable then word else 0)
    → bit < 32
    → has_bit cif bit ≡ true
    → enabled_words cif0 enable table cif (suc bit) + size_in table bit
      ≤ enabled_words cif0 enable table cif 0
enabled-counted cif0 enable table cif word bit is inside set =
    rw (enabled cif0 enable cif word bit is inside set) (counted (size_in table) cif bit inside set)
