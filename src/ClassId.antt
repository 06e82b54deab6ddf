-- ===== src/ClassId.antt =====
-- class_id.hpp: the class identifier and its two words.
mod Tests
use vrtio.Common.{
  ℕ, ◌+◌, ◌*◌, ◌/◌, ◌%◌, ◌^◌, ◌<◌, ◌≡◌, refl, ap, ◌∙◌, bit_and, bit_or, ◌<<<◌, ◌>>>◌, u8, u16, u32,
  arith,
}
use vrtio.Common.Bits.{bit_and_mask, bit_or_disjoint}

pub record ClassIdValue : Type 0 where
  pub oui : ℕ
  pub icc : ℕ
  pub pcc : ℕ
  pub pbc : ℕ

unfoldable pub from_words : ℕ → ℕ → ClassIdValue
from_words word0 word1 = record {
  oui = bit_and word0 0xFFFFFF;
  icc = u16 (bit_and (word1 >>> 16) 0xFFFF);
  pcc = u16 (bit_and word1 0xFFFF);
  pbc = u8 (bit_and (word0 >>> 27) 0x1F);
}

unfoldable pub word0 : ClassIdValue → ℕ
word0 c = bit_or (u32 (bit_and c.pbc 0x1F <<< 27)) (bit_and c.oui 0xFFFFFF)

unfoldable pub word1 : ClassIdValue → ℕ
word1 c = bit_or (u32 (c.icc <<< 16)) c.pcc

-- The fields within the widths of the format: 24, 16, 16 and 5 bits.
pub record IsClassId (c : ClassIdValue) : Type 0 where
  pub oui_fits : c.oui < 2 ^ 24
  pub icc_fits : c.icc < 2 ^ 16
  pub pcc_fits : c.pcc < 2 ^ 16
  pub pbc_fits : c.pbc < 2 ^ 5

word0-sum : (c : ClassIdValue) → word0 c ≡ c.pbc % 32 * 2 ^ 27 + c.oui % 2 ^ 24
unfolding word0
word0-sum c =
    rw
      (
        bit_and_mask 5 c.pbc,
        bit_and_mask 24 c.oui,
        bit_or_disjoint 24 (u32 ((c.pbc % 32) <<< 27)) (c.oui % 2 ^ 24) (omega arith) (omega arith),
      )
      (omega arith)

word1-sum : (c : ClassIdValue) → c.icc < 2 ^ 16 → c.pcc < 2 ^ 16 → word1 c ≡ c.icc * 2 ^ 16 + c.pcc
unfolding word1
word1-sum c h g =
    rw (bit_or_disjoint 16 (u32 (c.icc <<< 16)) c.pcc (omega arith) (omega arith)) (omega arith)

-- Both words have 32 bits.
pub words-lt : (c : ClassIdValue) → IsClassId c → (word0 c < 2 ^ 32) × (word1 c < 2 ^ 32)
words-lt c v = (
  omega (arith, word0-sum c),
  omega (arith, word1-sum c v.icc_fits v.pcc_fits, v.icc_fits, v.pcc_fits),
)

from_words-digits :
    (w0 w1 : ℕ)
    → ((from_words w0 w1).oui ≡ w0 % 2 ^ 24)
      × ((from_words w0 w1).icc ≡ w1 / 2 ^ 16 % 2 ^ 16)
      × ((from_words w0 w1).pcc ≡ w1 % 2 ^ 16)
      × ((from_words w0 w1).pbc ≡ w0 / 2 ^ 27 % 32)
unfolding from_words
from_words-digits w0 w1 = omega (
  arith,
  bit_and_mask 24 w0,
  bit_and_mask 16 (w1 / 2 ^ 16),
  bit_and_mask 16 w1,
  bit_and_mask 5 (w0 / 2 ^ 27),
)

-- A class identifier whose fields fit is read back from its two words.
pub from_words-word0-word1 : (c : ClassIdValue) → IsClassId c → from_words (word0 c) (word1 c) ≡ c
from_words-word0-word1 c v =
    λ i. record { oui = oui_same i; icc = icc_same i; pcc = pcc_same i; pbc = pbc_same i }
  where
    oui_same : (from_words (word0 c) (word1 c)).oui ≡ c.oui
    oui_same = omega (arith, from_words-digits (word0 c) (word1 c), word0-sum c, v.oui_fits)

    icc_same : (from_words (word0 c) (word1 c)).icc ≡ c.icc
    icc_same =
        omega (arith, from_words-digits (word0 c) (word1 c), word1-sum c v.icc_fits v.pcc_fits)

    pcc_same : (from_words (word0 c) (word1 c)).pcc ≡ c.pcc
    pcc_same =
        omega (arith, from_words-digits (word0 c) (word1 c), word1-sum c v.icc_fits v.pcc_fits)

    pbc_same : (from_words (word0 c) (word1 c)).pbc ≡ c.pbc
    pbc_same = omega (arith, from_words-digits (word0 c) (word1 c), word0-sum c, v.pbc_fits)

-- Two 32-bit words read as a class identifier have fields that fit, and are its words but for the
-- reserved bits 26 to 24 of the first, which come back as 0.
pub word0-word1-from_words :
    (w0 w1 : ℕ)
    → w0 < 2 ^ 32
    → w1 < 2 ^ 32
    → IsClassId (from_words w0 w1)
      × (word0 (from_words w0 w1) ≡ w0 / 2 ^ 27 * 2 ^ 27 + w0 % 2 ^ 24)
      × (word1 (from_words w0 w1) ≡ w1)
word0-word1-from_words w0 w1 h0 h1 =
    let d = from_words-digits w0 w1 in
    (
      omega (arith, d),
      omega (arith, d, word0-sum (from_words w0 w1)),
      omega (arith, d, word1-sum (from_words w0 w1) (omega (arith, d)) (omega (arith, d))),
    )
