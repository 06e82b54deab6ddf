-- ===== src/Common/Bits.antt =====
-- Laws of `&` and `|` at every width, from the recursion on binary digits that they stand for.
use Prim.Native.Nat.{
  ℕ, zero, suc, ◌+◌, ◌-◌, ◌*◌, ◌/◌, ◌%◌, ◌^◌, ◌≤◌, ◌<◌, min, max, bit_and, bit_or, digits, bitwise,
  bit_and-bitwise, bit_or-bitwise,
}
use mathlib.Core.Path.{◌≡◌, refl, sym, ap}
use native.Mathlib.Nat.{pow-suc, pow-succ', one-le-pow, div-add-mod, div-div-eq-div-mul}
use native.Mathlib.Omega.{arith}

module _ (rest : ℕ → ℕ) (join : ℕ → ℕ → ℕ) where
  -- The recursion has the same value for all fuels that reach the first number.
  fuels_agree :
      (x y some more : ℕ)
      → x ≤ some
      → x ≤ more
      → digits rest join some x y ≡ digits rest join more x y
  fuels_agree zero y zero zero reach reach' = refl
  fuels_agree zero y zero (suc more) reach reach' = refl
  fuels_agree zero y (suc some) zero reach reach' = refl
  fuels_agree zero y (suc some) (suc more) reach reach' = refl
  fuels_agree (suc x) y zero more reach reach' = absurd (omega arith)
  fuels_agree (suc x) y (suc some) zero reach reach' = absurd (omega arith)
  fuels_agree (suc x) y (suc some) (suc more) reach reach' =
      let half : suc x / 2 ≤ x = omega arith in
      let ih = fuels_agree (suc x / 2) (y / 2) some more (omega arith) (omega arith) in
      ap (λ (high : ℕ). high * 2 + join (suc x % 2) (y % 2)) ih

  split_lowest :
      (x y : ℕ)
      → bitwise rest join (suc x) y
        ≡ bitwise rest join (suc x / 2) (y / 2) * 2 + join (suc x % 2) (y % 2)
  split_lowest x y =
      ap (λ (high : ℕ). high * 2 + join (suc x % 2) (y % 2))
        (fuels_agree (suc x / 2) (y / 2) x (suc x / 2) (omega arith) (omega arith))

pub bit_or_halves : (v w : ℕ) → bit_or v w ≡ bit_or (v / 2) (w / 2) * 2 + max (v % 2) (w % 2)
bit_or_halves (suc v) w = simp bit_or-bitwise (split_lowest (λ u. u) max v w)
bit_or_halves zero w = simp bit_or-bitwise (omega arith)

pub bit_and_halves : (v w : ℕ) → bit_and v w ≡ bit_and (v / 2) (w / 2) * 2 + min (v % 2) (w % 2)
bit_and_halves (suc v) w = simp bit_and-bitwise (split_lowest (λ u. 0) min v w)
bit_and_halves zero w = simp bit_and-bitwise (omega arith)

-- With 0 on the right, for all numbers up to a bound.
zero_right : (bound v : ℕ) → v ≤ bound → (bit_or v 0 ≡ v) × (bit_and v 0 ≡ 0)
zero_right zero zero below = (refl, refl)
zero_right zero (suc v) below = absurd (omega arith)
zero_right (suc bound) zero below = (refl, refl)
zero_right (suc bound) (suc v) below =
    let half = zero_right bound (suc v / 2) (omega arith) in
    (
      omega (arith, bit_or_halves (suc v) 0, half.0),
      omega (arith, bit_and_halves (suc v) 0, half.1),
    )

bit_or-zero : (v : ℕ) → bit_or v 0 ≡ v
bit_or-zero v = (zero_right v v (omega arith)).0

bit_and-zero : (v : ℕ) → bit_and v 0 ≡ 0
bit_and-zero v = (zero_right v v (omega arith)).1

pub half_div : (k a : ℕ) → a / 2 ^ suc k ≡ a / 2 / 2 ^ k
half_div k a = rw (pow-succ' 2 k) (sym (div-div-eq-div-mul a 2 (2 ^ k)))

pub half_mod : (k a : ℕ) → a % 2 ^ suc k ≡ a / 2 % 2 ^ k * 2 + a % 2
half_mod k a = omega (
  arith,
  div-add-mod a (2 ^ suc k),
  div-add-mod (a / 2) (2 ^ k),
  half_div k a,
  ap (λ (t : ℕ). t * (a / 2 ^ suc k)) (pow-succ' 2 k),
  ap (λ (t : ℕ). 2 ^ k * t) (half_div k a),
)

-- A mask of `k` low bits takes the remainder by `2 ^ k`.
pub bit_and_mask : (k a : ℕ) → bit_and a (2 ^ k - 1) ≡ a % 2 ^ k
bit_and_mask zero a = ground (arith, bit_and-zero a)
bit_and_mask (suc k) a = ground (
  arith,
  bit_and_halves a (2 ^ suc k - 1),
  pow-suc 2 k,
  one-le-pow k 2,
  bit_and_mask k (a / 2),
  half_mod k a,
)

-- `|` of numbers with no digit in common is their sum.
pub bit_or_disjoint : (k a r : ℕ) → a % 2 ^ k ≡ 0 → r < 2 ^ k → bit_or a r ≡ a + r
bit_or_disjoint zero a r clear fits = ground (arith, bit_or-zero a)
bit_or_disjoint (suc k) a r clear fits = omega (
  arith,
  bit_or_halves a r,
  half_mod k a,
  pow-suc 2 k,
  bit_or_disjoint k (a / 2) (r / 2) (omega (arith, half_mod k a)) (omega (arith, pow-suc 2 k)),
)

-- The binary digit of weight `2 ^ k`.
abbrev pub digit : ℕ → ℕ → ℕ
digit zero a = a % 2
digit (suc k) a = digit k (a / 2)

pub digit-bit_or : (k a b : ℕ) → digit k (bit_or a b) ≡ max (digit k a) (digit k b)
digit-bit_or zero a b = omega (arith, bit_or_halves a b)
digit-bit_or (suc k) a b = rw (halves) (digit-bit_or k (a / 2) (b / 2))
  where
    halves : bit_or a b / 2 ≡ bit_or (a / 2) (b / 2)
    halves = omega (arith, bit_or_halves a b)

pub digit-bit_and : (k a b : ℕ) → digit k (bit_and a b) ≡ min (digit k a) (digit k b)
digit-bit_and zero a b = omega (arith, bit_and_halves a b)
digit-bit_and (suc k) a b = rw (halves) (digit-bit_and k (a / 2) (b / 2))
  where
    halves : bit_and a b / 2 ≡ bit_and (a / 2) (b / 2)
    halves = omega (arith, bit_and_halves a b)

-- Numbers of `n` digits that agree in each digit are equal.
pub digit_ext :
    (n a b : ℕ) → a < 2 ^ n → b < 2 ^ n → ((k : ℕ) → k < n → digit k a ≡ digit k b) → a ≡ b
digit_ext zero a b p q h = omega arith
digit_ext (suc n) a b p q h = omega (
  arith,
  digit_ext n (a / 2) (b / 2) (omega (arith, pow-suc 2 n)) (omega (arith, pow-suc 2 n))
      (λ k below. h (suc k) (omega arith)),
  h 0 (omega arith),
)

pub digit-shift : (k a : ℕ) → a / 2 ^ k % 2 ≡ digit k a
digit-shift zero a = omega arith
digit-shift (suc k) a = rw (half_div k a) (digit-shift k (a / 2))

pub bit_or-lt : (n a b : ℕ) → a < 2 ^ n → b < 2 ^ n → bit_or a b < 2 ^ n
bit_or-lt zero zero zero p q = omega arith
bit_or-lt zero (suc a) b p q = absurd (omega arith)
bit_or-lt zero zero (suc b) p q = absurd (omega arith)
bit_or-lt (suc n) a b p q = omega (
  arith,
  bit_or_halves a b,
  pow-suc 2 n,
  bit_or-lt n (a / 2) (b / 2) (omega (arith, pow-suc 2 n)) (omega (arith, pow-suc 2 n)),
)

pub bit_and-lt : (n a b : ℕ) → a < 2 ^ n → bit_and a b < 2 ^ n
bit_and-lt zero zero b p = omega (arith, bit_and-bitwise 0 b)
bit_and-lt zero (suc a) b p = absurd (omega arith)
bit_and-lt (suc n) a b p = omega (
  arith,
  bit_and_halves a b,
  pow-suc 2 n,
  bit_and-lt n (a / 2) (b / 2) (omega (arith, pow-suc 2 n)),
)

-- Numbers that agree in the `n` lowest digits have one remainder by `2 ^ n`.
pub digit_ext_mod : (n a b : ℕ) → ((k : ℕ) → k < n → digit k a ≡ digit k b) → a % 2 ^ n ≡ b % 2 ^ n
digit_ext_mod zero a b h = omega arith
digit_ext_mod (suc n) a b h = omega (
  arith,
  half_mod n a,
  half_mod n b,
  digit_ext_mod n (a / 2) (b / 2) (λ k below. h (suc k) (omega arith)),
  h 0 (omega arith),
)
