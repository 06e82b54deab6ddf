-- ===== src/Common/Lists.antt =====
-- Lists measured by the native numbers, under the library's names.
use Prim.Native.Nat.{ℕ, zero, suc, ◌+◌, ◌-◌, ◌≤◌, min}
use mathlib.Core.Path.{◌≡◌, refl, ap, ◌∙◌}
use mathlib.Core.List.{List, [], ◌∷◌, ◌++◌, reverse}
use mathlib.Core.List.{reverse-cons}
use native.Mathlib.Nat.{add-zero, suc-add}
use native.Mathlib.Omega.{arith}

module _ {ℓ} {A : Type ℓ} where
  abbrev pub length : List A → ℕ
  length [] = 0
  length (x ∷ xs) = suc (length xs)

  abbrev pub take : ℕ → List A → List A
  take zero xs = []
  take (suc n) [] = []
  take (suc n) (x ∷ xs) = x ∷ take n xs

  abbrev pub drop : ℕ → List A → List A
  drop zero xs = xs
  drop (suc n) [] = []
  drop (suc n) (x ∷ xs) = drop n xs

  pub length-append : (xs ys : List A) → length (xs ++ ys) ≡ length xs + length ys
  length-append [] ys = omega arith
  length-append (x ∷ xs) ys = omega (arith, length-append xs ys)

  pub length-take : (n : ℕ) (xs : List A) → length (take n xs) ≡ min n (length xs)
  length-take zero xs = omega arith
  length-take (suc n) [] = omega arith
  length-take (suc n) (x ∷ xs) = omega (arith, length-take n xs)

  pub length-drop : (n : ℕ) (xs : List A) → length (drop n xs) ≡ length xs - n
  length-drop zero xs = omega arith
  length-drop (suc n) [] = omega arith
  length-drop (suc n) (x ∷ xs) = omega (arith, length-drop n xs)

  pub take-append : (xs ys : List A) → take (length xs) (xs ++ ys) ≡ xs
  take-append [] ys = refl
  take-append (x ∷ xs) ys = ap (λ zs. x ∷ zs) (take-append xs ys)

  pub drop-append : (xs ys : List A) → drop (length xs) (xs ++ ys) ≡ ys
  drop-append [] ys = refl
  drop-append (x ∷ xs) ys = drop-append xs ys

  pub length-reverse : (xs : List A) → length (reverse xs) ≡ length xs
  length-reverse [] = refl
  length-reverse (x ∷ xs) =
      rw reverse-cons (omega (arith, length-append (reverse xs) (x ∷ []), length-reverse xs))

  -- A run of bytes put in at `k` is found at `k`, and what lies before or after it stays.
  abbrev pub splice : List A → ℕ → List A → List A
  splice xs k ys = take k xs ++ (ys ++ drop (k + length ys) xs)

  pub length-splice :
      (xs : List A) (k : ℕ) (ys : List A)
      → k + length ys ≤ length xs
      → length (splice xs k ys) ≡ length xs
  length-splice xs k ys h = omega (
    arith,
    length-append (take k xs) (ys ++ drop (k + length ys) xs),
    length-append ys (drop (k + length ys) xs),
    length-take k xs,
    length-drop (k + length ys) xs,
  )

  pub drop-add : (a b : ℕ) (xs : List A) → drop (a + b) xs ≡ drop b (drop a xs)
  drop-add zero b xs = ap (λ (n : ℕ). drop n xs) (omega arith)
  drop-add (suc a) zero [] = ap (λ (n : ℕ). drop n []) (add-zero (suc a))
  drop-add (suc a) (suc b) [] = ap (λ (n : ℕ). drop n []) (suc-add a (suc b))
  drop-add (suc a) b (x ∷ xs) = ap (λ (n : ℕ). drop n (x ∷ xs)) (suc-add a b) ∙ drop-add a b xs

  -- What follows a prefix of `k` elements.
  drop-take_append : (k : ℕ) (xs rest : List A) → k ≤ length xs → drop k (take k xs ++ rest) ≡ rest
  drop-take_append zero xs rest h = refl
  drop-take_append (suc k) [] rest h = absurd (omega arith)
  drop-take_append (suc k) (x ∷ xs) rest h = drop-take_append k xs rest (omega arith)

  take-take_append :
      (n k : ℕ) (xs rest : List A) → n ≤ k → k ≤ length xs → take n (take k xs ++ rest) ≡ take n xs
  take-take_append zero k xs rest h g = refl
  take-take_append (suc n) zero xs rest h g = absurd (omega arith)
  take-take_append (suc n) (suc k) [] rest h g = absurd (omega arith)
  take-take_append (suc n) (suc k) (x ∷ xs) rest h g =
      ap (λ zs. x ∷ zs) (take-take_append n k xs rest (omega arith) (omega arith))

  -- The `n` elements from `i` on.
  abbrev pub slice : List A → ℕ → ℕ → List A
  slice xs i n = take n (drop i xs)

  pub length-slice : (xs : List A) (i n : ℕ) → i + n ≤ length xs → length (slice xs i n) ≡ n
  length-slice xs i n h = omega (arith, length-take n (drop i xs), length-drop i xs)

  pub slice-splice_self :
      (xs : List A) (k : ℕ) (ys : List A)
      → k ≤ length xs
      → slice (splice xs k ys) k (length ys) ≡ ys
  slice-splice_self xs k ys h =
      rw (drop-take_append k xs (ys ++ drop (k + length ys) xs) h) (take-append ys _)

  pub take-splice :
      (xs : List A) (k : ℕ) (ys : List A) → k ≤ length xs → take k (splice xs k ys) ≡ take k xs
  take-splice xs k ys h = take-take_append k k xs _ (omega arith) h

  pub drop-splice :
      (xs : List A) (k : ℕ) (ys : List A)
      → k ≤ length xs
      → drop (k + length ys) (splice xs k ys) ≡ drop (k + length ys) xs
  drop-splice xs k ys h =
      drop-add k (length ys) (splice xs k ys)
      ∙ ap (drop (length ys)) (drop-take_append k xs _ h)
      ∙ drop-append ys (drop (k + length ys) xs)
