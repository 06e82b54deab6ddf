-- ===== src/Buffer/Bytes.antt =====
-- The bytes of a number and the number of its bytes are inverse; what the host's order has to do with it.
use vrtio.Common.{
  ℕ, zero, suc, ◌+◌, ◌*◌, ◌/◌, ◌%◌, ◌^◌, ◌<◌, ◌≡◌, refl, sym, ap, ◌∙◌, List, [], ◌∷◌, ◌++◌, reverse,
  length, length-reverse, arith, take, drop,
}
use mathlib.Core.List.{reverse-cons}
use native.Mathlib.Nat.{pow-suc}
use vrtio.Buffer.{
  Endian, little, big, le_bytes, of_le_bytes, to_memory, of_memory, byteswap, host_to_network,
  network_to_host,
}

abbrev pub IsBytes : List ℕ → Type 0
IsBytes [] = Unit {0}
IsBytes (b ∷ bs) = (b < 256) × IsBytes bs

pub IsBytes-append : (xs ys : List ℕ) → IsBytes xs → IsBytes ys → IsBytes (xs ++ ys)
IsBytes-append [] ys h k = k
IsBytes-append (x ∷ xs) ys h k = (h.0, IsBytes-append xs ys h.1 k)

pub IsBytes-take : (n : ℕ) (xs : List ℕ) → IsBytes xs → IsBytes (take n xs)
IsBytes-take zero xs h = tt
IsBytes-take (suc n) [] h = tt
IsBytes-take (suc n) (x ∷ xs) h = (h.0, IsBytes-take n xs h.1)

pub IsBytes-drop : (n : ℕ) (xs : List ℕ) → IsBytes xs → IsBytes (drop n xs)
IsBytes-drop zero xs h = h
IsBytes-drop (suc n) [] h = tt
IsBytes-drop (suc n) (x ∷ xs) h = IsBytes-drop n xs h.1

pub IsBytes-reverse : (xs : List ℕ) → IsBytes xs → IsBytes (reverse xs)
IsBytes-reverse [] h = tt
IsBytes-reverse (x ∷ xs) h =
    rw reverse-cons (IsBytes-append (reverse xs) (x ∷ []) (IsBytes-reverse xs h.1) (h.0, tt))

pub length-le_bytes : (n v : ℕ) → length (le_bytes n v) ≡ n
unfolding le_bytes
length-le_bytes zero v = refl
length-le_bytes (suc n) v = ap suc (length-le_bytes n (v / 256))

pub le_bytes-IsBytes : (n v : ℕ) → IsBytes (le_bytes n v)
unfolding le_bytes
le_bytes-IsBytes zero v = tt
le_bytes-IsBytes (suc n) v = (omega arith, le_bytes-IsBytes n (v / 256))

pub le_bytes-of_le_bytes : (bs : List ℕ) → IsBytes bs → le_bytes (length bs) (of_le_bytes bs) ≡ bs
unfolding le_bytes of_le_bytes
le_bytes-of_le_bytes [] h = refl
le_bytes-of_le_bytes (b ∷ bs) h =
    let low : (b + 256 * of_le_bytes bs) % 256 ≡ b = omega (arith, h.0) in
    let rest : (b + 256 * of_le_bytes bs) / 256 ≡ of_le_bytes bs = omega (arith, h.0) in
    rw (low, rest) (ap (λ (t : List ℕ). b ∷ t) (le_bytes-of_le_bytes bs h.1))

pub of_le_bytes-le_bytes : (n v : ℕ) → v < 256 ^ n → of_le_bytes (le_bytes n v) ≡ v
unfolding le_bytes of_le_bytes
of_le_bytes-le_bytes zero v h = omega arith
of_le_bytes-le_bytes (suc n) v h =
    omega (arith, of_le_bytes-le_bytes n (v / 256) (omega (arith, pow-suc 256 n)))

pub of_le_bytes-lt : (bs : List ℕ) → IsBytes bs → of_le_bytes bs < 256 ^ length bs
unfolding of_le_bytes
of_le_bytes-lt [] h = omega arith
of_le_bytes-lt (b ∷ bs) h = omega (arith, of_le_bytes-lt bs h.1, pow-suc 256 (length bs))

pub length-to_memory : (e : Endian) (n v : ℕ) → length (to_memory e n v) ≡ n
unfolding to_memory
length-to_memory little n v = length-le_bytes n v
length-to_memory big n v = length-reverse (le_bytes n v) ∙ length-le_bytes n v

-- The first byte counts most, whatever the order of the host.
abbrev pub of_be_bytes : List ℕ → ℕ
of_be_bytes bs = of_le_bytes (reverse bs)

pub network_to_host-of_memory :
    (e : Endian) (bs : List ℕ)
    → IsBytes bs
    → network_to_host e (length bs) (of_memory e bs) ≡ of_be_bytes bs
unfolding network_to_host host_to_network of_memory byteswap
network_to_host-of_memory little bs h = rw (le_bytes-of_le_bytes bs h)
network_to_host-of_memory big bs h = refl

swapped_bytes :
    (n v : ℕ) → le_bytes n (of_le_bytes (reverse (le_bytes n v))) ≡ reverse (le_bytes n v)
swapped_bytes n v = ap (λ (k : ℕ). le_bytes k (of_le_bytes bs)) (sym n_bytes) ∙ back
  where
    bs : List ℕ
    bs = reverse (le_bytes n v)

    n_bytes : length (reverse (le_bytes n v)) ≡ n
    n_bytes = length-reverse (le_bytes n v) ∙ length-le_bytes n v

    back : le_bytes (length (reverse (le_bytes n v))) (of_le_bytes bs) ≡ bs
    back = le_bytes-of_le_bytes bs (IsBytes-reverse _ (le_bytes-IsBytes n v))

-- What a write puts into the buffer is the number's bytes, highest first.
pub to_memory-host_to_network :
    (e : Endian) (n v : ℕ) → to_memory e n (host_to_network e n v) ≡ reverse (le_bytes n v)
unfolding to_memory host_to_network byteswap
to_memory-host_to_network little n v = swapped_bytes n v
to_memory-host_to_network big n v = refl
