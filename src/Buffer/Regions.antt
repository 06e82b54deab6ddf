-- ===== src/Buffer/Regions.antt =====
-- Writes into a region of a buffer: what they leave, and that they compose.
use vrtio.Common.{
  ℕ, zero, suc, ◌+◌, ◌-◌, ◌^◌, ◌≤◌, ◌<◌, ◌≡◌, refl, sym, ap, ◌∙◌, List, [], ◌∷◌, ◌++◌, length,
  slice, splice, take, drop, drop-add, take-splice, drop-splice, length-splice, slice-splice_self,
  ◌⊎◌, inl, inr, Run, done, le→leb, arith,
}
use mathlib.Core.Path.{ap₂}
use native.Mathlib.Nat.{add-zero, suc-add}
use vrtio.Buffer.{Endian, network_to_host, of_memory, copy_to, read_word, write_word}
use vrtio.Buffer.Bytes.{IsBytes, IsBytes-append, IsBytes-take, IsBytes-drop}
use vrtio.Buffer.Access.{word_at, read_word-done}
use vrtio.Buffer.RoundTrip.{write_word-read_word}

take-take : (m k : ℕ) (xs : List ℕ) → m ≤ k → take m (take k xs) ≡ take m xs
take-take zero k xs h = refl
take-take (suc m) zero xs h = absurd (omega arith)
take-take (suc m) (suc k) [] h = refl
take-take (suc m) (suc k) (x ∷ xs) h = ap (λ (t : List ℕ). x ∷ t) (take-take m k xs (omega arith))

slice-take : (p m k : ℕ) (xs : List ℕ) → p + m ≤ k → slice (take k xs) p m ≡ slice xs p m
slice-take zero m k xs h = take-take m k xs (omega arith)
slice-take (suc p) m zero xs h = absurd (omega arith)
slice-take (suc p) m (suc k) [] h = refl
slice-take (suc p) m (suc k) (x ∷ xs) h = slice-take p m k xs (omega arith)

slice-drop : (p m k : ℕ) (xs : List ℕ) → k ≤ p → slice (drop k xs) (p - k) m ≡ slice xs p m
slice-drop p m k xs h =
    ap (take m) (sym (drop-add k (p - k) xs) ∙ ap (λ (n : ℕ). drop n xs) (omega arith))

-- `after` is the buffer with nothing changed outside the bytes from `start` to before `end`.
pub record Touches (buffer : List ℕ) (start end : ℕ) (after : List ℕ) : Type 0 where
  pub same_length : length after ≡ length buffer
  pub still_bytes : IsBytes after
  pub others : (p m : ℕ) → (p + m ≤ start) ⊎ (end ≤ p) → slice after p m ≡ slice buffer p m

pub kept-Touches :
    (buffer after : List ℕ) (start end : ℕ)
    → length after ≡ length buffer
    → IsBytes after
    → take start after ≡ take start buffer
    → drop end after ≡ drop end buffer
    → Touches buffer start end after
kept-Touches buffer after start end l b before behind = record {
  same_length = l;
  still_bytes = b;
  others = apart;
}
  where
    apart : (p m : ℕ) → (p + m ≤ start) ⊎ (end ≤ p) → slice after p m ≡ slice buffer p m
    apart p m (inl h) =
        sym (slice-take p m start after h)
        ∙ ap (λ (xs : List ℕ). slice xs p m) before
        ∙ slice-take p m start buffer h
    apart p m (inr h) =
        sym (slice-drop p m end after h)
        ∙ ap (λ (xs : List ℕ). slice xs (p - end) m) behind
        ∙ slice-drop p m end buffer h

-- One write after the other touches both regions.
pub Touches-Touches :
    {buffer middle after : List ℕ} {start end start' end' : ℕ} (from upto : ℕ)
    → from ≤ start
    → from ≤ start'
    → end ≤ upto
    → end' ≤ upto
    → Touches buffer start end middle
    → Touches middle start' end' after
    → Touches buffer from upto after
Touches-Touches {buffer} {middle} {after} {start} {end} {start'} {end'} from upto a b c d t u =
    record {
      same_length = u.same_length ∙ t.same_length;
      still_bytes = u.still_bytes;
      others = λ p m h.
          u.others p m (within p m h start' end' b d) ∙ t.others p m (within p m h start end a c);
    }
  where
    within :
        (p m : ℕ)
        → (p + m ≤ from) ⊎ (upto ≤ p)
        → (s e : ℕ) → from ≤ s
        → e ≤ upto
        → (p + m ≤ s) ⊎ (e ≤ p)
    within p m (inl h) s e k l = inl (omega arith)
    within p m (inr h) s e k l = inr (omega arith)

pub widened :
    {buffer after : List ℕ} {start end : ℕ} (start' end' : ℕ)
    → start' ≤ start
    → end ≤ end'
    → Touches buffer start end after
    → Touches buffer start' end' after
widened {buffer} {after} start' end' a b t = record {
  same_length = t.same_length;
  still_bytes = t.still_bytes;
  others = wider;
}
  where
    wider : (p m : ℕ) → (p + m ≤ start') ⊎ (end' ≤ p) → slice after p m ≡ slice buffer p m
    wider p m (inl h) = t.others p m (inl (omega arith))
    wider p m (inr h) = t.others p m (inr (omega arith))

pub nothing-Touches : (buffer : List ℕ) (k : ℕ) → IsBytes buffer → Touches buffer k k buffer
nothing-Touches buffer k b = record { same_length = refl; still_bytes = b; others = λ p m h. refl }

-- A word read apart from the region is the word from before.
pub word_at-others :
    {buffer after : List ℕ} {start end : ℕ} (host : Endian) (n p : ℕ)
    → Touches buffer start end after
    → (p + n ≤ start) ⊎ (end ≤ p)
    → word_at host n after p ≡ word_at host n buffer p
word_at-others host n p t h =
    ap (λ (bs : List ℕ). network_to_host host n (of_memory host bs)) (t.others p n h)

-- A word put into the buffer.
pub record PutsWord (host : Endian) (n : ℕ) (buffer : List ℕ) (place value : ℕ)
    (result : Run (List ℕ)) : Type 0 where
  pub after : List ℕ
  pub returns : result ≡ done after
  pub touches : Touches buffer place (place + n) after
  pub holds : word_at host n after place ≡ value

pub write_word-PutsWord :
    (host : Endian) (n : ℕ) (buffer : List ℕ) (place value : ℕ)
    → place + n ≤ length buffer
    → value < 256 ^ n
    → IsBytes buffer
    → PutsWord host n buffer place value (write_word host n buffer place value)
write_word-PutsWord host n buffer place value fits small bytes =
    let w = write_word-read_word host n buffer place value fits small bytes in
    record {
      after = w.0;
      returns = w.1;
      touches = kept-Touches buffer w.0 place (place + n) w.2 w.6 w.4 w.5;
      holds = there w.0 w.2 w.3;
    }
  where
    there :
        (after : List ℕ)
        → length after ≡ length buffer
        → read_word host n after place ≡ done value
        → word_at host n after place ≡ value
    there after l r = cc (read_word-done host n after place (rw l fits))

-- Bytes copied into the buffer.
pub record PutsBytes (buffer : List ℕ) (place : ℕ) (bytes : List ℕ) (result : Run (List ℕ))
    : Type 0 where
  pub after : List ℕ
  pub returns : result ≡ done after
  pub touches : Touches buffer place (place + length bytes) after
  pub holds : slice after place (length bytes) ≡ bytes

pub copy_to-PutsBytes :
    (buffer : List ℕ) (place : ℕ) (bytes : List ℕ)
    → place + length bytes ≤ length buffer
    → IsBytes buffer
    → IsBytes bytes
    → PutsBytes buffer place bytes (copy_to buffer place bytes)
unfolding copy_to
copy_to-PutsBytes buffer place bytes fits b b' = record {
  after = splice buffer place bytes;
  returns = rw (le→leb _ _ fits);
  touches =
      kept-Touches buffer (splice buffer place bytes) place (place + length bytes)
        (length-splice buffer place bytes fits)
        (IsBytes-append (take place buffer) _ (IsBytes-take place buffer b)
          (IsBytes-append bytes _ b' (IsBytes-drop _ buffer b)))
        (take-splice buffer place bytes (omega arith))
        (drop-splice buffer place bytes (omega arith));
  holds = slice-splice_self buffer place bytes (omega arith);
}

pub take-add : (n m : ℕ) (xs : List ℕ) → take (n + m) xs ≡ take n xs ++ take m (drop n xs)
take-add zero m xs = ap (λ (k : ℕ). take k xs) (omega arith)
take-add (suc n) zero [] = ap (λ (k : ℕ). take k []) (add-zero (suc n))
take-add (suc n) (suc m) [] = ap (λ (k : ℕ). take k []) (suc-add n (suc m))
take-add (suc n) m (x ∷ xs) =
    ap (λ (k : ℕ). take k (x ∷ xs)) (suc-add n m) ∙ ap (λ (t : List ℕ). x ∷ t) (take-add n m xs)

drop-take_add : (n m : ℕ) (xs : List ℕ) → drop n (take (n + m) xs) ≡ take m (drop n xs)
drop-take_add zero m xs = ap (λ (k : ℕ). take k xs) (omega arith)
drop-take_add (suc n) zero [] = ap (λ (k : ℕ). drop (suc n) (take k [])) (add-zero (suc n))
drop-take_add (suc n) (suc m) [] = ap (λ (k : ℕ). drop (suc n) (take k [])) (suc-add n (suc m))
drop-take_add (suc n) m (x ∷ xs) =
    ap (λ (k : ℕ). drop (suc n) (take k (x ∷ xs))) (suc-add n m) ∙ drop-take_add n m xs

-- The first `n` bytes of a field are new; the rest of it stays.
pub overwritten :
    {before after : List ℕ} (place n m : ℕ) (bytes : List ℕ)
    → Touches before place (place + n) after
    → slice after place n ≡ bytes
    → slice after place (n + m) ≡ bytes ++ drop n (slice before place (n + m))
overwritten {before} {after} place n m bytes t h =
    take-add n m (drop place after)
    ∙ ap₂ ◌++◌ h (
        ap (take m) (sym (drop-add place n after))
        ∙ t.others (place + n) m (inr (omega arith))
        ∙ ap (take m) (drop-add place n before)
        ∙ sym (drop-take_add n m (drop place before)))

-- A part of a slice.
pub slice-slice :
    (p m k n : ℕ) (xs : List ℕ) → k + n ≤ m → slice (slice xs p m) k n ≡ slice xs (p + k) n
slice-slice p m k n xs h = slice-take k n m (drop p xs) h ∙ ap (take n) (sym (drop-add p k xs))
