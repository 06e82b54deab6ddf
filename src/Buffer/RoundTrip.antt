-- ===== src/Buffer/RoundTrip.antt =====
-- Writes of buffer_io.hpp, and what the reads find after them.
use vrtio.Common.{
  ℕ, ◌+◌, ◌^◌, ◌≤◌, ◌<◌, ◌≡◌, sym, ap, ◌∙◌, subst, List, reverse, length, slice, splice,
  length-splice, slice-splice_self, take, drop, take-splice, drop-splice, le→leb, leb, done, arith,
  take, true,
}
use mathlib.Core.List.{reverse-reverse}
use vrtio.Buffer.{
  Endian, le_bytes, of_le_bytes, of_memory, network_to_host, copy_to, read_word, write_word,
}
use vrtio.Buffer.Bytes.{
  IsBytes, IsBytes-append, IsBytes-take, IsBytes-drop, IsBytes-reverse, le_bytes-IsBytes,
  of_be_bytes, length-to_memory, to_memory-host_to_network, network_to_host-of_memory,
  of_le_bytes-le_bytes,
}
use vrtio.Buffer.Access.{word_at, read_word-done}

-- The bytes that a write of `value` leaves, highest first.
abbrev pub be_bytes : ℕ → ℕ → List ℕ
be_bytes n value = reverse (le_bytes n value)

pub length-be_bytes : (host : Endian) (n value : ℕ) → length (be_bytes n value) ≡ n
length-be_bytes host n value =
    ap length (sym (to_memory-host_to_network host n value)) ∙ length-to_memory host n _

pub write_word-done :
    (host : Endian) (n : ℕ) (buffer : List ℕ) (offset value : ℕ)
    → offset + n ≤ length buffer
    → write_word host n buffer offset value ≡ done (splice buffer offset (be_bytes n value))
unfolding write_word copy_to
write_word-done host n buffer offset value h = rw (to_memory-host_to_network host n value, fits)
  where
    fits : leb (offset + length (be_bytes n value)) (length buffer) ≡ true
    fits = le→leb _ _ (rw (length-be_bytes host n value) h)

module _ (host : Endian) (n : ℕ) (buffer : List ℕ) (offset value : ℕ)
    (fits : offset + n ≤ length buffer) where
  written : List ℕ
  written = splice buffer offset (be_bytes n value)

  length-written : length written ≡ length buffer
  unfolding written
  length-written =
      length-splice buffer offset (be_bytes n value) (rw (length-be_bytes host n value) fits)

  written_bytes : slice written offset n ≡ be_bytes n value
  unfolding written
  written_bytes =
      subst (λ (k : ℕ). slice (splice buffer offset (be_bytes n value)) offset k ≡ be_bytes n value)
        (length-be_bytes host n value)
        (slice-splice_self buffer offset (be_bytes n value) (omega arith))

  written_value : value < 256 ^ n → word_at host n written offset ≡ value
  written_value small =
      ap (λ (bs : List ℕ). network_to_host host n (of_memory host bs)) written_bytes
      ∙ subst
          (λ (k : ℕ).
            network_to_host host k (of_memory host (be_bytes n value))
            ≡ of_be_bytes (be_bytes n value))
          (length-be_bytes host n value)
          (network_to_host-of_memory host (be_bytes n value)
            (IsBytes-reverse _ (le_bytes-IsBytes n value)))
      ∙ ap of_le_bytes (reverse-reverse (le_bytes n value))
      ∙ of_le_bytes-le_bytes n value small

  written-IsBytes : IsBytes buffer → IsBytes written
  unfolding written
  written-IsBytes bytes = IsBytes-append (take offset buffer) _ (IsBytes-take offset buffer bytes) (
      IsBytes-append (be_bytes n value) _ (IsBytes-reverse _ (le_bytes-IsBytes n value))
        (IsBytes-drop _ buffer bytes))

  -- A write of a value that fits its bytes, in range, succeeds and keeps the buffer's length; the value is
  -- read back there, the bytes before it and behind it stay, and the buffer still holds bytes.
  pub write_word-read_word :
      value < 256 ^ n
      → IsBytes buffer
      → (after : List ℕ) × (write_word host n buffer offset value ≡ done after)
        × (length after ≡ length buffer)
        × (read_word host n after offset ≡ done value)
        × (take offset after ≡ take offset buffer)
        × (drop (offset + n) after ≡ drop (offset + n) buffer)
        × IsBytes after
  unfolding written
  write_word-read_word small bytes = (
    written,
    write_word-done host n buffer offset value fits,
    length-written,
    read_word-done host n written offset (rw length-written fits) ∙ ap done (written_value small),
    take-splice buffer offset (be_bytes n value) (omega arith),
    subst
        (λ (k : ℕ).
          drop (offset + k) (splice buffer offset (be_bytes n value)) ≡ drop (offset + k) buffer)
        (length-be_bytes host n value) (drop-splice buffer offset (be_bytes n value) (omega arith)),
    written-IsBytes bytes,
  )
