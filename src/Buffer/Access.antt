-- ===== src/Buffer/Access.antt =====
-- The reads of buffer_io.hpp: they stay in the buffer exactly when the word does, and read the word in
-- network order on every host.
use vrtio.Common.{
  ℕ, ◌+◌, ◌^◌, ◌≤◌, ◌<◌, ◌≡◌, ap, ◌∙◌, subst, List, reverse, length, slice, length-slice,
  length-reverse, drop, le→leb, done,
}
use vrtio.Buffer.{Endian, of_memory, network_to_host, copy_from, read_word, read_u32, read_u64}
use vrtio.Buffer.Bytes.{
  IsBytes, IsBytes-take, IsBytes-drop, IsBytes-reverse, of_be_bytes, of_le_bytes-lt,
  network_to_host-of_memory,
}

-- What a read in range gives.
abbrev pub word_at : Endian → ℕ → List ℕ → ℕ → ℕ
word_at host n buffer offset = network_to_host host n (of_memory host (slice buffer offset n))

pub read_word-done :
    (host : Endian) (n : ℕ) (buffer : List ℕ) (offset : ℕ)
    → offset + n ≤ length buffer
    → read_word host n buffer offset ≡ done (word_at host n buffer offset)
unfolding read_word copy_from
read_word-done host n buffer offset h = rw (le→leb _ _ h)

pub read_u32-done :
    (host : Endian) (buffer : List ℕ) (offset : ℕ)
    → offset + 4 ≤ length buffer
    → read_u32 host buffer offset ≡ done (word_at host 4 buffer offset)
unfolding read_u32
read_u32-done host buffer offset h = read_word-done host 4 buffer offset h

pub read_u64-done :
    (host : Endian) (buffer : List ℕ) (offset : ℕ)
    → offset + 8 ≤ length buffer
    → read_u64 host buffer offset ≡ done (word_at host 8 buffer offset)
unfolding read_u64
read_u64-done host buffer offset h = read_word-done host 8 buffer offset h

pub word_at-be :
    (host : Endian) (n : ℕ) (buffer : List ℕ) (offset : ℕ)
    → offset + n ≤ length buffer
    → IsBytes buffer
    → word_at host n buffer offset ≡ of_be_bytes (slice buffer offset n)
word_at-be host n buffer offset h bytes =
    subst (λ (k : ℕ). network_to_host host k (of_memory host part) ≡ of_be_bytes part)
      (length-slice buffer offset n h)
      (network_to_host-of_memory host part
        (IsBytes-take n (drop offset buffer) (IsBytes-drop offset buffer bytes)))
  where
    part : List ℕ
    part = slice buffer offset n

-- A read within the buffer gives the big-endian value of the bytes there, whatever the byte order of
-- the host.
pub read_word-be :
    (host : Endian) (n : ℕ) (buffer : List ℕ) (offset : ℕ)
    → offset + n ≤ length buffer
    → IsBytes buffer
    → read_word host n buffer offset ≡ done (of_be_bytes (slice buffer offset n))
read_word-be host n buffer offset h bytes =
    read_word-done host n buffer offset h ∙ ap done (word_at-be host n buffer offset h bytes)

pub word_at-lt :
    (host : Endian) (n : ℕ) (buffer : List ℕ) (offset : ℕ)
    → offset + n ≤ length buffer
    → IsBytes buffer
    → word_at host n buffer offset < 256 ^ n
word_at-lt host n buffer offset h bytes = rw (word_at-be host n buffer offset h bytes) (
    subst (λ (k : ℕ). of_be_bytes part < 256 ^ k) n_bytes
      (of_le_bytes-lt (reverse part) (
        IsBytes-reverse part
          (IsBytes-take n (drop offset buffer) (IsBytes-drop offset buffer bytes)))))
  where
    part : List ℕ
    part = slice buffer offset n

    n_bytes : length (reverse part) ≡ n
    n_bytes = length-reverse part ∙ length-slice buffer offset n h
