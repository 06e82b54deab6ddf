-- ===== src/Buffer.antt =====
-- detail/endian.hpp and detail/buffer_io.hpp: words in buffers, in network byte order.
-- A buffer is the list of its bytes. `std::memcpy` from or to bytes that the buffer does not have is a
-- `fault`. The byte order of the host, `std::endian::native`, is the argument `Endian`.
pub mod Bytes
pub mod Access
pub mod RoundTrip
pub mod Regions
mod Tests
use vrtio.Common.{
  ℕ, zero, suc, ◌+◌, ◌*◌, ◌/◌, ◌%◌, List, [], ◌∷◌, ◌++◌, reverse, length, take, drop, leb,
  if◌then◌else◌, Run, done, fault, ◌>>=◌,
}

-- `std::endian::native`; the static assertion excludes mixed orders.
pub data Endian : Type 0 where
  little big : Endian

-- The bytes of a number, lowest first, and the number that such bytes mean.
unfoldable pub le_bytes : ℕ → ℕ → List ℕ
le_bytes zero v = []
le_bytes (suc n) v = v % 256 ∷ le_bytes n (v / 256)

unfoldable pub of_le_bytes : List ℕ → ℕ
of_le_bytes [] = 0
of_le_bytes (b ∷ bs) = b + 256 * of_le_bytes bs

-- How the host keeps a number of `n` bytes in memory, and what it reads back from there.
unfoldable pub to_memory : Endian → ℕ → ℕ → List ℕ
to_memory little n v = le_bytes n v
to_memory big n v = reverse (le_bytes n v)

unfoldable pub of_memory : Endian → List ℕ → ℕ
of_memory little bs = of_le_bytes bs
of_memory big bs = of_le_bytes (reverse bs)

-- `__builtin_bswap16`, `32` and `64`, at 2, 4 and 8 bytes.
unfoldable pub byteswap : ℕ → ℕ → ℕ
byteswap n v = of_le_bytes (reverse (le_bytes n v))

unfoldable pub host_to_network : Endian → ℕ → ℕ → ℕ
host_to_network little n v = byteswap n v
host_to_network big n v = v

unfoldable pub network_to_host : Endian → ℕ → ℕ → ℕ
network_to_host e n v = host_to_network e n v

-- `std::memcpy(&value, buffer + offset, n)`.
unfoldable pub copy_from : List ℕ → ℕ → ℕ → Run (List ℕ)
copy_from buffer offset n =
    if leb (offset + n) (length buffer) then done (take n (drop offset buffer)) else fault

-- `std::memcpy(buffer + offset, &value, n)`, for the `n` bytes of `value`.
unfoldable pub copy_to : List ℕ → ℕ → List ℕ → Run (List ℕ)
copy_to buffer offset bytes =
    if leb (offset + length bytes) (length buffer)
    then done (take offset buffer ++ (bytes ++ drop (offset + length bytes) buffer))
    else fault

module _ (host : Endian) where
  unfoldable pub read_word : ℕ → List ℕ → ℕ → Run ℕ
  read_word n buffer offset = do
    bytes ← copy_from buffer offset n
    done (network_to_host host n (of_memory host bytes))

  unfoldable pub write_word : ℕ → List ℕ → ℕ → ℕ → Run (List ℕ)
  write_word n buffer offset value =
      copy_to buffer offset (to_memory host n (host_to_network host n value))

  unfoldable pub read_u32 : List ℕ → ℕ → Run ℕ
  read_u32 buffer offset = read_word 4 buffer offset

  unfoldable pub read_u64 : List ℕ → ℕ → Run ℕ
  read_u64 buffer offset = read_word 8 buffer offset

  unfoldable pub write_u32 : List ℕ → ℕ → ℕ → Run (List ℕ)
  write_u32 buffer offset value = write_word 4 buffer offset value

  unfoldable pub write_u64 : List ℕ → ℕ → ℕ → Run (List ℕ)
  write_u64 buffer offset value = write_word 8 buffer offset value
