-- ===== src/Buffer/Tests.antt =====
-- Reads and writes of buffer_io.hpp at concrete buffers, on both kinds of host.
use vrtio.Common.{ℕ, ◌≡◌, refl, List, [], ◌∷◌, length, take, drop, done, fault, arith}
use vrtio.Buffer.{
  little, big, read_u32, read_u64, write_u32, read_word, write_word, copy_from, copy_to,
  network_to_host, host_to_network, byteswap, to_memory, of_memory, le_bytes, of_le_bytes,
}
use vrtio.Buffer.Bytes.{IsBytes}
use vrtio.Buffer.RoundTrip.{write_word-read_word}

buffer_program : Unit {0}
unfolding read_u32 read_u64 write_u32 read_word write_word copy_from copy_to network_to_host
    host_to_network byteswap to_memory of_memory le_bytes of_le_bytes
buffer_program = tt

abbrev six_bytes : List ℕ
six_bytes = 0xAA ∷ 0x12 ∷ 0x34 ∷ 0x56 ∷ 0x78 ∷ 0xBB ∷ []

both_hosts :
    (read_u32 little six_bytes 1 ≡ done 0x12345678)
    × (read_u32 big six_bytes 1 ≡ done 0x12345678)
    × (read_u32 little six_bytes 3 ≡ fault)
unfolding buffer_program
both_hosts = (refl, refl, refl)

written_both :
    (write_u32 little six_bytes 2 0x01020304 ≡ done (0xAA ∷ 0x12 ∷ 0x01 ∷ 0x02 ∷ 0x03 ∷ 0x04 ∷ []))
    × (write_u32 big six_bytes 2 0x01020304 ≡ done (0xAA ∷ 0x12 ∷ 0x01 ∷ 0x02 ∷ 0x03 ∷ 0x04 ∷ []))
    × (write_u32 big six_bytes 3 1 ≡ fault)
unfolding buffer_program
written_both = (refl, refl, refl)

write_word-read_word_example :
    (after : List ℕ) × (write_word little 4 six_bytes 2 0x01020304 ≡ done after)
    × (length after ≡ 6)
    × (read_word little 4 after 2 ≡ done 0x01020304)
    × (take 2 after ≡ take 2 six_bytes)
    × (drop 6 after ≡ drop 6 six_bytes)
    × IsBytes after
write_word-read_word_example =
    write_word-read_word little 4 six_bytes 2 0x01020304 (omega arith) (omega arith) (omega arith)
