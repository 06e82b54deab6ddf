-- ===== src/FieldTraits/Tests.antt =====
-- The GPS text of a context packet, and a bandwidth written and read back.
use vrtio.Common.{◌≡◌, refl, true, [], ◌∷◌, done, arith}
use mathlib.Core.Option.{some}
use vrtio.Buffer.{
  little, network_to_host, host_to_network, byteswap, of_memory, le_bytes, of_le_bytes,
}
use vrtio.Buffer.Access.{word_at}
use vrtio.Cif.{field_at}
use vrtio.RuntimeContext.Access.{FieldProxy, field_table}
use vrtio.RuntimeContext.Sample.{gps_packet, gps_buffer, found, found-parse, gps_proxy}
use vrtio.FieldTraits.{Value, long, long_value}
use vrtio.FieldTraits.Cif0.{gps_ascii}
use vrtio.FieldTraits.Tables.{field_traits, Matches, field_traits-Matches}
use vrtio.FieldTraits.RoundTrip.{Stores, write_fixed-Stores}
use vrtio.FieldTraits.Encoded.{encoded, IsReadable, encoded-IsReadable}

gps_trait : field_traits 0 10 ≡ some gps_ascii
unfolding field_traits
gps_trait = refl

abbrev gps_field : FieldProxy
gps_field = record { offset_bytes = 28; size_bytes = 12; present = true }

gps_count : word_at little 4 gps_packet 28 ≡ 5
unfolding network_to_host host_to_network byteswap of_memory le_bytes of_le_bytes
gps_count = refl

encoded-IsReadable_example :
    (v : Value) × (encoded little found gps_ascii gps_field ≡ done v) × IsReadable v
encoded-IsReadable_example =
    encoded-IsReadable little gps_buffer 44 (omega arith) (omega arith) found found-parse 0 10
      gps_ascii gps_field refl (omega arith) (omega arith) gps_trait gps_proxy refl
      (λ e. omega (arith, gps_count))

field_traits-Matches_example : Matches 3 20 (field_at (field_table 3) 20) (field_traits 3 20)
field_traits-Matches_example = field_traits-Matches 3 20 (omega arith) (omega arith)

write_fixed-Stores_example :
    Stores little
      (1 ∷ 2 ∷ 3 ∷ 4 ∷ 5 ∷ 6 ∷ 7 ∷ 8 ∷ 9 ∷ 10 ∷ [])
      1
      (omega arith)
      long
      (long_value 0x1_0000_0000)
write_fixed-Stores_example =
    write_fixed-Stores little (1 ∷ 2 ∷ 3 ∷ 4 ∷ 5 ∷ 6 ∷ 7 ∷ 8 ∷ 9 ∷ 10 ∷ []) 1 (omega arith) long
      (long_value 0x1_0000_0000) (omega arith) (omega arith)
