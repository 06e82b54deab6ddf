-- ===== src/Trailer/Tests.antt =====
-- A trailer in a buffer of six bytes, set and read.
use vrtio.Common.{ℕ, ◌≡◌, refl, true, List, [], ◌∷◌, slice, done, ◌>>=◌, arith}
use vrtio.Buffer.{
  little, read_u32, write_u32, read_word, write_word, copy_from, copy_to, network_to_host,
  host_to_network, byteswap, to_memory, of_memory, le_bytes, of_le_bytes,
}
use vrtio.Trailer.{
  Indicator, Flag, extract_bit, set_bit, clear_bit, extract_field, set_field, valid_data,
  sample_frame_0, calibrated_time,
}
use vrtio.Trailer.View.{
  raw, context_packet_count, named, flag, set_raw, modify, set_context_packet_count, set_indicator,
  set_named, set_flag, get_indicator, clear_context_packet_count, from_view, apply,
}
use vrtio.Trailer.Setters.{Setter, perform, Leaves, state_at, puts_named, puts_count, puts_flag}
use vrtio.Buffer.Bytes.{of_be_bytes}
use vrtio.Trailer.Reads.{getters_said, count_said, indicator_said, flag_said}
use vrtio.Trailer.Views.{perform_all, effect_all, perform_all-Leaves, build, apply-build}

trailer_program : Unit {0}
unfolding raw context_packet_count named get_indicator flag set_raw modify set_context_packet_count
    clear_context_packet_count set_indicator set_named set_flag extract_bit set_bit clear_bit
    extract_field set_field read_u32 write_u32 read_word write_word copy_from copy_to
    network_to_host host_to_network byteswap to_memory of_memory le_bytes of_le_bytes
trailer_program = tt

abbrev around : List ℕ
around = 0xAA ∷ 0 ∷ 0 ∷ 0 ∷ 0 ∷ 0xBB ∷ []

-- A count of 200 is cut to its seven low bits, 72, not held at 127.
count_is_cut :
    set_context_packet_count little 200 around 1 ≡ done (0xAA ∷ 0 ∷ 0 ∷ 0 ∷ 0xC8 ∷ 0xBB ∷ [])
unfolding trailer_program
count_is_cut = refl

valid_data_set :
    set_named little valid_data true around 1 ≡ done (0xAA ∷ 0x40 ∷ 0x04 ∷ 0 ∷ 0 ∷ 0xBB ∷ [])
unfolding trailer_program
valid_data_set = refl

abbrev three_calls : List Setter
three_calls = puts_named valid_data true ∷ puts_count 200 ∷ puts_flag sample_frame_0 true ∷ []

perform_all-Leaves_example :
    Leaves little around 1
      (perform_all little three_calls around 1)
      (effect_all three_calls (state_at little around 1))
perform_all-Leaves_example =
    perform_all-Leaves little three_calls around 1 (omega arith) (omega arith) (omega arith)

getters_said_example :
    let word = of_be_bytes (slice around 1 4) in
    (context_packet_count little around 1 ≡ done (count_said word))
    × ((i : Indicator) → named little i around 1 ≡ done (indicator_said word i))
    × ((f : Flag) → flag little f around 1 ≡ done (flag_said word f))
getters_said_example = getters_said little around 1 (omega arith) (omega arith)

apply-build_example :
    (from_view little (record { value = 7 }) around 1 >>= λ taken.
    apply little (build (puts_named calibrated_time true) taken) around 1)
    ≡ perform little (puts_named calibrated_time true) around 1
apply-build_example =
    apply-build little (puts_named calibrated_time true) (record { value = 7 }) around 1
      (omega arith) tt
