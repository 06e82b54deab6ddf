-- ===== src/Iteration.antt =====
-- utils/detail/iteration_helpers.hpp: loops over a reader that gives packets until it gives none.
-- The reader is a parameter, as in the templates: its state and `read_next_packet`. A callback keeps a
-- state of its own. A loop runs at most `fuel` rounds and is `none` when they do not suffice.
use vrtio.Common.{ℕ, zero, suc, Bool, ◌==◌, if◌then◌else◌, Run, done, ◌>>=◌}
use mathlib.Core.Option.{Option, none, some}
use vrtio.Buffer.{Endian}
use vrtio.RuntimeData.{RuntimeDataPacket}
use vrtio.RuntimeContext.{RuntimeContextPacket}
use vrtio.Parser.{PacketVariant, data_packet, context_packet}
use vrtio.Parser

-- `std::get_if`.
unfoldable pub get_data_packet : PacketVariant → Option RuntimeDataPacket
get_data_packet (data_packet p) = some p
get_data_packet _ = none

unfoldable pub get_context_packet : PacketVariant → Option RuntimeContextPacket
get_context_packet (context_packet p) = some p
get_context_packet _ = none

-- The packet, when it has the stream id.
unfoldable pub with_stream_id : Endian → ℕ → PacketVariant → Run (Option PacketVariant)
unfolding Parser.stream_id
with_stream_id host stream_id_filter pkt = Parser.stream_id host pkt >>= λ sid.
    done (elim sid [ none ↦ none | some id ↦ if id == stream_id_filter then some pkt else none ])

module _ {ℓ κ} {S : Type ℓ} {C : Type κ}
    (read_next_packet : S → Run (Option PacketVariant × S)) where
  module _ {A : Type 0} (select : PacketVariant → Run (Option A))
      (callback : C → A → Bool × C) where
    -- The loop that the helpers have in common: the callback gets what is selected.
    unfoldable pub for_each : ℕ → ℕ → C → S → Run (Option (ℕ × C × S))
    for_each zero count c reader = done none
    for_each (suc fuel) count c reader = read_next_packet reader >>= λ got. elim got.0 [
      | none ↦ done (some (count, c, got.1))
      | some pkt ↦ select pkt >>= λ selected. elim selected [
        | none ↦ for_each fuel count c got.1
        | some a ↦
            let call = callback c a in
            let rest = for_each fuel (suc count) call.1 got.1 in
            if call.0 then rest else done (some (suc count, call.1, got.1))
      ]
    ]

  unfoldable pub for_each_validated_packet :
      (C → PacketVariant → Bool × C) → ℕ → C → S → Run (Option (ℕ × C × S))
  unfolding for_each
  for_each_validated_packet callback fuel c reader =
      for_each (λ pkt. done (some pkt)) callback fuel 0 c reader

  unfoldable pub for_each_data_packet :
      (C → RuntimeDataPacket → Bool × C) → ℕ → C → S → Run (Option (ℕ × C × S))
  unfolding for_each get_data_packet
  for_each_data_packet callback fuel c reader =
      for_each (λ pkt. done (get_data_packet pkt)) callback fuel 0 c reader

  unfoldable pub for_each_context_packet :
      (C → RuntimeContextPacket → Bool × C) → ℕ → C → S → Run (Option (ℕ × C × S))
  unfolding for_each get_context_packet
  for_each_context_packet callback fuel c reader =
      for_each (λ pkt. done (get_context_packet pkt)) callback fuel 0 c reader

  unfoldable pub for_each_packet_with_stream_id :
      Endian → ℕ → (C → PacketVariant → Bool × C) → ℕ → C → S → Run (Option (ℕ × C × S))
  unfolding for_each with_stream_id
  for_each_packet_with_stream_id host stream_id_filter callback fuel c reader =
      for_each (with_stream_id host stream_id_filter) callback fuel 0 c reader
