-- ===== src/DataPacket/Body.antt =====
-- The payload, the trailer and the packet count of a data packet.
use vrtio.Common.{
  ℕ, ◌+◌, ◌-◌, ◌*◌, ◌≤◌, ◌≡◌, ◌≢◌, ap, List, take, drop, ◌++◌, length, min, true, arith, slice,
  length-take, length-slice, subst,
}
use mathlib.Core.Option.{Option, none, some}
use vrtio.Buffer.{Endian}
use vrtio.Buffer.Bytes.{IsBytes, IsBytes-take}
use vrtio.Buffer.Regions.{Touches, copy_to-PutsBytes, kept-Touches, widened, overwritten}
use vrtio.Trailer.Setters
use vrtio.Trailer.Setters.{Setter, IsCall, perform-Leaves, state_at}
use vrtio.Trailer.State.{TrailerState}
use vrtio.DataPacket.{DataPacket, payload, set_payload, trailer}
use vrtio.DataPacket.Contents.{
  rank, payload_field, trailer_field, place, width, end, Contents, Contents_ext, contents, IsFormed,
}
use vrtio.DataPacket.Kept.{
  kept_stream, kept_class, kept_seconds, kept_fraction, kept_payload, kept_trailer, trailer_width,
}
use vrtio.DataPacket.Calls.{Becomes, kept_count, still_formed, in_buffer}

-- The payload's first bytes are new, as many as there are or fit.
abbrev pub put_payload : List ℕ → Contents → Contents
put_payload source s = record s {
  payload = let n = min (length source) (length s.payload) in take n source ++ drop n s.payload;
}

abbrev on_trailer : (TrailerState → TrailerState) → Option TrailerState → Option TrailerState
on_trailer g none = none
on_trailer g (some s) = some (g s)

abbrev pub change_trailer : Setter → Contents → Contents
change_trailer call s = record s { trailer = on_trailer (Setters.effect call) s.trailer }

-- What a copy of the first `n` bytes leaves in a payload of `w`.
new_payload :
    {before after : List ℕ} (place w : ℕ) (source : List ℕ)
    → place + w ≤ length before
    → Touches before place (place + length (take (min (length source) w) source)) after
    → slice after place (length (take (min (length source) w) source))
      ≡ take (min (length source) w) source
    → slice after place w ≡ (
        let n = min (length source) (length (slice before place w)) in
        take n source ++ drop n (slice before place w))
new_payload {before} {after} place w source fits t h =
    let n = min (length source) w in
    let bytes = take n source in
    let many : length bytes ≡ n = omega (arith, length-take n source) in
    let whole : length (slice before place w) ≡ w = length-slice before place w fits in
    let touched = subst (λ (k : ℕ). Touches before place (place + k) after) many t in
    let put = subst (λ (k : ℕ). slice after place k ≡ bytes) many h in
    rw whole (
      subst (λ (k : ℕ). slice after place k ≡ bytes ++ drop n (slice before place k)) (omega arith)
        (overwritten place n (w - n) bytes touched put))

module _ (host : Endian) (d : DataPacket) (buffer : List ℕ) (formed : IsFormed host d buffer) where
  pub trailer-Becomes :
      (call : Setter)
      → d.has_trailer ≡ true
      → IsCall call
      → Becomes host d
          (length buffer)
          (trailer host d call buffer)
          (change_trailer call (contents host d buffer))
  unfolding trailer
  trailer-Becomes call has ok =
      let p = place d trailer_field in
      let fit : p + 4 ≤ length buffer =
        omega (arith, in_buffer host d buffer formed trailer_field, trailer_width d has) in
      let l = perform-Leaves host buffer p fit formed.bytes call ok in
      let t = widened p (end d trailer_field) (omega arith) (omega (arith, trailer_width d has)) (
        kept-Touches buffer l.after p (p + 4) l.same_length l.still_bytes l.same_before
          l.same_behind) in
      let differ : rank trailer_field ≢ 0 = omega arith in
      record {
        after = l.after;
        returns = l.returns;
        same_length = t.same_length;
        formed = still_formed host d buffer l.after trailer_field formed differ t;
        says =
            Contents_ext _ _ (kept_count host d buffer l.after trailer_field formed differ t)
              (kept_stream host d buffer l.after trailer_field t (omega arith))
              (kept_class host d buffer l.after trailer_field t (omega arith))
              (kept_seconds host d buffer l.after trailer_field t (omega arith))
              (kept_fraction host d buffer l.after trailer_field t (omega arith))
              (kept_payload host d buffer l.after trailer_field t (omega arith))
              (rw has (ap some l.says));
      }

  pub set_payload-Becomes :
      (source : List ℕ)
      → IsBytes source
      → Becomes host d
          (length buffer)
          (set_payload host d source buffer)
          (put_payload source (contents host d buffer))
  unfolding set_payload payload
  set_payload-Becomes source ok =
      let p = place d payload_field in
      let n = min (length source) (d.payload_words * 4) in
      let some_bytes = take n source in
      let len : length some_bytes ≡ n = omega (arith, length-take n source) in
      let w =
        copy_to-PutsBytes buffer p some_bytes
          (omega (arith, len, in_buffer host d buffer formed payload_field)) formed.bytes
          (IsBytes-take n source ok) in
      let t = widened p (end d payload_field) (omega arith) (omega (arith, len)) w.touches in
      let differ : rank payload_field ≢ 0 = omega arith in
      record {
        after = w.after;
        returns = w.returns;
        same_length = t.same_length;
        formed = still_formed host d buffer w.after payload_field formed differ t;
        says =
            Contents_ext _ _ (kept_count host d buffer w.after payload_field formed differ t)
              (kept_stream host d buffer w.after payload_field t (omega arith))
              (kept_class host d buffer w.after payload_field t (omega arith))
              (kept_seconds host d buffer w.after payload_field t (omega arith))
              (kept_fraction host d buffer w.after payload_field t (omega arith))
              (new_payload p (width d payload_field) source
                (in_buffer host d buffer formed payload_field) w.touches w.holds)
              (kept_trailer host d buffer w.after payload_field t (omega arith));
      }
