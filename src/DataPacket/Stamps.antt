-- ===== src/DataPacket/Stamps.antt =====
-- `set_timestamp` of a data packet: the seconds, the fraction, or both.
use vrtio.Common.{ℕ, ◌^◌, ◌<◌, ◌≢◌, refl, ap, List, length, arith, inl, inr, Bool-cases}
use mathlib.Core.Option.{some}
use vrtio.Buffer.{Endian, write_u32, write_u64}
use vrtio.Buffer.Regions.{write_word-PutsWord, widened}
use vrtio.Types.{has_tsi, has_tsf}
use vrtio.Prologue
use vrtio.Prologue.{Prologue}
use vrtio.Timestamp.{Timestamp}
use vrtio.DataPacket.{DataPacket, prologue_type, set_timestamp}
use vrtio.DataPacket.Contents.{
  rank, tsi_field, tsf_field, place, end, Contents_ext, contents, IsFormed,
}
use vrtio.DataPacket.Kept.{
  kept_stream, kept_class, kept_seconds, kept_fraction, kept_payload, kept_trailer, tsi_width,
  tsf_width,
}
use vrtio.DataPacket.Calls.{
  Becomes, Becomes-bind, put_seconds, put_fraction, kept_count, still_formed, in_buffer,
}

module _ (host : Endian) (d : DataPacket) (buffer : List ℕ) (formed : IsFormed host d buffer) where
  put_tsi-Becomes :
      (ts : Timestamp)
      → ts.seconds < 2 ^ 32
      → Becomes host d
          (length buffer)
          (Prologue.put_tsi host (prologue_type d) ts buffer)
          (put_seconds ts.seconds (contents host d buffer))
  unfolding Prologue.put_tsi write_u32
  put_tsi-Becomes ts small = elim (Bool-cases (has_tsi (Prologue.tsi (prologue_type d)))) [
    | inl has ↦
        let p = place d tsi_field in
        let w =
          write_word-PutsWord host 4 buffer p ts.seconds
            (omega (arith, in_buffer host d buffer formed tsi_field, tsi_width d has)) small
            formed.bytes in
        let t =
          widened p (end d tsi_field) (omega arith) (omega (arith, tsi_width d has)) w.touches in
        let differ : rank tsi_field ≢ 0 = omega arith in
        record {
          after = w.after;
          returns = rw has w.returns;
          same_length = t.same_length;
          formed = still_formed host d buffer w.after tsi_field formed differ t;
          says =
              Contents_ext _ _ (kept_count host d buffer w.after tsi_field formed differ t)
                (kept_stream host d buffer w.after tsi_field t (omega arith))
                (kept_class host d buffer w.after tsi_field t (omega arith))
                (rw has (ap some w.holds))
                (kept_fraction host d buffer w.after tsi_field t (omega arith))
                (kept_payload host d buffer w.after tsi_field t (omega arith))
                (kept_trailer host d buffer w.after tsi_field t (omega arith));
        }
    | inr has ↦ record {
      after = buffer;
      returns = rw has refl;
      same_length = refl;
      formed = formed;
      says = Contents_ext _ _ refl refl refl (rw has refl) refl refl refl;
    }
  ]

  put_tsf-Becomes :
      (ts : Timestamp)
      → ts.fractional < 2 ^ 64
      → Becomes host d
          (length buffer)
          (Prologue.put_tsf host (prologue_type d) ts buffer)
          (put_fraction ts.fractional (contents host d buffer))
  unfolding Prologue.put_tsf write_u64
  put_tsf-Becomes ts small = elim (Bool-cases (has_tsf (Prologue.tsf (prologue_type d)))) [
    | inl has ↦
        let p = place d tsf_field in
        let w =
          write_word-PutsWord host 8 buffer p ts.fractional
            (omega (arith, in_buffer host d buffer formed tsf_field, tsf_width d has)) small
            formed.bytes in
        let t =
          widened p (end d tsf_field) (omega arith) (omega (arith, tsf_width d has)) w.touches in
        let differ : rank tsf_field ≢ 0 = omega arith in
        record {
          after = w.after;
          returns = rw has w.returns;
          same_length = t.same_length;
          formed = still_formed host d buffer w.after tsf_field formed differ t;
          says =
              Contents_ext _ _ (kept_count host d buffer w.after tsf_field formed differ t)
                (kept_stream host d buffer w.after tsf_field t (omega arith))
                (kept_class host d buffer w.after tsf_field t (omega arith))
                (kept_seconds host d buffer w.after tsf_field t (omega arith))
                (rw has (ap some w.holds))
                (kept_payload host d buffer w.after tsf_field t (omega arith))
                (kept_trailer host d buffer w.after tsf_field t (omega arith));
        }
    | inr has ↦ record {
      after = buffer;
      returns = rw has refl;
      same_length = refl;
      formed = formed;
      says = Contents_ext _ _ refl refl refl refl (rw has refl) refl refl;
    }
  ]

module _ (host : Endian) (d : DataPacket) (buffer : List ℕ) (formed : IsFormed host d buffer) where
  pub set_timestamp-Becomes :
      (ts : Timestamp)
      → ts.seconds < 2 ^ 32
      → ts.fractional < 2 ^ 64
      → Becomes host d
          (length buffer)
          (set_timestamp host d ts buffer)
          (put_fraction ts.fractional (put_seconds ts.seconds (contents host d buffer)))
  unfolding set_timestamp Prologue.set_timestamp
  set_timestamp-Becomes ts s f =
      Becomes-bind (Prologue.put_tsf host (prologue_type d) ts) (put_fraction ts.fractional)
        (λ after good. put_tsf-Becomes host d after good ts f)
        (put_tsi-Becomes host d buffer formed ts s)
