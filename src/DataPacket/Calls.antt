-- ===== src/DataPacket/Calls.antt =====
-- The setters of data_packet.hpp as changes of what the packet says.
use vrtio.Common.{
  ℕ, ◌+◌, ◌*◌, ◌/◌, ◌%◌, ◌^◌, ◌≤◌, ◌<◌, ◌≡◌, ◌≢◌, sym, ap, ◌∙◌, List, length, true, Run, done,
  ◌>>=◌, arith, inl,
}
use mathlib.Core.Option.{Option, none, some}
use mathlib.Core.Path.{ap₂}
use vrtio.Buffer.{Endian, write_u32}
use vrtio.Buffer.Access.{word_at}
use vrtio.Buffer.Regions.{Touches, write_word-PutsWord, widened, Touches-Touches, word_at-others}
use vrtio.ClassId.{
  ClassIdValue, from_words, word0, word1, IsClassId, words-lt, from_words-word0-word1,
}
use vrtio.Prologue
use vrtio.DataPacket.{DataPacket, prologue_type, set_stream_id, set_class_id}
use vrtio.DataPacket.Contents.{
  Field, rank, stream_field, class_field, place, end, end_fits, Contents, Contents_ext, contents,
  count_of, IsFormed, header_of,
}
use vrtio.DataPacket.Kept.{
  kept_header, kept_stream, kept_class, kept_seconds, kept_fraction, kept_payload, kept_trailer,
  class_width, stream_width,
}

-- `result` is a return that leaves a formed packet, and that packet says `s`.
pub record Becomes (host : Endian) (d : DataPacket) (size : ℕ) (result : Run (List ℕ))
    (s : Contents) : Type 0 where
  pub after : List ℕ
  pub returns : result ≡ done after
  pub same_length : length after ≡ size
  pub formed : IsFormed host d after
  pub says : contents host d after ≡ s

-- One call after the other.
pub Becomes-bind :
    {host : Endian} {d : DataPacket} {size : ℕ} {result : Run (List ℕ)} {s : Contents}
    (next : List ℕ → Run (List ℕ)) (g : Contents → Contents)
    → ((after : List ℕ)
        → IsFormed host d after
        → Becomes host d (length after) (next after) (g (contents host d after)))
    → Becomes host d size result s
    → Becomes host d size (result >>= next) (g s)
Becomes-bind next g later b =
    let n = later b.after b.formed in
    record {
      after = n.after;
      returns = rw b.returns n.returns;
      same_length = n.same_length ∙ b.same_length;
      formed = n.formed;
      says = n.says ∙ ap g b.says;
    }

-- A new value for a field, where the packet has it.
abbrev pub overwrite {ℓ} : {A : Type ℓ} → A → Option A → Option A
overwrite x none = none
overwrite x (some y) = some x

abbrev pub put_stream_id : ℕ → Contents → Contents
put_stream_id id s = record s { stream_id = overwrite id s.stream_id }

abbrev pub put_class_id : ClassIdValue → Contents → Contents
put_class_id c s = record s { class_id = overwrite c s.class_id }

abbrev pub put_seconds : ℕ → Contents → Contents
put_seconds n s = record s { seconds = overwrite n s.seconds }

abbrev pub put_fraction : ℕ → Contents → Contents
put_fraction n s = record s { fraction = overwrite n s.fraction }

module _ (host : Endian) (d : DataPacket) (buffer after : List ℕ) (f : Field)
    (formed : IsFormed host d buffer) (differ : rank f ≢ 0)
    (t : Touches buffer (place d f) (end d f) after) where
  pub kept_count : count_of host d after ≡ count_of host d buffer
  kept_count = ap (λ (w : ℕ). w / 2 ^ 16 % 16) (kept_header host d buffer after f t differ)

  pub still_formed : IsFormed host d after
  still_formed = record {
    fits = rw t.same_length formed.fits;
    bytes = t.still_bytes;
    header_is =
        kept_header host d buffer after f t differ
        ∙ formed.header_is
        ∙ ap (header_of host d) (sym kept_count);
  }

module _ (host : Endian) (d : DataPacket) (buffer : List ℕ) (formed : IsFormed host d buffer) where
  pub in_buffer : (f : Field) → end d f ≤ length buffer
  in_buffer f = omega (arith, end_fits d f, formed.fits)

  pub set_stream_id-Becomes :
      (id : ℕ)
      → Prologue.has_stream_id (prologue_type d) ≡ true
      → id < 2 ^ 32
      → Becomes host d
          (length buffer)
          (set_stream_id host d id buffer)
          (put_stream_id id (contents host d buffer))
  unfolding set_stream_id Prologue.set_stream_id write_u32
  set_stream_id-Becomes id has small =
      let w =
        write_word-PutsWord host 4 buffer (place d stream_field) id
          (omega (arith, in_buffer stream_field, stream_width d has)) small formed.bytes in
      let t =
        widened (place d stream_field) (end d stream_field) (omega arith)
          (omega (arith, stream_width d has)) w.touches in
      let differ : rank stream_field ≢ 0 = omega arith in
      record {
        after = w.after;
        returns = w.returns;
        same_length = t.same_length;
        formed = still_formed host d buffer w.after stream_field formed differ t;
        says =
            Contents_ext _ _ (kept_count host d buffer w.after stream_field formed differ t)
              (rw has (ap some w.holds))
              (kept_class host d buffer w.after stream_field t (omega arith))
              (kept_seconds host d buffer w.after stream_field t (omega arith))
              (kept_fraction host d buffer w.after stream_field t (omega arith))
              (kept_payload host d buffer w.after stream_field t (omega arith))
              (kept_trailer host d buffer w.after stream_field t (omega arith));
      }

  pub set_class_id-Becomes :
      (c : ClassIdValue)
      → Prologue.has_class_id (prologue_type d) ≡ true
      → IsClassId c
      → Becomes host d
          (length buffer)
          (set_class_id host d c buffer)
          (put_class_id c (contents host d buffer))
  unfolding set_class_id Prologue.set_class_id write_u32
  set_class_id-Becomes c has v =
      let p = place d class_field in
      let wide = class_width d has in
      let room = in_buffer class_field in
      let q = (Prologue.class_id_offset (prologue_type d) + 1) * 4 in
      let w =
        write_word-PutsWord host 4 buffer p (word0 c) (omega (arith, room, wide)) (words-lt c v).0
          formed.bytes in
      let u =
        write_word-PutsWord host 4 w.after q (word1 c)
          (omega (arith, room, wide, w.touches.same_length)) (words-lt c v).1
          w.touches.still_bytes in
      let t =
        Touches-Touches p (end d class_field) (omega arith) (omega arith) (omega (arith, wide))
          (omega (arith, wide)) w.touches u.touches in
      let first : word_at host 4 u.after p ≡ word0 c =
        word_at-others host 4 p u.touches (inl (omega arith)) ∙ w.holds in
      let second : word_at host 4 u.after (p + 4) ≡ word1 c =
        ap (λ (k : ℕ). word_at host 4 u.after k) (omega arith) ∙ u.holds in
      let differ : rank class_field ≢ 0 = omega arith in
      record {
        after = u.after;
        returns = rw w.returns u.returns;
        same_length = t.same_length;
        formed = still_formed host d buffer u.after class_field formed differ t;
        says =
            Contents_ext _ _ (kept_count host d buffer u.after class_field formed differ t)
              (kept_stream host d buffer u.after class_field t (omega arith))
              (rw has (ap some (ap₂ from_words first second ∙ from_words-word0-word1 c v)))
              (kept_seconds host d buffer u.after class_field t (omega arith))
              (kept_fraction host d buffer u.after class_field t (omega arith))
              (kept_payload host d buffer u.after class_field t (omega arith))
              (kept_trailer host d buffer u.after class_field t (omega arith));
      }
