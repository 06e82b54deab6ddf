-- ===== src/DataPacket/Refines.antt =====
-- The builder and the constructor of data packets change what the packet says, call by call.
use vrtio.Common.{
  ℕ, ◌+◌, ◌*◌, ◌%◌, ◌^◌, ◌≤◌, ◌<◌, ◌≡◌, ◌≢◌, refl, sym, ap, ◌∙◌, List, [], ◌∷◌, length, true, false,
  done, ◌>>=◌, arith, inl, inr, Bool-cases, slice, u16,
}
use mathlib.Core.Option.{some}
use mathlib.Core.Path.{ap₂}
use vrtio.Buffer.{Endian, write_u32}
use vrtio.Buffer.Bytes.{IsBytes}
use vrtio.Buffer.Access.{word_at}
use vrtio.Buffer.Regions.{copy_to-PutsBytes, widened, slice-slice}
use vrtio.Prologue
use vrtio.Prologue.{Prologue}
use vrtio.Trailer.Setters.{puts_raw, puts_named, puts_count}
use vrtio.DataPacket.{
  DataPacket, IsDataPacket, prologue_type, size_words, size_bytes, construct, init_header,
  init_class_id,
}
use vrtio.DataPacket.Contents.{
  rank, class_field, place, end, Contents, Contents_ext, contents, IsFormed,
}
use vrtio.DataPacket.Kept.{
  kept_stream, kept_seconds, kept_fraction, kept_payload, kept_trailer, class_width,
}
use vrtio.DataPacket.Calls.{
  Becomes, Becomes-bind, put_stream_id, put_class_id, put_seconds, put_fraction, kept_count,
  still_formed, in_buffer, set_stream_id-Becomes, set_class_id-Becomes,
}
use vrtio.DataPacket.Stamps.{set_timestamp-Becomes}
use vrtio.DataPacket.Body.{put_payload, change_trailer, trailer-Becomes, set_payload-Becomes}
use vrtio.DataPacket.Count.{put_count, header_word-Becomes, set_packet_count-Becomes}
use vrtio.DataPacket.Builder.{Call, set, call, calls, start, build}
use vrtio.ClassId.{ClassIdValue, IsClassId, from_words}
use vrtio.Buffer.{
  little, big, network_to_host, host_to_network, byteswap, of_memory, le_bytes, of_le_bytes,
}
use vrtio.Prologue.{zeros, class_id_traits_present, class_id_traits_words}

-- What a call of the builder does to what the packet says.
abbrev pub effect : Call → Contents → Contents
effect (Call.stream_id id) s = put_stream_id id s
effect (Call.timestamp ts) s = put_fraction ts.fractional (put_seconds ts.seconds s)
effect (Call.class_id c) s = put_class_id c s
effect (Call.trailer_word t) s = change_trailer (puts_raw t) s
effect (Call.trailer_builder b) s = change_trailer (puts_raw b.value) s
effect (Call.trailer_named i x) s = change_trailer (puts_named i x) s
effect (Call.trailer_context_packet_count n) s = change_trailer (puts_count n) s
effect (Call.packet_count n) s = put_count (n % 16) s
effect (Call.payload source) s = put_payload source s

abbrev pub effects : List Call → Contents → Contents
effects [] s = s
effects (c ∷ cs) s = effects cs (effect c s)

-- The call compiles for the packet, and its arguments are in their types.
abbrev pub IsAllowed : DataPacket → Call → Type 0
IsAllowed d (Call.stream_id id) = (Prologue.has_stream_id (prologue_type d) ≡ true) × (id < 2 ^ 32)
IsAllowed d (Call.timestamp ts) = (ts.seconds < 2 ^ 32) × (ts.fractional < 2 ^ 64)
IsAllowed d (Call.class_id c) = (Prologue.has_class_id (prologue_type d) ≡ true) × IsClassId c
IsAllowed d (Call.trailer_word t) = (d.has_trailer ≡ true) × (t < 2 ^ 32)
IsAllowed d (Call.trailer_builder b) = (d.has_trailer ≡ true) × (b.value < 2 ^ 32)
IsAllowed d (Call.trailer_named i x) = d.has_trailer ≡ true
IsAllowed d (Call.trailer_context_packet_count n) = d.has_trailer ≡ true
IsAllowed d (Call.packet_count n) = Unit {0}
IsAllowed d (Call.payload source) = IsBytes source

abbrev pub AreAllowed : DataPacket → List Call → Type 0
AreAllowed d [] = Unit {0}
AreAllowed d (c ∷ cs) = IsAllowed d c × AreAllowed d cs

module _ (host : Endian) (d : DataPacket) where
  call-Becomes :
      (c : Call) (buffer : List ℕ)
      → IsFormed host d buffer
      → IsAllowed d c
      → Becomes host d (length buffer) (call host d c buffer) (effect c (contents host d buffer))
  unfolding call set construct
  call-Becomes (Call.stream_id id) b f a = set_stream_id-Becomes host d b f id a.0 a.1
  call-Becomes (Call.timestamp ts) b f a = set_timestamp-Becomes host d b f ts a.0 a.1
  call-Becomes (Call.class_id c) b f a = set_class_id-Becomes host d b f c a.0 a.1
  call-Becomes (Call.trailer_word t) b f a = trailer-Becomes host d b f (puts_raw t) a.0 a.1
  call-Becomes (Call.trailer_builder t) b f a =
      trailer-Becomes host d b f (puts_raw t.value) a.0 a.1
  call-Becomes (Call.trailer_named i x) b f a = trailer-Becomes host d b f (puts_named i x) a tt
  call-Becomes (Call.trailer_context_packet_count n) b f a =
      trailer-Becomes host d b f (puts_count n) a tt
  call-Becomes (Call.packet_count n) b f a = set_packet_count-Becomes host d b f n
  call-Becomes (Call.payload source) b f a = set_payload-Becomes host d b f source a

  -- Every allowed sequence of builder calls on a formed packet succeeds, keeps the packet formed and the
  -- buffer's length, and leaves the packet saying what the same changes of its contents say.
  pub calls-Becomes :
      (cs : List Call) (buffer : List ℕ)
      → IsFormed host d buffer
      → AreAllowed d cs
      → Becomes host d
          (length buffer)
          (calls host d cs buffer)
          (effects cs (contents host d buffer))
  unfolding calls
  calls-Becomes [] buffer f a = record {
    after = buffer;
    returns = refl;
    same_length = refl;
    formed = f;
    says = refl;
  }
  calls-Becomes (c ∷ cs) buffer f a =
      Becomes-bind (calls host d cs) (effects cs) (λ after g. calls-Becomes cs after g a.1)
        (call-Becomes c buffer f a.0)

zero_class : (host : Endian) → network_to_host host 4 (of_memory host (0 ∷ 0 ∷ 0 ∷ 0 ∷ [])) ≡ 0
unfolding network_to_host host_to_network byteswap of_memory le_bytes of_le_bytes
zero_class little = refl
zero_class big = refl

abbrev eight_zeros : List ℕ
eight_zeros = 0 ∷ 0 ∷ 0 ∷ 0 ∷ 0 ∷ 0 ∷ 0 ∷ 0 ∷ []

zeros-IsBytes : IsBytes eight_zeros
zeros-IsBytes = omega arith

two_words :
    (d : DataPacket)
    → Prologue.has_class_id (prologue_type d) ≡ true
    → zeros (Prologue.class_id_words (prologue_type d) * 4) ≡ eight_zeros
unfolding zeros
two_words d e =
    let two : Prologue.class_id_words (prologue_type d) ≡ 2 = omega (arith, class_width d e) in
    ap (λ (n : ℕ). zeros (n * 4)) two

-- The words in eight zeros.
zero_word :
    (host : Endian) (p : ℕ) (after : List ℕ) (k : ℕ)
    → k + 4 ≤ 8
    → slice eight_zeros k 4 ≡ 0 ∷ 0 ∷ 0 ∷ 0 ∷ []
    → slice after p 8 ≡ eight_zeros
    → word_at host 4 after (p + k) ≡ 0
zero_word host p after k h part z =
    ap (λ (bs : List ℕ). network_to_host host 4 (of_memory host bs))
      (sym (slice-slice p 8 k 4 after h) ∙ ap (λ (xs : List ℕ). slice xs k 4) z ∙ part)
    ∙ zero_class host

abbrev pub no_class_value : ClassIdValue
no_class_value = record { oui = 0; icc = 0; pcc = 0; pbc = 0 }

module _ (host : Endian) (d : DataPacket) (buffer : List ℕ) (formed : IsFormed host d buffer) where
  init_class_id-Becomes :
      Becomes host d
        (length buffer)
        (init_class_id host d buffer)
        (put_class_id no_class_value (contents host d buffer))
  unfolding init_class_id Prologue.init_class_id from_words
  init_class_id-Becomes = elim (Bool-cases (Prologue.has_class_id (prologue_type d))) [
    | inl has ↦
        let p = place d class_field in
        let wide = class_width d has in
        let room : p + 8 ≤ length buffer =
          omega (arith, in_buffer host d buffer formed class_field, wide) in
        let w = copy_to-PutsBytes buffer p eight_zeros room formed.bytes zeros-IsBytes in
        let t = widened p (end d class_field) (omega arith) (omega (arith, wide)) w.touches in
        let first : word_at host 4 w.after p ≡ 0 =
          ap (λ (k : ℕ). word_at host 4 w.after k) (omega arith)
          ∙ zero_word host p w.after 0 (omega arith) refl w.holds in
        let second = zero_word host p w.after 4 (omega arith) refl w.holds in
        let differ : rank class_field ≢ 0 = omega arith in
        record {
          after = w.after;
          returns = rw (has, two_words d has) w.returns;
          same_length = t.same_length;
          formed = still_formed host d buffer w.after class_field formed differ t;
          says =
              Contents_ext _ _ (kept_count host d buffer w.after class_field formed differ t)
                (kept_stream host d buffer w.after class_field t (omega arith))
                (rw has (ap some (ap₂ from_words first second)))
                (kept_seconds host d buffer w.after class_field t (omega arith))
                (kept_fraction host d buffer w.after class_field t (omega arith))
                (kept_payload host d buffer w.after class_field t (omega arith))
                (kept_trailer host d buffer w.after class_field t (omega arith));
        }
    | inr has ↦ record {
      after = buffer;
      returns = rw has refl;
      same_length = refl;
      formed = formed;
      says = Contents_ext _ _ refl refl (rw has refl) refl refl refl refl;
    }
  ]

abbrev pub begun : Contents → Contents
begun s = put_class_id no_class_value (put_count 0 s)

module _ (host : Endian) (d : DataPacket) (valid : IsDataPacket d) (buffer : List ℕ)
    (fits : size_bytes d ≤ length buffer) (bytes : IsBytes buffer) where
  pub init_header-Becomes :
      Becomes host d
        (length buffer)
        (init_header host d buffer)
        (put_count 0 (contents host d buffer))
  unfolding init_header Prologue.init_header write_u32
  init_header-Becomes =
      let small : u16 (size_words d) ≡ size_words d = omega (arith, valid.size_fits) in
      rw small (header_word-Becomes host d buffer fits bytes 0 (omega arith))

  -- The constructor on any buffer of bytes that is long enough leaves a formed packet with count 0 and,
  -- if it has one, a class id of zeros; every other field says what the bytes before said.
  pub start-Becomes :
      Becomes host d (length buffer) (start host d buffer) (begun (contents host d buffer))
  unfolding start construct
  start-Becomes =
      Becomes-bind (init_class_id host d) (put_class_id no_class_value)
        (λ after f. init_class_id-Becomes host d after f) init_header-Becomes

  -- A packet built by any allowed calls.
  pub build-Becomes :
      (cs : List Call)
      → AreAllowed d cs
      → Becomes host d
          (length buffer)
          (build host d cs buffer)
          (effects cs (begun (contents host d buffer)))
  unfolding build construct
  build-Becomes cs allowed =
      Becomes-bind (λ after. calls host d cs after >>= construct host d false) (effects cs)
        (λ after f.
          Becomes-bind (construct host d false) (λ s. s) (λ last g. unchanged last g)
            (calls-Becomes host d cs after f allowed))
        start-Becomes
    where
      unchanged :
          (last : List ℕ)
          → IsFormed host d last
          → Becomes host d (length last) (done last) (contents host d last)
      unchanged last g = record {
        after = last;
        returns = refl;
        same_length = refl;
        formed = g;
        says = refl;
      }
