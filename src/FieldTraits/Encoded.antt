-- ===== src/FieldTraits/Encoded.antt =====
-- `encoded()` of a field of an accepted context packet: what it reads and views.
use vrtio.Common.{
  ℕ, ◌+◌, ◌-◌, ◌*◌, ◌/◌, ◌^◌, ◌≤◌, ◌<◌, ◌≡◌, refl, sym, ◌∙◌, subst, List, length, u16, bit_and,
  ◌>>>◌, Bool, true, ◌==◌, ◌&&◌, not, Run, done, done-injective, arith,
}
use mathlib.Core.Option.{Option, none, some}
use vrtio.Common.Bits.{bit_and_mask}
use vrtio.Buffer.{Endian}
use vrtio.Buffer.Bytes.{IsBytes}
use vrtio.Buffer.Access.{word_at, read_u32-done, read_u64-done}
use vrtio.Memory.{Pointer, memory, IsWithin}
use vrtio.Types.{ValidationError}
use vrtio.Header.{decode_header}
use vrtio.Cif.{has_bit, field_at}
use vrtio.Cif.Offset.{gps_words, assoc_words}
use vrtio.RuntimeContext.{RuntimeContextPacket, parse}
use vrtio.RuntimeContext.Safety.{parse-AcceptsContext, buffer_kept, first_word}
use vrtio.RuntimeContext.Layout.{AcceptsContext}
use vrtio.Header.{DecodedHeader}
use Prim.Native.String.{String}
use vrtio.Common.Fields.{all_below, all_below-holds}
use vrtio.RuntimeContext.Access.{
  is_variable_trait, FieldProxy, make_field_proxy, is_field_present, field_table, bytes,
}
use vrtio.RuntimeContext.Fields.{make_field_proxy-places, proxy_present}
use vrtio.RuntimeContext.Widths.{
  words_before_field, field_words, gps_size, assoc_size, gps_place, assoc_place, fixed_size,
}
use vrtio.FieldTraits.{
  FieldTrait, Shape, fixed, word, long, view, association_lists, gps_text, flag, Value, fixed_value,
  lists_value, text_value, flag_value, word_value, long_value, view_value, read, read_fixed,
  read_lists, read_text,
}
use vrtio.FieldTraits.Tables.{field_traits, field_traits-Matches, Matches, fixed_words}

-- `FieldProxy::encoded`, with the trait of the field's tag.
unfoldable pub encoded : Endian → RuntimeContextPacket → FieldTrait → FieldProxy → Run Value
encoded host p t f = read host t.shape (memory p.buffer) f.offset_bytes

-- Whatever may be read through the value lies in the bytes behind its pointer.
abbrev pub IsReadable : Value → Type 0
IsReadable (fixed_value (view_value f)) = f.offset + f.words * 4 ≤ length f.base
IsReadable (lists_value s c) =
    (s.offset + s.count * 4 ≤ length s.base) × (c.offset + c.count * 4 ≤ length c.base)
IsReadable (text_value g) = g.offset + 4 + g.char_count ≤ length g.base
IsReadable _ = Unit {0}

-- The words that the shapes of a variable length take, from the word in front.
abbrev needed : Endian → Shape → List ℕ → ℕ → ℕ
needed host (fixed s) buffer offset = fixed_words s
needed host association_lists buffer offset = assoc_words (word_at host 4 buffer offset)
needed host gps_text buffer offset = gps_words (word_at host 4 buffer offset)
needed host flag buffer offset = 0

module _ (host : Endian) (buffer : List ℕ) (offset : ℕ) (octets : IsBytes buffer) where
  abbrev Reading : Shape → Type 0
  Reading s = (v : Value) × (read host s buffer offset ≡ done v) × IsReadable v

  read_total :
      (s : Shape)
      → offset + 4 * needed host s buffer offset ≤ length buffer
      → (s ≡ gps_text → word_at host 4 buffer offset ≤ 2 ^ 32 - 4)
      → Reading s
  unfolding read read_fixed read_lists read_text gps_words assoc_words
  read_total (fixed word) fits short = (
    fixed_value (word_value (word_at host 4 buffer offset)),
    rw (read_u32-done host buffer offset (omega (arith, fits))) refl,
    tt,
  )
  read_total (fixed long) fits short = (
    fixed_value (long_value (word_at host 8 buffer offset)),
    rw (read_u64-done host buffer offset (omega (arith, fits))) refl,
    tt,
  )
  read_total (fixed (view n)) fits short = (
    fixed_value (view_value (record { base = buffer; offset = offset; words = n })),
    refl,
    omega (arith, fits),
  )
  read_total association_lists fits short =
      let c = word_at host 4 buffer offset in
      let streams = u16 (c >>> 16) in
      let contexts = u16 (bit_and c 0xFFFF) in
      let masked = bit_and_mask 16 (c / 2 ^ 16) in
      (
        lists_value (record { base = buffer; offset = offset + 4; count = streams })
            (record { base = buffer; offset = offset + 4 + streams * 4; count = contexts }),
        rw (read_u32-done host buffer offset (omega (arith, fits))) refl,
        (omega (arith, fits, masked), omega (arith, fits, masked)),
      )
  read_total gps_text fits short =
      let c = word_at host 4 buffer offset in
      (
        text_value (record { base = buffer; offset = offset; char_count = c }),
        rw (read_u32-done host buffer offset (omega (arith, fits))) refl,
        omega (arith, fits, short refl),
      )
  read_total flag fits short = (flag_value true, refl, tt)

-- Which bits have a trait of a variable length.
abbrev stands_at : ℕ → ℕ → Option FieldTrait → Bool
stands_at cif bit none = true
stands_at cif bit (some t) = elim t.shape [
  | association_lists ↦ cif == 0 && bit == 9
  | gps_text ↦ cif == 0 && bit == 10
  | _ ↦ not (is_variable_trait cif bit)
]

kinds_stand : ℕ → Bool
unfolding field_traits
kinds_stand cif = all_below 32 (λ bit. stands_at cif bit (field_traits cif bit))

all_stand : all_below 4 kinds_stand ≡ true
unfolding all_below kinds_stand
all_stand = refl

trait_stands :
    (cif bit : ℕ) (t : FieldTrait)
    → cif ≤ 3
    → bit < 32
    → field_traits cif bit ≡ some t
    → stands_at cif bit (some t) ≡ true
unfolding kinds_stand
trait_stands cif bit t known inside named =
    subst (λ (o : Option FieldTrait). stands_at cif bit o ≡ true) named
      (all_below-holds 32 (λ b. stands_at cif b (field_traits cif b)) bit
        (all_below-holds 4 kinds_stand cif all_stand (omega arith)) inside)

module _ (host : Endian) (p : RuntimeContextPacket) (h : DecodedHeader)
    (a : AcceptsContext host (memory p.buffer) p.buffer_size h p.structure)
    (given : p.buffer_size ≤ length (memory p.buffer)) (octets : IsBytes (memory p.buffer)) where
  abbrev place : ℕ → ℕ → ℕ
  place cif bit = p.structure.context_base_bytes + 4 * words_before_field p.structure cif bit

  gps_enough :
      has_bit p.structure.cif0 10 ≡ true
      → gps_words (word_at host 4 (memory p.buffer) (place 0 10)) ≤ field_words p.structure 0 10
  gps_enough has =
      rw (gps_place host p h a given octets) (omega (arith, gps_size host p h a given octets has))

  assoc_enough :
      has_bit p.structure.cif0 9 ≡ true
      → assoc_words (word_at host 4 (memory p.buffer) (place 0 9)) ≤ field_words p.structure 0 9
  assoc_enough has =
      rw (assoc_place host p h a given octets)
        (omega (arith, assoc_size host p h a given octets has))

  -- The field has the words that its value needs.
  enough_lem :
      (cif bit : ℕ) (s : Shape) (n : String) (i : Bool)
      → field_traits cif bit ≡ some (record { name = n; shape = s; has_interpreted = i })
      → Matches cif bit
          (field_at (field_table cif) bit)
          (some (record { name = n; shape = s; has_interpreted = i }))
      → stands_at cif bit (some (record { name = n; shape = s; has_interpreted = i })) ≡ true
      → is_field_present cif bit p.structure ≡ true
      → needed host s (memory p.buffer) (place cif bit) ≤ field_words p.structure cif bit
  unfolding is_field_present
  enough_lem cif bit (fixed s) n i named m k present =
      omega (arith, m.2, fixed_size host p h a given octets cif bit (ground (arith, k)))
  enough_lem cif bit association_lists n i named m k present =
      let z : (cif ≡ 0) × (bit ≡ 9) = ground (arith, k) in
      let has : has_bit p.structure.cif0 9 ≡ true = rw (z.0, z.1) at present in
      rw (z.0, z.1) (assoc_enough has)
  enough_lem cif bit gps_text n i named m k present =
      let z : (cif ≡ 0) × (bit ≡ 10) = ground (arith, k) in
      let has : has_bit p.structure.cif0 10 ≡ true = rw (z.0, z.1) at present in
      rw (z.0, z.1) (gps_enough has)
  enough_lem cif bit flag n i named m k present = omega arith

bytes_fit :
    (f : FieldProxy) (buffer : Pointer)
    → f.present ≡ true
    → IsWithin (bytes f) buffer
    → f.offset_bytes + f.size_bytes ≤ length (memory buffer)
unfolding bytes
bytes_fit f buffer here within = rw here at within

module _ (host : Endian) (buffer : Pointer) (size : ℕ) (given : size ≤ length (memory buffer))
    (octets : IsBytes (memory buffer)) (p : RuntimeContextPacket)
    (parsed : parse host buffer size ≡ done p) where
  -- In a buffer of bytes of which the given size may be read, on an accepted context packet: for every
  -- field that has a trait and is present, `encoded()` of its proxy returns without leaving the buffer, and
  -- everything that may be read through the value lies in the buffer, the elements of both association
  -- lists and the characters of a GPS text included, if that text counts at most 2 ^ 32 - 4 characters.
  pub encoded-IsReadable :
      (cif bit : ℕ) (t : FieldTrait) (f : FieldProxy)
      → p.error ≡ ValidationError.none
      → cif ≤ 3
      → bit < 32
      → field_traits cif bit ≡ some t
      → make_field_proxy host p cif bit ≡ done f
      → f.present ≡ true
      → (t.shape ≡ gps_text → word_at host 4 (memory p.buffer) f.offset_bytes ≤ 2 ^ 32 - 4)
      → (v : Value) × (encoded host p t f ≡ done v) × IsReadable v
  unfolding encoded
  encoded-IsReadable cif bit t f ok known inside named found present short =
      let kept = buffer_kept host buffer size given p parsed in
      let word = first_word host buffer size given in
      let a : AcceptsContext host (memory p.buffer) p.buffer_size (decode_header word) p.structure =
        rw (kept.0, kept.1) (parse-AcceptsContext host buffer size given p parsed ok).1 in
      let given' : p.buffer_size ≤ length (memory p.buffer) = rw (kept.0, kept.1) given in
      let octets' : IsBytes (memory p.buffer) = rw kept.0 octets in
      let q =
        make_field_proxy-places host buffer size given octets p parsed cif bit ok known inside in
      let same : q.0 ≡ f = done-injective (sym q.1 ∙ found) in
      let e = proxy_present (is_field_present cif bit p.structure) _ _ f (sym same ∙ q.2) present in
      let within = subst (λ (g : FieldProxy). IsWithin (bytes g) p.buffer) same q.3 in
      let fit = bytes_fit f p.buffer present within in
      let matches =
        subst (Matches cif bit (field_at (field_table cif) bit)) named
          (field_traits-Matches cif bit known inside) in
      let n =
        enough_lem host p (decode_header word) a given' octets' cif bit t.shape t.name
          t.has_interpreted named matches (trait_stands cif bit t known inside named) e.0 in
      read_total host (memory p.buffer) f.offset_bytes octets' t.shape
        (rw e.1 (omega (arith, n, fit, e.1, e.2))) short
