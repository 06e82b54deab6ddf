-- ===== src/FieldTraits/RoundTrip.antt =====
-- `write` and then `read` of the traits with a fixed size.
use vrtio.Common.{
  ℕ, ◌+◌, ◌*◌, ◌^◌, ◌≤◌, ◌<◌, ◌≡◌, refl, subst, List, [], ◌∷◌, length, slice, length-slice, drop,
  done, le→leb, arith, true, false,
}
use vrtio.Buffer.{Endian, write_u32, write_u64, copy_from}
use vrtio.Buffer.Bytes.{IsBytes, IsBytes-take, IsBytes-drop}
use vrtio.Buffer.Access.{read_u32-done, read_u64-done}
use vrtio.Buffer.Regions.{Touches, write_word-PutsWord, copy_to-PutsBytes}
use vrtio.FieldTraits.{
  FixedShape, word, long, view, FixedValue, word_value, long_value, view_value, read_fixed,
  write_fixed,
}
use vrtio.FieldTraits.Tables.{fixed_words}

-- The value is one of the trait's value type.
abbrev pub IsValueOf : FixedShape → FixedValue → Type 0
IsValueOf word (word_value v) = v < 2 ^ 32
IsValueOf long (long_value v) = v < 2 ^ 64
IsValueOf (view n) (view_value f) =
    (f.words ≡ n) × (f.offset + n * 4 ≤ length f.base) × IsBytes f.base
IsValueOf _ _ = false ≡ true

-- What a value says: its number, or the bytes that it views.
abbrev pub meaning : FixedValue → List ℕ
meaning (word_value v) = v ∷ []
meaning (long_value v) = v ∷ []
meaning (view_value f) = slice f.base f.offset (f.words * 4)

module _ (host : Endian) (buffer : List ℕ) (offset : ℕ) (bytes : IsBytes buffer) where
  -- What a write leaves.
  pub record Stores (s : FixedShape) (v : FixedValue) : Type 0 where
    pub after : List ℕ
    pub returns : write_fixed host v buffer offset ≡ done after
    pub touches : Touches buffer offset (offset + fixed_words s * 4) after
    pub found : FixedValue
    pub reads : read_fixed host s after offset ≡ done found
    pub same : meaning found ≡ meaning v

  -- A value of a field's type, written where the field lies in a buffer of bytes, is read back there; no
  -- byte apart from the field's words changes.
  pub write_fixed-Stores :
      (s : FixedShape) (v : FixedValue)
      → IsValueOf s v
      → offset + fixed_words s * 4 ≤ length buffer
      → Stores s v
  unfolding write_fixed read_fixed write_u32 write_u64 copy_from
  write_fixed-Stores word (word_value v) small fits =
      let w = write_word-PutsWord host 4 buffer offset v (omega (arith, fits)) small bytes in
      record {
        after = w.after;
        returns = w.returns;
        touches = w.touches;
        found = word_value v;
        reads =
            rw
              (
                read_u32-done host w.after offset (omega (arith, fits, w.touches.same_length)),
                w.holds,
              )
              refl;
        same = refl;
      }
  write_fixed-Stores long (long_value v) small fits =
      let w = write_word-PutsWord host 8 buffer offset v (omega (arith, fits)) small bytes in
      record {
        after = w.after;
        returns = w.returns;
        touches = w.touches;
        found = long_value v;
        reads =
            rw
              (
                read_u64-done host w.after offset (omega (arith, fits, w.touches.same_length)),
                w.holds,
              )
              refl;
        same = refl;
      }
  write_fixed-Stores (view n) (view_value f) (many, there, octets) fits =
      let part = slice f.base f.offset (f.words * 4) in
      let room : f.offset + f.words * 4 ≤ length f.base = omega (arith, many, there) in
      let size : length part ≡ f.words * 4 = length-slice f.base f.offset (f.words * 4) room in
      let w =
        copy_to-PutsBytes buffer offset part (omega (arith, size, many, fits)) bytes (
          IsBytes-take (f.words * 4) (drop f.offset f.base)
            (IsBytes-drop f.offset f.base octets)) in
      let all : length part ≡ n * 4 = omega (arith, size, many) in
      record {
        after = w.after;
        returns = rw (le→leb _ _ room) w.returns;
        touches = subst (λ (k : ℕ). Touches buffer offset (offset + k) w.after) all w.touches;
        found = view_value (record { base = w.after; offset = offset; words = n });
        reads = refl;
        same = subst (λ (k : ℕ). slice w.after offset k ≡ part) all w.holds;
      }
  write_fixed-Stores word (long_value v) bad fits = cc bad
  write_fixed-Stores word (view_value v) bad fits = cc bad
  write_fixed-Stores long (word_value v) bad fits = cc bad
  write_fixed-Stores long (view_value v) bad fits = cc bad
  write_fixed-Stores (view n) (word_value v) bad fits = cc bad
  write_fixed-Stores (view n) (long_value v) bad fits = cc bad
