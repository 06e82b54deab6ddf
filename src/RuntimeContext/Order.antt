-- ===== src/RuntimeContext/Order.antt =====
-- `operator[]` of an accepted context packet, on two fields.
use vrtio.Common.{
  ℕ, List, zero, suc, ◌+◌, ◌≤◌, ◌<◌, ◌≡◌, ◌⊎◌, inl, inr, true, leb, ◌==◌, length, if◌then◌else◌,
  Bool-cases, done, done-injective, sym, ◌∙◌, ◌*◌, arith,
}
use vrtio.Buffer.{Endian}
use vrtio.Buffer.Bytes.{IsBytes}
use vrtio.Memory.{Pointer, memory}
use vrtio.Types.{ValidationError}
use vrtio.Header.{DecodedHeader, decode_header}
use vrtio.Cif.{FieldInfo, has_bit, cif1_fields, cif2_fields, cif3_fields}
use vrtio.Cif.Sums.{words_from, words_from-split, words_from-empty, size_in}
use vrtio.Cif.Places.{size_cif0}
use vrtio.Cif.Fields.{enabled_words}
use vrtio.Cif.Present.{enabled}
use vrtio.RuntimeContext.{RuntimeContextPacket, ContextStructure, parse}
use vrtio.RuntimeContext.Layout.{AcceptsContext, context_prologue, base_words}
use vrtio.RuntimeContext.Access.{
  FieldProxy, make_field_proxy, is_field_present, field_table, packet_size_bytes,
}
use vrtio.RuntimeContext.Safety.{parse-AcceptsContext, buffer_kept, first_word}
use vrtio.RuntimeContext.Widths.{words_before_field, field_words, ends_lem}
use vrtio.RuntimeContext.Fields.{make_field_proxy-places, proxy_present}

-- From which bit on the fields of CIF word `k` stand before the field `bit` of CIF word `word`.
abbrev from : ℕ → ℕ → ℕ → ℕ
from k word bit = if word == k then suc bit else if leb word k then 32 else 0

-- A field that is present stands before all fields of lower bits.
counted_from :
    (size : ℕ → ℕ) (cif low bit : ℕ)
    → low ≤ bit
    → bit < 32
    → has_bit cif bit ≡ true
    → words_from size cif (suc bit) 32 + size bit ≤ words_from size cif low 32
unfolding words_from
counted_from size cif low bit below inside set =
    let first : leb low bit ≡ true = ground arith in
    let here : words_from size cif low (suc bit) ≡ size bit + words_from size cif low bit =
      rw (first, set) in
    omega (arith, here, words_from-split size cif low (suc bit) 32 (omega arith) (omega arith))

-- The field `bit` of `word` comes before the field `bit'` of `word'`.
abbrev pub Precedes : ℕ → ℕ → ℕ → ℕ → Type 0
Precedes word bit word' bit' = (word < word') ⊎ ((word ≡ word') × (bit' < bit))

-- The words of a field, by the CIF word that it is in.
split_words :
    (s : ContextStructure) (word bit : ℕ)
    → word ≤ 3
    → field_words s word bit
      ≡ (if word == 0 then size_cif0 s.gps_ascii.size_words s.context_assoc.size_words bit else 0)
        + (if word == 1 then size_in cif1_fields bit else 0)
        + (if word == 2 then size_in cif2_fields bit else 0)
        + (if word == 3 then size_in cif3_fields bit else 0)
unfolding field_table
split_words s zero bit known = omega arith
split_words s (suc zero) bit known = omega arith
split_words s (suc (suc zero)) bit known = omega arith
split_words s (suc (suc (suc zero))) bit known = omega arith
split_words s (suc (suc (suc (suc word)))) bit known = absurd (omega arith)

module _ (word bit word' bit' : ℕ) (inside : bit < 32) (order : Precedes word bit word' bit') where
  -- In each CIF word at least as much comes before the later field as before the earlier one, and its
  -- own words besides in its CIF word.
  part :
      (size : ℕ → ℕ) (cif k : ℕ)
      → (k ≡ word → has_bit cif bit ≡ true)
      → words_from size cif (from k word bit) 32 + (if word == k then size bit else 0)
        ≤ words_from size cif (from k word' bit') 32
  part size cif k set = elim (Bool-cases (word == k)) [
    | inl e ↦
        let low : from k word' bit' ≤ bit = ground (arith, order) in
        rw e (counted_from size cif (from k word' bit') bit low inside (set (ground arith)))
    | inr e ↦ elim (Bool-cases (leb word k)) [
      | inl f ↦ rw (e, f) (omega (arith, words_from-empty size cif 32 32 (omega arith)))
      | inr f ↦
          let zero : from k word' bit' ≡ 0 = ground (arith, order) in rw (e, f, zero) (omega arith)
    ]
  ]

  enabled_part :
      (cif0 enable : ℕ) (table : List FieldInfo) (cif x : ℕ)
      → cif ≡ (if has_bit cif0 enable then x else 0)
      → (enable ≡ word → has_bit cif bit ≡ true)
      → enabled_words cif0 enable table cif (from enable word bit)
          + (if word == enable then size_in table bit else 0)
        ≤ enabled_words cif0 enable table cif (from enable word' bit')
  enabled_part cif0 enable table cif x is set = elim (Bool-cases (has_bit cif0 enable)) [
    | inl e ↦ rw e (part (size_in table) cif enable set)
    | inr e ↦ elim (Bool-cases (word == enable)) [
      | inr f ↦ rw (e, f) (omega arith)
      | inl f ↦
          let on = enabled cif0 enable cif x bit is inside (set (ground arith)) in
          absurd (ground (arith, on))
    ]
  ]

  in_order :
      (host : Endian) (buffer : List ℕ) (size : ℕ) (h : DecodedHeader) (s : ContextStructure)
      → AcceptsContext host buffer size h s
      → word ≤ 3
      → is_field_present word bit s ≡ true
      → words_before_field s word bit + field_words s word bit ≤ words_before_field s word' bit'
  unfolding is_field_present field_table
  in_order host buffer size h s a known set =
      let g = s.gps_ascii.size_words in
      let l = s.context_assoc.size_words in
      let p0 = part (size_cif0 g l) s.cif0 0 (λ e. ground arith) in
      let p1 = enabled_part s.cif0 1 cif1_fields s.cif1 _ a.cifs.cif1_is (λ e. ground arith) in
      let p2 = enabled_part s.cif0 2 cif2_fields s.cif2 _ a.cifs.cif2_is (λ e. ground arith) in
      let p3 = enabled_part s.cif0 3 cif3_fields s.cif3 _ a.cifs.cif3_is (λ e. ground arith) in
      omega (arith, p0, p1, p2, p3, split_words s word bit known)

module _ (host : Endian) (buffer : Pointer) (size : ℕ) (given : size ≤ length (memory buffer))
    (octets : IsBytes (memory buffer)) (p : RuntimeContextPacket)
    (parsed : parse host buffer size ≡ done p) where
  -- In a buffer of bytes of which the given size may be read: when the access to two different bits of
  -- the CIF words of an accepted context packet finds both fields, the one that comes first, in an
  -- earlier CIF word or at a higher bit of the same word, begins behind the packet's prologue and
  -- CIF words and ends no later than the other begins, and that one ends within the packet.
  pub make_field_proxy-apart :
      (word bit word' bit' : ℕ) (f f' : FieldProxy)
      → p.error ≡ ValidationError.none
      → word ≤ 3
      → bit < 32
      → word' ≤ 3
      → bit' < 32
      → Precedes word bit word' bit'
      → make_field_proxy host p word bit ≡ done f
      → make_field_proxy host p word' bit' ≡ done f'
      → f.present ≡ true
      → f'.present ≡ true
      → (4 * base_words (context_prologue p.structure.header) p.structure.cif0 ≤ f.offset_bytes)
        × (f.offset_bytes + f.size_bytes ≤ f'.offset_bytes)
        × (f'.offset_bytes + f'.size_bytes ≤ packet_size_bytes p)
  unfolding packet_size_bytes
  make_field_proxy-apart word bit word' bit' f f' ok known inside known' inside' order found found'
        here here' =
      let h = decode_header (first_word host buffer size given) in
      let kept = buffer_kept host buffer size given p parsed in
      let a = (parse-AcceptsContext host buffer size given p parsed ok).1 in
      let a' : AcceptsContext host (memory p.buffer) p.buffer_size h p.structure =
        rw (kept.0, kept.1) a in
      let q =
        make_field_proxy-places host buffer size given octets p parsed word bit ok known inside in
      let q' =
        make_field_proxy-places host buffer size given octets p parsed word' bit' ok known'
          inside' in
      let same : q.0 ≡ f = done-injective (sym q.1 ∙ found) in
      let same' : q'.0 ≡ f' = done-injective (sym q'.1 ∙ found') in
      let e = proxy_present (is_field_present word bit p.structure) _ _ f (sym same ∙ q.2) here in
      let e' =
        proxy_present (is_field_present word' bit' p.structure) _ _ f' (sym same' ∙ q'.2) here' in
      let base : p.structure.context_base_bytes
          ≡ 4 * base_words (context_prologue p.structure.header) p.structure.cif0 =
        rw (a.header_kept) a.base_at in
      let ends =
        ends_lem host p h a' (rw (kept.0, kept.1) given) (rw (kept.0) octets) word' bit' known'
          inside' e'.0 in
      let next =
        in_order word bit word' bit' inside order host (memory buffer) size h p.structure a known
          e.0 in
      (
        omega (arith, e.1, base),
        omega (arith, e.1, e.2, e'.1, next),
        omega (arith, e'.1, e'.2, ends, a.ends),
      )
