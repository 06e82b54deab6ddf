-- ===== src/DataPacket/Kept.antt =====
-- A write into one field of a data packet keeps what the other fields say.
use vrtio.Common.{ℕ, ◌+◌, ◌≤◌, ◌≡◌, ◌≢◌, refl, ap, List, Bool, true, false, ◌⊎◌, inl, inr, arith}
use mathlib.Core.Option.{some}
use mathlib.Core.Path.{ap₂}
use vrtio.Buffer.{Endian}
use vrtio.Buffer.Access.{word_at}
use vrtio.Buffer.Regions.{Touches, word_at-others}
use vrtio.ClassId.{from_words}
use vrtio.Types.{has_tsi, has_tsf}
use vrtio.Prologue
use vrtio.Prologue.{class_id_traits_words, class_id_traits_present}
use vrtio.Trailer.State.{state_of}
use vrtio.DataPacket.{DataPacket, prologue_type}
use vrtio.DataPacket.Contents.{
  Field, rank, header_field, stream_field, class_field, tsi_field, tsf_field, payload_field,
  trailer_field, place, width, end, fields_apart, contents, where_present,
}

same_where_present {ℓ} :
    {A : Type ℓ} (b : Bool) (x y : A) → (b ≡ true → x ≡ y) → where_present b x ≡ where_present b y
same_where_present true x y h = ap some (h refl)
same_where_present false x y h = refl

-- The widths of the fields that are present.
pub class_width :
    (d : DataPacket) → Prologue.has_class_id (prologue_type d) ≡ true → width d class_field ≡ 8
unfolding class_id_traits_present class_id_traits_words
class_width d e = ground arith

pub stream_width :
    (d : DataPacket) → Prologue.has_stream_id (prologue_type d) ≡ true → width d stream_field ≡ 4
stream_width d e = rw e refl

pub tsi_width :
    (d : DataPacket) → has_tsi (Prologue.tsi (prologue_type d)) ≡ true → width d tsi_field ≡ 4
tsi_width d e = rw e refl

pub tsf_width :
    (d : DataPacket) → has_tsf (Prologue.tsf (prologue_type d)) ≡ true → width d tsf_field ≡ 8
tsf_width d e = rw e refl

pub trailer_width : (d : DataPacket) → d.has_trailer ≡ true → width d trailer_field ≡ 4
trailer_width d e = rw e refl

module _ (host : Endian) (d : DataPacket) (before after : List ℕ) (f : Field)
    (t : Touches before (place d f) (end d f) after) where
  kept_word :
      (g : Field) (n p : ℕ)
      → rank f ≢ rank g
      → place d g ≤ p
      → p + n ≤ end d g
      → word_at host n after p ≡ word_at host n before p
  kept_word g n p differ h k = word_at-others host n p t (apart (fields_apart d f g differ))
    where
      apart : (end d g ≤ place d f) ⊎ (end d f ≤ place d g) → (p + n ≤ place d f) ⊎ (end d f ≤ p)
      apart (inl e) = inl (omega (arith, e, k))
      apart (inr e) = inr (omega (arith, e, h))

  pub kept_header : rank f ≢ rank header_field → word_at host 4 after 0 ≡ word_at host 4 before 0
  kept_header differ = kept_word header_field 4 0 differ (omega arith) (omega arith)

  pub kept_stream :
      rank f ≢ rank stream_field
      → (contents host d after).stream_id ≡ (contents host d before).stream_id
  kept_stream differ = same_where_present (Prologue.has_stream_id (prologue_type d)) _ _ (λ e.
      kept_word stream_field 4 (place d stream_field) differ (omega arith)
        (omega (arith, stream_width d e)))

  pub kept_class :
      rank f ≢ rank class_field
      → (contents host d after).class_id ≡ (contents host d before).class_id
  kept_class differ = same_where_present (Prologue.has_class_id (prologue_type d)) _ _ (λ e.
      ap₂ from_words
        (kept_word class_field 4 (place d class_field) differ (omega arith)
          (omega (arith, class_width d e)))
        (kept_word class_field 4 (place d class_field + 4) differ (omega arith)
          (omega (arith, class_width d e))))

  pub kept_seconds :
      rank f ≢ rank tsi_field → (contents host d after).seconds ≡ (contents host d before).seconds
  kept_seconds differ = same_where_present (has_tsi (Prologue.tsi (prologue_type d))) _ _ (λ e.
      kept_word tsi_field 4 (place d tsi_field) differ (omega arith) (omega (arith, tsi_width d e)))

  pub kept_fraction :
      rank f ≢ rank tsf_field → (contents host d after).fraction ≡ (contents host d before).fraction
  kept_fraction differ = same_where_present (has_tsf (Prologue.tsf (prologue_type d))) _ _ (λ e.
      kept_word tsf_field 8 (place d tsf_field) differ (omega arith) (omega (arith, tsf_width d e)))

  pub kept_payload :
      rank f ≢ rank payload_field
      → (contents host d after).payload ≡ (contents host d before).payload
  kept_payload differ =
      t.others (place d payload_field) (width d payload_field)
        (fields_apart d f payload_field differ)

  pub kept_trailer :
      rank f ≢ rank trailer_field
      → (contents host d after).trailer ≡ (contents host d before).trailer
  kept_trailer differ = same_where_present d.has_trailer _ _ (λ e. ap state_of (
      kept_word trailer_field 4 (place d trailer_field) differ (omega arith)
        (omega (arith, trailer_width d e))))
