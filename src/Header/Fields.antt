-- ===== src/Header/Fields.antt =====
-- The header word as a number: which sum `build_header` makes, and which digits `decode_header` reads.
use vrtio.Common.{
  ℕ, ◌+◌, ◌*◌, ◌/◌, ◌%◌, ◌^◌, ◌<◌, ◌≡◌, bit_or, u32, Bool, bit_of, to_bool, arith, ◌<<<◌,
}
use vrtio.Common.Bits.{bit_and_mask, bit_or_disjoint}
use vrtio.Types.{packet_type_of, TsiType, tsi_of, tsi_value, TsfType, tsf_of, tsf_value}
use vrtio.Header.{build_header, decode_header, interpret_indicators, zero_header, DecodedHeader}

pub tsi_value-lt : (t : TsiType) → tsi_value t < 4
unfolding tsi_value
tsi_value-lt t = ground arith

pub tsf_value-lt : (t : TsfType) → tsf_value t < 4
unfolding tsf_value
tsf_value-lt t = ground arith

pub bit_of-lt : (b : Bool) → bit_of b < 2
bit_of-lt b = ground arith

-- The sum of the nine fields at their places.
abbrev pub header_sum : ℕ → ℕ → ℕ → ℕ → ℕ → ℕ → ℕ → ℕ → ℕ → ℕ
header_sum type class_id b26 b25 b24 tsi tsf count size =
    type * 2 ^ 28
    + class_id * 2 ^ 27
    + b26 * 2 ^ 26
    + b25 * 2 ^ 25
    + b24 * 2 ^ 24
    + tsi * 2 ^ 22
    + tsf * 2 ^ 20
    + count * 2 ^ 16
    + size

module _ (type class_id b26 b25 b24 tsi tsf count size : ℕ) (type_fits : type < 16)
    (class_id_fits : class_id < 2) (b26_fits : b26 < 2) (b25_fits : b25 < 2) (b24_fits : b24 < 2)
    (tsi_fits : tsi < 4) (tsf_fits : tsf < 4) (count_fits : count < 16)
    (size_fits : size < 65536) where
  abbrev upper : ℕ
  upper = type * 2 ^ 28 + class_id * 2 ^ 27 + b26 * 2 ^ 26 + b25 * 2 ^ 25 + b24 * 2 ^ 24

  or_upper :
      bit_or
        (bit_or
          (bit_or
            (bit_or (bit_or 0 (u32 (type <<< 28))) (u32 (class_id <<< 27)))
            (u32 (b26 <<< 26)))
          (u32 (b25 <<< 25)))
        (u32 (b24 <<< 24))
      ≡ upper
  or_upper =
      rw
        (
          bit_or_disjoint 32 0 (u32 (type <<< 28)) (omega arith) (omega arith),
          bit_or_disjoint 28 (0 + u32 (type <<< 28)) (u32 (class_id <<< 27)) (omega arith)
              (omega arith),
          bit_or_disjoint 27 (0 + u32 (type <<< 28) + u32 (class_id <<< 27)) (u32 (b26 <<< 26))
              (omega arith) (omega arith),
          bit_or_disjoint 26 (0 + u32 (type <<< 28) + u32 (class_id <<< 27) + u32 (b26 <<< 26))
              (u32 (b25 <<< 25)) (omega arith) (omega arith),
          bit_or_disjoint 25
              (0 + u32 (type <<< 28) + u32 (class_id <<< 27) + u32 (b26 <<< 26) + u32 (b25 <<< 25))
              (u32 (b24 <<< 24)) (omega arith) (omega arith),
        )
        (omega arith)

  or_lower :
      bit_or
        (bit_or (bit_or (bit_or upper (u32 (tsi <<< 22))) (u32 (tsf <<< 20))) (u32 (count <<< 16)))
        (u32 (size <<< 0))
      ≡ header_sum type class_id b26 b25 b24 tsi tsf count size
  or_lower =
      rw
        (
          bit_or_disjoint 24 upper (u32 (tsi <<< 22)) (omega arith) (omega arith),
          bit_or_disjoint 22 (upper + u32 (tsi <<< 22)) (u32 (tsf <<< 20)) (omega arith)
              (omega arith),
          bit_or_disjoint 20 (upper + u32 (tsi <<< 22) + u32 (tsf <<< 20)) (u32 (count <<< 16))
              (omega arith) (omega arith),
          bit_or_disjoint 16 (upper + u32 (tsi <<< 22) + u32 (tsf <<< 20) + u32 (count <<< 16))
              (u32 (size <<< 0)) (omega arith) (omega arith),
        )
        (omega arith)

-- Each field lands at its place, cut to its width.
pub build_header-sum :
    (type : ℕ) (c b26 b25 b24 : Bool) (tsi : TsiType) (tsf : TsfType) (count size : ℕ)
    → build_header type c b26 b25 b24 tsi tsf count size
      ≡ header_sum
          (type % 16)
          (bit_of c)
          (bit_of b26)
          (bit_of b25)
          (bit_of b24)
          (tsi_value tsi)
          (tsf_value tsf)
          (count % 16)
          (size % 65536)
unfolding build_header
build_header-sum type c b26 b25 b24 tsi tsf count size =
    rw
      (
        bit_and_mask 4 type,
        bit_and_mask 4 count,
        bit_and_mask 16 size,
        or_upper t (bit_of c) (bit_of b26) (bit_of b25) (bit_of b24) i f n s (omega arith)
            (bit_of-lt c) (bit_of-lt b26) (bit_of-lt b25) (bit_of-lt b24) (tsi_value-lt tsi)
            (tsf_value-lt tsf) (omega arith) (omega arith),
      )
      (or_lower t (bit_of c) (bit_of b26) (bit_of b25) (bit_of b24) i f n s (omega arith)
        (bit_of-lt c) (bit_of-lt b26) (bit_of-lt b25) (bit_of-lt b24) (tsi_value-lt tsi)
        (tsf_value-lt tsf) (omega arith) (omega arith))
  where
    t : ℕ
    t = type % 16

    i : ℕ
    i = tsi_value tsi

    f : ℕ
    f = tsf_value tsf

    n : ℕ
    n = count % 16

    s : ℕ
    s = size % 65536

-- The header before its indicators are interpreted, by digits.
abbrev pub raw_fields : ℕ → DecodedHeader
raw_fields h = record zero_header {
  type = packet_type_of (h / 2 ^ 28 % 16);
  has_class_id = to_bool (h / 2 ^ 27 % 2);
  tsi = tsi_of (h / 2 ^ 22 % 4);
  tsf = tsf_of (h / 2 ^ 20 % 4);
  packet_count = h / 2 ^ 16 % 16;
  size_words = h % 65536;
  bit_26 = to_bool (h / 2 ^ 26 % 2);
  bit_25 = to_bool (h / 2 ^ 25 % 2);
  bit_24 = to_bool (h / 2 ^ 24 % 2);
}

pub decode_header-fields : (h : ℕ) → decode_header h ≡ interpret_indicators (raw_fields h)
unfolding decode_header
decode_header-fields h = rw (
  bit_and_mask 4 (h / 2 ^ 28),
  bit_and_mask 1 (h / 2 ^ 27),
  bit_and_mask 2 (h / 2 ^ 22),
  bit_and_mask 2 (h / 2 ^ 20),
  bit_and_mask 4 (h / 2 ^ 16),
  bit_and_mask 16 (h / 2 ^ 0),
  bit_and_mask 1 (h / 2 ^ 26),
  bit_and_mask 1 (h / 2 ^ 25),
  bit_and_mask 1 (h / 2 ^ 24),
  count_fits,
  size_fits,
)
  where
    count_fits : h / 2 ^ 16 % 2 ^ 4 % 2 ^ 8 ≡ h / 2 ^ 16 % 16
    count_fits = omega arith

    size_fits : h / 2 ^ 0 % 2 ^ 16 % 2 ^ 16 ≡ h % 65536
    size_fits = omega arith
