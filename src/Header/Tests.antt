-- ===== src/Header/Tests.antt =====
-- A header word built, decoded, viewed and changed.
use vrtio.Common.{ℕ, ◌≡◌, refl, true, false}
use vrtio.Types.{TsiType, TsfType}
use vrtio.Header.{build_header, decode_header, interpret_indicators}
use vrtio.Header.RoundTrip.{given_header, decode_header-build_header}
use vrtio.Header.Meaning.{Means, decode_header-Means}
use vrtio.Header.View.{raw_word, decoded, SameView, raw_word-SameView}

header_program : Unit {0}
unfolding build_header decode_header
header_program = tt

-- A signal data packet with stream and class ids, a trailer, UTC and picoseconds, count 5, 20 words.
abbrev sample_word : ℕ
sample_word = 0x1C65_0014

sample_built : build_header 1 true true false false TsiType.utc TsfType.real_time 5 20 ≡ sample_word
unfolding header_program
sample_built = refl

sample_decoded : (decode_header sample_word).trailer_included ≡ true
unfolding header_program
sample_decoded = refl

decode_header-Means_example : Means sample_word (decode_header sample_word)
decode_header-Means_example = decode_header-Means sample_word

decode_header-build_header_example :
    decode_header (build_header 1 true true false false TsiType.utc TsfType.real_time 5 20)
    ≡ interpret_indicators (given_header 1 true true false false TsiType.utc TsfType.real_time 5 20)
decode_header-build_header_example =
    decode_header-build_header 1 true true false false TsiType.utc TsfType.real_time 5 20

raw_word-SameView_example : SameView (raw_word sample_word) (decoded (decode_header sample_word))
raw_word-SameView_example = raw_word-SameView sample_word
