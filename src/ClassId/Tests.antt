-- ===== src/ClassId/Tests.antt =====
-- A class identifier of 24, 16, 16 and 5 bits.
use vrtio.Common.{◌≡◌, refl}
use vrtio.ClassId.{ClassIdValue, word0, word1}

abbrev sample_id : ClassIdValue
sample_id = record { oui = 0x123456; icc = 0xABCD; pcc = 0x4321; pbc = 5 }

sample_words : (word0 sample_id ≡ 0x28123456) × (word1 sample_id ≡ 0xABCD4321)
unfolding word0 word1
sample_words = (refl, refl)
