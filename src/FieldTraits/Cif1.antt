-- ===== src/FieldTraits/Cif1.antt =====
-- detail/field_traits.hpp: the traits of the fields of CIF1, by the names of field_tags.hpp.
use vrtio.Common.{ℕ, List, [], ◌∷◌}
use vrtio.FieldTraits.{FieldTrait, trait, fixed, word, long, view}

abbrev pub buffer_size : FieldTrait
buffer_size = trait "Buffer Size" (fixed word)

abbrev pub version_build_code : FieldTrait
version_build_code = trait "Version and Build Code" (fixed word)

abbrev pub v49_spec_compliance : FieldTrait
v49_spec_compliance = trait "V49 Spec Compliance" (fixed word)

abbrev pub health_status : FieldTrait
health_status = trait "Health Status" (fixed word)

abbrev pub discrete_io_64 : FieldTrait
discrete_io_64 = trait "Discrete I/O (64-bit)" (fixed long)

abbrev pub discrete_io_32 : FieldTrait
discrete_io_32 = trait "Discrete I/O (32-bit)" (fixed word)

abbrev pub spectrum : FieldTrait
spectrum = trait "Spectrum" (fixed (view 13))

abbrev pub aux_bandwidth : FieldTrait
aux_bandwidth = trait "Auxiliary Bandwidth" (fixed long)

abbrev pub aux_gain : FieldTrait
aux_gain = trait "Auxiliary Gain" (fixed word)

abbrev pub aux_frequency : FieldTrait
aux_frequency = trait "Auxiliary Frequency" (fixed long)

abbrev pub snr_noise_figure : FieldTrait
snr_noise_figure = trait "SNR/Noise Figure" (fixed word)

abbrev pub intercept_points : FieldTrait
intercept_points = trait "Intercept Points" (fixed word)

abbrev pub compression_point : FieldTrait
compression_point = trait "Compression Point" (fixed word)

abbrev pub threshold : FieldTrait
threshold = trait "Threshold" (fixed word)

abbrev pub eb_no : FieldTrait
eb_no = trait "Eb/No BER" (fixed word)

abbrev pub range : FieldTrait
range = trait "Range" (fixed word)

abbrev pub beam_width : FieldTrait
beam_width = trait "Beam Width" (fixed word)

abbrev pub spatial_reference_type : FieldTrait
spatial_reference_type = trait "Spatial Reference Type" (fixed word)

abbrev pub spatial_scan_type : FieldTrait
spatial_scan_type = trait "Spatial Scan Type" (fixed word)

abbrev pub pointing_vector_3d_single : FieldTrait
pointing_vector_3d_single = trait "3-D Pointing Vector (single)" (fixed word)

abbrev pub polarization : FieldTrait
polarization = trait "Polarization" (fixed word)

abbrev pub phase_offset : FieldTrait
phase_offset = trait "Phase Offset" (fixed word)

-- The specialisations by their bit.
abbrev pub cif1_traits : List (ℕ × FieldTrait)
cif1_traits =
    (1, buffer_size)
    ∷ (2, version_build_code)
    ∷ (3, v49_spec_compliance)
    ∷ (4, health_status)
    ∷ (5, discrete_io_64)
    ∷ (6, discrete_io_32)
    ∷ (10, spectrum)
    ∷ (13, aux_bandwidth)
    ∷ (14, aux_gain)
    ∷ (15, aux_frequency)
    ∷ (16, snr_noise_figure)
    ∷ (17, intercept_points)
    ∷ (18, compression_point)
    ∷ (19, threshold)
    ∷ (20, eb_no)
    ∷ (24, range)
    ∷ (25, beam_width)
    ∷ (26, spatial_reference_type)
    ∷ (27, spatial_scan_type)
    ∷ (29, pointing_vector_3d_single)
    ∷ (30, polarization)
    ∷ (31, phase_offset)
    ∷ []
