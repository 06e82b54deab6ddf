-- ===== src/FieldTraits/Cif0.antt =====
-- detail/field_traits.hpp: the traits of the fields of CIF0, by the names of field_tags.hpp.
use vrtio.Common.{ℕ, List, [], ◌∷◌}
use vrtio.FieldTraits.{
  FieldTrait, trait, interpreted_trait, fixed, word, long, view, association_lists, gps_text, flag,
}

abbrev pub context_association_lists : FieldTrait
context_association_lists = trait "Context Association Lists" association_lists

abbrev pub gps_ascii : FieldTrait
gps_ascii = trait "GPS ASCII" gps_text

abbrev pub ephemeris_ref_id : FieldTrait
ephemeris_ref_id = trait "Ephemeris Reference ID" (fixed word)

abbrev pub relative_ephemeris : FieldTrait
relative_ephemeris = trait "Relative Ephemeris" (fixed (view 13))

abbrev pub ecef_ephemeris : FieldTrait
ecef_ephemeris = trait "ECEF Ephemeris" (fixed (view 13))

abbrev pub formatted_gps_ins : FieldTrait
formatted_gps_ins = trait "Formatted GPS/INS" (fixed (view 11))

abbrev pub data_payload_format : FieldTrait
data_payload_format = trait "Data Payload Format" (fixed (view 2))

abbrev pub state_event_indicators : FieldTrait
state_event_indicators = trait "State/Event Indicators" (fixed word)

abbrev pub device_id : FieldTrait
device_id = trait "Device ID" (fixed long)

abbrev pub temperature : FieldTrait
temperature = trait "Temperature" (fixed word)

abbrev pub timestamp_calibration_time : FieldTrait
timestamp_calibration_time = trait "Timestamp Calibration Time" (fixed word)

abbrev pub timestamp_adjustment : FieldTrait
timestamp_adjustment = trait "Timestamp Adjustment" (fixed long)

abbrev pub sample_rate : FieldTrait
sample_rate = interpreted_trait "Sample Rate" (fixed long)

abbrev pub over_range_count : FieldTrait
over_range_count = trait "Over-Range Count" (fixed word)

abbrev pub gain : FieldTrait
gain = trait "Gain" (fixed word)

abbrev pub reference_level : FieldTrait
reference_level = trait "Reference Level" (fixed word)

abbrev pub if_band_offset : FieldTrait
if_band_offset = trait "IF Band Offset" (fixed long)

abbrev pub rf_frequency_offset : FieldTrait
rf_frequency_offset = trait "RF Frequency Offset" (fixed long)

abbrev pub rf_reference_frequency : FieldTrait
rf_reference_frequency = trait "RF Reference Frequency" (fixed long)

abbrev pub if_reference_frequency : FieldTrait
if_reference_frequency = trait "IF Reference Frequency" (fixed long)

abbrev pub bandwidth : FieldTrait
bandwidth = interpreted_trait "Bandwidth" (fixed long)

abbrev pub reference_point_id : FieldTrait
reference_point_id = trait "Reference Point ID" (fixed word)

abbrev pub change_indicator : FieldTrait
change_indicator = trait "Change Indicator" flag

-- The specialisations by their bit.
abbrev pub cif0_traits : List (ℕ × FieldTrait)
cif0_traits =
    (9, context_association_lists)
    ∷ (10, gps_ascii)
    ∷ (11, ephemeris_ref_id)
    ∷ (12, relative_ephemeris)
    ∷ (13, ecef_ephemeris)
    ∷ (14, formatted_gps_ins)
    ∷ (15, data_payload_format)
    ∷ (16, state_event_indicators)
    ∷ (17, device_id)
    ∷ (18, temperature)
    ∷ (19, timestamp_calibration_time)
    ∷ (20, timestamp_adjustment)
    ∷ (21, sample_rate)
    ∷ (22, over_range_count)
    ∷ (23, gain)
    ∷ (24, reference_level)
    ∷ (25, if_band_offset)
    ∷ (26, rf_frequency_offset)
    ∷ (27, rf_reference_frequency)
    ∷ (28, if_reference_frequency)
    ∷ (29, bandwidth)
    ∷ (30, reference_point_id)
    ∷ (31, change_indicator)
    ∷ []
