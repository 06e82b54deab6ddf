-- ===== src/FieldTraits/Cif3.antt =====
-- detail/field_traits.hpp: the traits of the fields of CIF3, by the names of field_tags.hpp.
use vrtio.Common.{ℕ, List, [], ◌∷◌}
use vrtio.FieldTraits.{FieldTrait, trait, fixed, word, long}

abbrev pub network_id : FieldTrait
network_id = trait "Network ID" (fixed word)

abbrev pub tropospheric_state : FieldTrait
tropospheric_state = trait "Tropospheric State" (fixed word)

abbrev pub sea_swell_state : FieldTrait
sea_swell_state = trait "Sea and Swell State" (fixed word)

abbrev pub barometric_pressure : FieldTrait
barometric_pressure = trait "Barometric Pressure" (fixed word)

abbrev pub humidity : FieldTrait
humidity = trait "Humidity" (fixed word)

abbrev pub sea_ground_temperature : FieldTrait
sea_ground_temperature = trait "Sea/Ground Temperature" (fixed word)

abbrev pub air_temperature : FieldTrait
air_temperature = trait "Air Temperature" (fixed word)

abbrev pub jitter : FieldTrait
jitter = trait "Jitter" (fixed long)

abbrev pub dwell : FieldTrait
dwell = trait "Dwell" (fixed long)

abbrev pub duration : FieldTrait
duration = trait "Duration" (fixed long)

abbrev pub period : FieldTrait
period = trait "Period" (fixed long)

abbrev pub pulse_width : FieldTrait
pulse_width = trait "Pulse Width" (fixed long)

abbrev pub offset_time : FieldTrait
offset_time = trait "Offset Time" (fixed long)

abbrev pub fall_time : FieldTrait
fall_time = trait "Fall Time" (fixed long)

abbrev pub rise_time : FieldTrait
rise_time = trait "Rise Time" (fixed long)

abbrev pub timestamp_skew : FieldTrait
timestamp_skew = trait "Timestamp Skew" (fixed long)

abbrev pub timestamp_details : FieldTrait
timestamp_details = trait "Timestamp Details" (fixed long)

-- The specialisations by their bit.
abbrev pub cif3_traits : List (ℕ × FieldTrait)
cif3_traits =
    (1, network_id)
    ∷ (2, tropospheric_state)
    ∷ (3, sea_swell_state)
    ∷ (4, barometric_pressure)
    ∷ (5, humidity)
    ∷ (6, sea_ground_temperature)
    ∷ (7, air_temperature)
    ∷ (20, jitter)
    ∷ (21, dwell)
    ∷ (22, duration)
    ∷ (23, period)
    ∷ (24, pulse_width)
    ∷ (25, offset_time)
    ∷ (26, fall_time)
    ∷ (27, rise_time)
    ∷ (30, timestamp_skew)
    ∷ (31, timestamp_details)
    ∷ []
