-- ===== src/FieldTraits/Cif2.antt =====
-- detail/field_traits.hpp: the traits of the fields of CIF2, by the names of field_tags.hpp.
use vrtio.Common.{ℕ, List, [], ◌∷◌}
use vrtio.FieldTraits.{FieldTrait, trait, fixed, word, view}

abbrev pub rf_footprint_range : FieldTrait
rf_footprint_range = trait "RF Footprint Range" (fixed word)

abbrev pub rf_footprint : FieldTrait
rf_footprint = trait "RF Footprint" (fixed word)

abbrev pub communication_priority : FieldTrait
communication_priority = trait "Communication Priority" (fixed word)

abbrev pub function_priority : FieldTrait
function_priority = trait "Function Priority" (fixed word)

abbrev pub event_id : FieldTrait
event_id = trait "Event ID" (fixed word)

abbrev pub mode_id : FieldTrait
mode_id = trait "Mode ID" (fixed word)

abbrev pub function_id : FieldTrait
function_id = trait "Function ID" (fixed word)

abbrev pub modulation_type : FieldTrait
modulation_type = trait "Modulation Type" (fixed word)

abbrev pub modulation_class : FieldTrait
modulation_class = trait "Modulation Class" (fixed word)

abbrev pub ems_device_instance : FieldTrait
ems_device_instance = trait "EMS Device Instance" (fixed word)

abbrev pub ems_device_type : FieldTrait
ems_device_type = trait "EMS Device Type" (fixed word)

abbrev pub ems_device_class : FieldTrait
ems_device_class = trait "EMS Device Class" (fixed word)

abbrev pub platform_display : FieldTrait
platform_display = trait "Platform Display" (fixed word)

abbrev pub platform_instance : FieldTrait
platform_instance = trait "Platform Instance" (fixed word)

abbrev pub platform_class : FieldTrait
platform_class = trait "Platform Class" (fixed word)

abbrev pub operator_id : FieldTrait
operator_id = trait "Operator ID" (fixed word)

abbrev pub country_code : FieldTrait
country_code = trait "Country Code" (fixed word)

abbrev pub track_id : FieldTrait
track_id = trait "Track ID" (fixed word)

abbrev pub information_source : FieldTrait
information_source = trait "Information Source" (fixed word)

abbrev pub controller_uuid : FieldTrait
controller_uuid = trait "Controller UUID" (fixed (view 4))

abbrev pub controller_id : FieldTrait
controller_id = trait "Controller ID" (fixed word)

abbrev pub controllee_uuid : FieldTrait
controllee_uuid = trait "Controllee UUID" (fixed (view 4))

abbrev pub controllee_id : FieldTrait
controllee_id = trait "Controllee ID" (fixed word)

abbrev pub cited_message_id : FieldTrait
cited_message_id = trait "Cited Message ID" (fixed word)

abbrev pub child_stream_id : FieldTrait
child_stream_id = trait "Child Stream ID" (fixed word)

abbrev pub parent_stream_id : FieldTrait
parent_stream_id = trait "Parent Stream ID" (fixed word)

abbrev pub sibling_stream_id : FieldTrait
sibling_stream_id = trait "Sibling Stream ID" (fixed word)

abbrev pub cited_sid : FieldTrait
cited_sid = trait "Cited SID" (fixed word)

abbrev pub bind : FieldTrait
bind = trait "Bind" (fixed word)

-- The specialisations by their bit.
abbrev pub cif2_traits : List (ℕ × FieldTrait)
cif2_traits =
    (3, rf_footprint_range)
    ∷ (4, rf_footprint)
    ∷ (5, communication_priority)
    ∷ (6, function_priority)
    ∷ (7, event_id)
    ∷ (8, mode_id)
    ∷ (9, function_id)
    ∷ (10, modulation_type)
    ∷ (11, modulation_class)
    ∷ (12, ems_device_instance)
    ∷ (13, ems_device_type)
    ∷ (14, ems_device_class)
    ∷ (15, platform_display)
    ∷ (16, platform_instance)
    ∷ (17, platform_class)
    ∷ (18, operator_id)
    ∷ (19, country_code)
    ∷ (20, track_id)
    ∷ (21, information_source)
    ∷ (22, controller_uuid)
    ∷ (23, controller_id)
    ∷ (24, controllee_uuid)
    ∷ (25, controllee_id)
    ∷ (26, cited_message_id)
    ∷ (27, child_stream_id)
    ∷ (28, parent_stream_id)
    ∷ (29, sibling_stream_id)
    ∷ (30, cited_sid)
    ∷ (31, bind)
    ∷ []
