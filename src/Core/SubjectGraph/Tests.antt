-- ===== src/Core/SubjectGraph/Tests.antt =====
-- Two subjects with three sensors, and the theorem about initialized subjects applied to them.
use nexus_n3_core.Prelude.{
  ◌≤◌, String, ◌≡◌, refl, Option, none, some, List, [], ◌∷◌, strip, lower, contains, str_eq,
  if◌then◌else◌,
}
use nexus_n3_core.Core.Subject.{Subject, add_sensor, new_subject}
use nexus_n3_core.Core.SubjectGraph.{
  SubjectConf, SensorClass, duplicate_location, total_sensors, sensors_of, init_subjects, init_each,
  check_sensors, mark_locations, seen_before, build, runs_algorithm, add_all_sensors, add_sensors,
  block_size_of, normal_names,
}
use nexus_n3_core.Core.SubjectGraph.Installed.{AllEquipped, init_subjects-AllEquipped}

catalog : String → Option SensorClass
catalog name =
    if str_eq name "movella"
    then some (record { computations = "Gait" ∷ []; sampling_rate = some 60000; raises = none })
    else none

abbrev sited : String → List String → SubjectConf
sited id locations = record {
  subject_id = id;
  sensors =
      record {
        local_name = "movella";
        number_of = some 2;
        locations = locations;
        algorithm = some " gait";
        sampling_rate = none;
      }
      ∷ [];
}

abbrev subjects : List SubjectConf
subjects = sited "a" ("wrist" ∷ "ankle" ∷ []) ∷ sited "b" ("wrist" ∷ "hip" ∷ []) ∷ []

abbrev installed : List Subject
installed = (init_subjects catalog 8 subjects).0

init_subjects-AllEquipped_example :
    (total_sensors subjects ≤ 8) × AllEquipped catalog subjects installed
unfolding init_subjects init_each check_sensors mark_locations seen_before build runs_algorithm
    add_all_sensors add_sensors block_size_of normal_names total_sensors sensors_of catalog strip
    lower contains add_sensor new_subject
init_subjects-AllEquipped_example = init_subjects-AllEquipped catalog 8 subjects installed refl

-- Two sensors at one location are refused.
refused :
    (init_subjects catalog 8 (sited "a" ("wrist" ∷ " Wrist" ∷ []) ∷ [])).1
    ≡ some (duplicate_location "a" "movella" " Wrist")
unfolding init_subjects init_each check_sensors mark_locations seen_before total_sensors sensors_of
    catalog strip lower contains
refused = refl
