-- ===== src/Core/SubjectGraph.antt =====
-- nexus_n3/core/orchestrators/subject_graph.py: the subjects of a node, built from their
-- configuration. The sensor plug-ins are a parameter, `catalog`. Sampling rates are in thousandths of
-- a hertz, and `casefold` is `lower`. A failure returns what was built before it, as the source keeps it.
pub mod Installed
mod Tests
use nexus_n3_core.Prelude.{
  ℕ, zero, suc, ◌+◌, ◌*◌, ◌/◌, String, Bool, true, false, not, ◌&&◌, ◌||◌, Option, none, some, List,
  [], ◌∷◌, ◌++◌, map, if◌then◌else◌, ltb, ◌==◌, str_eq, contains, length, strip, lower,
}
use nexus_n3_core.Core.Subject.{
  Subject, SensorEntry, same_address, new_subject, add_sensor, has_address,
}

-- One sensor of a configuration. `algorithm` is the name of `compute_algorithm`, and `sampling_rate`
-- the override among the attributes.
pub record SensorConf : Type 0 where
  pub local_name : String
  pub number_of : Option ℕ
  pub locations : List String
  pub algorithm : Option String
  pub sampling_rate : Option ℕ

pub record SubjectConf : Type 0 where
  pub subject_id : String
  pub sensors : List SensorConf

-- An installed plug-in: its computations, none where its specification cannot be read, its sampling
-- rate, and what its constructor raises.
pub record SensorClass : Type 0 where
  pub computations : List String
  pub sampling_rate : Option ℕ
  pub raises : Option String

pub data GraphError : Type 0 where
  too_many_sensors : (total : ℕ) → GraphError
  location_count : (subject sensor : String) → GraphError
  duplicate_location : (subject sensor location : String) → GraphError
  unsupported_plugin : (sensor : String) → GraphError
  unsupported_algorithm : (subject sensor algorithm : String) → GraphError
  sensor_failed : (sensor message : String) → GraphError

pub data Built : Type 0 where
  built : Subject → Built
  failed_with : GraphError → Built

abbrev pub number : SensorConf → ℕ
number c = elim c.number_of [ none ↦ 1 | some n ↦ n ]

pub sensors_of : List SensorConf → ℕ
sensors_of [] = 0
sensors_of (c ∷ cs) = number c + sensors_of cs

pub total_sensors : List SubjectConf → ℕ
unfolding sensors_of
total_sensors [] = 0
total_sensors (c ∷ cs) = sensors_of c.sensors + total_sensors cs

-- `str(value).strip().casefold()`
abbrev pub folded : String → String
folded s = lower (strip s)

pub seen_before : String × String → List (String × String) → Bool
seen_before k [] = false
seen_before k (j ∷ js) = (str_eq j.0 k.0 && str_eq j.1 k.1) || seen_before k js

-- The keys with those of one sensor, or the location that is there twice.
pub mark_locations :
    String → List String → List (String × String) → List (String × String) × Option String
unfolding seen_before
mark_locations name [] seen = (seen, none)
mark_locations name (l ∷ ls) seen =
    if seen_before (name, folded l) seen
    then (seen, some l)
    else mark_locations name ls ((name, folded l) ∷ seen)

-- The checks on one subject's locations.
pub check_sensors : String → List SensorConf → List (String × String) → Option GraphError
unfolding mark_locations
check_sensors id [] seen = none
check_sensors id (c ∷ cs) seen =
    let marked = mark_locations (folded c.local_name) c.locations seen in
    let rest = check_sensors id cs marked.0 in
    if length c.locations == number c
    then (elim marked.1 [ some l ↦ some (duplicate_location id c.local_name l) | none ↦ rest ])
    else some (location_count id c.local_name)

normal_names : List String → List String
normal_names [] = []
normal_names (x ∷ xs) = if str_eq x "" then normal_names xs else lower (strip x) ∷ normal_names xs

-- The name that is asked for, empty where none is.
abbrev pub requested : SensorConf → String
requested c = elim c.algorithm [ none ↦ "" | some a ↦ lower (strip a) ]

pub runs_algorithm : SensorClass → SensorConf → Bool
unfolding normal_names
runs_algorithm k c =
    str_eq (requested c) ""
    || str_eq (requested c) "pass_through"
    || contains (normal_names k.computations) (requested c)

abbrev pub or_one : ℕ → ℕ
or_one zero = 1000
or_one (suc n) = suc n

abbrev pub or_default : Option ℕ → ℕ → ℕ
or_default none d = d
or_default (some n) d = n

-- `int((sensor.attributes.get("SAMPLING_RATE") or 1) * 5)`, which is 0 for a rate below 0.2 Hz.
pub block_size_of : SensorClass → SensorConf → ℕ
block_size_of k c = or_one (or_default c.sampling_rate (or_default k.sampling_rate 0)) * 5 / 1000

-- The loop over `range(num)`, from the location that `loc_index` is at.
pub add_sensors : SensorClass → SensorConf → ℕ → List String → Subject → Built
unfolding block_size_of
add_sensors k c zero ls s = built s
add_sensors k c (suc n) ls s = elim k.raises [
  | some m ↦ failed_with (sensor_failed c.local_name m)
  | none ↦ elim ls [
    | [] ↦ failed_with (sensor_failed c.local_name "list index out of range")
    | l ∷ rest ↦ add_sensors k c n rest (add_sensor none (some l) (some (block_size_of k c)) s)
  ]
]

pub add_all_sensors : SensorClass → SensorConf → Subject → Built
unfolding add_sensors
add_all_sensors k c s = add_sensors k c (number c) c.locations s

module _ (catalog : String → Option SensorClass) where
  pub build : List SensorConf → Subject → Built
  unfolding runs_algorithm add_all_sensors
  build [] s = built s
  build (c ∷ cs) s = elim (catalog c.local_name) [
    | none ↦ failed_with (unsupported_plugin c.local_name)
    | some k ↦
        if runs_algorithm k c
        then (elim (add_all_sensors k c s) [ failed_with e ↦ failed_with e | built t ↦ build cs t ])
        else failed_with (unsupported_algorithm s.subject_id c.local_name (requested c))
  ]

  pub init_each : List SubjectConf → List Subject × Option GraphError
  unfolding check_sensors build
  init_each [] = ([], none)
  init_each (c ∷ cs) =
      let rest = init_each cs in
      elim (check_sensors c.subject_id c.sensors []) [
        | some e ↦ ([], some e)
        | none ↦ elim (build c.sensors (new_subject c.subject_id)) [
          | failed_with e ↦ ([], some e)
          | built s ↦ (s ∷ rest.0, rest.1)
        ]
      ]

  -- `init_subjects`: the new `subjects`, and the error with which it returns False.
  pub init_subjects : (max_total_sensors : ℕ) → List SubjectConf → List Subject × Option GraphError
  unfolding init_each total_sensors
  init_subjects max_total_sensors configs =
      if ltb max_total_sensors (total_sensors configs)
      then ([], some (too_many_sensors (total_sensors configs)))
      else init_each configs

-- `get_subjects_by_ids`
pub get_subjects_by_ids : List String → List Subject → List Subject
get_subjects_by_ids ids [] = []
get_subjects_by_ids ids (s ∷ ss) =
    if contains ids s.subject_id then s ∷ get_subjects_by_ids ids ss else get_subjects_by_ids ids ss

-- `find_subject_by_address`
pub find_subject_by_address : Option String → List Subject → Option Subject
find_subject_by_address a [] = none
find_subject_by_address a (s ∷ ss) =
    if has_address s.sensors a then some s else find_subject_by_address a ss

-- `find_subject_by_id`
pub find_subject_by_id : String → List Subject → Option Subject
find_subject_by_id id [] = none
find_subject_by_id id (s ∷ ss) = if str_eq s.subject_id id then some s else find_subject_by_id id ss
