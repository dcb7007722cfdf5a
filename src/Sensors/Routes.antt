-- ===== src/Sensors/Routes.antt =====
-- The routes between sensors in nexus_n3/sensor_manager/SensorManager.py: the normal form of the
-- declared inputs and outputs, their compatibility, the routing table and the choice of the targets
-- of a payload. A sensor is a number with its declarations; an entry that is neither a string nor a
-- dictionary counts as `other`.
pub mod Table
use Prim.Native.String
use nexus_n3_core.Prelude.{
  ℕ, String, Bool, true, false, not, ◌&&◌, ◌||◌, Option, none, some, List, [], ◌∷◌, ◌++◌, map,
  if◌then◌else◌, ◌==◌, str_eq, contains, truthy, nonempty, strip, lower,
}

pub record Declared : Type 0 where
  pub name : Option String
  pub schema : Option String

pub data RawEntry : Type 0 where
  text : String → RawEntry
  entry : (name schema : Option String) → RawEntry
  other : RawEntry

-- `str(v or "").strip()`
abbrev pub stripped : Option String → String
stripped v = elim v [ none ↦ "" | some s ↦ strip s ]

-- `str(v or "").strip().lower()`
abbrev pub folded : Option String → String
folded v = lower (stripped v)

-- `text[:-6]` when the text ends with "sample".
unfoldable pub without_sample : String → String
without_sample String.[] = String.[]
without_sample (String.◌∷◌ c s) =
    let rest = without_sample s in
    if str_eq (String.◌∷◌ c s) "sample" then "" else String.◌∷◌ c rest

unfoldable pub normalize_schema_name : Option String → Option String
unfolding without_sample
normalize_schema_name v = nonempty (without_sample (folded v))

abbrev pub keep_entry : Option String → Option String → List Declared → List Declared
keep_entry none none ds = ds
keep_entry name schema ds = record { name = name; schema = schema } ∷ ds

unfoldable pub normalize_routing_entries : List RawEntry → List Declared
unfolding normalize_schema_name
normalize_routing_entries [] = []
normalize_routing_entries (text s ∷ es) =
    keep_entry (nonempty (strip s)) none (normalize_routing_entries es)
normalize_routing_entries (entry name schema ∷ es) =
    keep_entry (nonempty (stripped name)) (normalize_schema_name schema)
      (normalize_routing_entries es)
normalize_routing_entries (other ∷ es) = normalize_routing_entries es

-- The sets of `_routes_compatible`: the values that are true, in normal form.
abbrev pub true_names : List Declared → List String
true_names [] = []
true_names (d ∷ ds) = elim (truthy d.name) [
  | none ↦ true_names ds
  | some s ↦ folded (some s) ∷ true_names ds
]

abbrev pub true_schemas : List Declared → List String
true_schemas [] = []
true_schemas (d ∷ ds) = elim (truthy d.schema) [
  | none ↦ true_schemas ds
  | some s ↦ folded (some s) ∷ true_schemas ds
]

abbrev pub is_among : List String → String → Bool
is_among names s = not (str_eq s "") && contains names s

unfoldable pub routes_compatible : (outputs inputs : List Declared) → Bool
routes_compatible outputs [] = false
routes_compatible outputs (i ∷ is') =
    if is_among (true_names outputs) (folded i.name)
    then true
    else if is_among (true_schemas outputs) (folded i.schema)
    then true
    else routes_compatible outputs is'

pub record RoutedSensor : Type 0 where
  pub id : ℕ
  pub routing_inputs : Option (List Declared)
  pub routing_outputs : List Declared
  pub spec_inputs : List RawEntry
  -- the streams of the specification that are dictionaries, with their `sample_type`
  pub data_streams : List (String × Option String)

unfoldable pub routing_inputs_for_sensor : RoutedSensor → List Declared
unfolding normalize_routing_entries
routing_inputs_for_sensor s = elim s.routing_inputs [
  | none ↦ normalize_routing_entries s.spec_inputs
  | some ds ↦ ds
]

abbrev pub stream_output : String × Option String → Declared
stream_output e = record {
  name = some (e.0);
  schema = elim (nonempty (stripped (e.1))) [
    | none ↦ none
    | some t ↦ normalize_schema_name (some t)
  ];
}

unfoldable pub routing_outputs_for_sensor : RoutedSensor → List Declared
routing_outputs_for_sensor s = elim s.routing_outputs [
  | [] ↦ map stream_output s.data_streams
  | d ∷ ds ↦ d ∷ ds
]

unfoldable pub matching : String → List Declared → List Declared
matching key [] = []
matching key (d ∷ ds) =
    let rest = matching key ds in
    if str_eq (folded d.schema) key || str_eq (folded d.name) key then d ∷ rest else rest

-- `_payload_outputs_for_sensor`
unfoldable pub payload_outputs_for_sensor :
    RoutedSensor → (sample_type : Option String) → List Declared
unfolding routing_outputs_for_sensor matching
payload_outputs_for_sensor s t =
    let outputs = routing_outputs_for_sensor s in
    elim (nonempty (folded t)) [
      | none ↦ outputs
      | some key ↦ elim (matching key outputs) [ [] ↦ outputs | d ∷ ds ↦ d ∷ ds ]
    ]

-- The loop over the targets of a source.
unfoldable pub routes_from : RoutedSensor → List RoutedSensor → List ℕ
unfolding routes_compatible routing_outputs_for_sensor routing_inputs_for_sensor
routes_from s [] = []
routes_from s (t ∷ ts) =
    let rest = routes_from s ts in
    if t.id == s.id
    then rest
    else if routes_compatible (routing_outputs_for_sensor s) (routing_inputs_for_sensor t)
    then t.id ∷ rest
    else rest

-- The loop over the sources, among all sensors.
unfoldable pub routes_of_all : List RoutedSensor → List RoutedSensor → List (ℕ × List ℕ)
unfolding routes_from
routes_of_all all [] = []
routes_of_all all (s ∷ ss) =
    let rest = routes_of_all all ss in
    elim (routes_from s all) [ [] ↦ rest | t ∷ ts ↦ (s.id, t ∷ ts) ∷ rest ]

-- `_build_routing_table`; no output or no input is never compatible, so the two early tests of the
-- loops skip what they would not add.
unfoldable pub build_routing_table : List RoutedSensor → List (ℕ × List ℕ)
unfolding routes_of_all
build_routing_table ss = routes_of_all ss ss
