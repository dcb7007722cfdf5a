-- ===== src/Distributed/Planner.antt =====
-- nexus_n3/distributed/master_node.py, the assignment of subjects to nodes by capability and
-- capacity: `_plan_subject_assignments`, `_validate_subjects_per_node` and `assign_subjects`.
pub mod Capacity
pub mod Complete
pub mod Greedy
pub mod Choice
mod Tests
use nexus_n3_core.Prelude.{
  ℕ, zero, suc, ◌+◌, String, Bool, true, false, not, ◌&&◌, ◌||◌, Option, none, some, List, [], ◌∷◌,
  ◌++◌, map, if◌then◌else◌, ltb, leb, str_eq, str_le, ◌==◌, contains, lookup, insert, strip,
  nonempty, truthy,
}
use nexus_n3_core.Distributed.Registry.{
  Node, NodeRegistry, filter_nodes, replace_subjects, supports_sensor, supports_algorithm,
}

pub record SensorConfig : Type 0 where
  pub local_name : Option String
  pub number_of : Option ℕ
  pub locations : List String
  pub algorithm : Option String

-- `subject_id` is `none` where the key is missing or holds no string.
pub record SubjectConfig : Type 0 where
  pub subject_id : Option String
  pub sensors : List SensorConfig

-- An entry of the submitted list.
pub data Entry : Type 0 where
  not_dict : Entry
  subject : SubjectConfig → Entry

pub data Submitted : Type 0 where
  not_list : Submitted
  entries : List Entry → Submitted

pub data PlanError : Type 0 where
  subjects_not_list bad_subject_ids no_nodes : PlanError
  no_host : SubjectConfig → PlanError
  overloaded : PlanError

pub data Result {ℓ} (A : Type ℓ) : Type ℓ where
  ok : A → Result A
  err : PlanError → Result A

abbrev pub Plan : Type 0
Plan = List (String × List SubjectConfig)

abbrev pub Counts : Type 0
Counts = List (String × ℕ)

abbrev pub max_sensors_per_node : ℕ
max_sensors_per_node = 8

abbrev pub master_id : String
master_id = "master"

abbrev pub number : Option ℕ → ℕ
number none = 1
number (some n) = n

-- `sum(s.get("number_of", 1) for s in sub.get("sensors", []))`
unfoldable pub sensor_count : List SensorConfig → ℕ
sensor_count [] = 0
sensor_count (s ∷ ss) = number s.number_of + sensor_count ss

unfoldable pub total_sensors : List SubjectConfig → ℕ
unfolding sensor_count
total_sensors [] = 0
total_sensors (s ∷ ss) = sensor_count s.sensors + total_sensors ss

-- `str(name or "").strip()`, if it is not empty.
named : Option String → Option String
named none = none
named (some s) = nonempty (strip s)

-- `_node_supports_subject`, over the names that `_subject_requirements` collects.
unfoldable pub node_supports : Node → List SensorConfig → Bool
unfolding named
node_supports n [] = true
node_supports n (s ∷ ss) =
    (elim (named s.local_name) [ none ↦ true | some x ↦ supports_sensor n.capabilities x ])
    && (elim (named s.algorithm) [ none ↦ true | some x ↦ supports_algorithm n.capabilities x ])
    && node_supports n ss

-- `node.get("role") in {"master", "worker"}`
unfoldable pub executes : Node → Bool
executes n = str_eq n.role "master" || str_eq n.role "worker"

abbrev pub count_of : String → Counts → ℕ
count_of k c = elim (lookup k c) [ none ↦ 0 | some n ↦ n ]

abbrev pub subjects_of : String → Plan → List SubjectConfig
subjects_of k p = elim (lookup k p) [ none ↦ [] | some l ↦ l ]

-- Supported, and within the capacity.
unfoldable pub can_host : Counts → SubjectConfig → String → Node → Bool
unfolding node_supports
can_host counts sub k n =
    node_supports n sub.sensors
    && leb (count_of k counts + sensor_count sub.sensors) max_sensors_per_node

unfoldable pub eligible : Counts → SubjectConfig → List (String × Node) → List String
unfolding can_host
eligible counts sub [] = []
eligible counts sub ((k, n) ∷ m) =
    if can_host counts sub k n then k ∷ eligible counts sub m else eligible counts sub m

-- The keys `(count, node_id != self.node_id, node_id)` in their order: fewer sensors first, then the
-- master, then by identifier.
unfoldable pub key_le : Counts → String → String → Bool
key_le counts a b =
    if ltb (count_of a counts) (count_of b counts)
    then true
    else (if ltb (count_of b counts) (count_of a counts)
        then false
        else (if str_eq a master_id
            then true
            else (if str_eq b master_id then false else str_le a b)))

-- `min`: the first of the least.
unfoldable pub least : Counts → String → List String → String
unfolding key_le
least counts best [] = best
least counts best (k ∷ ks) = least counts (if key_le counts best k then best else k) ks

unfoldable pub select_node : Counts → List String → Option String
unfolding least
select_node counts [] = none
select_node counts (k ∷ ks) = some (least counts k ks)

-- The loop over the subjects.
unfoldable pub assign_all : List (String × Node) → Counts → Plan → List SubjectConfig → Result Plan
unfolding eligible select_node
assign_all nodes counts plan [] = ok plan
assign_all nodes counts plan (sub ∷ subs) = elim (select_node counts (eligible counts sub nodes)) [
  | none ↦ err (no_host sub)
  | some k ↦
      assign_all nodes (insert k (count_of k counts + sensor_count sub.sensors) counts)
        (insert k (subjects_of k plan ++ sub ∷ []) plan) subs
]

-- `_validate_subjects_per_node` on every node of the plan.
unfoldable pub validate : Plan → Result Plan
unfolding total_sensors
validate [] = ok []
validate ((k, subs) ∷ m) =
    let rest = validate m in
    if leb (total_sensors subs) max_sensors_per_node
    then (elim rest [ ok p ↦ ok ((k, subs) ∷ p) | err e ↦ err e ])
    else err overloaded

-- The subjects, if every entry is a dictionary.
unfoldable pub all_subjects : List Entry → Option (List SubjectConfig)
all_subjects [] = some []
all_subjects (not_dict ∷ es) = none
all_subjects (subject s ∷ es) = elim (all_subjects es) [ none ↦ none | some ss ↦ some (s ∷ ss) ]

-- The identifiers, if all are nonempty strings and no two are equal.
unfoldable pub unique_ids : List SubjectConfig → Option (List String)
unique_ids [] = some []
unique_ids (s ∷ ss) = elim (truthy s.subject_id) [
  | none ↦ none
  | some id ↦ elim (unique_ids ss) [
    | none ↦ none
    | some ids ↦ if contains ids id then none else some (id ∷ ids)
  ]
]

abbrev pub is_empty {ℓ} : {A : Type ℓ} → List A → Bool
is_empty [] = true
is_empty (_ ∷ _) = false

unfoldable pub plan_checked : NodeRegistry → List SubjectConfig → Result Plan
unfolding assign_all validate executes
plan_checked g subs =
    let nodes = filter_nodes executes g.nodes in
    if is_empty nodes
    then err no_nodes
    else (elim (assign_all nodes (map (λ x. (x.0, 0)) nodes) (map (λ x. (x.0, [])) nodes) subs) [
      | err e ↦ err e
      | ok p ↦ validate p
    ])

-- `_plan_subject_assignments`
unfoldable pub plan_subject_assignments : NodeRegistry → Submitted → Result Plan
unfolding plan_checked unique_ids all_subjects
plan_subject_assignments g not_list = err subjects_not_list
plan_subject_assignments g (entries es) = elim (all_subjects es) [
  | none ↦ err bad_subject_ids
  | some subs ↦ elim (unique_ids subs) [
    | none ↦ err bad_subject_ids
    | some ids ↦ plan_checked g subs
  ]
]

-- `{sub["subject_id"]: nid for nid, subs in plan.items() for sub in subs}`
unfoldable pub owners_on : String → List SubjectConfig → List (String × String)
owners_on k [] = []
owners_on k (s ∷ ss) = elim s.subject_id [
  | none ↦ owners_on k ss
  | some id ↦ (id, k) ∷ owners_on k ss
]

unfoldable pub owners : Plan → List (String × String)
unfolding owners_on
owners [] = []
owners ((k, subs) ∷ m) = owners_on k subs ++ owners m

-- `assign_subjects`: the new registry and the master's own subjects.
pub assign_subjects : NodeRegistry → Submitted → Result (NodeRegistry × List SubjectConfig)
unfolding owners
assign_subjects g submitted = elim (plan_subject_assignments g submitted) [
  | err e ↦ err e
  | ok p ↦ ok (replace_subjects (owners p) g, subjects_of master_id p)
]
