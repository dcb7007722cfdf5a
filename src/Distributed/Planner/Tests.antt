-- ===== src/Distributed/Planner/Tests.antt =====
-- Concrete plans, and the theorems about the planner applied to them.
use mathlib.Core.List.{Perm}
use nexus_n3_core.Prelude.{
  ℕ, String, ◌≡◌, ◌≢◌, refl, ◌≤◌, none, some, List, [], ◌∷◌, All, lookup, insert, contains, map,
  strip, lower,
}
use nexus_n3_core.Distributed.Registry.{
  Node, NodeRegistry, supports_sensor, supports_algorithm, filter_nodes,
}
use nexus_n3_core.Distributed.Planner.{
  SubjectConfig, Entry, subject, entries, Plan, ok, err, overloaded, subjects_of, total_sensors,
  plan_subject_assignments, all_subjects, plan_checked, unique_ids, assign_all, validate, executes,
  eligible, select_node, can_host, node_supports, sensor_count, least, key_le,
}
use nexus_n3_core.Distributed.Planner.Capacity.{plan-capacity, plan-ne-overloaded}
use nexus_n3_core.Distributed.Planner.Complete.{hosted, plan-perm}
use nexus_n3_core.Distributed.Planner.Choice.{Runs, plan-Runs}
use nexus_n3_core.Distributed.Planner.Greedy.{Greedy, plan-Greedy}

abbrev node_of_role : String → Node
node_of_role role = record {
  ip = some "10.0.0.1";
  role = role;
  identity = none;
  last_seen = 0;
  compute_port = none;
  capabilities = record { supported_sensors = "Movella" ∷ []; supported_algorithms = [] };
}

abbrev two_nodes : NodeRegistry
two_nodes = record {
  nodes = ("master", node_of_role "master") ∷ ("worker-01", node_of_role "worker") ∷ [];
  subjects = [];
}

abbrev with_sensors : String → ℕ → SubjectConfig
with_sensors id n = record {
  subject_id = some id;
  sensors =
      record { local_name = some " movella"; number_of = some n; locations = []; algorithm = none }
      ∷ [];
}

abbrev submitted : List Entry
submitted = subject (with_sensors "a" 5) ∷ subject (with_sensors "b" 5) ∷ []

-- The master takes the first subject; the second no longer fits there.
abbrev plan : Plan
plan = ("master", with_sensors "a" 5 ∷ []) ∷ ("worker-01", with_sensors "b" 5 ∷ []) ∷ []

plan_lem : plan_subject_assignments two_nodes (entries submitted) ≡ ok plan
unfolding plan_subject_assignments all_subjects unique_ids plan_checked assign_all validate executes
    eligible select_node can_host node_supports sensor_count total_sensors least key_le
    supports_sensor supports_algorithm filter_nodes lookup insert contains strip lower
plan_lem = refl

plan-capacity_example : total_sensors (subjects_of "master" plan) ≤ 8
plan-capacity_example = plan-capacity two_nodes (entries submitted) plan "master" plan_lem

plan-ne-overloaded_example : plan_subject_assignments two_nodes (entries submitted) ≢ err overloaded
plan-ne-overloaded_example = plan-ne-overloaded two_nodes (entries submitted)

plan-perm_example : Perm (hosted plan) (with_sensors "a" 5 ∷ with_sensors "b" 5 ∷ [])
unfolding all_subjects
plan-perm_example =
    plan-perm two_nodes submitted (with_sensors "a" 5 ∷ with_sensors "b" 5 ∷ []) plan refl plan_lem

plan-Runs_example : All (Runs two_nodes) plan
plan-Runs_example = plan-Runs two_nodes (entries submitted) plan plan_lem

plan-Greedy_example :
    (es : List Entry) × (subs : List SubjectConfig) × (entries submitted ≡ entries es)
    × (all_subjects es ≡ some subs)
    × Greedy
        (filter_nodes executes two_nodes.nodes)
        (map (λ x. (x.0, [])) (filter_nodes executes two_nodes.nodes))
        subs
        plan
plan-Greedy_example = plan-Greedy two_nodes (entries submitted) plan plan_lem
