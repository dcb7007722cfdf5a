-- ===== src/Distributed/Initialization/Tests.antt =====
-- An initialization on two nodes, confirmed and refused, and the theorems applied to it.
use nexus_n3_core.Prelude.{
  String, ◌≡◌, refl, false, Option, none, some, List, [], ◌∷◌, lookup, insert, contains, subset,
  add, sorted, strip, lower,
}
use nexus_n3_core.Connect.State.{init}
use nexus_n3_core.Distributed.Registry.{
  Node, NodeRegistry, filter_nodes, supports_sensor, supports_algorithm, assigned_nodes,
  get_identity,
}
use nexus_n3_core.Distributed.Planner.{
  Submitted, entries, subject, plan_subject_assignments, all_subjects, unique_ids, plan_checked,
  assign_all, validate, executes, eligible, select_node, can_host, node_supports, sensor_count,
  total_sensors, least, key_le, owners_on, owners,
}
use nexus_n3_core.Distributed.Initialization.{
  NodeReply, MasterState, InitResult, record_initialization_reply, confirms, answers_attempt,
  install, retain, ids_of, same_list, result_of, InitializationRecovery,
}
use nexus_n3_core.Distributed.Initialization.Attempt.{
  begin_initialization, new_attempt, prepare, required_nodes, add_all, set_default,
  first_unavailable, node_commands,
}
use nexus_n3_core.Distributed.Initialization.Runs.{
  Call, act, history, idle_master, begun, replied_by, Agreed,
}
use nexus_n3_core.Distributed.Initialization.Agreement.{history-Agreed, history-unowned}

abbrev node_of : String → Node
node_of role = record {
  ip = none;
  role = role;
  identity = some role;
  last_seen = 0;
  compute_port = none;
  capabilities = record { supported_sensors = "movella" ∷ []; supported_algorithms = [] };
}

abbrev master_only : NodeRegistry
master_only = record { nodes = ("master", node_of "master") ∷ []; subjects = [] }

abbrev one_subject : Submitted
one_subject = entries (
    subject (record {
      subject_id = some "a";
      sensors =
          record {
            local_name = some "movella";
            number_of = some 1;
            locations = "wrist" ∷ [];
            algorithm = none;
          }
          ∷ [];
    })
    ∷ [])

abbrev reply : Option (List String) → NodeReply
reply ids = record {
  initialization_id = some "i1";
  correlation_id = some "c1";
  configuration_state = some "installed";
  subject_ids = ids;
  message = none;
  session = [];
}

abbrev before : List Call
before = begun "c1" "i1" none one_subject ∷ []

abbrev start : MasterState
start = idle_master master_only [] init

abbrev result : InitResult
result = record {
  correlation_id = "c1";
  initialization_id = "i1";
  expected_node_ids = "master" ∷ [];
  node_results = ("master", reply (some ("a" ∷ []))) ∷ [];
}

abbrev after : MasterState
after = (act (replied_by "master" false (reply (some ("a" ∷ [])))) (history before start)).0

history-Agreed_example : Agreed (history before start) after result ("a" ∷ [])
unfolding act history begin_initialization new_attempt prepare plan_subject_assignments all_subjects
    unique_ids plan_checked assign_all validate executes eligible select_node can_host node_supports
    sensor_count total_sensors least key_le supports_sensor supports_algorithm filter_nodes lookup
    insert contains strip lower owners_on owners required_nodes add_all set_default
    first_unavailable get_identity assigned_nodes node_commands record_initialization_reply confirms
    answers_attempt install result_of ids_of same_list sorted subset add
history-Agreed_example =
    history-Agreed master_only [] init before (replied_by "master" false (reply (some ("a" ∷ []))))
      after result [] ("a" ∷ []) refl

-- The master confirms no subject, so the attempt fails.
abbrev refused_calls : List Call
refused_calls = begun "c1" "i1" none one_subject ∷ replied_by "master" false (reply (some [])) ∷ []

abbrev recovery : InitializationRecovery
recovery = record {
  previous_assignments = [];
  requested_assignments = ("a", "master") ∷ [];
  participants = "master" ∷ [];
  initialization_id = "i1";
  node_results = ("master", reply (some [])) ∷ [];
  cleanup_id = none;
  cleanup_nodes = [];
}

history-unowned_example : assigned_nodes (history refused_calls start).registry ≡ []
unfolding act history begin_initialization new_attempt prepare plan_subject_assignments all_subjects
    unique_ids plan_checked assign_all validate executes eligible select_node can_host node_supports
    sensor_count total_sensors least key_le supports_sensor supports_algorithm filter_nodes lookup
    insert contains strip lower owners_on owners required_nodes add_all set_default
    first_unavailable get_identity assigned_nodes node_commands record_initialization_reply confirms
    answers_attempt retain result_of ids_of same_list sorted subset add
history-unowned_example = (history-unowned master_only [] init refused_calls recovery refl).1
