-- ===== src/Distributed/Initialization.antt =====
-- nexus_n3/distributed/master_node.py, the initialization barrier: a new assignment of subjects is
-- installed when every participating node confirms its part, and otherwise the deployment waits for
-- a reset of all participants. The initialization lock makes each function here one step; replies
-- may arrive while the commands are still dispatched. There is an event bus. An attempt is known
-- again by its identifier, which is fresh.
pub mod Attempt
pub mod Confirmed
pub mod Runs
pub mod Agreement
mod Tests
use Prim.Native.String.{◌++◌ as text_append}
use nexus_n3_core.Prelude.{
  ℕ, String, Bool, true, false, not, ◌&&◌, ◌||◌, Option, none, some, List, [], ◌∷◌, ◌++◌, map,
  if◌then◌else◌, str_eq, contains, add, discard, subset, lookup, insert, keys, sorted, truthy,
}
use nexus_n3_core.Distributed.Registry.{
  NodeRegistry, replace_subjects, get_identity, assigned_nodes,
}
use nexus_n3_core.Distributed.Planner.{
  SensorConfig, SubjectConfig, Submitted, not_list, entries, Entry, Plan, PlanError, Result, ok,
  err, subjects_of, owners, all_subjects, plan_subject_assignments,
}
use nexus_n3_core.Connect.State.{Subject, Sequence}
use nexus_n3_core.Connect.Sequence.{configure}

-- The payload of EVT_NODE_INITIALIZED and EVT_NODE_INITIALIZATION_FAILED.
pub record NodeReply : Type 0 where
  pub initialization_id : Option String
  pub correlation_id : Option String
  pub configuration_state : Option String
  -- `none` where it is no list of strings
  pub subject_ids : Option (List String)
  pub message : Option String
  -- "site", "session_timestamp", ..., as far as they are given
  pub session : List (String × String)

-- `_pending_initialization`
pub record PendingInitialization : Type 0 where
  pub correlation_id : String
  pub initialization_id : String
  pub previous_assignments : List (String × String)
  pub requested_assignments : List (String × String)
  pub expected : List String
  pub plan : Plan
  pub replies : List (String × NodeReply)
  pub connection_subjects : List SubjectConfig

-- `_initialization_recovery`
pub record InitializationRecovery : Type 0 where
  pub previous_assignments : List (String × String)
  pub requested_assignments : List (String × String)
  pub participants : List String
  pub initialization_id : String
  pub node_results : List (String × NodeReply)
  pub cleanup_id : Option String
  pub cleanup_nodes : List String

-- The parts of the master's state that the initialization uses.
pub record MasterState : Type 0 where
  pub registry : NodeRegistry
  pub pending : Option PendingInitialization
  pub recovery : Option InitializationRecovery
  pub dispatching : Bool
  pub active_streams : List String
  pub connection : Sequence

pub record InitResult : Type 0 where
  pub correlation_id : String
  pub initialization_id : String
  pub expected_node_ids : List String
  pub node_results : List (String × NodeReply)

pub data Refusal : Type 0 where
  -- An initialization is pending, or a reset is required.
  unsettled acquiring : Refusal
  local_error : String → Refusal
  unplanned : PlanError → Refusal
  unavailable : (node : String) → Refusal

pub data Report : Type 0 where
  -- the result, the session of the master and the installed subjects
  installed : InitResult → (session : List (String × String)) → (subjects : List String) → Report
  -- the result, the message, and the nodes that did not reply
  failed_report : InitResult → (message : String) → (missing : List String) → Report
  refused : (correlation_id : String) → Refusal → Report

pub record NodeCommand : Type 0 where
  pub node : String
  pub subjects : List SubjectConfig
  pub initialization_id : String

abbrev pub master_node : String
master_node = "master"

all_locations : List SensorConfig → List String
all_locations [] = []
all_locations (s ∷ ss) = s.locations ++ all_locations ss

abbrev pub given : Option String → String
given none = ""
given (some a) = a

-- What `configure` receives. The plan gives each subject an identifier and a node.
connection_list : List (String × String) → List SubjectConfig → List Subject
unfolding all_locations
connection_list requested [] = []
connection_list requested (s ∷ ss) =
    record {
      subject_id = given s.subject_id;
      node_id = given (lookup (given s.subject_id) requested);
      locations = all_locations s.sensors;
    }
    ∷ connection_list requested ss

-- `expected - replies.keys()`
without_reply : List String → List (String × NodeReply) → List String
without_reply [] replies = []
without_reply (n ∷ ns) replies =
    if contains (keys replies) n then without_reply ns replies else n ∷ without_reply ns replies

abbrev pub session_of : Option NodeReply → List (String × String)
session_of none = []
session_of (some p) = p.session

pub result_of : PendingInitialization → InitResult
result_of r = record {
  correlation_id = r.correlation_id;
  initialization_id = r.initialization_id;
  expected_node_ids = sorted r.expected;
  node_results = r.replies;
}

-- `_finish_initialization` without a failure
unfoldable pub install : PendingInitialization → MasterState → MasterState × Option Report
unfolding connection_list
install r s = (
  record s {
    pending = none;
    registry = replace_subjects r.requested_assignments s.registry;
    connection =
        configure (connection_list r.requested_assignments r.connection_subjects) s.connection;
  },
  some (
      installed (result_of r) (session_of (lookup master_node r.replies))
        (keys r.requested_assignments)),
)

-- `_finish_initialization` with a failure
unfoldable pub retain : String → PendingInitialization → MasterState → MasterState × Option Report
unfolding without_reply
retain failure r s = (
  record s {
    pending = none;
    registry = replace_subjects [] s.registry;
    recovery = some (record {
      previous_assignments = r.previous_assignments;
      requested_assignments = r.requested_assignments;
      participants = r.expected;
      initialization_id = r.initialization_id;
      node_results = r.replies;
      cleanup_id = none;
      cleanup_nodes = [];
    });
  },
  some (failed_report (result_of r) failure (sorted (without_reply r.expected r.replies))),
)

-- `_finish_initialization` at a failure of an attempt: its timer, or its dispatch.
pub give_up : String → String → MasterState → MasterState × Option Report
unfolding retain
give_up id failure s = elim s.pending [
  | none ↦ (s, none)
  | some r ↦ if str_eq r.initialization_id id then retain failure r s else (s, none)
]

pub ids_of : List SubjectConfig → List String
ids_of [] = []
ids_of (s ∷ ss) = elim s.subject_id [ none ↦ ids_of ss | some id ↦ id ∷ ids_of ss ]

pub same_list : List String → List String → Bool
same_list [] [] = true
same_list [] (y ∷ ys) = false
same_list (x ∷ xs) [] = false
same_list (x ∷ xs) (y ∷ ys) = str_eq x y && same_list xs ys

abbrev pub holds : String → Option String → Bool
holds id none = false
holds id (some a) = str_eq a id

-- The reply confirms what the plan gives the node.
pub confirms : Plan → String → NodeReply → Bool
unfolding ids_of same_list
confirms plan node p = holds "installed" p.configuration_state && (elim p.subject_ids [
  | none ↦ false
  | some ids ↦ same_list (sorted ids) (sorted (ids_of (subjects_of node plan)))
])

abbrev pub failure_message : String → NodeReply → String
failure_message node p = text_append "Initialization failed on " (
    text_append node
      (text_append ": " (elim p.message [ none ↦ "configuration mismatch" | some m ↦ m ])))

pub answers_attempt : PendingInitialization → String → NodeReply → Bool
answers_attempt r node p =
    holds r.initialization_id p.initialization_id
    && holds r.correlation_id p.correlation_id
    && contains r.expected node
    && not (contains (keys r.replies) node)

-- `_record_initialization_reply`
unfoldable pub record_initialization_reply :
    (node : String) (failed : Bool) (p : NodeReply) → MasterState → MasterState × Option Report
unfolding answers_attempt confirms retain install
record_initialization_reply node failed p s = elim s.pending [
  | none ↦ (s, none)
  | some r ↦
      let replied = record r { replies = insert node p r.replies } in
      let noted = record s { pending = some replied } in
      if answers_attempt r node p
      then (if failed || not (confirms r.plan node p)
          then retain (failure_message node p) replied noted
          else (if subset r.expected (keys replied.replies)
              then install replied noted
              else (noted, none)))
      else (s, none)
]

-- `_record_initialization_recovery`
pub record_initialization_recovery :
    (correlation_id node : Option String) (ready : Bool) → MasterState → MasterState
record_initialization_recovery correlation_id node ready s = elim s.recovery [
  | none ↦ s
  | some r ↦ elim (truthy r.cleanup_id) [
    | none ↦ s
    | some id ↦ elim node [
      | none ↦ s
      | some sender ↦
          let nodes = add sender r.cleanup_nodes in
          if holds id correlation_id && contains r.participants sender && ready
          then (if subset r.participants nodes
              then record s { registry = replace_subjects [] s.registry; recovery = none }
              else record s { recovery = some (record r { cleanup_nodes = nodes }) })
          else s
    ]
  ]
]

abbrev pub is_given {ℓ} : {A : Type ℓ} → Option A → Bool
is_given none = false
is_given (some a) = true

-- The recovery's part of `dispatch_command` at CMD_DISCONNECT_ALL with `recover_session`.
pub reset_all : (correlation_id : String) → MasterState → MasterState
reset_all correlation_id s = elim s.recovery [
  | none ↦ s
  | some r ↦ if is_given s.pending || s.dispatching then s else record s {
    recovery = some (record r { cleanup_id = some correlation_id; cleanup_nodes = [] });
  }
]
