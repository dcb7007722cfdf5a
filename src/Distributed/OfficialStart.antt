-- ===== src/Distributed/OfficialStart.antt =====
-- nexus_n3/distributed/master_node.py, the official-start barrier: one record for the current
-- distributed start, the node-local events that it counts, and the commit that it dispatches.
-- The lock makes each function below one step. Sets are lists read by `contains`.
pub mod Barrier
pub mod Reports
pub mod Commit
use nexus_n3_core.Prelude.{
  String, Bool, true, false, not, ◌&&◌, Option, none, some, List, [], ◌∷◌, ◌++◌, if◌then◌else◌,
  str_eq, contains, add, same_set, lookup, insert, discard, sorted, truthy, str_of,
}

pub record StartRecord : Type 0 where
  pub session_timestamp : Option String
  pub subject_ids : List String
  pub expected_nodes : List String
  pub ready_nodes : List String
  pub official_nodes : List String
  pub ready_announced : Bool
  pub commit_dispatched : Bool

abbrev pub Tracking : Type 0
Tracking = List (String × StartRecord)

-- The event types that the barrier tells apart.
pub data EventType : Type 0 where
  stream_ready_for_official stream_official_started : EventType
  other_event : String → EventType

pub record Payload : Type 0 where
  pub start_session_id : Option String
  pub session_timestamp : Option String

-- A node-local event as `_record_official_start_event` receives it.
pub record Event : Type 0 where
  pub node_id : Option String
  pub type : EventType
  pub payload : Option Payload

-- The payload of EVT_DISTRIBUTED_READY_FOR_OFFICIAL.
pub record Announcement : Type 0 where
  pub start_session_id : String
  pub session_timestamp : Option String
  pub subject_ids : List String
  pub expected_nodes : List String
  pub ready_nodes : List String

pub data Effect : Type 0 where
  -- EVT_DISTRIBUTED_READY_FOR_OFFICIAL on the event bus
  emit_ready : Announcement → Effect
  -- CMD_START_OFFICIAL_STREAM handed to the dispatcher
  dispatch_commit : String → Option String → Effect

pub dedup : List String → List String
dedup [] = []
dedup (x ∷ xs) = add x (dedup xs)

-- `_create_official_start_record`: the new record replaces every older one.
pub create_official_start_record :
    String → Option String → (subject_ids expected_nodes : List String) → Tracking
unfolding dedup
create_official_start_record id timestamp subject_ids expected_nodes =
    (
      id,
      record {
        session_timestamp = timestamp;
        subject_ids = subject_ids;
        expected_nodes = dedup expected_nodes;
        ready_nodes = [];
        official_nodes = [];
        ready_announced = false;
        commit_dispatched = false;
      },
    )
    ∷ []

abbrev pub no_payload : Payload
no_payload = record { start_session_id = none; session_timestamp = none }

-- `payload or {}`
abbrev pub payload_or_empty : Option Payload → Payload
payload_or_empty none = no_payload
payload_or_empty (some p) = p

-- The two guards under the lock.
pub admits : Payload → String → StartRecord → Bool
admits p node r =
    contains r.expected_nodes node
    && str_eq (str_of p.session_timestamp) (str_of r.session_timestamp)

announcement : String → List String → StartRecord → Announcement
announcement id ready r = record {
  start_session_id = id;
  session_timestamp = r.session_timestamp;
  subject_ids = r.subject_ids;
  expected_nodes = sorted r.expected_nodes;
  ready_nodes = sorted ready;
}

-- The branch of EVT_STREAM_READY_FOR_OFFICIAL.
pub mark_ready : String → String → StartRecord → StartRecord × Option Announcement
unfolding announcement
mark_ready id node r =
    let ready = add node r.ready_nodes in
    if same_set ready r.expected_nodes && not r.ready_announced
    then (record r { ready_nodes = ready; ready_announced = true }, some (announcement id ready r))
    else (record r { ready_nodes = ready }, none)

pub mark : EventType → String → String → StartRecord → StartRecord × Option Announcement
unfolding mark_ready
mark stream_ready_for_official id node r = mark_ready id node r
mark stream_official_started id node r =
    (record r { official_nodes = add node r.official_nodes }, none)
mark (other_event _) id node r = (r, none)

-- The effects after the lock is released: both need the event bus.
pub publish : (event_bus dispatcher : Bool) → Option Announcement → List Effect
publish event_bus dispatcher none = []
publish event_bus dispatcher (some a) =
    if event_bus
    then emit_ready a
      ∷ (if dispatcher then dispatch_commit a.start_session_id a.session_timestamp ∷ [] else [])
    else []

-- The record of the event's start, updated if the guards admit the event.
pub record_for : EventType → Payload → String → String → Tracking → Tracking × Option Announcement
unfolding mark admits
record_for type p node id t = elim (lookup id t) [
  | none ↦ (t, none)
  | some r ↦
      if admits p node r
      then (let (r', a) = mark type id node r in (insert id r' t, a))
      else (t, none)
]

-- `_record_official_start_event`
pub record_official_start_event :
    (event_bus dispatcher : Bool) → Event → Tracking → Tracking × List Effect
unfolding record_for publish
record_official_start_event event_bus dispatcher e t = elim (truthy e.node_id) [
  | none ↦ (t, [])
  | some node ↦ elim (truthy (payload_or_empty e.payload).start_session_id) [
    | none ↦ (t, [])
    | some id ↦
        let (t', a) = record_for e.type (payload_or_empty e.payload) node id t in
        (t', publish event_bus dispatcher a)
  ]
]

-- Any sequence of events.
pub run : (event_bus dispatcher : Bool) → List Event → Tracking → Tracking × List Effect
unfolding record_official_start_event
run event_bus dispatcher [] t = (t, [])
run event_bus dispatcher (e ∷ es) t =
    let (t', out) = record_official_start_event event_bus dispatcher e t in
    let (t'', rest) = run event_bus dispatcher es t' in (t'', out ++ rest)

pub data CommitReply : Type 0 where
  unknown_start : CommitReply
  not_ready : (missing : List String) → CommitReply
  -- The nodes to which the commit goes, in order.
  committed : (nodes : List String) → CommitReply

abbrev pub master_id : String
master_id = "master"

-- `expected - ready`
pub missing_nodes : List String → List String → List String
missing_nodes [] ready = []
missing_nodes (x ∷ xs) ready =
    if contains ready x then missing_nodes xs ready else x ∷ missing_nodes xs ready

-- Remote participants first, the master last.
pub dispatch_order : List String → List String
dispatch_order nodes =
    discard master_id nodes ++ (if contains nodes master_id then master_id ∷ [] else [])

-- `dispatch_command` at CMD_START_OFFICIAL_STREAM.
pub start_official : Option String → Tracking → Tracking × CommitReply
unfolding missing_nodes dispatch_order
start_official none t = (t, unknown_start)
start_official (some id) t = elim (lookup id t) [
  | none ↦ (t, unknown_start)
  | some r ↦
      if same_set r.ready_nodes r.expected_nodes
      then (
        insert id (record r { commit_dispatched = true }) t,
        committed (dispatch_order (sorted r.expected_nodes)),
      )
      else (t, not_ready (sorted (missing_nodes r.expected_nodes r.ready_nodes)))
]
