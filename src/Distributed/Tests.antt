-- ===== src/Distributed/Tests.antt =====
-- Concrete runs of the coordinator, and the theorems applied to them.
use nexus_n3_core.Prelude.{
  String, ◌≡◌, refl, true, false, some, List, [], ◌∷◌, contains, subset, same_set, lookup,
}
use nexus_n3_core.Distributed.OfficialStart.{
  StartRecord, Event, EventType, stream_ready_for_official, stream_official_started,
  create_official_start_record, run, start_official,
}
use nexus_n3_core.Distributed.OfficialStart.Reports.{reported}
use nexus_n3_core.Distributed.OfficialStart.Commit.{
  is_committed, is_committed-run, nodes_of, start_official-nodes,
}

abbrev event : String → EventType → Event
event node type = record {
  node_id = some node;
  type = type;
  payload = some (record { start_session_id = some "s1"; session_timestamp = some "20260101" });
}

-- A duplicate report, a stranger, the two expected nodes, and an acknowledgement.
abbrev ready_history : List Event
ready_history =
    event "worker-01" stream_ready_for_official
    ∷ event "worker-01" stream_ready_for_official
    ∷ event "worker-09" stream_ready_for_official
    ∷ event "master" stream_ready_for_official
    ∷ event "master" stream_official_started
    ∷ []

abbrev waiting_start : StartRecord
waiting_start = record {
  session_timestamp = some "20260101";
  subject_ids = "a" ∷ [];
  expected_nodes = "worker-01" ∷ "master" ∷ [];
  ready_nodes = "master" ∷ [];
  official_nodes = [];
  ready_announced = false;
  commit_dispatched = false;
}

abbrev complete_start : StartRecord
complete_start = record waiting_start { ready_nodes = "worker-01" ∷ "master" ∷ [] }

is_committed-run_example :
    is_committed
      (start_official
        (some "s1")
        (run true true ready_history (
          create_official_start_record "s1"
            (some "20260101")
            ("a" ∷ [])
            ("worker-01" ∷ "master" ∷ []))).0).1
    ≡ subset ("worker-01" ∷ "master" ∷ []) (reported "s1" (some "20260101") ready_history)
is_committed-run_example =
    is_committed-run "s1" (some "20260101") ("a" ∷ []) ("worker-01" ∷ "master" ∷ []) ready_history

start_official-nodes_example :
    contains (nodes_of (start_official (some "s1") (("s1", complete_start) ∷ [])).1) "worker-01"
    ≡ contains complete_start.expected_nodes "worker-01"
unfolding lookup same_set
start_official-nodes_example =
    (start_official-nodes "s1" complete_start (("s1", complete_start) ∷ []) "worker-01" refl refl).0

-- Both expected nodes are among those that reported.
reported-ready_history :
    subset ("worker-01" ∷ "master" ∷ []) (reported "s1" (some "20260101") ready_history) ≡ true
unfolding reported subset contains
reported-ready_history = refl
