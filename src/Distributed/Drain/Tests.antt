-- ===== src/Distributed/Drain/Tests.antt =====
-- A stop with two expected nodes, and the theorems about the drain barrier applied to it.
use nexus_n3_core.Prelude.{
  ◌+◌, ◌≤◌, String, ◌≡◌, refl, false, not, ◌&&◌, none, some, List, [], ◌∷◌, lookup, insert,
  contains, subset,
}
use nexus_n3_core.Distributed.Drain.{
  DrainRecord, DrainState, Payload, DrainResult, ack_of, drain_result, note_ack, decide_drain,
  should_finalize, all_drained, drained_subjects, without,
}
use nexus_n3_core.Distributed.Drain.Decision.{
  each_drained, ends, ends-note_ack, IsFinal, note_ack-IsFinal,
}
use nexus_n3_core.Distributed.Drain.Once.{Config, IsFresh, here, next, acknowledged, Reach-once}

abbrev report : List String → Payload
report subjects = record {
  stop_session_id = some "stop-1";
  status = none;
  reason = none;
  subject_ids = some subjects;
  session_timestamp = some "20260101";
  drained = none;
}

abbrev stop_record : DrainRecord
stop_record = record {
  scope = "all";
  subject_ids = "a" ∷ "b" ∷ [];
  expected_nodes = "worker-01" ∷ "master" ∷ [];
  acks = ("worker-01", ack_of (report ("a" ∷ []))) ∷ [];
  finalizing = false;
  finalized = false;
}

-- The worker has acknowledged, the master has not.
abbrev half_drained : DrainState
half_drained = record { tracking = ("stop-1", stop_record) ∷ []; active = "b" ∷ "a" ∷ [] }

ends-note_ack_example : ends (note_ack "master" (some (report ("b" ∷ []))) half_drained).1 ≡ (
    each_drained stop_record.expected_nodes
      (insert "master" (ack_of (report ("b" ∷ []))) stop_record.acks)
    && not false
    && not false)
unfolding lookup
ends-note_ack_example =
    ends-note_ack "master" "stop-1" (report ("b" ∷ [])) stop_record half_drained refl refl

-- The master's acknowledgement completes the stop.
abbrev final_state : DrainState
final_state = (note_ack "master" (some (report ("b" ∷ []))) half_drained).0

abbrev final_result : DrainResult
final_result = drain_result "stop-1" (insert "master" (ack_of (report ("b" ∷ []))) stop_record.acks)

note_ack-IsFinal_example : IsFinal half_drained final_state final_result
unfolding note_ack decide_drain should_finalize all_drained drained_subjects without lookup insert
    contains subset ack_of
note_ack-IsFinal_example =
    note_ack-IsFinal "master" (some (report ("b" ∷ []))) half_drained final_state final_result refl

abbrev fresh : Config "stop-1"
fresh = record { state = half_drained; running = 0; completed = 0 }

fresh-IsFresh : IsFresh "stop-1" fresh
unfolding lookup
fresh-IsFresh = record {
  stop_record = stop_record;
  known = refl;
  idle = refl;
  unfinished = refl;
  none_running = refl;
  none_completed = refl;
}

-- The second acknowledgement of the master, which starts the finalization, and a repetition.
Reach-once_example : 1 + 0 ≤ 1
unfolding note_ack decide_drain should_finalize all_drained drained_subjects without lookup insert
    contains subset ack_of drain_result
Reach-once_example =
    Reach-once "stop-1" {c = fresh}
      {d = record {
        state =
            (note_ack "master" (some (report ("b" ∷ [])))
              (note_ack "master" (some (report ("b" ∷ []))) half_drained).0).0;
        running = 1;
        completed = 0;
      }}
      fresh-IsFresh
      (next (next here (acknowledged "master" (some (report ("b" ∷ [])))))
        (acknowledged "master" (some (report ("b" ∷ [])))))
