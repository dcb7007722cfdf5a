-- ===== src/Core/Gate/Outcome.antt =====
-- Where a start of nexus_n3/core/core.py ends when its sensors are stable: a coordinated one in
-- official streaming, and a local one whose outputs cannot be activated nowhere.
use nexus_n3_core.Prelude.{ℕ, true, none, some, map}
use nexus_n3_core.Core.Gate.Stats.{Policy}
use nexus_n3_core.Core.Gate.State.{Gate, ready_for_official, official_streaming}
use nexus_n3_core.Core.Gate.Official.{
  Outcomes, prepare_each, prepare_official_persistence, poll_startup_gate, preparation_ended,
  stream_if,
}

-- The thread of the gate from a poll to its end.
unfoldable pub evaluate_once : Policy → Outcomes → (now : ℕ) → Gate → Gate
unfolding poll_startup_gate prepare_official_persistence preparation_ended
evaluate_once p o now g =
    let polled = (poll_startup_gate p o now g.token g).0 in
    let prepared = (prepare_official_persistence o polled).0 in
    (preparation_ended none g.token prepared).0

-- The gate after a commit that was not disturbed and did not fail.
abbrev committed : Outcomes → (now : ℕ) → Gate → Gate
committed o now g = record g {
  stream_phase = official_streaming;
  commit_received = true;
  outputs_active = true;
  prepared_subject_ids = (prepare_each o.opens g.subject_ids g.subjects g.prepared_subject_ids).0;
  subjects = map (stream_if g.subject_ids) g.subjects;
  stream_origin = some now;
}

-- The gate that is ready, with all its outputs prepared.
abbrev readied : Outcomes → Gate → Gate
readied o g = record g {
  stream_phase = ready_for_official;
  prepared_subject_ids = (prepare_each o.opens g.subject_ids g.subjects g.prepared_subject_ids).0;
}
