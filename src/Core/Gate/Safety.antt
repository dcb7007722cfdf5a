-- ===== src/Core/Gate/Safety.antt =====
-- What holds of the startup gate after any steps: its attempts, and its prepared outputs.
use Prim.Native.Nat.{◌<◌, ◌-◌, ◌+◌}
use nexus_n3_core.Prelude.{zero, ◌≤◌, true, false, List, [], ◌≡◌, refl, arith}
use nexus_n3_core.Core.Gate.Stats.{Policy}
use nexus_n3_core.Core.Gate.State.{GateSubject, ready_for_official}
use nexus_n3_core.Core.Gate.Official.{is_retrying}
use nexus_n3_core.Core.Gate.Prepared.{all_prepared}
use nexus_n3_core.Core.Gate.Steps.{
  World, Step, starts, writes, clears_prepared, unstreams, resets_gate, begins_stop, finishes_stop,
  clears, configures, streaming_started, streaming_stopped, sample, polls, times_out, retries,
  begins_preparation, prepares_one, preparation_returned, preparation_failed, admits_commit,
  commit_prepares, commit_streams, commit_fails, commit_ends, Reachable, new, next,
}
use nexus_n3_core.Core.Gate.Kept.{
  prepared_but, starting-IsKept, write_session-IsKept, unstream_if-IsKept, stream_if-IsKept,
  prepared_too-IsKept, clear_startup_gate_state-IsKept, begin_stop-IsKept, finish_stop-IsKept,
  on_stream_started-IsKept, on_stream_stopped-IsKept, on_data-IsKept, startup_gate_timeout-IsKept,
  schedule_startup_retry-IsKept, preparation_failed-IsKept, admit_commit-IsKept, fail_commit-IsKept,
  officially-IsKept,
}
use nexus_n3_core.Core.Gate.Activated.{poll_startup_gate-IsKept}
use nexus_n3_core.Core.Gate.Sound.{
  IsSound, moved-IsSound, disturb-IsSound, reset-IsSound, begins_preparation-IsSound,
  prepares_one-IsSound, preparation_returned-IsSound, new_world-IsSound,
}

Step-IsSound :
    (p : Policy) {w w' : World} → zero < p.max_attempts → Step p w w' → IsSound p w → IsSound p w'
Step-IsSound p {w} m starts v = moved-IsSound p w _ w.commits v (starting-IsKept p w.gate)
Step-IsSound p {w} m (writes x) v =
    moved-IsSound p w _ w.commits v (write_session-IsKept p x w.gate)
Step-IsSound p {w} m clears_prepared v =
    disturb-IsSound p w record (w.gate) { prepared_subject_ids = [] } v
      record { attempts = v.bounded.attempts; retry_left = v.bounded.retry_left } (omega arith)
Step-IsSound p {w} m (unstreams ids) v =
    moved-IsSound p w _ w.commits v (unstream_if-IsKept p ids w.gate)
Step-IsSound p {w} m (resets_gate now ids addresses) v = reset-IsSound p now ids addresses w m v
Step-IsSound p {w} m (begins_stop ids) v =
    moved-IsSound p w _ w.commits v (begin_stop-IsKept p ids w.gate)
Step-IsSound p {w} m (finishes_stop ids) v =
    moved-IsSound p w _ w.commits v (finish_stop-IsKept p ids w.gate)
Step-IsSound p {w} m clears v =
    moved-IsSound p w _ w.commits v (clear_startup_gate_state-IsKept p w.gate)
Step-IsSound p {w} m (configures subjects) v =
    disturb-IsSound p w record (w.gate) { subjects = subjects } v
      record { attempts = v.bounded.attempts; retry_left = v.bounded.retry_left } (omega arith)
Step-IsSound p {w} m streaming_started v =
    moved-IsSound p w _ w.commits v (on_stream_started-IsKept p w.gate)
Step-IsSound p {w} m streaming_stopped v =
    moved-IsSound p w _ w.commits v (on_stream_stopped-IsKept p w.gate)
Step-IsSound p {w} m (sample now address x) v =
    moved-IsSound p w _ w.commits v (on_data-IsKept p now address x w.gate)
Step-IsSound p {w} m (polls o now token) v =
    moved-IsSound p w _ w.commits v (poll_startup_gate-IsKept p o now token w.gate)
Step-IsSound p {w} m (times_out token) v =
    moved-IsSound p w _ w.commits v (startup_gate_timeout-IsKept p token w.gate)
Step-IsSound p {w} m (retries now token) v =
    moved-IsSound p w _ w.commits v (schedule_startup_retry-IsKept p now token w.gate)
Step-IsSound p {w} m (begins_preparation i token old) v =
    begins_preparation-IsSound p i token w old v
Step-IsSound p {w} m (prepares_one i x id rest e q) v = prepares_one-IsSound p i x id rest w e q v
Step-IsSound p {w} m (preparation_returned i x e q) v = preparation_returned-IsSound p i x w e q v
Step-IsSound p {w} m (preparation_failed token why) v =
    moved-IsSound p w _ w.commits v (preparation_failed-IsKept p token why w.gate)
Step-IsSound p {w} m (admits_commit x fits r) v =
    moved-IsSound p w _ (w.commits + 1) v (admit_commit-IsKept p w.gate)
Step-IsSound p {w} m (commit_prepares id some_commit) v =
    moved-IsSound p w _ w.commits v (prepared_too-IsKept p id w.gate)
Step-IsSound p {w} m (commit_streams ids now some_commit) v =
    moved-IsSound p w _ w.commits v (stream_if-IsKept p ids now w.gate)
Step-IsSound p {w} m (commit_fails some_commit) v =
    moved-IsSound p w _ (w.commits - 1) v (fail_commit-IsKept p w.gate)
Step-IsSound p {w} m (commit_ends some_commit) v =
    moved-IsSound p w _ (w.commits - 1) v (officially-IsKept p w.gate)

Reachable-IsSound :
    (p : Policy) (subjects : List GateSubject) {w : World}
    → zero < p.max_attempts
    → Reachable p subjects w
    → IsSound p w
Reachable-IsSound p subjects m new = new_world-IsSound p subjects
Reachable-IsSound p subjects m (next r s) = Step-IsSound p m s (Reachable-IsSound p subjects m r)

-- However the commands, the callbacks and the threads of the gate are interleaved, no more attempts
-- are made than the policy allows, and a retry is only announced while one is left.
pub attempt-bounded :
    (p : Policy) (subjects : List GateSubject) (w : World)
    → zero < p.max_attempts
    → Reachable p subjects w
    → (w.gate.attempt ≤ p.max_attempts)
      × (is_retrying w.gate.stream_phase ≡ true → w.gate.attempt < p.max_attempts)
attempt-bounded p subjects w m r =
    let v = Reachable-IsSound p subjects m r in (v.bounded.attempts, v.bounded.retry_left)

-- However the commands, the callbacks and the threads of the gate are interleaved, also in the middle
-- of a preparation: when the gate is ready for the official start, and neither the set of prepared
-- subjects nor the subjects were replaced since the gate was reset for its start, the outputs of every
-- subject of the start are prepared.
pub ready-prepared :
    (p : Policy) (subjects : List GateSubject) (w : World)
    → zero < p.max_attempts
    → Reachable p subjects w
    → w.disturbed ≡ false
    → w.gate.stream_phase ≡ ready_for_official
    → all_prepared w.gate ≡ true
unfolding prepared_but
ready-prepared p subjects w m r calm e =
    let v = Reachable-IsSound p subjects m r in v.ready calm (rw e refl)
