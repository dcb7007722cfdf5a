-- ===== src/Core/Gate/Official.antt =====
-- From warm-up to official acquisition in nexus_n3/core/core.py: the parts of `_evaluate_startup_gate`
-- that run under the lock, the retry, the preparation of the outputs and the official start.
use nexus_n3_core.Prelude.{
  ℕ, ◌+◌, String, Bool, true, false, not, ◌&&◌, ◌||◌, Option, none, some, List, [], ◌∷◌, map,
  if◌then◌else◌, contains, add, ltb, ◌==◌,
}
use nexus_n3_core.Core.Gate.Stats.{StartupGateSensorStats, Policy, reset_for_attempt}
use nexus_n3_core.Core.Gate.State.{
  Gate, GateSubject, Action, emit, start_specific, stop_specific, Phase, starting, warming_up,
  preparing_official, ready_for_official, activating_official, official_streaming, retrying_startup,
  startup_failed, coordinated, gate_stable,
}

-- Whether `file_manager.start_stream` returns for a subject, `compute_orch.reset_session`, and
-- `sensor_orch.manager.enable_routing`.
pub record Outcomes : Type 0 where
  pub opens : String → Bool
  pub resets : Bool
  pub routes : Bool

-- The loop of `_prepare_official_persistence`: the prepared subjects, and whether it returned.
unfoldable pub prepare_each :
    (String → Bool) → List String → List GateSubject → List String → List String × Bool
prepare_each opens ids [] prepared = (prepared, true)
prepare_each opens ids (s ∷ ss) prepared =
    let skipped = prepare_each opens ids ss prepared in
    let opened = prepare_each opens ids ss (add s.subject_id prepared) in
    if not (contains ids s.subject_id) || contains prepared s.subject_id
    then skipped
    else if opens s.subject_id
    then opened
    else (prepared, false)

unfoldable pub prepare_official_persistence : Outcomes → Gate → Gate × Bool
prepare_official_persistence o g =
    let r = prepare_each o.opens g.subject_ids g.subjects g.prepared_subject_ids in
    (record g { prepared_subject_ids = r.0 }, r.1)

abbrev pub stream_if : List String → GateSubject → GateSubject
stream_if ids s = if contains ids s.subject_id then record s { is_streaming = true } else s

-- `_activate_official_streaming`, with whether it returned.
unfoldable pub activate_official_streaming : Outcomes → ℕ → Gate → Gate × Bool
unfolding prepare_official_persistence
activate_official_streaming o now g =
    let r = prepare_official_persistence o g in
    if coordinated g && not g.commit_received
    then (g, false)
    else if not o.resets
    then (g, false)
    else if r.1
    then (
      record (r.0) {
        subjects = map (stream_if g.subject_ids) g.subjects;
        stream_origin = some now;
      },
      o.routes,
    )
    else (r.0, false)

-- What a thread of `_evaluate_startup_gate` does next.
pub data Evaluation : Type 0 where
  returned : Evaluation
  -- the next poll, or the timeout
  waits : Evaluation
  -- the preparation of the outputs, without the lock
  prepares : Evaluation
  -- the thread ended with an exception
  raised : Evaluation

abbrev pub is_warming : Phase → Bool
is_warming warming_up = true
is_warming _ = false

abbrev pub is_preparing : Phase → Bool
is_preparing preparing_official = true
is_preparing _ = false

abbrev pub is_retrying : Phase → Bool
is_retrying retrying_startup = true
is_retrying _ = false

abbrev pub set_phase : Phase → Gate → Gate
set_phase p g = record g { stream_phase = p }

abbrev pub officially : Gate → Gate
officially g = record g { stream_phase = official_streaming; outputs_active = true }

-- The part of a poll that finds all sensors stable.
unfoldable pub pass_gate : Outcomes → ℕ → Gate → Gate × Evaluation × List Action
unfolding activate_official_streaming
pass_gate o now g =
    let r = activate_official_streaming o now (set_phase activating_official g) in
    if coordinated g
    then (set_phase preparing_official g, prepares, [])
    else if r.1
    then (officially (r.0), returned, emit "stream_official_started" official_streaming none ∷ [])
    else (r.0, raised, [])

-- One poll of a thread with its token.
unfoldable pub poll_startup_gate :
    Policy → Outcomes → (now token : ℕ) → Gate → Gate × Evaluation × List Action
unfolding pass_gate
poll_startup_gate p o now token g =
    if not (token == g.token) || not (is_warming g.stream_phase)
    then (g, returned, [])
    else if gate_stable p g
    then pass_gate o now g
    else (g, waits, [])

abbrev pub timeout_reason : String
timeout_reason = "startup gate timeout elapsed before all sensors became stable"

abbrev pub fail_startup : String → Gate → Gate
fail_startup reason g = record g {
  stream_phase = startup_failed;
  retry_pending = false;
  last_failure_reason = some reason;
}

-- The end of the stability window.
unfoldable pub startup_gate_timeout : Policy → ℕ → Gate → Gate × List Action
startup_gate_timeout p token g =
    if not (token == g.token) || not (is_warming g.stream_phase)
    then (g, [])
    else if ltb g.attempt p.max_attempts
    then (
      record g { stream_phase = retrying_startup; retry_pending = true },
      emit "stream_startup_retry" retrying_startup (some timeout_reason)
          ∷ stop_specific g.addresses
          ∷ [],
    )
    else (
      fail_startup timeout_reason g,
      emit "stream_startup_failed" startup_failed (some timeout_reason)
          ∷ stop_specific g.addresses
          ∷ [],
    )

-- After the preparation, which returned or failed for a reason.
unfoldable pub preparation_ended : Option String → ℕ → Gate → Gate × List Action
preparation_ended failure token g =
    if not (token == g.token) || not (is_preparing g.stream_phase) then (g, []) else (elim failure [
      | none ↦ (
        set_phase ready_for_official g,
        emit "stream_ready_for_official" ready_for_official none ∷ [],
      )
      | some reason ↦ (
        fail_startup reason g,
        emit "stream_startup_failed" startup_failed (some reason) ∷ stop_specific g.addresses ∷ [],
      )
    ])

abbrev pub reset_stats :
    ℕ → List (String × StartupGateSensorStats) → List (String × StartupGateSensorStats)
reset_stats now stats = map (λ e. (e.0, reset_for_attempt now e.1)) stats

-- `_schedule_startup_retry`, after its delay.
unfoldable pub schedule_startup_retry : (now token : ℕ) → Gate → Gate × List Action
schedule_startup_retry now token g =
    if not (token == g.token)
    then (g, [])
    else if g.manual_stop || not (is_retrying g.stream_phase)
    then (g, [])
    else (
      record g {
        attempt = g.attempt + 1;
        retry_pending = false;
        stream_phase = starting;
        stats_by_address = reset_stats now g.stats_by_address;
      },
      start_specific g.addresses ∷ [],
    )
