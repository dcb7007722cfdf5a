-- ===== src/Core/Gate/Tests.antt =====
-- Runs of the startup gate on a subject with one sensor, and the theorems at that subject.
use Prim.Native.Nat.{◌≤◌, ◌<◌}
use nexus_n3_core.Prelude.{
  ℕ, ◌+◌, String, true, false, Option, none, some, List, [], ◌∷◌, ◌≡◌, refl, arith, length, lookup,
  insert, contains, add,
}
use nexus_n3_core.Core.Gate.Stats.{
  StartupGateSensorStats, Packet, default_policy, new_stats, reset_for_attempt, record_sample,
  is_sensor_startup_stable,
}
use nexus_n3_core.Core.Gate.Samples.{record_all, GapsCounted, attempt-GapsCounted}
use nexus_n3_core.Core.Gate.Stable.{even_packets, is_sensor_startup_stable-steady}
use nexus_n3_core.Core.Gate.State.{
  Gate, GateSubject, GateEntry, starting, ready_for_official, new_gate, gate_stable,
  reset_startup_gate_state, fresh_stats, expected_rate_for_address, entry_of,
}
use nexus_n3_core.Core.Gate.Official.{
  Outcomes, returned, activate_official_streaming, poll_startup_gate, startup_gate_timeout,
  preparation_ended, schedule_startup_retry, is_retrying, set_phase, prepare_each,
}
use nexus_n3_core.Core.Gate.Commands.{OfficialPayload, begin_stop, official_refusal, admit_commit}
use nexus_n3_core.Core.Gate.Callbacks.{on_stream_started, on_data, find_by_address}
use nexus_n3_core.Core.Gate.Prepared.{all_prepared}
use nexus_n3_core.Core.Gate.Steps.{
  World, Preparation, moved, disturb, placed, selected, prepared_too, write_session, mode,
  session_id, timestamp, new_world, starts, writes, clears_prepared, resets_gate, streaming_started,
  sample, polls, begins_preparation, prepares_one, preparation_returned, Reachable, new, next,
}
use nexus_n3_core.Core.Gate.Safety.{attempt-bounded, ready-prepared}
use nexus_n3_core.Core.Gate.Stale.{here, stale_thread-silent}

abbrev thigh : GateEntry
thigh = record { address = some "aa"; location = some "thigh"; sampling_rate = some 1 }

abbrev one : GateSubject
one = record { subject_id = "one"; sensors = thigh ∷ []; is_streaming = false }

abbrev fits : OfficialPayload
fits = record { start_session_id = some "s1"; session_timestamp = none }

abbrev works : Outcomes
works = record { opens = λ a. true; resets = true; routes = true }

abbrev fails : Outcomes
fails = record { opens = λ a. false; resets = true; routes = true }

abbrev packet : ℕ → Packet
packet t = record { timestamp = some t; sampling_rate = some 1 }

abbrev w0 : World
w0 = new_world (one ∷ [])

-- The steps of a coordinated start.
abbrev w1 : World
w1 = moved w0 (set_phase starting w0.gate)

abbrev w2 : World
w2 = moved w1 (write_session (timestamp "t1") w1.gate)

abbrev w3 : World
w3 = moved w2 (write_session (mode "coordinated") w2.gate)

abbrev w4 : World
w4 = moved w3 (write_session (session_id (some "s1")) w3.gate)

abbrev w5 : World
w5 = disturb w4 record (w4.gate) { prepared_subject_ids = [] }

abbrev begun : World
begun = record w5 {
  gate = reset_startup_gate_state 0 ("one" ∷ []) ("aa" ∷ []) w5.gate;
  disturbed = false;
}

abbrev warm : World
warm = moved begun (on_stream_started begun.gate).0

abbrev seen_one : World
seen_one = moved warm (on_data 1000000 "aa" (packet 1000000) warm.gate).0

abbrev seen_two : World
seen_two = moved seen_one (on_data 2000000 "aa" (packet 2000000) seen_one.gate).0

abbrev measured : World
measured = moved seen_two (on_data 3000000 "aa" (packet 3000000) seen_two.gate).0

abbrev polled : World
polled = moved measured (poll_startup_gate default_policy works 3000001 1 measured.gate).0

-- The preparation by a thread.
abbrev preparing : World
preparing =
    placed 0 record { token = 1; left = selected polled.gate.subject_ids polled.gate.subjects }
      polled

abbrev going : Preparation
going = record { token = 1; left = "one" ∷ [] }

abbrev gone : Preparation
gone = record going { left = [] }

abbrev opened : World
opened = placed 0 gone (moved preparing (prepared_too "one" preparing.gate))

abbrev at_ready : World
at_ready = moved opened (preparation_ended none 1 opened.gate).0

abbrev known : StartupGateSensorStats
known = new_stats "aa" none (some 1)

abbrev two_packets : List (Packet × ℕ)
two_packets = (packet 1000000, 5) ∷ (packet 9000000, 6) ∷ []

abbrev stopped : World
stopped = moved measured (begin_stop ("one" ∷ []) measured.gate)

-- The same gate in a local start.
abbrev alone : Gate
alone = record (measured.gate) { official_start_mode = "local" }

threads_at :
    (1 ≤ polled.gate.token)
    × (1 < stopped.gate.token)
    × (preparing.preparations 0 ≡ some going)
    × (opened.preparations 0 ≡ some gone)
unfolding on_stream_started on_data poll_startup_gate preparation_ended new_gate
    reset_startup_gate_state lookup fresh_stats insert gate_stable is_sensor_startup_stable
    record_sample reset_for_attempt new_stats expected_rate_for_address entry_of contains
    prepare_each add begin_stop activate_official_streaming write_session selected find_by_address
threads_at = (omega arith, omega arith, refl, refl)

ready_at :
    (at_ready.disturbed ≡ false)
    × (at_ready.gate.stream_phase ≡ ready_for_official)
    × (official_refusal fits at_ready.gate ≡ none)
unfolding on_stream_started on_data poll_startup_gate preparation_ended new_gate
    reset_startup_gate_state lookup fresh_stats insert gate_stable is_sensor_startup_stable
    record_sample reset_for_attempt new_stats expected_rate_for_address entry_of contains
    prepare_each add begin_stop activate_official_streaming write_session selected find_by_address
ready_at = (refl, refl, refl)

known_at : known.expected_rate_hz ≡ some 1
unfolding new_stats
known_at = refl

reachable : Reachable default_policy (one ∷ []) at_ready
reachable =
    next
      (next
        (next (next to_measured (polls works 3000001 1)) (begins_preparation 0 1 (threads_at.0)))
        (prepares_one 0 going "one" [] (threads_at.2) refl))
      (preparation_returned 0 gone (threads_at.3) refl)
  where
    to_begun : Reachable default_policy (one ∷ []) begun
    to_begun =
        next
          (next
            (next
              (next (next (next new starts) (writes (timestamp "t1")))
                (writes (mode "coordinated")))
              (writes (session_id (some "s1"))))
            clears_prepared)
          (resets_gate 0 ("one" ∷ []) ("aa" ∷ []))

    to_measured : Reachable default_policy (one ∷ []) measured
    to_measured =
        next
          (next (next (next to_begun streaming_started) (sample 1000000 "aa" (packet 1000000)))
            (sample 2000000 "aa" (packet 2000000)))
          (sample 3000000 "aa" (packet 3000000))

attempt-GapsCounted_example :
    ((record_all two_packets (reset_for_attempt 0 known)).startup_packets_received
      ≡ length two_packets)
    × GapsCounted (record_all two_packets (reset_for_attempt 0 known))
attempt-GapsCounted_example = attempt-GapsCounted two_packets 0 known

is_sensor_startup_stable-steady_example :
    is_sensor_startup_stable default_policy
      (record_all (even_packets 1 3 1000000 7 9) (reset_for_attempt 0 known))
    ≡ true
is_sensor_startup_stable-steady_example =
    is_sensor_startup_stable-steady known 1 1 1000000 2 0 7 9 known_at refl (omega arith)

attempt-bounded_example :
    (at_ready.gate.attempt ≤ default_policy.max_attempts)
    × (is_retrying at_ready.gate.stream_phase ≡ true
        → at_ready.gate.attempt < default_policy.max_attempts)
attempt-bounded_example = attempt-bounded default_policy (one ∷ []) at_ready (omega arith) reachable

ready-prepared_example : all_prepared at_ready.gate ≡ true
ready-prepared_example =
    ready-prepared default_policy (one ∷ []) at_ready (omega arith) reachable (ready_at.0)
      (ready_at.1)

stale_thread-silent_example :
    ((o : Outcomes) (now : ℕ)
      → poll_startup_gate default_policy o now 1 stopped.gate ≡ (stopped.gate, returned, []))
    × (startup_gate_timeout default_policy 1 stopped.gate ≡ (stopped.gate, []))
    × ((why : Option String) → preparation_ended why 1 stopped.gate ≡ (stopped.gate, []))
    × ((now : ℕ) → schedule_startup_retry now 1 stopped.gate ≡ (stopped.gate, []))
stale_thread-silent_example =
    stale_thread-silent default_policy stopped stopped 1 (threads_at.1) here

-- The commit is admitted.
abbrev admitted : World
admitted = record at_ready { gate = admit_commit at_ready.gate; commits = at_ready.commits + 1 }
