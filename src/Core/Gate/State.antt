-- ===== src/Core/Gate/State.antt =====
-- The state that the startup gate of nexus_n3/core/core.py keeps, and how it is set up and cleared.
-- Of a subject only its sensors' addresses, locations and rates and its streaming flag are kept, and
-- the actions of an operation (events, calls of the sensors, threads) are returned as a list.
use nexus_n3_core.Prelude.{
  ℕ, ◌+◌, String, Bool, true, false, ◌&&◌, ◌||◌, Option, none, some, List, [], ◌∷◌, if◌then◌else◌,
  str_eq, contains, lookup, insert, ◌==◌,
}
use nexus_n3_core.Core.Gate.Stats.{
  StartupGateSensorStats, Policy, new_stats, reset_for_attempt, is_sensor_startup_stable,
}

pub data Phase : Type 0 where
  idle : Phase
  starting : Phase
  warming_up : Phase
  preparing_official : Phase
  ready_for_official : Phase
  activating_official : Phase
  official_streaming : Phase
  retrying_startup : Phase
  startup_failed : Phase
  stopping : Phase

pub record GateEntry : Type 0 where
  pub address : Option String
  pub location : Option String
  pub sampling_rate : Option ℕ

pub record GateSubject : Type 0 where
  pub subject_id : String
  pub sensors : List GateEntry
  pub is_streaming : Bool

pub record Gate : Type 0 where
  pub subjects : List GateSubject
  pub stream_phase : Phase
  pub token : ℕ
  pub attempt : ℕ
  pub subject_ids : List String
  pub addresses : List String
  pub stats_by_address : List (String × StartupGateSensorStats)
  pub retry_pending : Bool
  pub manual_stop : Bool
  pub last_failure_reason : Option String
  pub pending_stream_tags : List (String × Option String)
  pub session_timestamp : Option String
  pub official_start_mode : String
  pub start_session_id : Option String
  pub commit_received : Bool
  pub outputs_active : Bool
  pub prepared_subject_ids : List String
  pub stream_origin : Option ℕ
  pub stopping_subject_ids : List String
  pub recovery_in_progress : Bool

pub data Action : Type 0 where
  -- an event with the phase and the reason of its payload
  emit : (event : String) (phase : Phase) (reason : Option String) → Action
  start_all : Action
  start_specific : List String → Action
  stop_all : Action
  stop_specific : List String → Action
  -- a new thread for `_evaluate_startup_gate` or for `_schedule_startup_retry`
  evaluate : ℕ → Action
  schedule_retry : ℕ → Action
  cleanup_failed_session : Action

abbrev pub coordinated : Gate → Bool
coordinated g = str_eq g.official_start_mode "coordinated"

-- The fields of `Core.__init__`.
unfoldable pub new_gate : List GateSubject → Gate
new_gate subjects = record {
  subjects = subjects;
  stream_phase = idle;
  token = 0;
  attempt = 0;
  subject_ids = [];
  addresses = [];
  stats_by_address = [];
  retry_pending = false;
  manual_stop = false;
  last_failure_reason = none;
  pending_stream_tags = [];
  session_timestamp = none;
  official_start_mode = "local";
  start_session_id = none;
  commit_received = false;
  outputs_active = false;
  prepared_subject_ids = [];
  stream_origin = none;
  stopping_subject_ids = [];
  recovery_in_progress = false;
}

abbrev pub has_key : Option String → String → Bool
has_key none a = false
has_key (some b) a = str_eq b a

-- The first entry with the address among those of a subject, and of all subjects.
unfoldable pub entry_among : String → List GateEntry → Option GateEntry
entry_among a [] = none
entry_among a (e ∷ es) = if has_key e.address a then some e else entry_among a es

unfoldable pub entry_of : String → List GateSubject → Option GateEntry
unfolding entry_among
entry_of a [] = none
entry_of a (s ∷ ss) = elim (entry_among a s.sensors) [ none ↦ entry_of a ss | some e ↦ some e ]

unfoldable pub location_for_address : Gate → String → Option String
location_for_address g a = elim (entry_of a g.subjects) [ none ↦ none | some e ↦ e.location ]

unfoldable pub expected_rate_for_address : Gate → String → Option ℕ
expected_rate_for_address g a = elim (entry_of a g.subjects) [
  | none ↦ none
  | some e ↦ elim e.sampling_rate [ none ↦ none | some r ↦ if r == 0 then none else some r ]
]

-- The statistics of a new start; a later entry for an address replaces an earlier one.
unfoldable pub fresh_stats :
    Gate
    → ℕ
    → List String
    → List (String × StartupGateSensorStats)
    → List (String × StartupGateSensorStats)
fresh_stats g now [] stats = stats
fresh_stats g now (a ∷ as') stats =
    let rest =
      insert a
        (reset_for_attempt now
          (new_stats a (location_for_address g a) (expected_rate_for_address g a)))
        stats in
    fresh_stats g now as' rest

unfoldable pub reset_startup_gate_state : ℕ → (subject_ids addresses : List String) → Gate → Gate
reset_startup_gate_state now subject_ids addresses g = record g {
  token = g.token + 1;
  attempt = 1;
  stream_phase = starting;
  subject_ids = subject_ids;
  addresses = addresses;
  retry_pending = false;
  manual_stop = false;
  last_failure_reason = none;
  stats_by_address = fresh_stats g now addresses [];
}

unfoldable pub clear_startup_gate_state : Gate → Gate
clear_startup_gate_state g = record g {
  token = g.token + 1;
  stream_phase = idle;
  subject_ids = [];
  addresses = [];
  retry_pending = false;
  manual_stop = false;
  last_failure_reason = none;
  stats_by_address = [];
  attempt = 0;
  pending_stream_tags = [];
  official_start_mode = "local";
  start_session_id = none;
  commit_received = false;
  outputs_active = false;
  prepared_subject_ids = [];
  stream_origin = none;
}

-- `all(...)` over the addresses that have statistics.
unfoldable pub all_stable : Policy → Gate → List String → Bool
all_stable p g [] = true
all_stable p g (a ∷ as') =
    (elim (lookup a g.stats_by_address) [ none ↦ true | some s ↦ is_sensor_startup_stable p s ])
    && all_stable p g as'

unfoldable pub gate_stable : Policy → Gate → Bool
unfolding all_stable
gate_stable p g = elim g.addresses [ [] ↦ false | a ∷ as' ↦ all_stable p g g.addresses ]

abbrev pub has_active_streams : List GateSubject → Bool
has_active_streams [] = false
has_active_streams (s ∷ ss) = s.is_streaming || has_active_streams ss

abbrev pub unstream_if : List String → GateSubject → GateSubject
unstream_if ids s = if contains ids s.subject_id then record s { is_streaming = false } else s
