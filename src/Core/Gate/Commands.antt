-- ===== src/Core/Gate/Commands.antt =====
-- The commands and the callbacks of nexus_n3/core/core.py that move the startup gate: starting,
-- committing and stopping acquisition, and what the sensors report. Files, events of other kinds and
-- the fields that only choose the subjects of an event are left out.
use nexus_n3_core.Prelude.{
  ℕ, ◌+◌, String, Bool, true, false, not, ◌&&◌, ◌||◌, Option, none, some, List, [], ◌∷◌, ◌++◌, map,
  if◌then◌else◌, str_eq, contains, add, discard, lookup, truthy,
}
use nexus_n3_core.Core.Gate.State.{
  Gate, GateSubject, GateEntry, Action, emit, start_all, start_specific, Phase, idle, starting,
  ready_for_official, activating_official, official_streaming, startup_failed, stopping,
  coordinated, has_active_streams, reset_startup_gate_state, clear_startup_gate_state, unstream_if,
}
use nexus_n3_core.Core.Gate.Official.{Outcomes, activate_official_streaming, officially}

pub record StartPayload : Type 0 where
  pub session_timestamp : Option String
  pub official_start_mode : Option String
  pub start_session_id : Option String
  pub tag : Option String
  pub tags : List (String × Option String)

pub data Answer : Type 0 where
  accepted : List Action → Answer
  -- raised to the caller
  refused : String → Answer

abbrev pub or_else : Option String → String → String
or_else o d = elim o [ none ↦ d | some a ↦ a ]

-- The fields that a start sets before it looks at its subjects; `clock` is the time as text.
unfoldable pub begin_session : (clock : String) → StartPayload → Gate → Gate
begin_session clock p g = record g {
  stream_phase = starting;
  session_timestamp = some (or_else p.session_timestamp clock);
  official_start_mode = or_else p.official_start_mode "local";
  start_session_id = p.start_session_id;
  commit_received = false;
  outputs_active = false;
  prepared_subject_ids = [];
  stream_origin = none;
}

abbrev pub ids_of : List GateSubject → List String
ids_of ss = map (λ s. s.subject_id) ss

abbrev pub addresses_in : List GateEntry → List String
addresses_in [] = []
addresses_in (e ∷ es) = elim (truthy e.address) [
  | none ↦ addresses_in es
  | some a ↦ a ∷ addresses_in es
]

abbrev pub stream_addresses : List GateSubject → List String
stream_addresses [] = []
stream_addresses (s ∷ ss) = addresses_in s.sensors ++ stream_addresses ss

abbrev pub tag_of : StartPayload → String → Option String
tag_of p id = elim (lookup id p.tags) [ none ↦ p.tag | some t ↦ t ]

abbrev pub pending_tags : StartPayload → List GateSubject → List (String × Option String)
pending_tags p ss = map (λ s. (s.subject_id, tag_of p s.subject_id)) ss

-- The rest of a start, for the subjects that it is about.
unfoldable pub begin_startup : (now : ℕ) → StartPayload → List GateSubject → Gate → Gate
begin_startup now p chosen g =
    reset_startup_gate_state now (ids_of chosen) (stream_addresses chosen) (record g {
      subjects = map (unstream_if (ids_of chosen)) g.subjects;
      pending_stream_tags = pending_tags p chosen;
    })

unfoldable pub start_stream : (now : ℕ) (clock : String) → StartPayload → Gate → Gate × Answer
unfolding begin_session begin_startup
start_stream now clock p g =
    if g.recovery_in_progress
    then (g, refused "Core recovery is still in progress; wait for Reset completion")
    else (elim g.subjects [
      | [] ↦ (g, refused "Configure a session before starting acquisition")
      | s ∷ ss ↦
          (begin_startup now p g.subjects (begin_session clock p g), accepted (start_all ∷ []))
    ])

unfoldable pub find_subject : String → List GateSubject → Option GateSubject
find_subject id [] = none
find_subject id (s ∷ ss) = if str_eq s.subject_id id then some s else find_subject id ss

-- `_get_subjects_by_ids`; `none` where it raises.
unfoldable pub subjects_by_ids : List String → List GateSubject → Option (List GateSubject)
unfolding find_subject
subjects_by_ids [] ss = some []
subjects_by_ids (id ∷ ids) ss = elim (find_subject id ss) [
  | none ↦ none
  | some s ↦ elim (subjects_by_ids ids ss) [ none ↦ none | some rest ↦ some (s ∷ rest) ]
]

abbrev pub start_those : List String → List Action
start_those [] = []
start_those (a ∷ as') = start_specific (a ∷ as') ∷ []

-- A subject that is not found is refused after the fields of the session are set.
unfoldable pub start_stream_for_subjects :
    (now : ℕ) (clock : String) → StartPayload → List String → Gate → Gate × Answer
unfolding begin_session begin_startup subjects_by_ids
start_stream_for_subjects now clock p ids g =
    if g.recovery_in_progress
    then (g, refused "Core recovery is still in progress; wait for Reset completion")
    else (elim g.subjects [
      | [] ↦ (g, refused "Configure a session before starting acquisition")
      | s ∷ ss ↦ elim (subjects_by_ids ids g.subjects) [
        | none ↦ (begin_session clock p g, refused "Subject(s) not found")
        | some chosen ↦ (
          begin_startup now p chosen (begin_session clock p g),
          accepted (start_those (stream_addresses chosen)),
        )
      ]
    ])

abbrev pub streams_outside : List String → List GateSubject → Bool
streams_outside ids [] = false
streams_outside ids (s ∷ ss) =
    (s.is_streaming && not (contains ids s.subject_id)) || streams_outside ids ss

abbrev pub stopped_phase : Phase → Phase
stopped_phase idle = idle
stopped_phase startup_failed = startup_failed
stopped_phase _ = stopping

abbrev pub add_all : List String → List String → List String
add_all [] xs = xs
add_all (a ∷ as') xs = add a (add_all as' xs)

abbrev pub discard_all : List String → List String → List String
discard_all [] xs = xs
discard_all (a ∷ as') xs = discard a (discard_all as' xs)

-- The start of `_stop_stream_impl`, before the sensors stop.
unfoldable pub begin_stop : List String → Gate → Gate
begin_stop ids g =
    let marked = record g { stopping_subject_ids = add_all ids g.stopping_subject_ids } in
    if streams_outside ids g.subjects then marked else record marked {
      manual_stop = true;
      retry_pending = false;
      stream_phase = stopped_phase g.stream_phase;
      token = g.token + 1;
    }

-- The `finally` of `_stop_stream_impl`, which a stop that fails on the way gets to as well.
unfoldable pub finish_stop : List String → Gate → Gate
unfolding clear_startup_gate_state
finish_stop ids g =
    let rest = record g { stopping_subject_ids = discard_all ids g.stopping_subject_ids } in
    if has_active_streams rest.subjects then rest else clear_startup_gate_state rest

-- The end of a stop that took its subjects out of streaming.
unfoldable pub end_stop : List String → Gate → Gate
unfolding finish_stop
end_stop ids g = finish_stop ids (record g { subjects = map (unstream_if ids) g.subjects })

pub record OfficialPayload : Type 0 where
  pub start_session_id : Option String
  pub session_timestamp : Option String

abbrev pub same_text : Option String → Option String → Bool
same_text none none = true
same_text (some a) (some b) = str_eq a b
same_text none (some b) = false
same_text (some a) none = false

-- The three checks on a command for the official start.
abbrev pub official_refusal : OfficialPayload → Gate → Option String
official_refusal p g =
    if not (coordinated g)
    then some "Official-start commands are only valid for coordinated streams"
    else elim (truthy p.start_session_id) [
      | none ↦ some "Official-start command does not match the active start session"
      | some id ↦
          if not (same_text (some id) g.start_session_id)
          then some "Official-start command does not match the active start session"
          else elim (truthy p.session_timestamp) [
            | none ↦ none
            | some t ↦
                if str_eq t (or_else g.session_timestamp "None")
                then none
                else some "Official-start command has a stale session timestamp"
          ]
    ]

-- The first and the last part of a commit under the lock, and its failure.
abbrev pub admit_commit : Gate → Gate
admit_commit g = record g { commit_received = true; stream_phase = activating_official }

abbrev pub fail_commit : Gate → Gate
fail_commit g = record g {
  commit_received = false;
  outputs_active = false;
  stream_origin = none;
  stream_phase = startup_failed;
  last_failure_reason = some "official persistence activation failed";
}

-- The activation that a ready gate was told to do, when nothing comes between its parts.
unfoldable pub commit : Outcomes → (now : ℕ) → Gate → Gate × Answer
unfolding activate_official_streaming
commit o now g =
    let r = activate_official_streaming o now (admit_commit g) in
    if r.1
    then (officially (r.0), accepted (emit "stream_official_started" official_streaming none ∷ []))
    else (fail_commit (r.0), refused "official persistence activation failed")

unfoldable pub start_official_stream : Outcomes → (now : ℕ) → OfficialPayload → Gate → Gate × Answer
unfolding commit
start_official_stream o now p g = elim (official_refusal p g) [
  | some why ↦ (g, refused why)
  | none ↦ elim g.stream_phase [
    | official_streaming ↦
        (g, accepted (emit "stream_official_started" official_streaming none ∷ []))
    | activating_official ↦ (g, accepted [])
    | ready_for_official ↦ commit o now g
    | _ ↦ (g, refused "Local stream is not ready for official acquisition")
  ]
]
