-- ===== src/Core/Gate/Callbacks.antt =====
-- The callbacks of nexus_n3/core/core.py that the sensors drive: streaming started, streaming stopped
-- and a sample received. Only what concerns the gate is kept: the events about the sensors are left
-- out, and of a sample that reaches its subject only that it does.
use nexus_n3_core.Prelude.{
  String, ℕ, Bool, true, false, not, ◌&&◌, ◌||◌, Option, none, some, List, [], ◌∷◌, map,
  if◌then◌else◌, contains, lookup, insert,
}
use nexus_n3_core.Core.Gate.Stats.{Packet, record_sample}
use nexus_n3_core.Core.Gate.State.{
  Gate, GateSubject, Action, emit, evaluate, schedule_retry, cleanup_failed_session, Phase, idle,
  starting, warming_up, official_streaming, retrying_startup, startup_failed, coordinated,
  entry_among, unstream_if,
}
use nexus_n3_core.Core.Gate.Official.{set_phase, is_retrying}

unfoldable pub on_stream_started : Gate → Gate × List Action
on_stream_started g = elim g.addresses [
  | [] ↦ (g, [])
  | a ∷ as' ↦
      (set_phase warming_up g, emit "stream_warmup_started" warming_up none ∷ evaluate g.token ∷ [])
]

-- With what `_cleanup_failed_startup_session` does to the subjects.
unfoldable pub on_stream_stopped : Gate → Gate × List Action
on_stream_stopped g =
    if is_retrying g.stream_phase && (g.retry_pending && not g.manual_stop)
    then (g, schedule_retry g.token ∷ [])
    else (elim g.stream_phase [
      | startup_failed ↦ (
        record g { subjects = map (unstream_if g.subject_ids) g.subjects },
        cleanup_failed_session ∷ [],
      )
      | official_streaming ↦ (g, [])
      | _ ↦ (set_phase idle g, [])
    ])

abbrev pub takes_evidence : Phase → Bool
takes_evidence starting = true
takes_evidence warming_up = true
takes_evidence retrying_startup = true
takes_evidence _ = false

abbrev pub is_official : Phase → Bool
is_official official_streaming = true
is_official _ = false

-- The first part of `_on_data`: the evidence for the gate.
unfoldable pub take_evidence : (now : ℕ) → String → Packet → Gate → Gate
take_evidence now address x g =
    if takes_evidence g.stream_phase
    then (elim x.sampling_rate [
      | none ↦ g
      | some _ ↦ elim (lookup address g.stats_by_address) [
        | none ↦ g
        | some s ↦ record g {
          stats_by_address = insert address (record_sample x now s) g.stats_by_address;
        }
      ]
    ])
    else g

unfoldable pub official_streaming_now : Gate → Bool
official_streaming_now g =
    is_official g.stream_phase && (g.outputs_active && (not (coordinated g) || g.commit_received))

unfoldable pub find_by_address : String → List GateSubject → Option GateSubject
find_by_address a [] = none
find_by_address a (s ∷ ss) = elim (entry_among a s.sensors) [
  | none ↦ find_by_address a ss
  | some _ ↦ some s
]

-- The subject that may take a sample from the address now.
unfoldable pub receiver : String → Gate → Option GateSubject
unfolding find_by_address
receiver address g = elim (find_by_address address g.subjects) [
  | none ↦ none
  | some s ↦
      if not s.is_streaming || contains g.stopping_subject_ids s.subject_id then none else some s
]

-- `_on_data`: the gate, and the subject that ingests the sample.
unfoldable pub on_data : (now : ℕ) → String → Packet → Gate → Gate × Option GateSubject
unfolding take_evidence official_streaming_now receiver
on_data now address x g =
    let g' = take_evidence now address x g in
    (g', if official_streaming_now g' then receiver address g' else none)
