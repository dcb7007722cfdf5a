-- ===== src/Connect/Sequence.antt =====
-- nexus_n3/core/subject_connection_sequence.py: configuring, starting and stepping the workflow.
-- `dispatch` is the last thing that a step does, so an event that it causes in the same thread comes
-- after the step.
use nexus_n3_core.Prelude.{
  ◌+◌, ◌*◌, String, true, false, Option, none, some, List, [], ◌∷◌, if◌then◌else◌, ◌&&◌, str_eq,
  contains, lookup, sorted, truthy, length, drop,
}
use nexus_n3_core.Connect.State.{
  Subject, Operation, discovering, connecting, Phase, discovering_phase, connecting_phase,
  subject_connected, completed_phase, Command, discover_command, connect_command, dispatched,
  rejected, Sequence, Env, emit, busy, addresses_of_others, dedup, pending_subject, id_of, node_of,
  emit_progress, fail,
}

-- `configure`
unfoldable pub configure : List Subject → Sequence → Sequence
configure subjects s = record s {
  timer = none;
  subjects = subjects;
  selected = [];
  completed = [];
  discovered = [];
  active = false;
  pending = none;
  sequence_id = none;
}

abbrev phase_of : Operation → Phase
phase_of discovering = discovering_phase
phase_of connecting = connecting_phase

-- The command of a step; `none` where `self.selected[sid]` raises a KeyError.
unfoldable pub command_for : Operation → String → Subject → Sequence → Option Command
unfolding addresses_of_others dedup
command_for discovering token subject s = some (
    discover_command subject.node_id token s.sequence_id subject.subject_id
      (sorted (dedup (addresses_of_others subject.subject_id s.selected))))
command_for connecting token subject s = elim (lookup subject.subject_id s.selected) [
  | none ↦ none
  | some addresses ↦
      some (connect_command subject.node_id token s.sequence_id subject.subject_id addresses)
]

abbrev pub last : Subject → List Subject → Subject
last s [] = s
last s (t ∷ ts) = last t ts

abbrev pub last_of : List Subject → Option Subject
last_of [] = none
last_of (s ∷ ss) = some (last s ss)

abbrev pub timeout_message : String
timeout_message =
    "Timed out waiting for operation completion; wait for its result or Reset before retrying"

-- `_expired`, the timer's callback.
unfoldable pub expired : String → Sequence → Sequence
unfolding fail
expired token s = elim s.pending [
  | none ↦ s
  | some p ↦ if str_eq p.token token && s.active then fail timeout_message none none s else s
]

-- What `start` does: it goes on, or it raises.
pub data Started : Type 0 where
  started : Sequence → Started
  -- ValueError: no configured subjects
  no_subjects : Started

module _ (env : Env) where
  open env use {uuid, raises}

  -- A command given to `dispatch`, which may raise.
  unfoldable pub send : Command → Sequence → Sequence
  unfolding fail
  send c s = elim (raises c) [
    | none ↦ emit (dispatched c) s
    | some error ↦ record (fail error none none s) { pending = none }
  ]

  -- `_step`
  unfoldable pub step : Subject → Operation → Sequence → Sequence
  unfolding emit_progress command_for send
  step subject operation s =
      let token = uuid s.drawn in
      let begun = emit_progress (phase_of operation) (some subject) false none none [] (record s {
        drawn = s.drawn + 1;
        pending = some (record { token = token; subject = subject; operation = operation });
      }) in
      elim (command_for operation token subject begun) [
        | none ↦ record begun { crashed = true }
        | some c ↦ send c (record begun {
          timer = some (record { token = token; seconds = 30 + 45 * length subject.locations });
        })
      ]

  -- The loop of `_next_subject` over the subjects from `index` on.
  unfoldable pub next_from : List Subject → Sequence → Sequence
  unfolding step emit_progress
  next_from [] s =
      emit_progress completed_phase (last_of s.subjects) false none none []
        (record s { active = false })
  next_from (subject ∷ rest) s =
      let skip = next_from rest (
        let shown = emit_progress subject_connected (some subject) true none none [] s in
        record shown { index = shown.index + 1 }) in
      if contains s.completed subject.subject_id
      then skip
      else step subject
          (if contains s.discovered subject.subject_id then connecting else discovering) s

  -- `_next_subject`
  unfoldable pub next_subject : Sequence → Sequence
  unfolding next_from
  next_subject s = next_from (drop s.index s.subjects) s

  -- The state of a new run of the workflow.
  unfoldable pub begun : Option String → Sequence → Sequence
  begun correlation_id s = elim (truthy correlation_id) [
    | some id ↦ record s {
      correlation_id = some id;
      sequence_id = some (uuid s.drawn);
      drawn = s.drawn + 1;
      active = true;
      index = 0;
    }
    | none ↦ record s {
      correlation_id = some (uuid s.drawn);
      sequence_id = some (uuid (s.drawn + 1));
      drawn = s.drawn + 2;
      active = true;
      index = 0;
    }
  ]

  -- `start`
  unfoldable pub start : Option String → Sequence → Started
  unfolding next_subject begun
  start correlation_id s =
      if busy s
      then started (
          emit
            (rejected correlation_id (id_of (pending_subject s.pending))
              (node_of (pending_subject s.pending)))
            s)
      else elim s.subjects [
        | [] ↦ no_subjects
        | _ ∷ _ ↦ started (next_subject (begun correlation_id s))
      ]
