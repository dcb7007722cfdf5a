-- ===== src/Core/Gate/Steps.antt =====
-- The steps that the commands, the callbacks of the sensors and the threads of the startup gate in
-- nexus_n3/core/core.py take on it, by any number of threads and in any order. What runs under the
-- lock is one step, and each write without it is one of its own: a start, a stop, a commit or a
-- preparation is several steps, with those of others between them. A write without the lock that
-- falls into what runs under it is taken to come before or after that.
use Prim.Native.Nat.{◌<◌}
use nexus_n3_core.Prelude.{
  ℕ, zero, ◌+◌, ◌-◌, ◌≤◌, String, Bool, true, false, Option, none, some, List, [], ◌∷◌, map,
  if◌then◌else◌, ◌≡◌, ◌==◌, contains, add,
}
use nexus_n3_core.Core.Gate.Stats.{Packet, Policy}
use nexus_n3_core.Core.Gate.State.{
  Gate, GateSubject, new_gate, starting, ready_for_official, reset_startup_gate_state,
  clear_startup_gate_state, unstream_if,
}
use nexus_n3_core.Core.Gate.Official.{
  Outcomes, poll_startup_gate, startup_gate_timeout, preparation_ended, schedule_startup_retry,
  set_phase, stream_if, officially,
}
use nexus_n3_core.Core.Gate.Commands.{
  OfficialPayload, begin_stop, finish_stop, official_refusal, admit_commit, fail_commit,
}
use nexus_n3_core.Core.Gate.Callbacks.{on_stream_started, on_stream_stopped, on_data}

-- Where a thread of the gate is in `_prepare_official_persistence`: its token, and the subjects of
-- its loop that are left.
pub record Preparation : Type 0 where
  pub token : ℕ
  pub left : List String

-- The gate, the preparations by the number of their thread, and how many commits are admitted and
-- have not ended. It is disturbed when the set of prepared subjects or the subjects were replaced
-- since the last reset of the gate for a start.
pub record World : Type 0 where
  pub gate : Gate
  pub preparations : ℕ → Option Preparation
  pub commits : ℕ
  pub disturbed : Bool

abbrev pub moved : World → Gate → World
moved w g = record w { gate = g }

abbrev pub disturb : World → Gate → World
disturb w g = record w { gate = g; disturbed = true }

abbrev pub placed : ℕ → Preparation → World → World
placed i x w = record w { preparations = λ j. if j == i then some x else w.preparations j }

-- The subjects that a preparation goes through.
unfoldable pub selected : List String → List GateSubject → List String
selected ids [] = []
selected ids (s ∷ ss) =
    let rest = selected ids ss in if contains ids s.subject_id then s.subject_id ∷ rest else rest

-- A start's writes without the lock.
pub data SessionWrite : Type 0 where
  timestamp : String → SessionWrite
  mode : String → SessionWrite
  session_id : Option String → SessionWrite
  no_commit : SessionWrite
  no_outputs : SessionWrite
  no_origin : SessionWrite
  tags : List (String × Option String) → SessionWrite

unfoldable pub write_session : SessionWrite → Gate → Gate
write_session (timestamp t) g = record g { session_timestamp = some t }
write_session (mode m) g = record g { official_start_mode = m }
write_session (session_id id) g = record g { start_session_id = id }
write_session no_commit g = record g { commit_received = false }
write_session no_outputs g = record g { outputs_active = false }
write_session no_origin g = record g { stream_origin = none }
write_session (tags ts) g = record g { pending_stream_tags = ts }

-- The subject is prepared.
abbrev pub prepared_too : String → Gate → Gate
prepared_too id g = record g { prepared_subject_ids = add id g.prepared_subject_ids }

pub data Step (p : Policy) : World → World → Type 0 where
  -- a start, which may end before its reset of the gate, as for a subject that does not exist
  starts : {w : World} → Step p w (moved w (set_phase starting w.gate))
  writes : (x : SessionWrite) {w : World} → Step p w (moved w (write_session x w.gate))
  clears_prepared : {w : World} → Step p w (disturb w record (w.gate) { prepared_subject_ids = [] })
  unstreams :
      (ids : List String) {w : World}
      → Step p w (moved w record (w.gate) { subjects = map (unstream_if ids) w.gate.subjects })
  resets_gate :
      (now : ℕ) (ids addresses : List String) {w : World}
      → Step p w
          record w { gate = reset_startup_gate_state now ids addresses w.gate; disturbed = false }
  -- a stop, whose subjects are taken out of streaming between its two parts
  begins_stop : (ids : List String) {w : World} → Step p w (moved w (begin_stop ids w.gate))
  finishes_stop : (ids : List String) {w : World} → Step p w (moved w (finish_stop ids w.gate))
  -- a reset of the session, and another configuration
  clears : {w : World} → Step p w (moved w (clear_startup_gate_state w.gate))
  configures :
      (subjects : List GateSubject) {w : World}
      → Step p w (disturb w record (w.gate) { subjects = subjects })
  streaming_started : {w : World} → Step p w (moved w (on_stream_started w.gate).0)
  streaming_stopped : {w : World} → Step p w (moved w (on_stream_stopped w.gate).0)
  sample :
      (now : ℕ) (address : String) (x : Packet) {w : World}
      → Step p w (moved w (on_data now address x w.gate).0)
  polls :
      (o : Outcomes) (now token : ℕ) {w : World}
      → Step p w (moved w (poll_startup_gate p o now token w.gate).0)
  times_out : (token : ℕ) {w : World} → Step p w (moved w (startup_gate_timeout p token w.gate).0)
  retries :
      (now token : ℕ) {w : World} → Step p w (moved w (schedule_startup_retry now token w.gate).0)
  -- a thread that has its token since it was started
  begins_preparation :
      (i token : ℕ) {w : World}
      → token ≤ w.gate.token
      → Step p w
          (placed i record { token = token; left = selected w.gate.subject_ids w.gate.subjects } w)
  prepares_one :
      (i : ℕ) (x : Preparation) (id : String) (rest : List String) {w : World}
      → w.preparations i ≡ some x
      → x.left ≡ id ∷ rest
      → Step p w (placed i record x { left = rest } (moved w (prepared_too id w.gate)))
  preparation_returned :
      (i : ℕ) (x : Preparation) {w : World}
      → w.preparations i ≡ some x
      → x.left ≡ []
      → Step p w (moved w (preparation_ended none x.token w.gate).0)
  preparation_failed :
      (token : ℕ) (reason : String) {w : World}
      → Step p w (moved w (preparation_ended (some reason) token w.gate).0)
  -- a commit, and what it does until it ends or fails
  admits_commit :
      (x : OfficialPayload) {w : World}
      → official_refusal x w.gate ≡ none
      → w.gate.stream_phase ≡ ready_for_official
      → Step p w record w { gate = admit_commit w.gate; commits = w.commits + 1 }
  commit_prepares :
      (id : String) {w : World} → zero < w.commits → Step p w (moved w (prepared_too id w.gate))
  commit_streams :
      (ids : List String) (now : ℕ) {w : World}
      → zero < w.commits
      → Step p w (
          moved w record (w.gate) {
            subjects = map (stream_if ids) w.gate.subjects;
            stream_origin = some now;
          })
  commit_fails :
      {w : World}
      → zero < w.commits
      → Step p w record w { gate = fail_commit w.gate; commits = w.commits - 1 }
  commit_ends :
      {w : World}
      → zero < w.commits
      → Step p w record w { gate = officially w.gate; commits = w.commits - 1 }

abbrev pub new_world : List GateSubject → World
new_world subjects = record {
  gate = new_gate subjects;
  preparations = λ i. none;
  commits = 0;
  disturbed = false;
}

pub data Reachable (p : Policy) (subjects : List GateSubject) : World → Type 0 where
  new : Reachable p subjects (new_world subjects)
  next : {w w' : World} → Reachable p subjects w → Step p w w' → Reachable p subjects w'
