-- ===== src/Core/Gate/Stale.antt =====
-- A thread of an earlier start finds another token, whatever happened since.
use Prim.Native.Nat.{◌<◌}
use nexus_n3_core.Prelude.{
  ℕ, ◌≤◌, false, Option, none, some, List, [], ◌≡◌, refl, arith, ◌==◌, String,
}
use nexus_n3_core.Core.Gate.Stats.{Policy}
use nexus_n3_core.Core.Gate.State.{reset_startup_gate_state}
use nexus_n3_core.Core.Gate.Official.{
  Outcomes, returned, poll_startup_gate, startup_gate_timeout, preparation_ended,
  schedule_startup_retry,
}
use nexus_n3_core.Core.Gate.Steps.{
  World, Step, starts, writes, clears_prepared, unstreams, resets_gate, begins_stop, finishes_stop,
  clears, configures, streaming_started, streaming_stopped, sample, polls, times_out, retries,
  begins_preparation, prepares_one, preparation_returned, preparation_failed, admits_commit,
  commit_prepares, commit_streams, commit_fails, commit_ends,
}
use nexus_n3_core.Core.Gate.Kept.{
  write_session-IsKept, clear_startup_gate_state-IsKept, begin_stop-IsKept, finish_stop-IsKept,
  on_stream_started-IsKept, on_stream_stopped-IsKept, on_data-IsKept, startup_gate_timeout-IsKept,
  schedule_startup_retry-IsKept,
}
use nexus_n3_core.Core.Gate.Activated.{poll_startup_gate-IsKept}

token-preparation_ended :
    (why : Option String) (t : ℕ) (w : World)
    → w.gate.token ≤ (preparation_ended why t w.gate).0.token
unfolding preparation_ended
token-preparation_ended why t w = ground arith

token-reset :
    (now : ℕ) (ids addresses : List String) (w : World)
    → w.gate.token ≤ (reset_startup_gate_state now ids addresses w.gate).token
unfolding reset_startup_gate_state
token-reset now ids addresses w = omega arith

token-Step : (p : Policy) {w w' : World} → Step p w w' → w.gate.token ≤ w'.gate.token
token-Step p {w} starts = omega arith
token-Step p {w} (writes x) = (write_session-IsKept p x w.gate).token
token-Step p {w} clears_prepared = omega arith
token-Step p {w} (unstreams ids) = omega arith
token-Step p {w} (resets_gate now ids addresses) = token-reset now ids addresses w
token-Step p {w} (begins_stop ids) = (begin_stop-IsKept p ids w.gate).token
token-Step p {w} (finishes_stop ids) = (finish_stop-IsKept p ids w.gate).token
token-Step p {w} clears = (clear_startup_gate_state-IsKept p w.gate).token
token-Step p {w} (configures subjects) = omega arith
token-Step p {w} streaming_started = (on_stream_started-IsKept p w.gate).token
token-Step p {w} streaming_stopped = (on_stream_stopped-IsKept p w.gate).token
token-Step p {w} (sample now address x) = (on_data-IsKept p now address x w.gate).token
token-Step p {w} (polls o now t) = (poll_startup_gate-IsKept p o now t w.gate).token
token-Step p {w} (times_out t) = (startup_gate_timeout-IsKept p t w.gate).token
token-Step p {w} (retries now t) = (schedule_startup_retry-IsKept p now t w.gate).token
token-Step p {w} (begins_preparation i t old) = omega arith
token-Step p {w} (prepares_one i x id rest e q) = omega arith
token-Step p {w} (preparation_returned i x e q) = token-preparation_ended none x.token w
token-Step p {w} (preparation_failed t why) = token-preparation_ended (some why) t w
token-Step p {w} (admits_commit x fits r) = omega arith
token-Step p {w} (commit_prepares id c) = omega arith
token-Step p {w} (commit_streams ids now c) = omega arith
token-Step p {w} (commit_fails c) = omega arith
token-Step p {w} (commit_ends c) = omega arith

pub data Run (p : Policy) : World → World → Type 0 where
  here : {w : World} → Run p w w
  after : {w w' w'' : World} → Run p w w' → Step p w' w'' → Run p w w''

token-Run : (p : Policy) {w w' : World} → Run p w w' → w.gate.token ≤ w'.gate.token
token-Run p here = omega arith
token-Run p (after r s) = omega (arith, token-Run p r, token-Step p s)

-- Once the gate has a later token than a thread, then after any further steps its poll returns, and
-- its poll, its timeout, the end of its preparation and its retry change nothing and cause nothing.
-- (While it is in its preparation, it may still open outputs.)
pub stale_thread-silent :
    (p : Policy) (w w' : World) (token : ℕ)
    → token < w.gate.token
    → Run p w w'
    → ((o : Outcomes) (now : ℕ) → poll_startup_gate p o now token w'.gate ≡ (w'.gate, returned, []))
      × (startup_gate_timeout p token w'.gate ≡ (w'.gate, []))
      × ((why : Option String) → preparation_ended why token w'.gate ≡ (w'.gate, []))
      × ((now : ℕ) → schedule_startup_retry now token w'.gate ≡ (w'.gate, []))
unfolding poll_startup_gate startup_gate_timeout preparation_ended schedule_startup_retry
stale_thread-silent p w w' token h r =
    (λ o now. rw other refl, rw other refl, λ why. rw other refl, λ now. rw other refl)
  where
    other : (token == w'.gate.token) ≡ false
    other = ground (arith, h, token-Run p r)
