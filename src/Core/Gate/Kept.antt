-- ===== src/Core/Gate/Kept.antt =====
-- What every operation of the startup gate keeps: the count of its attempts, that its token never
-- gets smaller, and what is prepared for the start that it is in.
use Prim.Native.Nat.{◌<◌}
use nexus_n3_core.Prelude.{
  ℕ, zero, ◌≤◌, String, Bool, true, false, some, List, ◌++◌, map, ◌≡◌, refl, arith, add,
}
use nexus_n3_core.Core.Gate.Stats.{Packet, Policy}
use nexus_n3_core.Core.Gate.State.{
  Gate, Phase, ready_for_official, starting, reset_startup_gate_state, clear_startup_gate_state,
  unstream_if,
}
use nexus_n3_core.Core.Gate.Official.{
  startup_gate_timeout, preparation_ended, schedule_startup_retry, is_retrying, set_phase,
  stream_if, officially,
}
use nexus_n3_core.Core.Gate.Commands.{begin_stop, finish_stop, admit_commit, fail_commit}
use nexus_n3_core.Core.Gate.Callbacks.{on_stream_started, on_stream_stopped, on_data}
use nexus_n3_core.Core.Gate.Prepared.{
  prepared_all, prepared_all-more, prepared_all-unstream_if, prepared_all-stream_if,
  contains-more_add,
}
use nexus_n3_core.Core.Gate.Steps.{SessionWrite, write_session, prepared_too}

abbrev pub is_ready : Phase → Bool
is_ready ready_for_official = true
is_ready _ = false

-- Every subject of the start is prepared, or one of those that are left.
unfoldable pub prepared_but : List String → Gate → Bool
unfolding prepared_all
prepared_but left g = prepared_all g.subject_ids g.subjects (left ++ g.prepared_subject_ids)

pub record IsBounded (p : Policy) (g : Gate) : Type 0 where
  pub attempts : g.attempt ≤ p.max_attempts
  pub retry_left : is_retrying g.stream_phase ≡ true → g.attempt < p.max_attempts

pub record IsKept (p : Policy) (g g' : Gate) : Type 0 where
  pub bounded : IsBounded p g → IsBounded p g'
  pub token : g.token ≤ g'.token
  pub still_ready : is_ready g'.stream_phase ≡ true → is_ready g.stream_phase ≡ true
  pub same_start : is_ready g'.stream_phase ≡ true → g'.token ≡ g.token
  pub prepared :
      (left : List String)
      → g'.token ≡ g.token
      → prepared_but left g ≡ true
      → prepared_but left g' ≡ true

pub starting-IsKept : (p : Policy) (g : Gate) → IsKept p g (set_phase starting g)
unfolding prepared_but
starting-IsKept p g = record {
  bounded = λ v. record { attempts = v.attempts; retry_left = λ h. ground (arith, h) };
  token = omega arith;
  still_ready = λ h. ground (arith, h);
  same_start = λ h. refl;
  prepared = λ left e h. h;
}

pub write_session-IsKept :
    (p : Policy) (x : SessionWrite) (g : Gate) → IsKept p g (write_session x g)
unfolding write_session prepared_but
write_session-IsKept p x g = record {
  bounded = λ v. record {
    attempts = ground (arith, v.attempts);
    retry_left = λ h. ground (arith, h, v.retry_left);
  };
  token = ground arith;
  still_ready = λ h. ground (arith, h);
  same_start = λ h. ground (arith, h);
  prepared = λ left e h. ground (arith, h);
}

pub unstream_if-IsKept :
    (p : Policy) (ids : List String) (g : Gate)
    → IsKept p g record g { subjects = map (unstream_if ids) g.subjects }
unfolding prepared_but
unstream_if-IsKept p ids g = record {
  bounded = λ v. record { attempts = v.attempts; retry_left = v.retry_left };
  token = omega arith;
  still_ready = λ h. h;
  same_start = λ h. refl;
  prepared = λ left e h. rw prepared_all-unstream_if h;
}

pub stream_if-IsKept :
    (p : Policy) (ids : List String) (now : ℕ) (g : Gate)
    → IsKept p g record g { subjects = map (stream_if ids) g.subjects; stream_origin = some now }
unfolding prepared_but
stream_if-IsKept p ids now g = record {
  bounded = λ v. record { attempts = v.attempts; retry_left = v.retry_left };
  token = omega arith;
  still_ready = λ h. h;
  same_start = λ h. refl;
  prepared = λ left e h. rw prepared_all-stream_if h;
}

pub prepared_too-IsKept : (p : Policy) (id : String) (g : Gate) → IsKept p g (prepared_too id g)
unfolding prepared_but
prepared_too-IsKept p id g = record {
  bounded = λ v. record { attempts = v.attempts; retry_left = v.retry_left };
  token = omega arith;
  still_ready = λ h. h;
  same_start = λ h. refl;
  prepared = λ left e h.
      prepared_all-more g.subject_ids g.subjects (left ++ g.prepared_subject_ids)
        (left ++ add id g.prepared_subject_ids) (contains-more_add left id g.prepared_subject_ids)
        h;
}

pub reset_startup_gate_state-IsKept :
    (p : Policy) (now : ℕ) (ids addresses : List String) (g : Gate)
    → zero < p.max_attempts
    → IsKept p g (reset_startup_gate_state now ids addresses g)
unfolding reset_startup_gate_state
reset_startup_gate_state-IsKept p now ids addresses g m = record {
  bounded = λ v. record { attempts = omega (arith, m); retry_left = λ h. ground (arith, h) };
  token = omega arith;
  still_ready = λ h. ground (arith, h);
  same_start = λ h. ground (arith, h);
  prepared = λ left e h. absurd (omega (arith, e));
}

pub clear_startup_gate_state-IsKept :
    (p : Policy) (g : Gate) → IsKept p g (clear_startup_gate_state g)
unfolding clear_startup_gate_state
clear_startup_gate_state-IsKept p g = record {
  bounded = λ v. record { attempts = omega arith; retry_left = λ h. ground (arith, h) };
  token = omega arith;
  still_ready = λ h. ground (arith, h);
  same_start = λ h. ground (arith, h);
  prepared = λ left e h. absurd (omega (arith, e));
}

pub begin_stop-IsKept : (p : Policy) (ids : List String) (g : Gate) → IsKept p g (begin_stop ids g)
unfolding begin_stop prepared_but
begin_stop-IsKept p ids g = record {
  bounded = λ v. record {
    attempts = ground (arith, v.attempts);
    retry_left = λ h. ground (arith, h, v.retry_left);
  };
  token = ground arith;
  still_ready = λ h. ground (arith, h);
  same_start = λ h. ground (arith, h);
  prepared = λ left e h. ground (arith, h, e);
}

pub finish_stop-IsKept :
    (p : Policy) (ids : List String) (g : Gate) → IsKept p g (finish_stop ids g)
unfolding finish_stop clear_startup_gate_state prepared_but
finish_stop-IsKept p ids g = record {
  bounded = λ v. record {
    attempts = ground (arith, v.attempts);
    retry_left = λ h. ground (arith, h, v.retry_left);
  };
  token = ground arith;
  still_ready = λ h. ground (arith, h);
  same_start = λ h. ground (arith, h);
  prepared = λ left e h. ground (arith, h, e);
}

pub on_stream_started-IsKept : (p : Policy) (g : Gate) → IsKept p g (on_stream_started g).0
unfolding on_stream_started prepared_but
on_stream_started-IsKept p g = record {
  bounded = λ v. record {
    attempts = ground (arith, v.attempts);
    retry_left = λ h. ground (arith, h, v.retry_left);
  };
  token = ground arith;
  still_ready = λ h. ground (arith, h);
  same_start = λ h. ground (arith, h);
  prepared = λ left e h. ground (arith, h);
}

pub on_stream_stopped-IsKept : (p : Policy) (g : Gate) → IsKept p g (on_stream_stopped g).0
unfolding on_stream_stopped prepared_but
on_stream_stopped-IsKept p g = record {
  bounded = λ v. record {
    attempts = ground (arith, v.attempts);
    retry_left = λ h. ground (arith, h, v.retry_left);
  };
  token = ground arith;
  still_ready = λ h. ground (arith, h);
  same_start = λ h. ground (arith, h);
  prepared = λ left e h. ground (
    arith,
    h,
    prepared_all-unstream_if g.subject_ids g.subject_ids g.subjects
        (left ++ g.prepared_subject_ids),
  );
}

pub on_data-IsKept :
    (p : Policy) (now : ℕ) (address : String) (x : Packet) (g : Gate)
    → IsKept p g (on_data now address x g).0
unfolding on_data prepared_but
on_data-IsKept p now address x g = record {
  bounded = λ v. record {
    attempts = ground (arith, v.attempts);
    retry_left = λ h. ground (arith, h, v.retry_left);
  };
  token = ground arith;
  still_ready = λ h. ground (arith, h);
  same_start = λ h. ground (arith, h);
  prepared = λ left e h. ground (arith, h);
}

pub startup_gate_timeout-IsKept :
    (p : Policy) (t : ℕ) (g : Gate) → IsKept p g (startup_gate_timeout p t g).0
unfolding startup_gate_timeout prepared_but
startup_gate_timeout-IsKept p t g = record {
  bounded = λ v. record {
    attempts = ground (arith, v.attempts);
    retry_left = λ h. ground (arith, h, v.attempts, v.retry_left);
  };
  token = ground arith;
  still_ready = λ h. ground (arith, h);
  same_start = λ h. ground (arith, h);
  prepared = λ left e h. ground (arith, h);
}

pub schedule_startup_retry-IsKept :
    (p : Policy) (now t : ℕ) (g : Gate) → IsKept p g (schedule_startup_retry now t g).0
unfolding schedule_startup_retry prepared_but
schedule_startup_retry-IsKept p now t g = record {
  bounded = λ v. record {
    attempts = ground (arith, v.attempts, v.retry_left);
    retry_left = λ h. ground (arith, h, v.attempts, v.retry_left);
  };
  token = ground arith;
  still_ready = λ h. ground (arith, h);
  same_start = λ h. ground (arith, h);
  prepared = λ left e h. ground (arith, h);
}

pub preparation_failed-IsKept :
    (p : Policy) (t : ℕ) (why : String) (g : Gate) → IsKept p g (preparation_ended (some why) t g).0
unfolding preparation_ended prepared_but
preparation_failed-IsKept p t why g = record {
  bounded = λ v. record {
    attempts = ground (arith, v.attempts);
    retry_left = λ h. ground (arith, h, v.retry_left);
  };
  token = ground arith;
  still_ready = λ h. ground (arith, h);
  same_start = λ h. ground (arith, h);
  prepared = λ left e h. ground (arith, h);
}

pub admit_commit-IsKept : (p : Policy) (g : Gate) → IsKept p g (admit_commit g)
unfolding prepared_but
admit_commit-IsKept p g = record {
  bounded = λ v. record { attempts = v.attempts; retry_left = λ h. ground (arith, h) };
  token = omega arith;
  still_ready = λ h. ground (arith, h);
  same_start = λ h. refl;
  prepared = λ left e h. h;
}

pub fail_commit-IsKept : (p : Policy) (g : Gate) → IsKept p g (fail_commit g)
unfolding prepared_but
fail_commit-IsKept p g = record {
  bounded = λ v. record { attempts = v.attempts; retry_left = λ h. ground (arith, h) };
  token = omega arith;
  still_ready = λ h. ground (arith, h);
  same_start = λ h. refl;
  prepared = λ left e h. h;
}

pub officially-IsKept : (p : Policy) (g : Gate) → IsKept p g (officially g)
unfolding prepared_but
officially-IsKept p g = record {
  bounded = λ v. record { attempts = v.attempts; retry_left = λ h. ground (arith, h) };
  token = omega arith;
  still_ready = λ h. ground (arith, h);
  same_start = λ h. refl;
  prepared = λ left e h. h;
}
