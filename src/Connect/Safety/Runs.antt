-- ===== src/Connect/Safety/Runs.antt =====
-- Runs of SubjectConnectionSequence: any calls of its methods, in any order, from the initial state.
use nexus_n3_core.Prelude.{
  ◌⊎◌, ◌&&◌, String, ◌≡◌, refl, true, false, Option, none, List, [], ◌∷◌, str_eq, contains, truthy,
  inl, inr, Bool-cases, Option-cases, arith,
}
use nexus_n3_core.Connect.State.{Subject, Sequence, Env, init, busy, emit}
use nexus_n3_core.Connect.Sequence.{
  configure, start, Started, started, no_subjects, begun, timeout_message, expired,
}
use nexus_n3_core.Connect.Replies.{Event}
use nexus_n3_core.Connect.Events.{on_event}
use nexus_n3_core.Connect.Sound.{values, is_waiting}
use nexus_n3_core.Connect.Safety.{IsSound, if_lem, fail-IsSound, init-IsSound}
use nexus_n3_core.Connect.Safety.Replies.{on_event-IsSound, next_subject-IsSound}

-- A call of a method.
pub data Call : Type 0 where
  configured : List Subject → Call
  asked : (correlation_id : Option String) → Call
  timed_out : (token : String) → Call
  observed : Event → Call

-- The state that a `start` leaves, which raises before it changes anything.
abbrev pub state_after : Sequence → Started → Sequence
state_after s (started t) = t
state_after s no_subjects = s

module _ (env : Env) where
  unfoldable pub act : Call → Sequence → Sequence
  unfolding configure start expired on_event
  act (configured subjects) s = configure subjects s
  act (asked correlation_id) s = state_after s (start env correlation_id s)
  act (timed_out token) s = expired token s
  act (observed e) s = on_event env e s

  -- The calls from a state on.
  unfoldable pub history : List Call → Sequence → Sequence
  unfolding act
  history [] s = s
  history (c ∷ cs) s = history cs (act c s)

begun-IsSound :
    (env : Env) (correlation_id : Option String) (s : Sequence)
    → IsSound s
    → IsSound (begun env correlation_id s)
unfolding begun
begun-IsSound env correlation_id s h = elim (Option-cases (truthy correlation_id)) [
  | inl unnamed ↦ rw (unnamed, begun) h
  | inr (id, given) ↦ rw (given, begun) h
]

start-IsSound :
    (env : Env) (correlation_id : Option String) (s : Sequence)
    → IsSound s
    → IsSound (state_after s (start env correlation_id s))
unfolding start emit
start-IsSound env correlation_id s h = elim (Bool-cases (busy s)) [
  | inl waiting ↦ rw (waiting, start) h
  | inr idle ↦ elim (Subjects-cases s.subjects) [
    | inl empty ↦ rw (idle, empty, start) (rw empty at h)
    | inr (t, ts, w) ↦
        rw (idle, w, start)
          (next_subject-IsSound env (begun env correlation_id s)
            (begun-IsSound env correlation_id s h))
  ]
]
  where
    Subjects-cases :
        (ss : List Subject) → (ss ≡ []) ⊎ ((t : Subject) × (ts : List Subject) × (ss ≡ t ∷ ts))
    Subjects-cases [] = inl refl
    Subjects-cases (t ∷ ts) = inr (t, ts, refl)

expired-IsSound :
    (env : Env) (token : String) (s : Sequence) → IsSound s → IsSound (expired token s)
unfolding expired
expired-IsSound env token s h = elim (Option-cases s.pending) [
  | inl idle ↦ rw (idle, expired) h
  | inr (p, w) ↦
      rw (w, expired)
        (if_lem (str_eq p.token token && s.active) _ s (fail-IsSound timeout_message none none s h)
          h)
]

act-IsSound : (env : Env) (c : Call) (s : Sequence) → IsSound s → IsSound (act env c s)
unfolding act configure is_waiting contains
act-IsSound env (configured subjects) s h = record {
  known = λ a k. ground arith;
  chosen = λ a d. ground arith;
  waiting = refl;
  apart = λ a b x ne da db xa. ground arith;
  alive = h.alive;
}
act-IsSound env (asked id) s h = start-IsSound env id s h
act-IsSound env (timed_out token) s h = expired-IsSound env token s h
act-IsSound env (observed e) s h = on_event-IsSound env e s h

pub history-IsSound :
    (env : Env) (cs : List Call) (s : Sequence) → IsSound s → IsSound (history env cs s)
unfolding history
history-IsSound env [] s h = h
history-IsSound env (c ∷ cs) s h = history-IsSound env cs (act env c s) (act-IsSound env c s h)

-- From the initial state, whatever methods are called, in whatever order: two different subjects
-- whose discoveries succeeded have no selected address in common.
pub history-apart :
    (env : Env) (cs : List Call) (a b x : String)
    → str_eq a b ≡ false
    → contains (history env cs init).discovered a ≡ true
    → contains (history env cs init).discovered b ≡ true
    → contains (values a (history env cs init).selected) x ≡ true
    → contains (values b (history env cs init).selected) x ≡ false
history-apart env cs = (history-IsSound env cs init init-IsSound).apart

-- From the initial state, whatever methods are called, in whatever order: no method is left by a
-- KeyError (a connection step without a selection) or a StopIteration (a lost sensor of a subject
-- that is not configured).
pub history-crashed : (env : Env) (cs : List Call) → (history env cs init).crashed ≡ false
history-crashed env cs = (history-IsSound env cs init init-IsSound).alive
