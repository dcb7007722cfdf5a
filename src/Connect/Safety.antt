-- ===== src/Connect/Safety.antt =====
-- The methods of SubjectConnectionSequence keep the selections sound.
pub mod Replies
pub mod Runs
use nexus_n3_core.Prelude.{
  ℕ, zero, suc, String, ◌≡◌, refl, sym, ap, ◌∙◌, inl, inr, Bool, true, false, Option, none, some,
  List, [], ◌∷◌, ◌++◌, map, if◌then◌else◌, ◌||◌, ◌&&◌, not, str_eq, contains, subset, add, discard,
  lookup, insert, remove, keys, drop, truthy, arith, eq_iff, Bool-cases, Option-cases,
  contains-keys-insert, contains→subset, subset→contains,
}
use nexus_n3_core.Connect.State.{
  Subject, Operation, discovering, connecting, Pending, Sequence, Command, Env, init, emit,
  emit_progress, fail, addresses_of_others, normalized,
}
use nexus_n3_core.Connect.Sequence.{
  configure, send, step, next_from, next_subject, Started, started, no_subjects, start, expired,
  command_for,
}
use nexus_n3_core.Connect.Replies.{
  Event, ReplyPayload, SubjectReply, intersects, valid_discovery, opt_eq, first_discovered,
  results_for,
}
use nexus_n3_core.Connect.Events.{
  forget_node, after_cleanup, find_subject, lose, unsolicited, unsolicited_one, keep_selection,
  abandon, fail_if_active, after_discovery, after_connection, identify, end_step, on_reply,
  on_payload, on_event,
}
use nexus_n3_core.Connect.Sound.{
  Sound, ids, values, is_waiting, admissible, Sound-retire, Sound-select, Sound-discard,
  Sound-forget, Sound-discover,
}

abbrev pub IsSound : Sequence → Type 0
IsSound s = Sound s.subjects s.selected s.discovered s.pending s.crashed

pub if_lem : (t : Bool) (a b : Sequence) → IsSound a → IsSound b → IsSound (if t then a else b)
if_lem true a b ha hb = ha
if_lem false a b ha hb = hb

pub fail-IsSound :
    (m : String) (o : Option Subject) (p : Option Operation) (s : Sequence)
    → IsSound s
    → IsSound (fail m o p s)
unfolding fail emit_progress
fail-IsSound m o p s h = h

pub fail_if_active-IsSound : (m : String) (s : Sequence) → IsSound s → IsSound (fail_if_active m s)
unfolding fail_if_active
fail_if_active-IsSound m s h =
    if_lem s.active (fail m none none s) s (fail-IsSound m none none s h) h

pub abandon-IsSound : (m : String) (s : Sequence) → IsSound s → IsSound (abandon m s)
unfolding abandon
abandon-IsSound m s h = Sound-retire (fail_if_active-IsSound m s h)

pub init-IsSound : IsSound init
unfolding is_waiting contains init
init-IsSound = record {
  known = λ a k. cc;
  chosen = λ a d. cc;
  waiting = refl;
  apart = λ a b x ne da db xa. cc;
  alive = refl;
}

-- A new pending step.
begin-IsSound :
    (token : String) (subject : Subject) (o : Operation) (s : Sequence)
    → IsSound s
    → admissible o
        (contains (ids s.subjects) subject.subject_id)
        (contains s.discovered subject.subject_id)
      ≡ true
    → Sound s.subjects s.selected s.discovered
        (some (record { token = token; subject = subject; operation = o }))
        s.crashed
unfolding is_waiting
begin-IsSound token subject o s h k = record {
  known = h.known;
  chosen = h.chosen;
  waiting = k;
  apart = h.apart;
  alive = h.alive;
}

contains-keys-lookup :
    (sid : String) (m : List (String × List String))
    → contains (keys m) sid ≡ true
    → lookup sid m ≡ none
    → true ≡ false
unfolding lookup contains
contains-keys-lookup sid [] k e = sym k
contains-keys-lookup sid ((j, w) ∷ m) k e = ground (arith, eq_iff j sid, contains-keys-lookup sid m)

send-IsSound : (env : Env) (c : Command) (s : Sequence) → IsSound s → IsSound (send env c s)
unfolding send emit
send-IsSound env c s h = elim (Option-cases (env.raises c)) [
  | inl quiet ↦ rw (quiet, send) h
  | inr (m, raised) ↦ rw (raised, send) (Sound-retire (fail-IsSound m none none s h))
]

pub step_discovering-IsSound :
    (env : Env) (subject : Subject) (s : Sequence)
    → IsSound s
    → contains (ids s.subjects) subject.subject_id ≡ true
    → contains s.discovered subject.subject_id ≡ false
    → IsSound (step env subject discovering s)
unfolding step command_for emit_progress admissible
step_discovering-IsSound env subject s h member fresh =
    send-IsSound env _ _ (begin-IsSound (env.uuid s.drawn) subject discovering s h (ground arith))

-- A step that connects finds the selection.
pub step_connecting-IsSound :
    (env : Env) (subject : Subject) (s : Sequence)
    → IsSound s
    → contains (ids s.subjects) subject.subject_id ≡ true
    → contains s.discovered subject.subject_id ≡ true
    → IsSound (step env subject connecting s)
unfolding step command_for emit_progress admissible
step_connecting-IsSound env subject s h member found =
    elim (Option-cases (lookup subject.subject_id s.selected)) [
      | inl missing ↦ absurd (
          ground (
            arith,
            h.chosen subject.subject_id found,
            contains-keys-lookup subject.subject_id s.selected,
          ))
      | inr (l, e) ↦
          rw (e, step, command_for)
            (send-IsSound env _ _ (begin-IsSound (env.uuid s.drawn) subject connecting s h member))
    ]

find_subject_lem :
    (sid : String) (ss : List Subject)
    → contains (ids ss) sid ≡ true
    → find_subject sid ss ≡ none
    → true ≡ false
unfolding find_subject contains ids
find_subject_lem sid [] k e = sym k
find_subject_lem sid (s ∷ ss) k e = ground (arith, eq_iff s.subject_id sid, find_subject_lem sid ss)

pub lose-IsSound :
    (items : List (String × List String)) (lost : List String) (s : Sequence)
    → IsSound s
    → subset (keys items) (ids s.subjects) ≡ true
    → IsSound (lose items lost s)
unfolding lose subset fail emit_progress
lose-IsSound [] lost s h known = h
lose-IsSound ((sid, values) ∷ items) lost s h known = elim (Bool-cases (intersects lost values)) [
  | inr kept ↦ rw (kept, lose) (lose-IsSound items lost s h (ground arith))
  | inl hit ↦ elim (Bool-cases (s.active && contains s.completed sid)) [
    | inr quiet ↦
        rw (hit, quiet, lose)
          (lose-IsSound items lost (record s { completed = discard sid s.completed }) h
            (ground arith))
    | inl loud ↦ elim (Option-cases (find_subject sid s.subjects)) [
      | inl none_found ↦ absurd (ground (arith, find_subject_lem sid s.subjects))
      | inr (subject, e) ↦
          rw (hit, loud, e, lose)
            (lose-IsSound items lost
              (fail "Previously connected subject lost a sensor" (some subject) (some connecting)
                (record s { completed = discard sid s.completed }))
              h (ground arith))
    ]
  ]
]

pub forget_node-IsSound :
    (ss : List Subject) (n : Option String) (s : Sequence)
    → IsSound s
    → IsSound (forget_node ss n s)
unfolding forget_node
forget_node-IsSound [] n s h = h
forget_node-IsSound (subject ∷ ss) n s h =
    forget_node-IsSound ss n _
      (if_lem (opt_eq (some subject.node_id) n) _ s (Sound-forget h subject.subject_id) h)
