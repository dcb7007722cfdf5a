-- ===== src/Connect/Safety/Replies.antt =====
-- SubjectConnectionSequence.on_event keeps the selections sound.
use text.Mathlib.TextPositions.{eq_refl}
use nexus_n3_core.Prelude.{
  ◌⊎◌, ℕ, zero, suc, String, ◌≡◌, refl, inl, inr, true, Option, some, List, [], ◌∷◌, map, ◌&&◌,
  contains, subset, keys, drop, truthy, arith, eq_iff, Bool-cases, Option-cases, contains-add,
  contains-discard, contains→subset,
}
use nexus_n3_core.Connect.State.{
  Subject, Operation, discovering, connecting, Pending, Sequence, identify_command, Env, emit,
  emit_progress, normalized,
}
use nexus_n3_core.Connect.Sequence.{next_from, next_subject}
use nexus_n3_core.Connect.Replies.{
  EventKind, cleanup_started, cleanup_complete, sensor_disconnected, sensors_discovered,
  sensor_connected, error, other_kind, sender, Event, ReplyPayload, SubjectReply, valid_discovery,
  valid_connection, opt_eq, first_discovered, results_for,
}
use nexus_n3_core.Connect.Events.{
  forget_node, after_cleanup, find_subject, unsolicited, unsolicited_one, keep_selection, is_none,
  is_error, message_of, answers, after_discovery, after_connection, identify, end_step, on_reply,
  on_payload, on_event,
}
use nexus_n3_core.Connect.Sound.{
  ids, is_waiting, admissible, Sound-retire, Sound-select, Sound-discard, Sound-discover,
}
use nexus_n3_core.Connect.Safety.{
  IsSound, if_lem, fail_if_active-IsSound, abandon-IsSound, forget_node-IsSound, lose-IsSound,
  step_discovering-IsSound, step_connecting-IsSound,
}

Operation-cases : (o : Operation) → (o ≡ discovering) ⊎ (o ≡ connecting)
Operation-cases discovering = inl refl
Operation-cases connecting = inr refl

List-cases :
    (xs : List String) → (xs ≡ []) ⊎ ((a : String) × (rest : List String) × (xs ≡ a ∷ rest))
List-cases [] = inl refl
List-cases (a ∷ rest) = inr (a, rest, refl)

subset-drop :
    (n : ℕ) (ss : List Subject) (xs : List String)
    → subset (ids ss) xs ≡ true
    → subset (ids (drop n ss)) xs ≡ true
unfolding drop ids subset
subset-drop zero ss xs h = h
subset-drop (suc n) [] xs h = h
subset-drop (suc n) (s ∷ ss) xs h = subset-drop n ss xs (ground arith)

next_from-IsSound :
    (env : Env) (rest : List Subject) (s : Sequence)
    → IsSound s
    → subset (ids rest) (ids s.subjects) ≡ true
    → IsSound (next_from env rest s)
unfolding next_from emit_progress subset ids
next_from-IsSound env [] s h k = h
next_from-IsSound env (subject ∷ rest) s h k =
    elim (Bool-cases (contains s.completed subject.subject_id)) [
      | inl done ↦ rw (done, next_from) (next_from-IsSound env rest _ h (ground arith))
      | inr open_step ↦ elim (Bool-cases (contains s.discovered subject.subject_id)) [
        | inl found ↦
            rw (open_step, found, next_from)
              (step_connecting-IsSound env subject s h (ground arith) found)
        | inr fresh ↦
            rw (open_step, fresh, next_from)
              (step_discovering-IsSound env subject s h (ground arith) fresh)
      ]
    ]

pub next_subject-IsSound : (env : Env) (s : Sequence) → IsSound s → IsSound (next_subject env s)
unfolding next_subject
next_subject-IsSound env s h = next_from-IsSound env (drop s.index s.subjects) s h (
    subset-drop s.index s.subjects (ids s.subjects)
      (contains→subset (ids s.subjects) (ids s.subjects) (λ a k. k)))

keep_selection-IsSound :
    (p : ReplyPayload) (pending : Pending) (s : Sequence)
    → IsSound s
    → is_waiting s.subjects s.discovered (some pending) ≡ true
    → IsSound (keep_selection p pending s)
unfolding is_waiting keep_selection admissible
keep_selection-IsSound p pending s h k = elim (Operation-cases pending.operation) [
  | inr e ↦ rw (e, keep_selection) h
  | inl e ↦
      let waiting = rw (e, admissible) at k in
      elim (List-cases (map normalized p.selected_addresses)) [
        | inl none_named ↦ rw (e, none_named, keep_selection) h
        | inr (a, rest, named) ↦
            rw (e, named, keep_selection)
              (Sound-select h pending.subject.subject_id (a ∷ rest) (ground arith) (ground arith))
      ]
]

after_discovery-IsSound :
    (env : Env) (p : ReplyPayload) (subject : Subject) (s : Sequence)
    → IsSound s
    → contains (ids s.subjects) subject.subject_id ≡ true
    → IsSound (after_discovery env p subject s)
unfolding after_discovery valid_discovery
after_discovery-IsSound env p subject s h member =
    elim (Bool-cases (valid_discovery p subject s.selected)) [
      | inr bad ↦
          rw (bad, after_discovery)
            (abandon-IsSound "Incomplete discovery or duplicate sensor addresses" s h)
      | inl good ↦
          rw (good, after_discovery)
            (let found =
                Sound-discover h subject.subject_id
                  (first_discovered (results_for subject.subject_id p.subjects)) member
                  (ground arith) in
              if_lem s.active _ _
                (step_connecting-IsSound env subject _ found member (
                  ground (
                    arith,
                    eq_refl subject.subject_id,
                    contains-add subject.subject_id subject.subject_id s.discovered,
                  )))
                found)
    ]

identify-IsSound :
    (env : Env) (subject : Subject) (s : Sequence) → IsSound s → IsSound (identify env subject s)
unfolding identify emit
identify-IsSound env subject s h =
    elim (Option-cases (
      env.raises (
        identify_command subject.node_id subject.subject_id (env.uuid s.drawn) s.sequence_id
          s.correlation_id))) [
            | inl quiet ↦ rw (quiet, identify) h
            | inr (m, raised) ↦ rw (raised, identify) h
          ]

after_connection-IsSound :
    (env : Env) (p : ReplyPayload) (subject : Subject) (s : Sequence)
    → IsSound s
    → IsSound (after_connection env p subject s)
unfolding after_connection emit_progress
after_connection-IsSound env p subject s h =
    elim (Bool-cases (valid_connection p subject s.selected)) [
      | inr bad ↦
          rw (bad, after_connection) (abandon-IsSound "Incomplete connection or sensor setup" s h)
      | inl good ↦
          rw (good, after_connection)
            (if_lem s.active _ _
              (next_subject-IsSound env _ (identify-IsSound env subject _ (Sound-retire h)))
              (Sound-retire h))
    ]

keep_selection-subjects :
    (p : ReplyPayload) (pending : Pending) (s : Sequence)
    → (keep_selection p pending s).subjects ≡ s.subjects
unfolding keep_selection
keep_selection-subjects p pending s = ground arith

end_step-IsSound :
    (env : Env) (e : Event) (p : ReplyPayload) (pending : Pending) (s : Sequence)
    → IsSound s
    → is_waiting s.subjects s.discovered (some pending) ≡ true
    → IsSound (end_step env e p pending s)
unfolding end_step is_waiting admissible
end_step-IsSound env e p pending s h k =
    let kept = keep_selection-IsSound p pending s h k in
    elim (Bool-cases (is_error e.kind)) [
      | inl failed_step ↦ rw (failed_step, end_step) (abandon-IsSound (message_of p) _ kept)
      | inr ended ↦ elim (Operation-cases pending.operation) [
        | inl o ↦
            let waiting = rw (o, admissible) at k in
            rw (ended, o, end_step)
              (after_discovery-IsSound env p pending.subject _ kept
                (rw (keep_selection-subjects p pending s) (ground arith)))
        | inr o ↦ rw (ended, o, end_step) (after_connection-IsSound env p pending.subject _ kept)
      ]
    ]

on_reply-IsSound :
    (env : Env) (e : Event) (p : ReplyPayload) (s : Sequence)
    → IsSound s
    → IsSound (on_reply env e p s)
unfolding on_reply is_waiting
on_reply-IsSound env e p s h = elim (Option-cases s.pending) [
  | inl idle ↦ rw (idle, on_reply) h
  | inr (pending, w) ↦
      rw (w, on_reply)
        (if_lem (answers e p pending s) _ s
          (end_step-IsSound env e p pending s h (rw w at h.waiting)) h)
]

find_subject-contains :
    (sid : String) (ss : List Subject) (t : Subject)
    → find_subject sid ss ≡ some t
    → contains (ids ss) sid ≡ true
unfolding find_subject contains ids
find_subject-contains sid [] t e = ground arith
find_subject-contains sid (s ∷ ss) t e =
    ground (arith, eq_iff s.subject_id sid, find_subject-contains sid ss t)

unsolicited_one-IsSound :
    (r : SubjectReply) (s : Sequence) → IsSound s → IsSound (unsolicited_one r s)
unfolding unsolicited_one
unsolicited_one-IsSound r s h = elim (Option-cases r.subject_id) [
  | inl unnamed ↦ rw (unnamed, unsolicited_one) h
  | inr (sid, named) ↦ elim (Option-cases (find_subject sid s.subjects)) [
    | inl unknown ↦ rw (named, unknown, unsolicited_one) h
    | inr (t, found) ↦
        rw (named, found, unsolicited_one)
          (Sound-select (Sound-discard h sid) sid (map normalized r.discovered_sensors)
            (find_subject-contains sid s.subjects t found)
            (ground (arith, eq_refl sid, contains-discard sid sid s.discovered)))
  ]
]

unsolicited-IsSound :
    (rs : List SubjectReply) (s : Sequence) → IsSound s → IsSound (unsolicited rs s)
unfolding unsolicited
unsolicited-IsSound [] s h = h
unsolicited-IsSound (r ∷ rs) s h = unsolicited-IsSound rs _ (unsolicited_one-IsSound r s h)

after_cleanup-IsSound :
    (n : Option String) (p : ReplyPayload) (s : Sequence)
    → IsSound s
    → IsSound (after_cleanup n p s)
unfolding after_cleanup
after_cleanup-IsSound n p s h =
    let t = forget_node s.subjects n s in
    let forgotten = forget_node-IsSound s.subjects n s h in
    if_lem (p.recover_session && p.core_ready_for_configuration) _ s
      (elim (Option-cases t.pending) [
        | inl idle ↦ rw (idle, after_cleanup) forgotten
        | inr (pending, w) ↦
            rw (w, after_cleanup)
              (if_lem (opt_eq (some pending.subject.node_id) n) _ t
                (Sound-retire
                  (fail_if_active-IsSound "Connect All interrupted by Reset" t forgotten))
                forgotten)
      ])
      h

on_payload_of-IsSound :
    (env : Env) (e : Event) (p : ReplyPayload) (s : Sequence) (k : EventKind)
    → IsSound s
    → e.kind ≡ k
    → IsSound (on_payload env e p s)
unfolding on_payload
on_payload_of-IsSound env e p s cleanup_started h w =
    rw (w, on_payload) (fail_if_active-IsSound "Connect All interrupted by sensor cleanup" s h)
on_payload_of-IsSound env e p s cleanup_complete h w =
    rw (w, on_payload) (after_cleanup-IsSound (sender e p) p s h)
on_payload_of-IsSound env e p s sensor_disconnected h w =
    rw (w, on_payload)
      (lose-IsSound s.selected (map normalized p.disconnected_sensors) s h
        (contains→subset (keys s.selected) (ids s.subjects) h.known))
on_payload_of-IsSound env e p s sensors_discovered h w =
    rw (w, on_payload)
      (on_reply-IsSound env e p _ (
        if_lem (is_none (truthy p.connection_sequence_id)) _ s (unsolicited-IsSound p.subjects s h)
          h))
on_payload_of-IsSound env e p s sensor_connected h w =
    rw (w, on_payload) (on_reply-IsSound env e p s h)
on_payload_of-IsSound env e p s error h w = rw (w, on_payload) (on_reply-IsSound env e p s h)
on_payload_of-IsSound env e p s other_kind h w = rw (w, on_payload) (on_reply-IsSound env e p s h)

on_payload-IsSound :
    (env : Env) (e : Event) (p : ReplyPayload) (s : Sequence)
    → IsSound s
    → IsSound (on_payload env e p s)
on_payload-IsSound env e p s h = on_payload_of-IsSound env e p s e.kind h refl

pub on_event-IsSound :
    (env : Env) (e : Event) (s : Sequence) → IsSound s → IsSound (on_event env e s)
unfolding on_event
on_event-IsSound env e s h = elim (Option-cases e.payload) [
  | inl none_given ↦ rw (none_given, on_event) h
  | inr (p, given) ↦ rw (given, on_event) (on_payload-IsSound env e p s h)
]
