-- ===== src/Connect/Events.antt =====
-- nexus_n3/core/subject_connection_sequence.py: `on_event`, which takes the reports of cleanups,
-- lost sensors and unsolicited discoveries, and the replies to the step that is pending.
use nexus_n3_core.Prelude.{
  ◌+◌, String, Bool, true, false, Option, none, some, List, [], ◌∷◌, map, if◌then◌else◌, ◌&&◌,
  str_eq, contains, add, discard, insert, remove, truthy,
}
use nexus_n3_core.Connect.State.{
  Subject, Operation, discovering, connecting, Pending, subject_connected, identify_command,
  dispatched, identify_warning, Sequence, Env, normalized, emit, emit_progress, fail,
}
use nexus_n3_core.Connect.Sequence.{step, next_subject}
use nexus_n3_core.Connect.Replies.{
  SubjectReply, ReplyPayload, EventKind, cleanup_started, cleanup_complete, sensor_disconnected,
  sensors_discovered, sensor_connected, error, other_kind, Event, sender, opt_eq, results_for,
  intersects, first_discovered, valid_discovery, valid_connection,
}

unfoldable pub fail_if_active : String → Sequence → Sequence
unfolding fail
fail_if_active message s = if s.active then fail message none none s else s

-- Forget the subjects of a node.
unfoldable pub forget_node : List Subject → Option String → Sequence → Sequence
forget_node [] node_id s = s
forget_node (subject ∷ rest) node_id s = forget_node rest node_id (
    if opt_eq (some subject.node_id) node_id
    then record s {
      selected = remove subject.subject_id s.selected;
      completed = discard subject.subject_id s.completed;
      discovered = discard subject.subject_id s.discovered;
    }
    else s)

-- EVT_SENSOR_CLEANUP_COMPLETE
unfoldable pub after_cleanup : Option String → ReplyPayload → Sequence → Sequence
unfolding forget_node fail
after_cleanup node_id p s =
    if p.recover_session && p.core_ready_for_configuration
    then (let t = forget_node s.subjects node_id s in
        elim t.pending [
          | none ↦ t
          | some pending ↦
              if opt_eq (some pending.subject.node_id) node_id
              then record (fail_if_active "Connect All interrupted by Reset" t) { pending = none }
              else t
        ])
    else s

unfoldable pub find_subject : String → List Subject → Option Subject
find_subject sid [] = none
find_subject sid (s ∷ ss) = if str_eq s.subject_id sid then some s else find_subject sid ss

-- EVT_SENSOR_DISCONNECTED, over the items of `selected`. A StopIteration ends it.
unfoldable pub lose : List (String × List String) → List String → Sequence → Sequence
unfolding intersects find_subject fail
lose [] lost s = s
lose ((sid, addresses) ∷ items) lost s =
    let dropped = record s { completed = discard sid s.completed } in
    if intersects lost addresses
    then (if s.active && contains s.completed sid
        then elim (find_subject sid s.subjects) [
          | none ↦ record dropped { crashed = true }
          | some subject ↦ lose items lost (
              fail "Previously connected subject lost a sensor" (some subject) (some connecting)
                dropped)
        ]
        else lose items lost dropped)
    else lose items lost s

abbrev pub is_none {ℓ} : {A : Type ℓ} → Option A → Bool
is_none none = true
is_none (some a) = false

-- One result of a discovery outside of a sequence.
unfoldable pub unsolicited_one : SubjectReply → Sequence → Sequence
unfolding find_subject normalized
unsolicited_one r s = elim r.subject_id [
  | none ↦ s
  | some sid ↦ elim (find_subject sid s.subjects) [
    | none ↦ s
    | some subject ↦ record s {
      completed = discard sid s.completed;
      discovered = discard sid s.discovered;
      selected = insert sid (map normalized r.discovered_sensors) s.selected;
    }
  ]
]

unfoldable pub unsolicited : List SubjectReply → Sequence → Sequence
unfolding unsolicited_one
unsolicited [] s = s
unsolicited (r ∷ rs) s = unsolicited rs (unsolicited_one r s)

-- The kinds of event that end a step.
abbrev pub ends_step : EventKind → Operation → Bool
ends_step sensors_discovered discovering = true
ends_step sensor_connected connecting = true
ends_step error operation = true
ends_step kind operation = false

abbrev pub is_error : EventKind → Bool
is_error error = true
is_error kind = false

-- The reply addresses the pending step.
abbrev pub answers : Event → ReplyPayload → Pending → Sequence → Bool
answers e p pending s =
    opt_eq p.correlation_id (some pending.token)
    && opt_eq p.connection_sequence_id s.sequence_id
    && opt_eq (sender e p) (some pending.subject.node_id)
    && ends_step e.kind pending.operation

-- The timer is cancelled; even a partial selection is kept.
unfoldable pub keep_selection : ReplyPayload → Pending → Sequence → Sequence
unfolding normalized
keep_selection p pending s = elim pending.operation [
  | connecting ↦ record s { timer = none }
  | discovering ↦ elim (map normalized p.selected_addresses) [
    | [] ↦ record s { timer = none }
    | a ∷ rest ↦ record s {
      timer = none;
      selected = insert pending.subject.subject_id (a ∷ rest) s.selected;
    }
  ]
]

-- The step ends without success.
unfoldable pub abandon : String → Sequence → Sequence
unfolding fail
abandon message s = record (fail_if_active message s) { pending = none }

abbrev pub message_of : ReplyPayload → String
message_of p = elim p.message [ none ↦ "Subject operation failed" | some m ↦ m ]

module _ (env : Env) where
  open env use {uuid, raises}

  unfoldable pub after_discovery : ReplyPayload → Subject → Sequence → Sequence
  unfolding step abandon valid_discovery first_discovered results_for
  after_discovery p subject s =
      let found = record s {
        selected =
            insert subject.subject_id (first_discovered (results_for subject.subject_id p.subjects))
              s.selected;
        discovered = add subject.subject_id s.discovered;
        pending = none;
      } in
      if valid_discovery p subject s.selected
      then (if found.active then step env subject connecting found else found)
      else abandon "Incomplete discovery or duplicate sensor addresses" s

  -- CMD_IDENTIFY_SENSOR; what `dispatch` raises is a warning.
  unfoldable pub identify : Subject → Sequence → Sequence
  identify subject s =
      let c =
        identify_command subject.node_id subject.subject_id (uuid s.drawn) s.sequence_id
          s.correlation_id in
      let drawn = record s { drawn = s.drawn + 1 } in
      elim (raises c) [
        | none ↦ emit (dispatched c) drawn
        | some message ↦
            emit (identify_warning s.correlation_id subject.subject_id subject.node_id message)
              drawn
      ]

  unfoldable pub after_connection : ReplyPayload → Subject → Sequence → Sequence
  unfolding emit_progress identify next_subject abandon valid_connection
  after_connection p subject s =
      let connected = record s { completed = add subject.subject_id s.completed; pending = none } in
      let identified =
        identify subject
          (emit_progress subject_connected (some subject) false none none [] connected) in
      if valid_connection p subject s.selected
      then (if connected.active
          then next_subject env (record identified { index = identified.index + 1 })
          else connected)
      else abandon "Incomplete connection or sensor setup" s

  -- The reply to the pending step.
  unfoldable pub end_step : Event → ReplyPayload → Pending → Sequence → Sequence
  unfolding keep_selection abandon after_discovery after_connection
  end_step e p pending s =
      let kept = keep_selection p pending s in
      if is_error e.kind then abandon (message_of p) kept else elim pending.operation [
        | discovering ↦ after_discovery p pending.subject kept
        | connecting ↦ after_connection p pending.subject kept
      ]

  unfoldable pub on_reply : Event → ReplyPayload → Sequence → Sequence
  unfolding end_step
  on_reply e p s = elim s.pending [
    | none ↦ s
    | some pending ↦ if answers e p pending s then end_step e p pending s else s
  ]

  unfoldable pub on_payload : Event → ReplyPayload → Sequence → Sequence
  unfolding fail after_cleanup lose unsolicited on_reply
  on_payload e p s = elim e.kind [
    | cleanup_started ↦ fail_if_active "Connect All interrupted by sensor cleanup" s
    | cleanup_complete ↦ after_cleanup (sender e p) p s
    | sensor_disconnected ↦ lose s.selected (map normalized p.disconnected_sensors) s
    | sensors_discovered ↦
        on_reply e p
          (if is_none (truthy p.connection_sequence_id) then unsolicited p.subjects s else s)
    | sensor_connected ↦ on_reply e p s
    | error ↦ on_reply e p s
    | other_kind ↦ on_reply e p s
  ]

  -- `on_event`
  unfoldable pub on_event : Event → Sequence → Sequence
  unfolding on_payload
  on_event e s = elim e.payload [ none ↦ s | some p ↦ on_payload e p s ]
