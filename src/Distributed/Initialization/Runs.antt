-- ===== src/Distributed/Initialization/Runs.antt =====
-- Any order of replies, resets, cleanups, timers and new attempts, from a settled deployment.
use Prim.Native.String.{◌++◌ as text_append}
use nexus_n3_core.Prelude.{
  String, ◌≡◌, refl, ap, ◌⊎◌, inl, inr, Bool, true, false, ◌&&◌, ◌||◌, Option, none, some, List, [],
  ◌∷◌, arith, contains, subset, keys, truthy, add, Bool-cases, Option-cases,
}
use nexus_n3_core.Connect.State.{Sequence}
use nexus_n3_core.Distributed.Registry.{NodeRegistry, replace_subjects, assigned_nodes, Assignment}
use nexus_n3_core.Distributed.Planner.{
  Submitted, Plan, PlanError, Result, ok, err, plan_subject_assignments,
}
use nexus_n3_core.Distributed.Initialization.{
  NodeReply, PendingInitialization, InitializationRecovery, MasterState, InitResult, Report,
  installed, failed_report, refused, retain, give_up, record_initialization_reply,
  record_initialization_recovery, reset_all, is_given, holds,
}
use nexus_n3_core.Distributed.Initialization.Attempt.{
  Begun, turned_down, dispatch, new_attempt, prepare, begin_initialization, end_dispatch,
  initialization_expired, first_unavailable,
}
use nexus_n3_core.Distributed.Initialization.Confirmed.{
  Settled, all_confirm, is_confirmed, is_cleared, confirmed_by_all,
  record_initialization_reply-Settled, give_up-Settled,
}

-- A call of the barrier.
pub data Call : Type 0 where
  begun :
      (correlation_id initialization_id : String) (local_check : Option String)
      → (subjects : Submitted) → Call
  replied_by : (node : String) (failed : Bool) (reply : NodeReply) → Call
  dispatched : (initialization_id : String) (raised : Option String) → Call
  timed_out : (initialization_id : String) → Call
  reset : (correlation_id : String) → Call
  cleaned : (correlation_id node : Option String) (ready : Bool) → Call

abbrev pub report_of : MasterState × Begun → MasterState × Option Report
report_of (s, turned_down r) = (s, some r)
report_of (s, dispatch commands) = (s, none)

unfoldable pub act : Call → MasterState → MasterState × Option Report
unfolding begin_initialization record_initialization_reply end_dispatch initialization_expired
    reset_all record_initialization_recovery
act (begun c i check subjects) s = report_of (begin_initialization c i check subjects s)
act (replied_by n failed p) s = record_initialization_reply n failed p s
act (dispatched i raised) s = end_dispatch i raised s
act (timed_out i) s = initialization_expired i s
act (reset c) s = (reset_all c s, none)
act (cleaned c n ready) s = (record_initialization_recovery c n ready s, none)

unfoldable pub history : List Call → MasterState → MasterState
unfolding act
history [] s = s
history (c ∷ cs) s = history cs (act c s).0

-- The master before any attempt.
abbrev pub idle_master : NodeRegistry → List String → Sequence → MasterState
idle_master g streams connection = record {
  registry = g;
  pending = none;
  recovery = none;
  dispatching = false;
  active_streams = streams;
  connection = connection;
}

cleared_again :
    (r q : InitializationRecovery) (p : Option PendingInitialization)
    (o : List (String × Assignment))
    → is_cleared (some r) p o ≡ true
    → is_cleared (some q) p o ≡ true
unfolding is_cleared
cleared_again r q none [] k = refl
cleared_again r q none (_ ∷ _) k = k
cleared_again r q (some _) o k = k

changed-Settled :
    (r q : InitializationRecovery) (s : MasterState)
    → Settled s
    → s.recovery ≡ some r
    → Settled (record s { recovery = some q })
changed-Settled r q s h w = record {
  confirming = h.confirming;
  cleared = cleared_again r q s.pending s.registry.subjects (rw w at h.cleared);
}

reset_all-Settled : (c : String) (s : MasterState) → Settled s → Settled (reset_all c s)
unfolding reset_all
reset_all-Settled c s h = elim (Option-cases s.recovery) [
  | inl whole ↦ rw (whole, reset_all) h
  | inr (r, w) ↦ elim (Bool-cases (is_given s.pending || s.dispatching)) [
    | inl waiting ↦ rw (w, waiting, reset_all) h
    | inr free ↦
        rw (w, free, reset_all)
          (changed-Settled r (record r { cleanup_id = some c; cleanup_nodes = [] }) s h w)
  ]
]

recovered-Settled :
    (s : MasterState)
    → Settled s
    → Settled (record s { registry = replace_subjects [] s.registry; recovery = none })
unfolding is_cleared
recovered-Settled s h = record { confirming = h.confirming; cleared = refl }

record_initialization_recovery-Settled :
    (c n : Option String) (ready : Bool) (s : MasterState)
    → Settled s
    → Settled (record_initialization_recovery c n ready s)
unfolding record_initialization_recovery
record_initialization_recovery-Settled c none ready s h = elim (Option-cases s.recovery) [
  | inl whole ↦ rw (whole, record_initialization_recovery) h
  | inr (r, w) ↦ elim (Option-cases (truthy r.cleanup_id)) [
    | inl no_reset ↦ rw (w, no_reset, record_initialization_recovery) h
    | inr (id, e) ↦ rw (w, e, record_initialization_recovery) h
  ]
]
record_initialization_recovery-Settled c (some n) ready s h = elim (Option-cases s.recovery) [
  | inl whole ↦ rw (whole, record_initialization_recovery) h
  | inr (r, w) ↦ elim (Option-cases (truthy r.cleanup_id)) [
    | inl no_reset ↦ rw (w, no_reset, record_initialization_recovery) h
    | inr (id, e) ↦
        let t = holds id c && contains r.participants n && ready in
        elim (Bool-cases t) [
          | inr stale ↦ rw (w, e, stale, record_initialization_recovery) h
          | inl ours ↦ elim (Bool-cases (subset r.participants (add n r.cleanup_nodes))) [
            | inl all_clean ↦
                rw (w, e, ours, all_clean, record_initialization_recovery) (recovered-Settled s h)
            | inr more ↦
                rw (w, e, ours, more, record_initialization_recovery)
                  (changed-Settled r (record r { cleanup_nodes = add n r.cleanup_nodes }) s h w)
          ]
        ]
  ]
]

fresh-Settled :
    (q : PendingInitialization) (s : MasterState)
    → is_given s.recovery ≡ false
    → q.replies ≡ []
    → Settled (record s { pending = some q; dispatching = true })
unfolding is_confirmed is_cleared all_confirm
fresh-Settled q s e f = elim (Option-cases s.recovery) [
  | inl whole ↦ record { confirming = rw f refl; cleared = rw whole refl }
  | inr (r, w) ↦ absurd (ground arith)
]

prepare-Settled :
    (r : PendingInitialization) (s : MasterState)
    → Settled s
    → is_given s.recovery ≡ false
    → r.replies ≡ []
    → Settled (report_of (prepare r s)).0
unfolding prepare
prepare-Settled r s h e f = elim (Option-cases (first_unavailable r.expected s.registry)) [
  | inr (n, w) ↦ rw (w, prepare) h
  | inl available ↦ rw (available, prepare) (fresh-Settled r s e f)
]

Result-cases : (r : Result Plan) → ((p : Plan) × (r ≡ ok p)) ⊎ ((e : PlanError) × (r ≡ err e))
Result-cases (ok p) = inl (p, refl)
Result-cases (err e) = inr (e, refl)

Streams-cases :
    (xs : List String) → (xs ≡ []) ⊎ ((x : String) × (rest : List String) × (xs ≡ x ∷ rest))
Streams-cases [] = inl refl
Streams-cases (x ∷ rest) = inr (x, rest, refl)

begin_initialization-Settled :
    (c i : String) (check : Option String) (subjects : Submitted) (s : MasterState)
    → Settled s
    → Settled (report_of (begin_initialization c i check subjects s)).0
unfolding begin_initialization new_attempt
begin_initialization-Settled c i check subjects s h =
    let guard = is_given s.pending || is_given s.recovery || s.dispatching in
    elim (Bool-cases guard) [
      | inl unsettled ↦ rw (unsettled, begin_initialization) h
      | inr free ↦ elim (Streams-cases s.active_streams) [
        | inr (x, rest, w) ↦ rw (free, w, begin_initialization) h
        | inl quiet ↦ elim (Option-cases check) [
          | inr (e, w) ↦ rw (free, quiet, w, begin_initialization) h
          | inl ready ↦ elim (Result-cases (plan_subject_assignments s.registry subjects)) [
            | inr (e, w) ↦ rw (free, quiet, ready, w, begin_initialization) h
            | inl (p, w) ↦
                rw (free, quiet, ready, w, begin_initialization)
                  (prepare-Settled (new_attempt c i subjects p s.registry) s h (ground arith) refl)
          ]
        ]
      ]
    ]

end_dispatch-Settled :
    (i : String) (raised : Option String) (s : MasterState)
    → Settled s
    → Settled (end_dispatch i raised s).0
unfolding end_dispatch
end_dispatch-Settled i none s h = record { confirming = h.confirming; cleared = h.cleared }
end_dispatch-Settled i (some e) s h =
    let t = give_up-Settled i (text_append "System initialization dispatch failed: " e) s h in
    record { confirming = t.confirming; cleared = t.cleared }

act-Settled : (c : Call) (s : MasterState) → Settled s → Settled (act c s).0
unfolding act initialization_expired
act-Settled (begun c i check subjects) s h = begin_initialization-Settled c i check subjects s h
act-Settled (replied_by n failed p) s h = record_initialization_reply-Settled n failed p s h
act-Settled (dispatched i raised) s h = end_dispatch-Settled i raised s h
act-Settled (timed_out i) s h = give_up-Settled i "System initialization timed out" s h
act-Settled (reset c) s h = reset_all-Settled c s h
act-Settled (cleaned c n ready) s h = record_initialization_recovery-Settled c n ready s h

pub idle-Settled :
    (g : NodeRegistry) (streams : List String) (connection : Sequence)
    → Settled (idle_master g streams connection)
unfolding is_confirmed is_cleared
idle-Settled g streams connection = record { confirming = refl; cleared = refl }

pub history-Settled : (cs : List Call) (s : MasterState) → Settled s → Settled (history cs s)
unfolding history
history-Settled [] s h = h
history-Settled (c ∷ cs) s h = history-Settled cs (act c s).0 (act-Settled c s h)

-- What an announced installation means: every expected node has confirmed exactly its part of the
-- plan, and the owners are those that the attempt requested.
pub record Agreed (s s' : MasterState) (result : InitResult) (subjects : List String) : Type 0 where
  pub attempt : PendingInitialization
  pub known : s.pending ≡ some attempt
  pub nodes : confirmed_by_all attempt.plan result.node_results attempt.expected ≡ true
  pub owners_are : assigned_nodes s'.registry ≡ attempt.requested_assignments
  pub subjects_are : subjects ≡ keys attempt.requested_assignments

pub assigned_nodes-replace_subjects :
    (m : List (String × String)) (g : NodeRegistry) → assigned_nodes (replace_subjects m g) ≡ m
unfolding assigned_nodes replace_subjects
assigned_nodes-replace_subjects [] g = refl
assigned_nodes-replace_subjects (x ∷ m) g = ap (λ r. x ∷ r) (assigned_nodes-replace_subjects m g)

-- The report says that the system is initialized.
abbrev pub announces : Option Report → Bool
announces none = false
announces (some (installed r session subjects)) = true
announces (some (failed_report r m missing)) = false
announces (some (refused c why)) = false

pub give_up-announces : (i m : String) (s : MasterState) → announces (give_up i m s).1 ≡ false
unfolding give_up retain
give_up-announces i m s = ground arith
