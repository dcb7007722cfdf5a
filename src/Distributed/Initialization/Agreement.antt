-- ===== src/Distributed/Initialization/Agreement.antt =====
-- What the report of a finished initialization means, and what holds until a reset is complete.
use Prim.Native.String.{◌++◌ as text_append}
use nexus_n3_core.Prelude.{
  String, ◌≡◌, refl, sym, ap, ◌∙◌, inl, inr, Bool, true, false, not, ◌||◌, Option, none, some, List,
  [], ◌∷◌, map, arith, subset, insert, keys, Bool-cases, Option-cases,
}
use nexus_n3_core.Connect.State.{Sequence}
use nexus_n3_core.Distributed.Registry.{NodeRegistry, Assignment, assigned_nodes}
use nexus_n3_core.Distributed.Planner.{Submitted}
use nexus_n3_core.Distributed.Initialization.{
  NodeReply, PendingInitialization, InitializationRecovery, MasterState, InitResult, Report,
  installed, answers_attempt, confirms, install, retain, record_initialization_reply, result_of,
}
use nexus_n3_core.Distributed.Initialization.Attempt.{
  begin_initialization, end_dispatch, initialization_expired, prepare,
}
use nexus_n3_core.Distributed.Initialization.Confirmed.{
  Settled, is_confirmed, is_cleared, confirmed_by_all-subset, noted, replied, noted-Settled,
}
use nexus_n3_core.Distributed.Initialization.Runs.{
  Call, act, history, idle_master, history-Settled, idle-Settled, Agreed,
  assigned_nodes-replace_subjects, announces, give_up-announces, begun, replied_by, dispatched,
  timed_out, reset, cleaned, report_of,
}

same_report :
    (a b : MasterState) (r q : InitResult) (x y : List (String × String)) (u v : List String)
    → Path (MasterState × Option Report) (a, some (installed r x u)) (b, some (installed q y v))
    → (a ≡ b) × (r ≡ q) × (u ≡ v)
same_report a b r q x y u v e = (cc, cc, cc)

install-Agreed :
    (n : String) (p : NodeReply) (r : PendingInitialization) (s s' : MasterState)
    (result : InitResult) (session : List (String × String)) (subjects : List String)
    → Settled s
    → s.pending ≡ some r
    → confirms r.plan n p ≡ true
    → subset r.expected (keys (insert n p r.replies)) ≡ true
    → install (replied n p r) (noted n p r s) ≡ (s', some (installed result session subjects))
    → Agreed s s' result subjects
unfolding install is_confirmed result_of
install-Agreed n p r s s' result session subjects h w k complete e =
    let same = same_report _ s' _ result _ session _ subjects e in
    record {
      attempt = r;
      known = w;
      nodes = rw (sym (ap (λ q. q.node_results) same.1)) (
          confirmed_by_all-subset r.plan r.expected (insert n p r.replies)
            (noted-Settled n p r s h w k).confirming complete);
      owners_are =
          rw (sym (ap (λ t. assigned_nodes t.registry) same.0))
            (assigned_nodes-replace_subjects r.requested_assignments s.registry);
      subjects_are = sym same.2;
    }

silent :
    (a : MasterState) (o : Option Report) (s' : MasterState) (result : InitResult)
    (session : List (String × String)) (subjects : List String)
    → announces o ≡ false
    → Path (MasterState × Option Report) (a, o) (s', some (installed result session subjects))
    → true ≡ false
silent a o s' result session subjects quiet e = sym (ap (λ x. announces x.1) e) ∙ quiet

reply-Agreed :
    (n : String) (failed : Bool) (p : NodeReply) (s s' : MasterState) (result : InitResult)
    (session : List (String × String)) (subjects : List String)
    → Settled s
    → record_initialization_reply n failed p s ≡ (s', some (installed result session subjects))
    → Agreed s s' result subjects
unfolding record_initialization_reply retain
reply-Agreed n failed p s s' result session subjects h e = elim (Option-cases s.pending) [
  | inl idle ↦ absurd (
      ground (
        arith,
        silent s none s' result session subjects refl (rw (idle, record_initialization_reply) at e),
      ))
  | inr (r, w) ↦ elim (Bool-cases (answers_attempt r n p)) [
    | inr stale ↦ absurd (
        ground (
          arith,
          silent s none s' result session subjects refl
              (rw (w, stale, record_initialization_reply) at e),
        ))
    | inl ours ↦ elim (Bool-cases (failed || not (confirms r.plan n p))) [
      | inl bad ↦ absurd (
          ground (
            arith,
            silent _ _ s' result session subjects refl
                (rw (w, ours, bad, record_initialization_reply) at e),
          ))
      | inr good ↦ elim (Bool-cases (subset r.expected (keys (insert n p r.replies)))) [
        | inr more ↦ absurd (
            ground (
              arith,
              silent _ none s' result session subjects refl
                  (rw (w, ours, good, more, record_initialization_reply) at e),
            ))
        | inl complete ↦
            install-Agreed n p r s s' result session subjects h w (ground arith) complete
              (rw (w, ours, good, complete, record_initialization_reply) at e)
      ]
    ]
  ]
]

begin-announces :
    (c i : String) (check : Option String) (subjects : Submitted) (s : MasterState)
    → announces (report_of (begin_initialization c i check subjects s)).1 ≡ false
unfolding begin_initialization prepare
begin-announces c i check subjects s = ground arith

end_dispatch-announces :
    (i : String) (raised : Option String) (s : MasterState)
    → announces (end_dispatch i raised s).1 ≡ false
unfolding end_dispatch
end_dispatch-announces i none s = refl
end_dispatch-announces i (some e) s =
    give_up-announces i (text_append "System initialization dispatch failed: " e) s

act-Agreed :
    (c : Call) (s s' : MasterState) (result : InitResult) (session : List (String × String))
    (subjects : List String)
    → Settled s
    → act c s ≡ (s', some (installed result session subjects))
    → Agreed s s' result subjects
unfolding act initialization_expired
act-Agreed (replied_by n failed p) s s' r session subjects h e =
    reply-Agreed n failed p s s' r session subjects h e
act-Agreed (begun c i check ss) s s' r session subjects h e =
    absurd (ground (arith, silent _ _ s' r session subjects (begin-announces c i check ss s) e))
act-Agreed (dispatched i raised) s s' r session subjects h e =
    absurd (ground (arith, silent _ _ s' r session subjects (end_dispatch-announces i raised s) e))
act-Agreed (timed_out i) s s' r session subjects h e = absurd (
    ground (
      arith,
      silent _ _ s' r session subjects (give_up-announces i "System initialization timed out" s) e,
    ))
act-Agreed (reset c) s s' r session subjects h e =
    absurd (ground (arith, silent _ none s' r session subjects refl e))
act-Agreed (cleaned c n ready) s s' r session subjects h e =
    absurd (ground (arith, silent _ none s' r session subjects refl e))

-- From a master without an attempt or a recovery, whatever calls of the barrier came before, in
-- whatever order: when the system is announced as initialized, an attempt was pending, each node that it expects has confirmed exactly the subjects that the plan gives it,
-- and the registry's owners and the announced subjects are those that the attempt requested.
pub history-Agreed :
    (g : NodeRegistry) (streams : List String) (connection : Sequence) (cs : List Call) (c : Call)
    (s' : MasterState) (result : InitResult) (session : List (String × String))
    (subjects : List String)
    → act c (history cs (idle_master g streams connection))
      ≡ (s', some (installed result session subjects))
    → Agreed (history cs (idle_master g streams connection)) s' result subjects
history-Agreed g streams connection cs c s' result session subjects e =
    act-Agreed c (history cs (idle_master g streams connection)) s' result session subjects
      (history-Settled cs (idle_master g streams connection) (idle-Settled g streams connection)) e

is_cleared-empty :
    (r : InitializationRecovery) (p : Option PendingInitialization) (o : List (String × Assignment))
    → is_cleared (some r) p o ≡ true
    → (p ≡ none) × (o ≡ [])
unfolding is_cleared
is_cleared-empty r none [] h = (refl, refl)
is_cleared-empty r none (_ ∷ _) h = absurd (ground arith)
is_cleared-empty r (some _) o h = absurd (ground arith)

-- From a master without an attempt or a recovery, after any calls of the barrier, in whatever order:
-- while a reset is required, no attempt is pending and no subject has an owner.
pub history-unowned :
    (g : NodeRegistry) (streams : List String) (connection : Sequence) (cs : List Call)
    (r : InitializationRecovery)
    → (history cs (idle_master g streams connection)).recovery ≡ some r
    → ((history cs (idle_master g streams connection)).pending ≡ none)
      × (assigned_nodes (history cs (idle_master g streams connection)).registry ≡ [])
unfolding assigned_nodes is_cleared
history-unowned g streams connection cs r w =
    let s = history cs (idle_master g streams connection) in
    let empty = is_cleared-empty r s.pending s.registry.subjects (
      rw w at
        (history-Settled cs (idle_master g streams connection)
          (idle-Settled g streams connection)).cleared) in
    (empty.0, ap (map (λ x. (x.0, x.1.assigned_node))) empty.1)
