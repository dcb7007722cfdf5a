-- ===== src/Distributed/Initialization/Confirmed.antt =====
-- Runs of the initialization barrier: what a confirmed initialization means, and what holds while
-- a reset is required.
use nexus_n3_core.Prelude.{
  String, ◌≡◌, refl, inl, inr, Bool, true, false, not, ◌&&◌, ◌||◌, Option, none, some, List, [],
  ◌∷◌, arith, str_eq, contains, subset, lookup, insert, keys, Bool-cases, Option-cases, eq_iff,
}
use nexus_n3_core.Distributed.Registry.{replace_subjects, Assignment}
use nexus_n3_core.Distributed.Planner.{Plan}
use nexus_n3_core.Distributed.Initialization.{
  NodeReply, PendingInitialization, InitializationRecovery, MasterState, confirms, answers_attempt,
  install, retain, give_up, record_initialization_reply, failure_message,
}

-- Every reply confirms its node's part of a plan.
unfoldable pub all_confirm : Plan → List (String × NodeReply) → Bool
unfolding confirms
all_confirm plan [] = true
all_confirm plan ((n, p) ∷ replies) = confirms plan n p && all_confirm plan replies

-- The node replied, and confirmed its part of the plan.
pub confirmed_by : Plan → List (String × NodeReply) → String → Bool
unfolding confirms
confirmed_by plan replies n = elim (lookup n replies) [ none ↦ false | some p ↦ confirms plan n p ]

pub confirmed_by_all : Plan → List (String × NodeReply) → List String → Bool
unfolding confirmed_by
confirmed_by_all plan replies [] = true
confirmed_by_all plan replies (n ∷ ns) =
    confirmed_by plan replies n && confirmed_by_all plan replies ns

all_confirm-insert :
    (plan : Plan) (n : String) (p : NodeReply) (replies : List (String × NodeReply))
    → confirms plan n p ≡ true
    → all_confirm plan replies ≡ true
    → all_confirm plan (insert n p replies) ≡ true
unfolding all_confirm insert
all_confirm-insert plan n p [] k h = ground arith
all_confirm-insert plan n p ((m, q) ∷ replies) k h =
    ground (arith, eq_iff m n, all_confirm-insert plan n p replies k)

confirmed_by-all_confirm :
    (plan : Plan) (n : String) (replies : List (String × NodeReply))
    → all_confirm plan replies ≡ true
    → contains (keys replies) n ≡ true
    → confirmed_by plan replies n ≡ true
unfolding all_confirm confirmed_by lookup contains
confirmed_by-all_confirm plan n [] h k = k
confirmed_by-all_confirm plan n ((m, q) ∷ replies) h k =
    ground (arith, eq_iff m n, confirmed_by-all_confirm plan n replies)

pub confirmed_by_all-subset :
    (plan : Plan) (ns : List String) (replies : List (String × NodeReply))
    → all_confirm plan replies ≡ true
    → subset ns (keys replies) ≡ true
    → confirmed_by_all plan replies ns ≡ true
unfolding confirmed_by_all subset
confirmed_by_all-subset plan [] replies h k = refl
confirmed_by_all-subset plan (n ∷ ns) replies h k =
    ground
      (arith, confirmed_by-all_confirm plan n replies h, confirmed_by_all-subset plan ns replies h)

unfoldable pub is_confirmed : Option PendingInitialization → Bool
unfolding all_confirm
is_confirmed none = true
is_confirmed (some r) = all_confirm r.plan r.replies

-- While a reset is required, nothing is pending and no subject has an owner.
unfoldable pub is_cleared :
    Option InitializationRecovery → Option PendingInitialization → List (String × Assignment) → Bool
is_cleared none pending owners = true
is_cleared (some r) none [] = true
is_cleared (some r) none (_ ∷ _) = false
is_cleared (some r) (some q) owners = false

pub record Settled (s : MasterState) : Type 0 where
  pub confirming : is_confirmed s.pending ≡ true
  pub cleared : is_cleared s.recovery s.pending s.registry.subjects ≡ true

alone :
    (recovery : Option InitializationRecovery) (r : PendingInitialization)
    (owners : List (String × Assignment))
    → is_cleared recovery (some r) owners ≡ true
    → recovery ≡ none
unfolding is_cleared
alone none r owners h = refl
alone (some q) r owners h = absurd (ground arith)

pub retain-Settled :
    (m : String) (r : PendingInitialization) (s : MasterState) → Settled (retain m r s).0
unfolding retain is_confirmed is_cleared replace_subjects
retain-Settled m r s = record { confirming = refl; cleared = refl }

install-Settled :
    (r : PendingInitialization) (s : MasterState) → s.recovery ≡ none → Settled (install r s).0
unfolding install is_confirmed is_cleared
install-Settled r s e = record { confirming = refl; cleared = rw e refl }

pub give_up-Settled : (id m : String) (s : MasterState) → Settled s → Settled (give_up id m s).0
unfolding give_up
give_up-Settled id m s h = elim (Option-cases s.pending) [
  | inl idle ↦ rw (idle, give_up) h
  | inr (r, w) ↦ elim (Bool-cases (str_eq r.initialization_id id)) [
    | inl same ↦ rw (w, same, give_up) (retain-Settled m r s)
    | inr other ↦ rw (w, other, give_up) h
  ]
]

abbrev pub replied : String → NodeReply → PendingInitialization → PendingInitialization
replied n p r = record r { replies = insert n p r.replies }

abbrev pub noted : String → NodeReply → PendingInitialization → MasterState → MasterState
noted n p r s = record s { pending = some (replied n p r) }

-- A pending attempt with one more confirming reply.
pub noted-Settled :
    (n : String) (p : NodeReply) (r : PendingInitialization) (s : MasterState)
    → Settled s
    → s.pending ≡ some r
    → confirms r.plan n p ≡ true
    → Settled (noted n p r s)
unfolding is_confirmed is_cleared
noted-Settled n p r s h w k =
    let e = alone s.recovery r s.registry.subjects (rw w at h.cleared) in
    record {
      confirming = all_confirm-insert r.plan n p r.replies k (rw w at h.confirming);
      cleared = rw e refl;
    }

pub record_initialization_reply-Settled :
    (n : String) (failed : Bool) (p : NodeReply) (s : MasterState)
    → Settled s
    → Settled (record_initialization_reply n failed p s).0
unfolding record_initialization_reply
record_initialization_reply-Settled n failed p s h = elim (Option-cases s.pending) [
  | inl idle ↦ rw (idle, record_initialization_reply) h
  | inr (r, w) ↦ elim (Bool-cases (answers_attempt r n p)) [
    | inr stale ↦ rw (w, stale, record_initialization_reply) h
    | inl ours ↦ elim (Bool-cases (failed || not (confirms r.plan n p))) [
      | inl bad ↦
          rw (w, ours, bad, record_initialization_reply)
            (retain-Settled (failure_message n p) (replied n p r) (noted n p r s))
      | inr good ↦
          let kept = noted-Settled n p r s h w (ground arith) in
          elim (Bool-cases (subset r.expected (keys (insert n p r.replies)))) [
            | inr more ↦ rw (w, ours, good, more, record_initialization_reply) kept
            | inl complete ↦
                rw (w, ours, good, complete, record_initialization_reply)
                  (install-Settled (replied n p r) (noted n p r s)
                    (alone s.recovery r s.registry.subjects (rw w at h.cleared)))
          ]
    ]
  ]
]
