-- ===== src/Distributed/Drain/Decision.antt =====
-- When an acknowledgement ends a distributed stop.
use nexus_n3_core.Prelude.{
  String, ◌≡◌, refl, inl, inr, Bool, true, false, not, ◌&&◌, Option, none, some, List, [], ◌∷◌,
  arith, contains, subset, lookup, insert, keys, truthy, Option-cases, eq_iff,
}
use nexus_n3_core.Distributed.Drain.{
  Ack, DrainRecord, DrainState, Payload, DrainResult, Outcome, wait, publish_partial, finalize,
  ack_of, all_drained, should_finalize, drained_subjects, without, is_empty, drain_result,
  decide_drain, note_ack,
}

-- The node acknowledged, and was drained.
pub drained_at : List (String × Ack) → String → Bool
drained_at acks n = elim (lookup n acks) [ none ↦ false | some a ↦ a.drained ]

pub each_drained : List String → List (String × Ack) → Bool
unfolding drained_at
each_drained [] acks = true
each_drained (n ∷ ns) acks = drained_at acks n && each_drained ns acks

contains-keys :
    (n : String) (acks : List (String × Ack))
    → contains (keys acks) n ≡ (elim (lookup n acks) [ none ↦ false | some a ↦ true ])
unfolding contains lookup
contains-keys n [] = refl
contains-keys n ((m, a) ∷ acks) = ground (arith, contains-keys n acks)

-- The code's two passes over the expected nodes are one.
two_passes :
    (ns : List String) (acks : List (String × Ack))
    → (subset ns (keys acks) && all_drained ns acks) ≡ each_drained ns acks
unfolding subset all_drained each_drained drained_at
two_passes [] acks = refl
two_passes (n ∷ ns) acks = ground (arith, contains-keys n acks, two_passes ns acks)

-- The outcome ends the stop.
pub ends : Outcome → Bool
ends wait = false
ends (publish_partial r q) = true
ends (finalize q) = true

pub result_of : Outcome → Option DrainResult
result_of wait = none
result_of (publish_partial r q) = some q
result_of (finalize q) = some q

ends-decide_drain :
    (id : String) (r : DrainRecord) (s : DrainState)
    → ends (decide_drain id r s).1
      ≡ (each_drained r.expected_nodes r.acks && not r.finalizing && not r.finalized)
unfolding decide_drain ends should_finalize
ends-decide_drain id r s = ground (arith, two_passes r.expected_nodes r.acks)

module _ (node id : String) (p : Payload) (r : DrainRecord) (s : DrainState)
    (carries : truthy p.stop_session_id ≡ some id) (found : lookup id s.tracking ≡ some r) where
  -- The record with the new acknowledgement.
  abbrev pub acked : DrainRecord
  acked = record r { acks = insert node (ack_of p) r.acks }

  note_ack_lem : note_ack node (some p) s ≡ decide_drain id acked s
  unfolding note_ack
  note_ack_lem = ground (arith)

-- An acknowledgement of a known stop ends it exactly when each expected node has then acknowledged
-- that it drained, and the stop is not already being finalized or final.
pub ends-note_ack :
    (node id : String) (p : Payload) (r : DrainRecord) (s : DrainState)
    → truthy p.stop_session_id ≡ some id
    → lookup id s.tracking ≡ some r
    → ends (note_ack node (some p) s).1 ≡ (
        each_drained r.expected_nodes (insert node (ack_of p) r.acks)
        && not r.finalizing
        && not r.finalized)
ends-note_ack node id p r s carries found =
    rw (note_ack_lem node id p r s carries found)
      (ends-decide_drain id (record r { acks = insert node (ack_of p) r.acks }) s)

contains-without :
    (xs gone : List String) (a : String)
    → contains (without xs gone) a ≡ (contains xs a && not (contains gone a))
unfolding without contains
contains-without [] gone a = refl
contains-without (x ∷ xs) gone a = ground (arith, eq_iff x a, contains-without xs gone a)

without-empty : (xs gone : List String) → is_empty (without xs gone) ≡ subset xs gone
unfolding without subset
without-empty [] gone = refl
without-empty (x ∷ xs) gone = ground (arith, without-empty xs gone)

is_empty→nil : (xs : List String) → is_empty xs ≡ true → xs ≡ []
is_empty→nil [] h = refl
is_empty→nil (x ∷ xs) h = cc

-- What it means that a stop is finalized with the result `q`.
pub record IsFinal (s s' : DrainState) (q : DrainResult) : Type 0 where
  pub stop : DrainRecord
  pub known : lookup q.stop_session_id s.tracking ≡ some stop
  pub nodes : each_drained stop.expected_nodes q.acks ≡ true
  pub subjects : subset s.active (drained_subjects q.acks) ≡ true
  pub idle : s'.active ≡ []

IsFinal-decide_drain :
    (id : String) (r stop : DrainRecord) (s s' : DrainState) (q : DrainResult)
    → lookup id s.tracking ≡ some stop
    → r.expected_nodes ≡ stop.expected_nodes
    → decide_drain id r s ≡ (s', finalize q)
    → IsFinal s s' q
unfolding decide_drain should_finalize drain_result
IsFinal-decide_drain id r stop s s' q found same h = record {
  stop = stop;
  known = ground arith;
  nodes = ground (arith, two_passes r.expected_nodes r.acks);
  subjects = ground (arith, without-empty s.active (drained_subjects r.acks));
  idle = ground (arith, is_empty→nil (without s.active (drained_subjects r.acks)));
}

-- The session is finalized only when each node that the stop expects has acknowledged that it
-- drained, every subject that still streamed is among the acknowledged ones, and so no subject
-- streams any more.
pub note_ack-IsFinal :
    (node : String) (payload : Option Payload) (s s' : DrainState) (q : DrainResult)
    → note_ack node payload s ≡ (s', finalize q)
    → IsFinal s s' q
unfolding note_ack
note_ack-IsFinal node none s s' q h = cc
note_ack-IsFinal node (some p) s s' q h = elim (Option-cases (truthy p.stop_session_id)) [
  | inl e ↦ absurd (ground arith)
  | inr (id, e) ↦ elim (Option-cases (lookup id s.tracking)) [
    | inl f ↦ absurd (ground arith)
    | inr (r, f) ↦
        IsFinal-decide_drain id (record r { acks = insert node (ack_of p) r.acks }) r s s' q f refl
          (ground arith)
  ]
]
