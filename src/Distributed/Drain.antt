-- ===== src/Distributed/Drain.antt =====
-- nexus_n3/distributed/master_node.py, the stop barrier: one record for each distributed stop, the
-- drain acknowledgements of its nodes, and the finalization of the session once they have all
-- drained. The drain lock makes `note_ack` and `finish_drain` one step each; the finalization hook
-- runs between them, outside the lock, so acknowledgements may come in between.
pub mod Decision
pub mod Once
mod Tests
use Prim.Native.String.{◌++◌ as text_append}
use nexus_n3_core.Prelude.{
  String, Bool, true, false, not, ◌&&◌, ◌||◌, Option, none, some, List, [], ◌∷◌, ◌++◌,
  if◌then◌else◌, str_eq, contains, add, subset, lookup, insert, keys, truthy, sorted,
}

pub record Ack : Type 0 where
  pub status : String
  pub reason : Option String
  pub subject_ids : List String
  pub session_timestamp : Option String
  pub drained : Bool

pub record DrainRecord : Type 0 where
  pub scope : String
  pub subject_ids : List String
  pub expected_nodes : List String
  pub acks : List (String × Ack)
  pub finalizing : Bool
  pub finalized : Bool

-- `_drain_tracking` and `_active_stream_subjects`.
pub record DrainState : Type 0 where
  pub tracking : List (String × DrainRecord)
  pub active : List String

-- A key that the payload leaves out is `none`.
pub record Payload : Type 0 where
  pub stop_session_id : Option String
  pub status : Option String
  pub reason : Option String
  pub subject_ids : Option (List String)
  pub session_timestamp : Option String
  pub drained : Option Bool

pub record DrainResult : Type 0 where
  pub stop_session_id : String
  pub status : String
  pub reason : Option String
  pub session_timestamp : Option String
  pub acks : List (String × Ack)

-- What the thread goes on to do when it has released the lock.
pub data Outcome : Type 0 where
  wait : Outcome
  -- Other subjects still stream: publish the node results.
  publish_partial : DrainRecord → DrainResult → Outcome
  -- Nothing streams any more: finalize the session.
  finalize : DrainResult → Outcome

-- `_emit_aggregate_drain`
pub record AggregateDrain : Type 0 where
  pub result : DrainResult
  pub scope : String
  pub subject_ids : List String
  pub expected_node_ids : List String
  pub all_streams_drained : Bool

pub create_drain_record :
    String → (scope : String) → (subject_ids expected_nodes : List String) → DrainState → DrainState
create_drain_record id scope subject_ids expected_nodes s = record s {
  tracking =
      insert id
        (record {
          scope = scope;
          subject_ids = subject_ids;
          expected_nodes = expected_nodes;
          acks = [];
          finalizing = false;
          finalized = false;
        })
        s.tracking;
}

abbrev pub or_else {ℓ} : {A : Type ℓ} → Option A → A → A
or_else none d = d
or_else (some a) d = a

-- A key of the payload is there with a value or not at all: `null` is not told from a missing key.
pub ack_of : Payload → Ack
ack_of p = record {
  status = or_else p.status "ok";
  reason = p.reason;
  subject_ids = or_else p.subject_ids [];
  session_timestamp = p.session_timestamp;
  drained = or_else p.drained true;
}

-- `all(record["acks"][n].get("drained", True) for n in expected if n in record["acks"])`
pub all_drained : List String → List (String × Ack) → Bool
all_drained [] acks = true
all_drained (n ∷ ns) acks =
    (elim (lookup n acks) [ none ↦ true | some a ↦ a.drained ]) && all_drained ns acks

pub should_finalize : DrainRecord → Bool
unfolding all_drained
should_finalize r =
    subset r.expected_nodes (keys r.acks)
    && all_drained r.expected_nodes r.acks
    && not r.finalizing
    && not r.finalized

-- `_active_stream_subjects.difference_update(drained_subjects)`, over the subjects of every
-- acknowledgement.
pub drained_subjects : List (String × Ack) → List String
drained_subjects [] = []
drained_subjects ((n, a) ∷ acks) = a.subject_ids ++ drained_subjects acks

pub without : List String → List String → List String
without [] gone = []
without (x ∷ xs) gone = if contains gone x then without xs gone else x ∷ without xs gone

abbrev pub is_empty : List String → Bool
is_empty [] = true
is_empty (_ ∷ _) = false

pub any_failed : List (String × Ack) → Bool
any_failed [] = false
any_failed ((n, a) ∷ acks) = not (str_eq a.status "ok") || any_failed acks

reasons : List (String × Ack) → List String
reasons [] = []
reasons ((n, a) ∷ acks) = elim (truthy a.reason) [ none ↦ reasons acks | some r ↦ r ∷ reasons acks ]

-- `"; ".join(reasons) or None`
join_reasons : List String → Option String
join_reasons [] = none
join_reasons (r ∷ []) = some r
join_reasons (r ∷ q ∷ rs) = elim (join_reasons (q ∷ rs)) [
  | none ↦ some r
  | some rest ↦ some (text_append r (text_append "; " rest))
]

timestamps : List (String × Ack) → List String
timestamps [] = []
timestamps ((n, a) ∷ acks) = elim (truthy a.session_timestamp) [
  | none ↦ timestamps acks
  | some t ↦ add t (timestamps acks)
]

single : List String → Option String
single (t ∷ []) = some t
single _ = none

pub drain_result : String → List (String × Ack) → DrainResult
unfolding any_failed reasons join_reasons timestamps single
drain_result id acks = record {
  stop_session_id = id;
  status = if any_failed acks then "error" else "ok";
  reason = join_reasons (reasons acks);
  session_timestamp = single (timestamps acks);
  acks = acks;
}

-- The decision of `_record_drain_ack` on the record that holds the new acknowledgement.
pub decide_drain : String → DrainRecord → DrainState → DrainState × Outcome
unfolding should_finalize without
decide_drain id r s =
    if should_finalize r
    then (let active = without s.active (drained_subjects r.acks) in
        if is_empty active
        then (
          record {
            tracking = insert id (record r { finalizing = true }) s.tracking;
            active = active;
          },
          finalize (drain_result id r.acks),
        )
        else (
          record {
            tracking = insert id (record r { finalizing = false; finalized = true }) s.tracking;
            active = active;
          },
          publish_partial r (drain_result id r.acks),
        ))
    else (record s { tracking = insert id r s.tracking }, wait)

-- `_record_drain_ack` under the lock.
pub note_ack : String → Option Payload → DrainState → DrainState × Outcome
unfolding decide_drain ack_of
note_ack node none s = (s, wait)
note_ack node (some p) s = elim (truthy p.stop_session_id) [
  | none ↦ (s, wait)
  | some id ↦ elim (lookup id s.tracking) [
    | none ↦ (s, wait)
    | some r ↦ decide_drain id (record r { acks = insert node (ack_of p) r.acks }) s
  ]
]

aggregate : DrainRecord → DrainResult → Bool → AggregateDrain
aggregate r result all = record {
  result = result;
  scope = r.scope;
  subject_ids = r.subject_ids;
  expected_node_ids = sorted r.expected_nodes;
  all_streams_drained = all;
}

-- The end of a finalization: with no hook, or when the hook returned (`none`) or raised (`some`).
pub finish_drain :
    DrainResult → (raised : Option String) → DrainState → DrainState × Option AggregateDrain
unfolding aggregate
finish_drain result raised s = elim (lookup result.stop_session_id s.tracking) [
  | none ↦ (s, none)
  | some r ↦ elim raised [
    | none ↦ (
      record s {
        tracking =
            insert result.stop_session_id (record r { finalizing = false; finalized = true })
              s.tracking;
      },
      some (aggregate r result true),
    )
    | some error ↦ (
      record s {
        tracking = insert result.stop_session_id (record r { finalizing = false }) s.tracking;
      },
      some (aggregate r (record result { status = "error"; reason = some error }) true),
    )
  ]
]
