-- ===== src/Distributed/Initialization/Attempt.antt =====
-- nexus_n3/distributed/master_node.py: `_begin_initialization`, the record of an attempt, its timer
-- and the end of its dispatch.
use Prim.Native.String.{◌++◌ as text_append}
use nexus_n3_core.Prelude.{
  String, true, false, ◌||◌, Option, none, some, List, [], ◌∷◌, ◌++◌, map, if◌then◌else◌, str_eq,
  add, discard, lookup, insert, truthy,
}
use nexus_n3_core.Distributed.Registry.{NodeRegistry, get_identity, assigned_nodes}
use nexus_n3_core.Distributed.Planner.{
  SubjectConfig, Submitted, not_list, entries, Plan, ok, err, subjects_of, owners, all_subjects,
  plan_subject_assignments,
}
use nexus_n3_core.Distributed.Initialization.{
  PendingInitialization, MasterState, Report, NodeCommand, master_node, give_up, is_given,
  unsettled, acquiring, local_error, unplanned, unavailable, refused,
}

unfoldable pub set_default : List String → Plan → Plan
set_default [] plan = plan
set_default (n ∷ ns) plan = elim (lookup n plan) [
  | none ↦ set_default ns (insert n [] plan)
  | some _ ↦ set_default ns plan
]

-- The first required node, other than the master, that has no identity.
unfoldable pub first_unavailable : List String → NodeRegistry → Option String
first_unavailable [] g = none
first_unavailable (n ∷ ns) g =
    if str_eq n master_node
    then first_unavailable ns g
    else (elim (truthy (get_identity n g)) [ none ↦ some n | some _ ↦ first_unavailable ns g ])

unfoldable pub add_all : List String → List String → List String
add_all [] xs = xs
add_all (y ∷ ys) xs = add y (add_all ys xs)

-- `set(previous.values()) | set(requested.values()) | {self.node_id}`
unfoldable pub required_nodes : List (String × String) → List (String × String) → List String
unfolding add_all
required_nodes previous requested =
    add_all (map (λ x. x.1) previous) (add_all (map (λ x. x.1) requested) (master_node ∷ []))

abbrev pub submitted_subjects : Submitted → List SubjectConfig
submitted_subjects not_list = []
submitted_subjects (entries es) = elim (all_subjects es) [ none ↦ [] | some subs ↦ subs ]

pub data Begun : Type 0 where
  turned_down : Report → Begun
  -- The commands, in order; those for the other nodes come first.
  dispatch : List NodeCommand → Begun

unfoldable pub node_commands : Plan → String → List String → List NodeCommand
node_commands plan id [] = []
node_commands plan id (n ∷ ns) =
    record { node = n; subjects = subjects_of n plan; initialization_id = id }
    ∷ node_commands plan id ns

-- The record of an attempt.
unfoldable pub new_attempt :
    (correlation_id initialization_id : String)
    → Submitted
    → Plan
    → NodeRegistry
    → PendingInitialization
unfolding set_default required_nodes
new_attempt correlation_id initialization_id subjects planned g =
    let previous = assigned_nodes g in
    let requested = owners planned in
    let required = required_nodes previous requested in
    record {
      correlation_id = correlation_id;
      initialization_id = initialization_id;
      previous_assignments = previous;
      requested_assignments = requested;
      expected = required;
      plan = set_default required planned;
      replies = [];
      connection_subjects = submitted_subjects subjects;
    }

-- The attempt for a plan, whose nodes must be available.
unfoldable pub prepare : PendingInitialization → MasterState → MasterState × Begun
unfolding first_unavailable node_commands
prepare r s = elim (first_unavailable r.expected s.registry) [
  | some node ↦ (s, turned_down (refused r.correlation_id (unavailable node)))
  | none ↦ (
    record s { pending = some r; dispatching = true },
    dispatch (
        node_commands r.plan r.initialization_id
          (discard master_node r.expected ++ master_node ∷ [])),
  )
]

-- `_begin_initialization` under the lock. `local_check` is what the local handler raises, if it is
-- missing or not ready.
unfoldable pub begin_initialization :
    (correlation_id initialization_id : String) (local_check : Option String)
    → Submitted
    → MasterState
    → MasterState × Begun
unfolding prepare new_attempt
begin_initialization correlation_id initialization_id local_check subjects s =
    if is_given s.pending || is_given s.recovery || s.dispatching
    then (s, turned_down (refused correlation_id unsettled))
    else elim s.active_streams [
      | _ ∷ _ ↦ (s, turned_down (refused correlation_id acquiring))
      | [] ↦ elim local_check [
        | some e ↦ (s, turned_down (refused correlation_id (local_error e)))
        | none ↦ elim (plan_subject_assignments s.registry subjects) [
          | err e ↦ (s, turned_down (refused correlation_id (unplanned e)))
          | ok planned ↦
              prepare (new_attempt correlation_id initialization_id subjects planned s.registry) s
        ]
      ]
    ]

-- The timer's callback.
unfoldable pub initialization_expired : String → MasterState → MasterState × Option Report
unfolding give_up
initialization_expired id s = give_up id "System initialization timed out" s

-- The end of the dispatch: with an exception the attempt is given up.
unfoldable pub end_dispatch : String → Option String → MasterState → MasterState × Option Report
unfolding give_up
end_dispatch id raised s = elim raised [
  | none ↦ (record s { dispatching = false }, none)
  | some e ↦
      let (t, out) = give_up id (text_append "System initialization dispatch failed: " e) s in
      (record t { dispatching = false }, out)
]
