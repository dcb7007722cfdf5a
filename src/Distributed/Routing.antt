-- ===== src/Distributed/Routing.antt =====
-- nexus_n3/distributed/master_node.py: the part of `dispatch_command` that sends a command for
-- subjects to the nodes that own them, and `send_command`. `now` and `fresh` are what the clock and
-- `uuid4` give. The local handler is called for a delivery to the master.
pub mod Deliveries
mod Tests
use nexus_n3_core.Prelude.{
  ℕ, String, Bool, true, false, not, ◌&&◌, ◌||◌, Option, none, some, List, [], ◌∷◌, ◌++◌, map,
  if◌then◌else◌, str_eq, contains, add, lookup, insert, keys, truthy,
}
use nexus_n3_core.Distributed.Registry.{NodeRegistry, assigned_nodes, get_identity, get_worker_ids}
use nexus_n3_core.Distributed.OfficialStart.{Tracking, create_official_start_record}
use nexus_n3_core.Distributed.Drain.{DrainState, create_drain_record}

pub data CommandKind : Type 0 where
  start_stream stop_stream other_command : CommandKind

pub record StreamCommand : Type 0 where
  pub kind : CommandKind
  pub subject_ids : List String
  pub session_timestamp : Option String
  pub start_session_id : Option String
  pub stop_session_id : Option String

-- The state that a command for subjects changes.
pub record Barriers : Type 0 where
  pub official : Tracking
  pub drain : DrainState

-- The payload for one node; `none` leaves the key as the command has it.
pub record Delivery : Type 0 where
  pub node : String
  pub subject_ids : Option (List String)
  pub session_timestamp : Option String
  pub start_session_id : Option String
  pub stop_session_id : Option String
  -- `official_start_mode` is set to "coordinated"
  pub coordinated : Bool

abbrev pub self_node : String
self_node = "master"

-- `registry.get_subjects().get(subject_id, {}).get("assigned_node", "master")`
pub owner : NodeRegistry → String → String
owner g x = elim (lookup x (assigned_nodes g)) [ none ↦ self_node | some n ↦ n ]

abbrev pub ids_at : String → List (String × List String) → List String
ids_at n m = elim (lookup n m) [ none ↦ [] | some ids ↦ ids ]

-- `nodes_to_subjects`
pub group : NodeRegistry → List String → List (String × List String) → List (String × List String)
unfolding owner
group g [] m = m
group g (x ∷ xs) m = group g xs (insert (owner g x) (ids_at (owner g x) m ++ x ∷ []) m)

-- `nodes_with_subjects`
pub owning_nodes : List (String × String) → List String
owning_nodes [] = []
owning_nodes ((x, n) ∷ m) = add n (owning_nodes m)

abbrev pub or_fresh : Option String → String → String
or_fresh given fresh = elim (truthy given) [ none ↦ fresh | some id ↦ id ]

-- The identifiers that a start or a stop carries.
pub identified : (now fresh : String) → StreamCommand → StreamCommand
identified now fresh c = elim c.kind [
  | start_stream ↦ record c {
    session_timestamp = some (or_fresh c.session_timestamp now);
    start_session_id = some (or_fresh c.start_session_id fresh);
  }
  | stop_stream ↦ record c { stop_session_id = some (or_fresh c.stop_session_id fresh) }
  | other_command ↦ c
]

abbrev pub is_start : CommandKind → Bool
is_start start_stream = true
is_start kind = false

add_each : List String → List String → List String
add_each [] xs = xs
add_each (y ∷ ys) xs = add_each ys (add y xs)

-- The barriers that a start or a stop opens.
pub open_barriers :
    (scope : String) → StreamCommand → (subject_ids nodes : List String) → Barriers → Barriers
unfolding add_each
open_barriers scope c ids nodes s = elim c.kind [
  | other_command ↦ s
  | start_stream ↦ record {
    official = elim c.start_session_id [
      | none ↦ s.official
      | some id ↦ create_official_start_record id c.session_timestamp ids nodes
    ];
    drain = record s.drain { active = add_each ids s.drain.active };
  }
  | stop_stream ↦ elim c.stop_session_id [
    | none ↦ s
    | some id ↦ record s { drain = create_drain_record id scope ids nodes s.drain }
  ]
]

pub delivery : StreamCommand → Option (List String) → String → Delivery
delivery c ids n = record {
  node = n;
  subject_ids = ids;
  session_timestamp = c.session_timestamp;
  start_session_id = c.start_session_id;
  stop_session_id = c.stop_session_id;
  coordinated = is_start c.kind;
}

pub remote : List Delivery → List Delivery
remote [] = []
remote (d ∷ ds) = if str_eq d.node self_node then remote ds else d ∷ remote ds

pub local : List Delivery → List Delivery
local [] = []
local (d ∷ ds) = if str_eq d.node self_node then d ∷ local ds else local ds

-- A stop goes to the other nodes first.
pub in_order : CommandKind → List Delivery → List Delivery
unfolding remote local
in_order start_stream ds = ds
in_order other_command ds = ds
in_order stop_stream ds = remote ds ++ local ds

pub deliveries_for : StreamCommand → List (String × List String) → List Delivery
unfolding delivery
deliveries_for c [] = []
deliveries_for c ((n, ids) ∷ m) = delivery c (some ids) n ∷ deliveries_for c m

pub deliveries_to : StreamCommand → List String → List Delivery
unfolding delivery
deliveries_to c [] = []
deliveries_to c (n ∷ ns) = delivery c none n ∷ deliveries_to c ns

-- The general part of `dispatch_command`.
pub route :
    (now fresh : String) → NodeRegistry → StreamCommand → Barriers → Barriers × List Delivery
unfolding identified group owning_nodes open_barriers in_order deliveries_for deliveries_to
route now fresh g command s =
    let c = identified now fresh command in
    elim command.subject_ids [
      | _ ∷ _ ↦
          let groups = group g command.subject_ids [] in
          (
            open_barriers "subjects" c command.subject_ids (keys groups) s,
            in_order command.kind (deliveries_for c groups),
          )
      | [] ↦
          let owned = assigned_nodes g in
          let nodes = owning_nodes owned in
          (
            open_barriers "all" c (keys owned) nodes s,
            in_order command.kind (deliveries_to c nodes),
          )
    ]

known_identities : List String → NodeRegistry → List String
known_identities [] g = []
known_identities (n ∷ ns) g = elim (truthy (get_identity n g)) [
  | none ↦ known_identities ns g
  | some identity ↦ identity ∷ known_identities ns g
]

-- `send_command`: the identities that a message is sent to; an unknown node gets none.
pub send_command : Option String → NodeRegistry → List String
unfolding known_identities
send_command target g = elim (truthy target) [
  | some node ↦ known_identities (node ∷ []) g
  | none ↦ known_identities (get_worker_ids g) g
]
