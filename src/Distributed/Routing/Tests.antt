-- ===== src/Distributed/Routing/Tests.antt =====
-- A stop for three subjects on two nodes, and the theorem about routing applied to it.
use mathlib.Core.List.{Perm}
use nexus_n3_core.Prelude.{String, ◌≡◌, refl, none, [], ◌∷◌, map, lookup, insert}
use nexus_n3_core.Distributed.Registry.{NodeRegistry, Assignment, assigned_nodes}
use nexus_n3_core.Distributed.Routing.{
  stop_stream, StreamCommand, Barriers, owner, group, deliveries_for, delivery, in_order, remote,
  local, route, identified,
}
use nexus_n3_core.Distributed.Routing.Deliveries.{carried, route-owners}

abbrev on : String → Assignment
on node = record { assigned_node = node; meta = [] }

abbrev registry : NodeRegistry
registry = record {
  nodes = [];
  subjects = ("a", on "master") ∷ ("b", on "worker-01") ∷ ("c", on "master") ∷ [];
}

abbrev stop : StreamCommand
stop = record {
  kind = stop_stream;
  subject_ids = "a" ∷ "b" ∷ "c" ∷ [];
  session_timestamp = none;
  start_session_id = none;
  stop_session_id = none;
}

abbrev no_barriers : Barriers
no_barriers = record { official = []; drain = record { tracking = []; active = [] } }

-- The worker comes first.
nodes_of-route :
    map (λ d. d.node) (route "now" "id" registry stop no_barriers).1 ≡ "worker-01" ∷ "master" ∷ []
unfolding route identified group owner assigned_nodes lookup insert deliveries_for delivery in_order
    remote local
nodes_of-route = refl

route-owners_example :
    Perm (carried (route "now" "id" registry stop no_barriers).1) ("a" ∷ "b" ∷ "c" ∷ [])
route-owners_example = (route-owners "now" "id" registry stop no_barriers "a" ("b" ∷ "c" ∷ [])).0
