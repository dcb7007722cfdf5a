-- ===== src/Distributed/Router/Tests.antt =====
-- A worker that registers, and the theorem about heartbeats applied to it.
use nexus_n3_core.Prelude.{ℕ, ◌≡◌, ◌||◌, none, List, [], ◌∷◌}
use nexus_n3_core.Connect.State.{init}
use nexus_n3_core.Distributed.Initialization.Runs.{idle_master}
use nexus_n3_core.Distributed.Router.{
  Coordinator, Message, register, heartbeat_body, other_body, react, received,
}
use nexus_n3_core.Distributed.Router.Registered.{acks, knows, registers, message, acks-received}

abbrev fresh : Coordinator
fresh = record {
  master = idle_master (record { nodes = []; subjects = [] }) [] init;
  official = [];
  drain = record { tracking = []; active = [] };
}

abbrev traffic : List (ℕ × Message)
traffic =
    (1, message "id" "worker-01" heartbeat_body)
    ∷ (2, message "id" "worker-01" (register none "worker" none none))
    ∷ (3, message "id" "worker-01" other_body)
    ∷ []

acks-received_example :
    acks (react 4 (message "id" "worker-01" heartbeat_body) (received traffic fresh)).1
    ≡ (registers traffic "worker-01" || knows fresh "worker-01")
acks-received_example = acks-received 4 "id" "worker-01" traffic fresh
