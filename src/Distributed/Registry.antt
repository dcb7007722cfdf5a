-- ===== src/Distributed/Registry.antt =====
-- nexus_n3/distributed/registry.py and capabilities.py: the nodes of a deployment, what each can
-- run, and which node owns which subject. The clock is an argument, `now`; the reentrant lock makes
-- each method one step.
use nexus_n3_core.Prelude.{
  ℕ, String, Bool, true, false, Option, none, some, List, [], ◌∷◌, map, if◌then◌else◌, str_eq,
  contains, lookup, insert, strip, lower, nonempty,
}

pub record Capabilities : Type 0 where
  pub supported_sensors : List String
  pub supported_algorithms : List String

abbrev pub no_capabilities : Capabilities
no_capabilities = record { supported_sensors = []; supported_algorithms = [] }

pub record Node : Type 0 where
  pub ip : Option String
  pub role : String
  pub identity : Option String
  pub last_seen : ℕ
  pub compute_port : Option ℕ
  pub capabilities : Capabilities

pub record Assignment : Type 0 where
  pub assigned_node : String
  pub meta : List (String × String)

pub record NodeRegistry : Type 0 where
  pub nodes : List (String × Node)
  pub subjects : List (String × Assignment)

abbrev pub or_empty : Option Capabilities → Capabilities
or_empty none = no_capabilities
or_empty (some c) = c

unfoldable pub register_node :
    (now : ℕ) (node_id : String) (ip : Option String) (role : String) (identity : Option String)
    (compute_port : Option ℕ) (capabilities : Option Capabilities)
    → NodeRegistry
    → NodeRegistry
register_node now node_id ip role identity compute_port capabilities g = record g {
  nodes =
      insert node_id
        (record {
          ip = ip;
          role = role;
          identity = identity;
          last_seen = now;
          compute_port = compute_port;
          capabilities = or_empty capabilities;
        })
        g.nodes;
}

unfoldable pub heartbeat : (now : ℕ) → String → NodeRegistry → NodeRegistry
heartbeat now node_id g = elim (lookup node_id g.nodes) [
  | none ↦ g
  | some n ↦ record g { nodes = insert node_id (record n { last_seen = now }) g.nodes }
]

-- The items whose node passes a test, in the order of the dictionary.
unfoldable pub filter_nodes : (Node → Bool) → List (String × Node) → List (String × Node)
filter_nodes test [] = []
filter_nodes test ((k, n) ∷ m) =
    if test n then (k, n) ∷ filter_nodes test m else filter_nodes test m

pub get_worker_ids : NodeRegistry → List String
unfolding filter_nodes
get_worker_ids g = map (λ x. x.0) (filter_nodes (λ n. str_eq n.role "worker") g.nodes)

pub get_ai_nodes : NodeRegistry → List (String × Node)
unfolding filter_nodes
get_ai_nodes g = filter_nodes (λ n. str_eq n.role "ai") g.nodes

-- One entry of the snapshot that `set_ai_nodes` installs; a missing key is `none`.
pub record AiNode : Type 0 where
  pub ip : Option String
  pub last_seen : Option ℕ
  pub compute_port : Option ℕ
  pub capabilities : Option Capabilities

pub ai_entry : (now : ℕ) → AiNode → Node
ai_entry now a = record {
  ip = a.ip;
  role = "ai";
  identity = none;
  last_seen = (elim a.last_seen [ none ↦ now | some t ↦ t ]);
  compute_port = a.compute_port;
  capabilities = or_empty a.capabilities;
}

install_ai : (now : ℕ) → List (String × AiNode) → List (String × Node) → List (String × Node)
unfolding ai_entry
install_ai now [] m = m
install_ai now ((k, a) ∷ rest) m = install_ai now rest (insert k (ai_entry now a) m)

pub set_ai_nodes : (now : ℕ) → List (String × AiNode) → NodeRegistry → NodeRegistry
unfolding filter_nodes install_ai
set_ai_nodes now snapshot g = record g {
  nodes =
      install_ai now snapshot
        (filter_nodes (λ n. if str_eq n.role "ai" then false else true) g.nodes);
}

unfoldable pub get_identity : String → NodeRegistry → Option String
get_identity node_id g = elim (lookup node_id g.nodes) [ none ↦ none | some n ↦ n.identity ]

-- `{subject_id: {...} for subject_id, node_id in assignments.items()}`
unfoldable pub replace_subjects : List (String × String) → NodeRegistry → NodeRegistry
replace_subjects assignments g = record g {
  subjects = map (λ x. (x.0, record { assigned_node = x.1; meta = [] })) assignments;
}

pub assign_subject :
    (subject_id node_id : String) (meta : List (String × String)) → NodeRegistry → NodeRegistry
assign_subject subject_id node_id meta g = record g {
  subjects = insert subject_id (record { assigned_node = node_id; meta = meta }) g.subjects;
}

-- `_normalize_name`
pub normalize_name : String → String
normalize_name name = lower (strip name)

supports : List String → String → Bool
unfolding normalize_name
supports names name = elim (nonempty name) [
  | none ↦ false
  | some _ ↦ contains (map normalize_name names) (normalize_name name)
]

unfoldable pub supports_sensor : Capabilities → String → Bool
unfolding supports
supports_sensor c name = supports c.supported_sensors name

unfoldable pub supports_algorithm : Capabilities → String → Bool
unfolding supports
supports_algorithm c name = supports c.supported_algorithms name

-- `get_subjects`, its part about the nodes: `{sid: sub["assigned_node"] for ...}`.
unfoldable pub assigned_nodes : NodeRegistry → List (String × String)
assigned_nodes g = map (λ x. (x.0, x.1.assigned_node)) g.subjects
