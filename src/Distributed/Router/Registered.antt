-- ===== src/Distributed/Router/Registered.antt =====
-- Which nodes get an answer to their heartbeat.
use nexus_n3_core.Prelude.{
  ℕ, String, ◌≡◌, refl, sym, ap, ◌∙◌, inl, inr, Bool, true, false, ◌&&◌, ◌||◌, none, some, List, [],
  ◌∷◌, arith, eq_iff, str_eq, contains, lookup, keys, contains-keys-insert, Option-cases,
  Bool-cases,
}
use nexus_n3_core.Distributed.Registry.{
  Node, NodeRegistry, register_node, heartbeat, replace_subjects,
}
use nexus_n3_core.Distributed.Initialization.{
  NodeReply, MasterState, record_initialization_reply, install, retain,
}
use nexus_n3_core.Distributed.Router.{
  Coordinator, MessageBody, register, heartbeat_body, initialized, system_initialized,
  stream_drained, official, other_body, Message, Reaction, heartbeat_ack, seen, react, received,
}

unfoldable pub knows : Coordinator → String → Bool
unfolding contains
knows c n = contains (keys c.master.registry.nodes) n

pub is_register : MessageBody → Bool
is_register (register ip role port capabilities) = true
is_register body = false

-- One of the messages registers the node.
unfoldable pub registers : List (ℕ × Message) → String → Bool
unfolding is_register
registers [] n = false
registers ((now, m) ∷ ms) n = (is_register m.body && str_eq m.node_id n) || registers ms n

-- The heartbeat is acknowledged.
unfoldable pub acks : List Reaction → Bool
acks [] = false
acks (heartbeat_ack identity ∷ rs) = true
acks (r ∷ rs) = acks rs

contains-keys-lookup :
    (n : String) (m : List (String × Node))
    → contains (keys m) n ≡ (elim (lookup n m) [ none ↦ false | some a ↦ true ])
unfolding contains lookup
contains-keys-lookup n [] = refl
contains-keys-lookup n ((k, a) ∷ m) = ground (arith, contains-keys-lookup n m)

keys-heartbeat :
    (now : ℕ) (k n : String) (g : NodeRegistry)
    → contains (keys (heartbeat now k g).nodes) n ≡ contains (keys g.nodes) n
unfolding heartbeat
keys-heartbeat now k n g = elim (Option-cases (lookup k g.nodes)) [
  | inl absent ↦ rw (absent, heartbeat) refl
  | inr (a, w) ↦
      rw (w, heartbeat)
        (contains-keys-insert k n (record a { last_seen = now }) g.nodes
          ∙ ground (arith, eq_iff k n, contains-keys-lookup k g.nodes))
]

seen-knows : (now : ℕ) (k n : String) (c : Coordinator) → knows (seen now k c) n ≡ knows c n
unfolding seen knows
seen-knows now k n c = elim (Bool-cases (str_eq k "")) [
  | inl empty ↦ rw (empty, seen) refl
  | inr given ↦ rw (given, seen) (keys-heartbeat now k n c.master.registry)
]

nodes-record_initialization_reply :
    (n : String) (failed : Bool) (p : NodeReply) (s : MasterState)
    → (record_initialization_reply n failed p s).0.registry.nodes ≡ s.registry.nodes
unfolding record_initialization_reply install retain replace_subjects
nodes-record_initialization_reply n failed p s = ground arith

abbrev pub message : String → String → MessageBody → Message
message identity node body = record { identity = identity; node_id = node; body = body }

react-knows_body :
    (now : ℕ) (body : MessageBody) (identity node n : String) (c : Coordinator)
    → knows (react now (message identity node body) c).0 n
      ≡ ((is_register body && str_eq node n) || knows c n)
unfolding react knows is_register register_node message
react-knows_body now (register ip role port capabilities) identity node n c =
    contains-keys-insert node n _ c.master.registry.nodes
react-knows_body now heartbeat_body identity node n c =
    elim (Option-cases (lookup node (seen now node c).master.registry.nodes)) [
      | inl absent ↦ rw (absent, react) (seen-knows now node n c)
      | inr (a, w) ↦ rw (w, react) (seen-knows now node n c)
    ]
react-knows_body now (initialized failed p) identity node n c =
    ap (λ m. contains (keys m) n)
      (nodes-record_initialization_reply node failed p (seen now node c).master)
    ∙ seen-knows now node n c
react-knows_body now system_initialized identity node n c = seen-knows now node n c
react-knows_body now (stream_drained p) identity node n c = seen-knows now node n c
react-knows_body now (official type p) identity node n c = seen-knows now node n c
react-knows_body now other_body identity node n c = seen-knows now node n c

react-knows :
    (now : ℕ) (m : Message) (n : String) (c : Coordinator)
    → knows (react now m c).0 n ≡ ((is_register m.body && str_eq m.node_id n) || knows c n)
unfolding message
react-knows now m n c = react-knows_body now m.body m.identity m.node_id n c

received-knows :
    (ms : List (ℕ × Message)) (n : String) (c : Coordinator)
    → knows (received ms c) n ≡ (registers ms n || knows c n)
unfolding received registers
received-knows [] n c = refl
received-knows ((now, m) ∷ ms) n c =
    ground (arith, received-knows ms n (react now m c).0, react-knows now m n c)

knows-lookup :
    (now : ℕ) (n : String) (c : Coordinator)
    → knows c n
      ≡ (elim (lookup n (seen now n c).master.registry.nodes) [ none ↦ false | some a ↦ true ])
unfolding knows
knows-lookup now n c =
    sym (seen-knows now n n c) ∙ contains-keys-lookup n (seen now n c).master.registry.nodes

acks-react :
    (now : ℕ) (identity n : String) (c : Coordinator)
    → acks (react now (message identity n heartbeat_body) c).1 ≡ knows c n
unfolding react acks message
acks-react now identity n c = elim (Option-cases (lookup n (seen now n c).master.registry.nodes)) [
  | inl absent ↦ rw (absent, react) (sym (knows-lookup now n c ∙ rw absent refl))
  | inr (a, w) ↦ rw (w, react) (sym (knows-lookup now n c ∙ rw w refl))
]

-- After any messages, a node's heartbeat is acknowledged exactly if the node was registered before
-- them or one of them registers it.
pub acks-received :
    (now : ℕ) (identity n : String) (ms : List (ℕ × Message)) (c : Coordinator)
    → acks (react now (message identity n heartbeat_body) (received ms c)).1
      ≡ (registers ms n || knows c n)
acks-received now identity n ms c =
    acks-react now identity n (received ms c) ∙ received-knows ms n c
