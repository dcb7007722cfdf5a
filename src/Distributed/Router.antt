-- ===== src/Distributed/Router.antt =====
-- nexus_n3/distributed/master_node.py, `_router_loop`: what the master does with one message of a
-- node. Every message names its node. The sockets' frames, the logs and the errors that the loop
-- catches are left out; the finalization that an acknowledgement may start is the step after it.
pub mod Registered
mod Tests
use nexus_n3_core.Prelude.{
  ℕ, String, Bool, true, false, Option, none, some, List, [], ◌∷◌, ◌++◌, if◌then◌else◌, str_eq,
  lookup,
}
use nexus_n3_core.Distributed.Registry.{Capabilities, Node, NodeRegistry, register_node, heartbeat}
use nexus_n3_core.Distributed.OfficialStart.{
  Tracking, EventType, Event, Effect, record_official_start_event,
}
use nexus_n3_core.Distributed.OfficialStart as OfficialStart
use nexus_n3_core.Distributed.Drain.{DrainState, Outcome, note_ack}
use nexus_n3_core.Distributed.Drain as Drain
use nexus_n3_core.Distributed.Initialization.{
  NodeReply, MasterState, Report, record_initialization_reply,
}

pub record Coordinator : Type 0 where
  pub master : MasterState
  pub official : Tracking
  pub drain : DrainState

pub data MessageBody : Type 0 where
  -- REGISTER
  register :
      (ip : Option String) (role : String) (compute_port : Option ℕ)
      → (capabilities : Option Capabilities) → MessageBody
  heartbeat_body : MessageBody
  -- EVT_NODE_INITIALIZED, or EVT_NODE_INITIALIZATION_FAILED
  initialized : (failed : Bool) → NodeReply → MessageBody
  system_initialized : MessageBody
  stream_drained : Option Drain.Payload → MessageBody
  official : EventType → Option OfficialStart.Payload → MessageBody
  other_body : MessageBody

pub record Message : Type 0 where
  pub identity : String
  pub node_id : String
  pub body : MessageBody

pub data Reaction : Type 0 where
  register_ack heartbeat_ack : (identity : String) → Reaction
  ai_broadcast : (force : Bool) → Reaction
  reported : Report → Reaction
  drained : Outcome → Reaction
  started : List Effect → Reaction
  -- `system_event_bus.emit`
  forwarded : Message → Reaction

abbrev pub when_ai : Bool → String → List Reaction
when_ai force role = if str_eq role "ai" then ai_broadcast force ∷ [] else []

abbrev pub report_list : Option Report → List Reaction
report_list none = []
report_list (some r) = reported r ∷ []

-- The registry after the sender's heartbeat.
pub seen : (now : ℕ) → String → Coordinator → Coordinator
seen now node c =
    if str_eq node ""
    then c
    else record c { master = record c.master { registry = heartbeat now node c.master.registry } }

pub react : (now : ℕ) → Message → Coordinator → Coordinator × List Reaction
unfolding seen
react now m c = elim m.body [
  | register ip role compute_port capabilities ↦ (
    record c {
      master = record c.master {
        registry =
            register_node now m.node_id ip role (some m.identity) compute_port capabilities
              c.master.registry;
      };
    },
    register_ack m.identity ∷ when_ai true role,
  )
  | heartbeat_body ↦
      let t = seen now m.node_id c in
      elim (lookup m.node_id t.master.registry.nodes) [
        | none ↦ (t, [])
        | some n ↦ (t, heartbeat_ack m.identity ∷ when_ai false n.role)
      ]
  | initialized failed p ↦
      let t = seen now m.node_id c in
      let (master, report) = record_initialization_reply m.node_id failed p t.master in
      (record t { master = master }, report_list report)
  | system_initialized ↦ (seen now m.node_id c, [])
  | stream_drained p ↦
      let t = seen now m.node_id c in
      let (drain, outcome) = note_ack m.node_id p t.drain in
      (record t { drain = drain }, drained outcome ∷ forwarded m ∷ [])
  | official type p ↦
      let t = seen now m.node_id c in
      let (tracking, effects) =
        record_official_start_event true true
          (record { node_id = some m.node_id; type = type; payload = p }) t.official in
      (record t { official = tracking }, started effects ∷ forwarded m ∷ [])
  | other_body ↦ (seen now m.node_id c, forwarded m ∷ [])
]

-- The messages in the order of their arrival; each comes with the time.
pub received : List (ℕ × Message) → Coordinator → Coordinator
unfolding react
received [] c = c
received ((now, m) ∷ ms) c = received ms (react now m c).0
