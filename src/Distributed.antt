-- ===== src/Distributed.antt =====
-- nexus_n3/distributed: the coordinator (master_node.py) and its registry (registry.py).
pub mod Registry
pub mod Planner
pub mod OfficialStart
pub mod Drain
pub mod Initialization
pub mod Routing
pub mod Router
mod Tests
