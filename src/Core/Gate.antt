-- ===== src/Core/Gate.antt =====
-- nexus_n3/core/startup_gate.py and the startup gate of nexus_n3/core/core.py: the measures of the
-- sensors, the state of the gate and its operations, and the steps that threads take on it.
pub mod Stats
pub mod State
pub mod Official
pub mod Commands
pub mod Callbacks
pub mod Prepared
pub mod Steps
pub mod Sound
pub mod Kept
pub mod Activated
pub mod Safety
pub mod Stale
pub mod Stages
pub mod Outcome
mod Tests
mod Samples
mod Stable
