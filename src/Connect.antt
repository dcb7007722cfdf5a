-- ===== src/Connect.antt =====
-- nexus_n3/core/subject_connection_sequence.py: the ordered Connect All workflow.
pub mod State
pub mod Sequence
pub mod Replies
pub mod Events
pub mod Sound
pub mod Safety
mod Tests
