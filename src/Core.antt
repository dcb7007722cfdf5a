-- ===== src/Core.antt =====
-- nexus_n3/core: the subjects of a node and their samples.
pub mod Subject
pub mod SubjectGraph
pub mod Gate
