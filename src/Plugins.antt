-- ===== src/Plugins.antt =====
-- nexus_n3/plugins: the connection between the core and the process of a plug-in.
pub mod Rpc
