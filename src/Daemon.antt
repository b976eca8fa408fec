-- ===== src/Daemon.antt =====
-- The daemon: sandd/src/main.rs.
pub mod Serve
pub mod Reconnect
pub mod Download
pub mod Executor
pub mod Arguments
pub mod Messages
pub mod Sessions
