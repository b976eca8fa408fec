-- ===== src/Snapshot.antt =====
-- sandd/src/snapshot: the content-addressed store and the snapshots of a workspace.
pub mod Types
pub mod Disk
pub mod ObjectStore
pub mod Tags
pub mod Workspace
pub mod Build
pub mod Restore
pub mod Manager
pub mod Keeps
