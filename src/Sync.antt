-- ===== src/Sync.antt =====
-- The package internal/sync: live synchronisation of a directory into a workspace.
pub mod EventCache
pub mod Work
pub mod Run
