-- ===== src/Workspace.antt =====
-- The workspace manager, packages/workspace: where a task's change stands, what its branch changed,
-- and the lock on a repository's mirror.
pub mod Paths
pub mod Changes
pub mod Lock
