-- ===== src/Runner.antt =====
-- The agent runner, packages/runner: the diff of an edit and the scope of a run's writes.
pub mod EditDiff
