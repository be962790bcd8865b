-- ===== src/Engine.antt =====
-- The orchestrator's engine, apps/orchestrator/src/engine.ts, with the rows of one task that
-- apps/orchestrator/src/store.ts keeps for it.
pub mod Answer
pub mod Plan
pub mod State
pub mod Raise
pub mod Transition
pub mod Resolve
pub mod Gates
pub mod Spending
pub mod Dependents
pub mod Attempts
pub mod Settled
pub mod Life
pub mod Bounds
pub mod Parks
