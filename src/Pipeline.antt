-- ===== src/Pipeline.antt =====
-- The pipeline as data, and the walk over it: packages/core/src/pipeline.ts, part by part.
pub mod Nodes
pub mod Conditions
pub mod Walk
pub mod Advance
pub mod Reach
pub mod Validate
pub mod Catalog
pub mod Reduction
pub mod Binding
