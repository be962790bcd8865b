-- ===== src/Examples.antt =====
-- Tests on the shipped pipeline, and the theorems at inputs that meet their hypotheses.
pub mod Inputs
mod Walking
mod Rounds
mod Checking
mod Deciding
mod Living
mod Parking
mod Diffing
mod Locking
mod Talking
mod Answering
