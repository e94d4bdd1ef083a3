-- ===== src/Examples.antt =====
-- Runs of the model on the inputs of the tests in crates/logdrain/src, and the theorems at concrete
-- inputs.
pub mod Platform
mod Runs
mod Adding
mod Parts
mod Trees
mod Stored
mod CommandLine
mod Programs
mod Topics
mod Templates
