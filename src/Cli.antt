-- ===== src/Cli.antt =====
-- The command line, crates/logdrain-cli: the parts that compute, without flags and files.
pub mod Escape
pub mod Epoch
pub mod Separated
pub mod Csv
pub mod Prepare
pub mod Multiline
pub mod Fields
pub mod Ingest
pub mod Build
pub mod Output
pub mod Run
