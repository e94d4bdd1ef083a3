-- ===== src/Errors.antt =====
-- The error type of the crate: crates/logdrain/src/error.rs, and `PersistenceError` of
-- crates/logdrain/src/persistence.rs. Errors of other crates are held as their text.
use logdrain.Common.{ℕ, Text}

pub data PersistenceError : Type 0 where
  io backend : Text → PersistenceError

pub data LogdrainError : Type 0 where
  invalid_config : Text → LogdrainError
  regex_compile : Text → LogdrainError
  persistence : PersistenceError → LogdrainError
  bad_magic : LogdrainError
  unsupported_snapshot_version : (found max : ℕ) → LogdrainError
  decode : Text → LogdrainError
