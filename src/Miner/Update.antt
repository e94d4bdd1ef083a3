-- ===== src/Miner/Update.antt =====
-- The results of `add` in crates/logdrain/src/miner.rs.
use Prim.Native.Nat.{ℕ}

pub data UpdateType : Type 0 where
  created template_changed none : UpdateType

pub record AddResult : Type 0 where
  pub cluster_id : ℕ
  pub update : UpdateType
