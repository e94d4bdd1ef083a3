-- ===== src/Cluster/Time.antt =====
-- `SystemTime` and its conversions in crates/logdrain/src/cluster.rs (and the copies of `unix_ms`
-- and `time_from_ms` in crates/logdrain/src/miner.rs).
use logdrain.Common.{ℕ, ◌+◌, ◌-◌, ◌*◌, ◌/◌, ◌%◌, Option, none, some, leb, u64_values, if◌then◌else◌}

-- Nanoseconds after the epoch, or (n + 1 of them) before it.
pub data SystemTime : Type 0 where
  since_epoch before_epoch : ℕ → SystemTime

-- `unix_ms`: `as_millis() as u64`, or 0 before the epoch
unfoldable pub unix_ms : SystemTime → ℕ
unix_ms (since_epoch ns) = (ns / 1000000) % u64_values
unix_ms (before_epoch ns) = 0

-- `time_from_ms`
unfoldable pub time_from_ms : ℕ → SystemTime
time_from_ms ms = since_epoch (ms * 1000000)

-- `later.duration_since(earlier)`, in nanoseconds: `none` if `later` is the earlier one.
unfoldable pub duration_since : SystemTime → SystemTime → Option ℕ
duration_since (since_epoch a) (since_epoch b) = if leb b a then some (a - b) else none
duration_since (since_epoch a) (before_epoch b) = some (a + b + 1)
duration_since (before_epoch a) (since_epoch b) = none
duration_since (before_epoch a) (before_epoch b) = if leb a b then some (b - a) else none
