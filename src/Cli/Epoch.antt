-- ===== src/Cli/Epoch.antt =====
-- `scale_epoch` of crates/logdrain-cli/src/main.rs.
use logdrain.Common.{ℕ, ◌*◌, ◌/◌, Option, none, some, ◌≡◌, ltb, if◌then◌else◌, ◌⊎◌}

-- An `i64`: a number, or the negative of its successor. Of the callers, `parse_i64` gives only what is
-- in the range of an `i64`.
pub data ℤ : Type 0 where
  pos negsuc : ℕ → ℤ

unfoldable pub scale_epoch : ℤ → Option ℕ
scale_epoch (negsuc n) = none
scale_epoch (pos n) = some (
    if ltb n 100000000000
    then n * 1000
    else if ltb n 100000000000000
    then n
    else if ltb n 100000000000000000
    then n / 1000
    else n / 1000000)

-- `i64::MAX`
abbrev pub i64_max : ℕ
i64_max = 9223372036854775807

-- How many of a unit make a second: seconds, milliseconds, microseconds, nanoseconds.
abbrev pub IsUnit : ℕ → Type 0
IsUnit u = (u ≡ 1) ⊎ (u ≡ 1000) ⊎ (u ≡ 1000000) ⊎ (u ≡ 1000000000)
