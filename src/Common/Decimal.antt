-- ===== src/Common/Decimal.antt =====
-- `to_string()` of an unsigned integer. A `u64` has at most 20 digits, which is the fuel.
use logdrain.Common.Tests.{ltb, if◌then◌else◌, ◌==◌, nat_eq}
use logdrain.Common.Results.{Text}
use Prim.Native.Nat.{ℕ, zero, suc, ◌+◌, ◌/◌, ◌%◌}
use mathlib.Core.Bool.{true, false}
use mathlib.Core.List.{[], ◌∷◌}

pub emit : ℕ → ℕ → Text → Text
emit zero n out = out
emit (suc fuel) n out = elim (ltb 0 n) [
  | true ↦ emit fuel (n / 10) ((48 + n % 10) ∷ out)
  | false ↦ out
]

unfoldable pub to_string : ℕ → Text
unfolding emit
to_string n = if n == 0 then b'0' ∷ [] else emit 20 n []
