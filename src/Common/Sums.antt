-- ===== src/Common/Sums.antt =====
-- Sums over an initial segment of the numbers.
use Prim.Native.Nat.{ℕ, zero, suc, ◌+◌, ◌≤◌}
use mathlib.Core.Path.{◌≡◌, refl, ap}
use mathlib.Core.Logic.{◌≢◌}
use native.Mathlib.Omega.{arith}
use native.Mathlib.Decide.{ℕ_discrete}

-- `f 0 + … + f n`
unfoldable pub sum_to : ℕ → (ℕ → ℕ) → ℕ
sum_to zero f = f zero
sum_to (suc n) f = sum_to n f + f (suc n)

pub sum_to_eq : (n : ℕ) (f g : ℕ → ℕ) → ((i : ℕ) → i ≤ n → f i ≡ g i) → sum_to n f ≡ sum_to n g
unfolding sum_to
sum_to_eq zero f g e = e zero (omega arith)
sum_to_eq (suc n) f g e =
    let rest : sum_to n f ≡ sum_to n g = sum_to_eq n f g (λ i h. e i (omega arith)) in
    let last : f (suc n) ≡ g (suc n) = e (suc n) (omega arith) in omega arith

-- Two functions that differ at one place at most.
pub sum_to_update :
    (n k : ℕ) (f g : ℕ → ℕ)
    → k ≤ n
    → ((i : ℕ) → k ≢ i → f i ≡ g i)
    → sum_to n f + g k ≡ sum_to n g + f k
unfolding sum_to
sum_to_update zero k f g h e = let p : k ≡ zero = omega arith in rw p (omega arith)
sum_to_update (suc n) k f g h e = elim (ℕ_discrete k (suc n)) [
  | yes p ↦
      let rest : sum_to n f ≡ sum_to n g = sum_to_eq n f g (λ i b. e i (λ q. omega arith)) in
      let q : f k ≡ f (suc n) = ap f p in let r : g k ≡ g (suc n) = ap g p in omega arith
  | no p ↦
      let rest : sum_to n f + g k ≡ sum_to n g + f k = sum_to_update n k f g (omega arith) e in
      let last : f (suc n) ≡ g (suc n) = e (suc n) p in omega arith
]

pub le-sum_to : (n k : ℕ) (f : ℕ → ℕ) → k ≤ n → f k ≤ sum_to n f
unfolding sum_to
le-sum_to zero k f h = let p : k ≡ zero = omega arith in rw p (omega arith)
le-sum_to (suc n) k f h = elim (ℕ_discrete k (suc n)) [
  | yes p ↦ let q : f k ≡ f (suc n) = ap f p in omega arith
  | no p ↦ let rest : f k ≤ sum_to n f = le-sum_to n k f (omega arith) in omega arith
]

pub sum_to_zero : (n : ℕ) → sum_to n (λ i. 0) ≡ 0
unfolding sum_to
sum_to_zero zero = refl
sum_to_zero (suc n) = let rest = sum_to_zero n in omega arith
