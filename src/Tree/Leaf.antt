-- ===== src/Tree/Leaf.antt =====
-- `LeafBucket` of crates/logdrain/src/tree.rs: the ids at a leaf, with a capacity.
use logdrain.Common.{
  ℕ, zero, suc, List, [], ◌∷◌, ◌++◌, Option, none, some, Bool, length, leb, nat_eq, ◌==◌,
  if◌then◌else◌,
}
use mathlib.Core.Option

pub record LeafBucket : Type 0 where
  pub cap : ℕ
  pub ids : List ℕ

-- `LeafBucket::new`
unfoldable pub new : ℕ → LeafBucket
new cap = record { cap = cap; ids = [] }

unfoldable pub is_full : LeafBucket → Bool
is_full b = leb b.cap (length b.ids)

unfoldable pub insert : ℕ → LeafBucket → LeafBucket
insert id b = record b { ids = b.ids ++ id ∷ [] }

-- `iter().position(|&x| x == id)`
unfoldable pub position : ℕ → List ℕ → Option ℕ
position id [] = none
position id (x ∷ xs) = if x == id then some 0 else Option.map suc (position id xs)

-- The last item, and the items before it.
unfoldable pub split_last : ℕ → List ℕ → ℕ × List ℕ
split_last x [] = (x, [])
split_last x (y ∷ ys) = let (last, init) = split_last y ys in (last, x ∷ init)

abbrev pub set_elem : ℕ → ℕ → List ℕ → List ℕ
set_elem pos v [] = []
set_elem zero v (x ∷ xs) = v ∷ xs
set_elem (suc pos) v (x ∷ xs) = x ∷ set_elem pos v xs

-- `Vec::swap_remove` at a position inside: the last item takes the place of the removed one.
unfoldable pub swap_remove : ℕ → List ℕ → List ℕ
unfolding split_last
swap_remove pos [] = []
swap_remove pos (x ∷ xs) = let (last, init) = split_last x xs in set_elem pos last init

unfoldable pub remove : ℕ → LeafBucket → LeafBucket
unfolding position swap_remove
remove id b = elim (position id b.ids) [
  | some pos ↦ record b { ids = swap_remove pos b.ids }
  | none ↦ b
]
