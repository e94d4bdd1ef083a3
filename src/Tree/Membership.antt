-- ===== src/Tree/Membership.antt =====
-- What a leaf holds after the operations of crates/logdrain/src/tree.rs on it, as a multiset: how
-- often each id stands in it.
use logdrain.Common.{
  ℕ, zero, suc, ◌+◌, ◌≤◌, ◌≡◌, refl, List, [], ◌∷◌, some, length, count, count-append,
  length-append, nat_eq, ℕ_discrete, ◌==◌, if◌then◌else◌, arith,
}
use logdrain.Tree.Leaf.{LeafBucket, insert, remove, position, split_last, set_elem, swap_remove}

-- 1 for the same id, 0 for another
abbrev pub same : ℕ → ℕ → ℕ
same a b = if a == b then 1 else 0

count-split_last :
    (x id : ℕ) (xs : List ℕ)
    → same (split_last x xs).0 id + count id (split_last x xs).1 ≡ same x id + count id xs
unfolding split_last
count-split_last x id [] = refl
count-split_last x id (y ∷ ys) = omega (arith, count-split_last y id ys)

length-split_last : (x : ℕ) (xs : List ℕ) → length (split_last x xs).1 ≡ length xs
unfolding split_last
length-split_last x [] = refl
length-split_last x (y ∷ ys) = omega (arith, length-split_last y ys)

count-swap_remove :
    (id v pos x : ℕ) (xs : List ℕ)
    → position v (x ∷ xs) ≡ some pos
    → count id (swap_remove pos (x ∷ xs)) + same v id ≡ count id (x ∷ xs)
unfolding position swap_remove
count-swap_remove id v pos x [] e = ground arith
count-swap_remove id v zero x (y ∷ ys) e = ground (arith, count-split_last y id ys)
count-swap_remove id v (suc pos) x (y ∷ ys) e = ground (arith, count-swap_remove id v pos y ys)

length-set_elem : (pos v : ℕ) (xs : List ℕ) → length (set_elem pos v xs) ≡ length xs
length-set_elem pos v [] = refl
length-set_elem zero v (x ∷ xs) = refl
length-set_elem (suc pos) v (x ∷ xs) = omega (arith, length-set_elem pos v xs)

length-swap_remove :
    (v pos x : ℕ) (xs : List ℕ)
    → position v (x ∷ xs) ≡ some pos
    → length (swap_remove pos (x ∷ xs)) ≡ length xs
unfolding position swap_remove
length-swap_remove v pos x xs e =
    rw (length-set_elem pos _ (split_last x xs).1) (length-split_last x xs)

position-some : (v : ℕ) (xs : List ℕ) → 1 ≤ count v xs → (pos : ℕ) × (position v xs ≡ some pos)
unfolding position
position-some v [] h = absurd (omega arith)
position-some v (x ∷ xs) h = elim (ℕ_discrete x v) [
  | yes p ↦ (0, ground arith)
  | no p ↦ let (pos, e) = position-some v xs (ground arith) in (suc pos, ground arith)
]

count-remove_ids :
    (id v : ℕ) (ids : List ℕ) (cap : ℕ)
    → 1 ≤ count v ids
    → count id (remove v (record { cap = cap; ids = ids })).ids + same v id ≡ count id ids
unfolding remove
count-remove_ids id v [] cap h = absurd (omega arith)
count-remove_ids id v (x ∷ xs) cap h =
    let (pos, e) = position-some v (x ∷ xs) h in rw (e, remove) (count-swap_remove id v pos x xs e)

length-remove_ids :
    (v : ℕ) (ids : List ℕ) (cap : ℕ)
    → 1 ≤ count v ids
    → length (remove v (record { cap = cap; ids = ids })).ids + 1 ≡ length ids
unfolding remove
length-remove_ids v [] cap h = absurd (omega arith)
length-remove_ids v (x ∷ xs) cap h =
    let (pos, e) = position-some v (x ∷ xs) h in
    rw (e, remove) (omega (arith, length-swap_remove v pos x xs e))

-- For an id that is in the leaf, `remove` takes away one occurrence of it and none of another id.
pub count-remove :
    (id v : ℕ) (b : LeafBucket)
    → 1 ≤ count v b.ids
    → count id (remove v b).ids + same v id ≡ count id b.ids
unfolding remove
count-remove id v b h = count-remove_ids id v b.ids b.cap h

pub length-remove :
    (v : ℕ) (b : LeafBucket) → 1 ≤ count v b.ids → length (remove v b).ids + 1 ≡ length b.ids
unfolding remove
length-remove v b h = length-remove_ids v b.ids b.cap h

pub cap-remove : (v : ℕ) (b : LeafBucket) → (remove v b).cap ≡ b.cap
unfolding remove
cap-remove v b = ground arith

pub count-insert :
    (id v : ℕ) (b : LeafBucket) → count id (insert v b).ids ≡ count id b.ids + same v id
unfolding insert
count-insert id v b = omega (arith, count-append id b.ids (v ∷ []))

pub length-insert : (v : ℕ) (b : LeafBucket) → length (insert v b).ids ≡ length b.ids + 1
unfolding insert
length-insert v b = omega (arith, length-append b.ids (v ∷ []))
