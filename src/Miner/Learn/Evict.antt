-- ===== src/Miner/Learn/Evict.antt =====
-- Eviction, `evict_if_full` of crates/logdrain/src/miner.rs: whom it takes, and what stays.
use logdrain.Common.{
  ℕ, ◌+◌, ◌≤◌, ◌<◌, List, [], ◌∷◌, none, some, ◌≡◌, ◌≢◌, refl, ◌⊎◌, inl, inr, Bool, true, false,
  length, count, nat_eq, ltb, leb, arith, Bool-cases, if◌then◌else◌,
}
use logdrain.Common.Assoc.{lookup, remove, lookup-remove}
use logdrain.Cluster.{ClusterInner, recency}
use logdrain.Miner.Learn.{min_loop, min_by_key, recency_of, evict_if_full}
use logdrain.Tree.Leaf
use logdrain.Tree.Leaf.{LeafBucket}
use logdrain.Tree.Membership.{count-remove, length-remove, cap-remove}

count_either :
    (t : Bool) (r best x : ℕ) (xs : List ℕ)
    → 1 ≤ count r ((if t then x else best) ∷ xs)
    → 1 ≤ count r (best ∷ x ∷ xs)
count_either true r best x xs h = omega arith
count_either false r best x xs h = omega arith

module _ (key : ℕ → ℕ) where
  min_loop-count : (xs : List ℕ) (best : ℕ) → 1 ≤ count (min_loop key best xs) (best ∷ xs)
  unfolding min_loop
  min_loop-count [] best = ground arith
  min_loop-count (x ∷ xs) best =
      count_either (ltb (key x) (key best)) _ best x xs
        (min_loop-count xs (if ltb (key x) (key best) then x else best))

  min_loop_least :
      (best : ℕ) (xs : List ℕ) (x : ℕ)
      → 1 ≤ count x (best ∷ xs)
      → key (min_loop key best xs) ≤ key x
  unfolding min_loop
  min_loop_least best [] x h = ground arith
  min_loop_least best (y ∷ xs) x h = elim (Bool-cases (ltb (key y) (key best))) [
    | inl t ↦ ground (arith, min_loop_least y xs x, min_loop_least y xs y)
    | inr t ↦ ground (arith, min_loop_least best xs x, min_loop_least best xs best)
  ]

  pub min_by_key_least :
      (xs : List ℕ)
      → 1 ≤ length xs
      → (v : ℕ) × (min_by_key key xs ≡ some v)
        × (1 ≤ count v xs)
        × ((x : ℕ) → 1 ≤ count x xs → key v ≤ key x)
  unfolding min_by_key
  min_by_key_least [] h = absurd (omega arith)
  min_by_key_least (x ∷ xs) h =
      (min_loop key x xs, refl, min_loop-count xs x, λ y c. min_loop_least x xs y c)

module _ (leaf : LeafBucket) (clusters : List (ℕ × ClusterInner)) where
  -- The id that is taken out of a full leaf, with its body.
  record IsChosen (v : ℕ) : Type 0 where
    full : leaf.cap ≤ length leaf.ids
    member : 1 ≤ count v leaf.ids
    least : (x : ℕ) → 1 ≤ count x leaf.ids → recency_of clusters v ≤ recency_of clusters x
    result : evict_if_full leaf clusters ≡ (Leaf.remove v leaf, remove v clusters)

  IsChosen-cases :
      1 ≤ leaf.cap
      → ((length leaf.ids < leaf.cap) × (evict_if_full leaf clusters ≡ (leaf, clusters)))
        ⊎ ((v : ℕ) × IsChosen v)
  unfolding evict_if_full Leaf.is_full
  IsChosen-cases h = elim (Bool-cases (leb leaf.cap (length leaf.ids))) [
    | inr room ↦ inl (ground arith, ground arith)
    | inl full ↦
        let (v, e, member, least) =
          min_by_key_least (recency_of clusters) leaf.ids (ground arith) in
        inr
          (v, record { full = ground arith; member = member; least = least; result = ground arith })
  ]

  -- The victim `v` of a full leaf: it was in the leaf; no body of an id of the leaf was used before the
  -- body of `v`, if there is one; the leaf loses one `v` and nothing else, the bodies lose that of `v`
  -- and no other.
  pub record IsVictim (v : ℕ) : Type 0 where
    pub full : leaf.cap ≤ length leaf.ids
    pub member : 1 ≤ count v leaf.ids
    pub least :
        (x : ℕ) (body victim : ClusterInner)
        → 1 ≤ count x leaf.ids
        → lookup x clusters ≡ some body
        → lookup v clusters ≡ some victim
        → victim.last_used ≤ body.last_used
    pub cap : (evict_if_full leaf clusters).0.cap ≡ leaf.cap
    pub one_less : count v (evict_if_full leaf clusters).0.ids + 1 ≡ count v leaf.ids
    pub others : (x : ℕ) → v ≢ x → count x (evict_if_full leaf clusters).0.ids ≡ count x leaf.ids
    pub gone : lookup v (evict_if_full leaf clusters).1 ≡ none
    pub bodies : (x : ℕ) → v ≢ x → lookup x (evict_if_full leaf clusters).1 ≡ lookup x clusters

  chosen-IsVictim : (v : ℕ) → IsChosen v → IsVictim v
  unfolding recency_of recency
  chosen-IsVictim v h = record {
    full = h.full;
    member = h.member;
    least = λ x body victim c e q. ground (arith, h.least x c, e, q);
    cap = rw h.result (cap-remove v leaf);
    one_less = rw h.result (ground (arith, count-remove v v leaf h.member));
    others = λ x n. rw h.result (ground (arith, count-remove x v leaf h.member, n));
    gone = rw h.result (ground (arith, lookup-remove v v clusters));
    bodies = λ x n. rw h.result (ground (arith, lookup-remove v x clusters, n));
  }

  -- With a capacity of at least 1: a leaf with room stays as it is, and so do the bodies. A full leaf
  -- loses one id, none of whose fellows in the leaf has a body that was used before its own, by the tick
  -- of the last use; its body goes too, and every other id and body stays.
  pub evict_if_full_cases :
      1 ≤ leaf.cap
      → ((length leaf.ids < leaf.cap) × (evict_if_full leaf clusters ≡ (leaf, clusters)))
        ⊎ ((v : ℕ) × IsVictim v)
  evict_if_full_cases h = elim (IsChosen-cases h) [
    | inl room ↦ inl room
    | inr (v, chosen) ↦ inr (v, chosen-IsVictim v chosen)
  ]

module _ (leaf : LeafBucket) (clusters : List (ℕ × ClusterInner)) (kept : LeafBucket)
    (left : List (ℕ × ClusterInner)) where
  -- What the place of a new id needs of the leaf and the bodies after an eviction.
  pub record IsEvicted : Type 0 where
    pub cap : kept.cap ≡ leaf.cap
    pub room : length kept.ids < leaf.cap
    pub fewer : (x : ℕ) → count x kept.ids ≤ count x leaf.ids
    pub stay : (x : ℕ) → 1 ≤ count x kept.ids → lookup x left ≡ lookup x clusters
    pub remain :
        (x : ℕ) (body : ClusterInner)
        → lookup x left ≡ some body
        → (lookup x clusters ≡ some body) × (count x kept.ids ≡ count x leaf.ids)
    pub elsewhere : (x : ℕ) → count x leaf.ids ≡ 0 → lookup x left ≡ lookup x clusters

module _ (leaf : LeafBucket) (clusters : List (ℕ × ClusterInner)) (cap_pos : 1 ≤ leaf.cap)
    (bounded : length leaf.ids ≤ leaf.cap) (distinct : (x : ℕ) → count x leaf.ids ≤ 1) where
  removed-IsEvicted :
      (v : ℕ)
      → 1 ≤ count v leaf.ids
      → IsEvicted leaf clusters (Leaf.remove v leaf) (remove v clusters)
  removed-IsEvicted v c = record {
    cap = cap-remove v leaf;
    room = ground (arith, length-remove v leaf c);
    fewer = λ x. ground (arith, count-remove x v leaf c);
    stay = λ x h. ground (arith, count-remove x v leaf c, distinct v, lookup-remove v x clusters);
    remain = λ x body e. ground (arith, count-remove x v leaf c, lookup-remove v x clusters);
    elsewhere = λ x e. ground (arith, lookup-remove v x clusters);
  }

  pub evict_if_full-IsEvicted :
      IsEvicted leaf clusters (evict_if_full leaf clusters).0 (evict_if_full leaf clusters).1
  evict_if_full-IsEvicted = elim (IsChosen-cases leaf clusters cap_pos) [
    | inl (room, e) ↦ rw e (record {
      cap = refl;
      room = room;
      fewer = λ x. omega arith;
      stay = λ x h. refl;
      remain = λ x body q. (q, refl);
      elsewhere = λ x q. refl;
    })
    | inr (v, victim) ↦ rw victim.result (removed-IsEvicted v victim.member)
  ]
