-- ===== src/Miner/Matching/Found.antt =====
-- What `best_match` of crates/logdrain/src/miner.rs returns: a cluster of the leaf, with its body
-- and its score.
use logdrain.Common.{
  ℕ, ◌≤◌, List, [], ◌∷◌, Option, none, some, ◌≡◌, ◌⊎◌, inl, inr, true, Text, count, nat_eq, arith,
  Option-cases, Bool-cases,
}
use logdrain.Common.Assoc.{lookup}
use logdrain.Cluster.{ClusterInner}
use logdrain.Extern.{Float}
use logdrain.Miner.Matching.{Candidate, consider, best_step, best_loop, best_match, at_least}
use logdrain.Similarity.{similarity}
use logdrain.Tokenize.{Token}
use logdrain.Tree.Leaf.{LeafBucket}

consider-some :
    {F : Type 0} ⦃fl : Float F⦄ (id : ℕ) (body : ClusterInner) (sim : F)
    (best : Option (Candidate F)) (c : Candidate F)
    → consider id body sim best ≡ some c
    → (best ≡ some c) ⊎ ((c.id ≡ id) × (c.body ≡ body) × (c.sim ≡ sim))
consider-some id body sim none c e = inr (ground arith, ground arith, ground arith)
consider-some ⦃fl⦄ id body sim (some b) c e = elim (Bool-cases (fl.flt b.sim sim)) [
  | inl t ↦ inr (ground arith, ground arith, ground arith)
  | inr t ↦ inl (ground arith)
]

module _ {F : Type 0} ⦃fl : Float F⦄ (clusters : List (ℕ × ClusterInner)) (wildcard : Text)
    (tokens : List Token) where
  pub record IsFound (ids : List ℕ) (c : Candidate F) : Type 0 where
    pub member : 1 ≤ count c.id ids
    pub handle : lookup c.id clusters ≡ some c.body
    pub scored : c.sim ≡ similarity c.body.tokens tokens wildcard

  best_loop-IsFound :
      (ids : List ℕ) (best : Option (Candidate F)) (c : Candidate F)
      → best_loop clusters wildcard tokens ids best ≡ some c
      → (best ≡ some c) ⊎ IsFound ids c
  unfolding best_loop best_step
  best_loop-IsFound [] best c e = inl e
  best_loop-IsFound (id ∷ ids) best c e = elim (Option-cases (lookup id clusters)) [
    | inl gone ↦ elim (best_loop-IsFound ids best c (rw (gone, best_loop, best_step) at e)) [
      | inl b ↦ inl b
      | inr f ↦ inr (record { member = ground arith; handle = f.handle; scored = f.scored })
    ]
    | inr (body, here) ↦
        let sim : F = similarity body.tokens tokens wildcard in
        elim (best_loop-IsFound ids (consider id body sim best) c
          (rw (here, best_loop, best_step) at e)) [
            | inl b ↦ elim (consider-some id body sim best c b) [
              | inl old ↦ inl old
              | inr (p, q, r) ↦
                  inr (record { member = ground arith; handle = rw (p, q) here; scored = rw q r })
            ]
            | inr f ↦ inr (record { member = ground arith; handle = f.handle; scored = f.scored })
          ]
  ]

  pub best_match-IsFound :
      (leaf : LeafBucket) (c : Candidate F)
      → best_match clusters wildcard tokens leaf ≡ some c
      → IsFound leaf.ids c
  unfolding best_match
  best_match-IsFound leaf c e = ground (arith, best_loop-IsFound leaf.ids none c e)

pub at_least-some :
    {F : Type 0} ⦃fl : Float F⦄ (threshold : F) (best : Option (Candidate F)) (c : Candidate F)
    → at_least threshold best ≡ some c
    → (best ≡ some c) × (fl.fle threshold c.sim ≡ true)
unfolding at_least
at_least-some threshold none c e = cc
at_least-some ⦃fl⦄ threshold (some b) c e = ground arith
