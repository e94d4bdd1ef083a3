-- ===== src/Miner/Matching.antt =====
-- The search for the best cluster of a leaf: `best_match` of crates/logdrain/src/miner.rs, and the
-- threshold test of its callers.
pub mod Found
pub mod Scores
pub mod After
pub mod Below
use logdrain.Common.{
  ℕ, List, [], ◌∷◌, Option, none, some, Bool, true, false, Text, nat_eq, if◌then◌else◌,
}
use logdrain.Common.Assoc.{lookup}
use logdrain.Cluster.{ClusterInner}
use logdrain.Extern.{Float}
use logdrain.Similarity.{similarity}
use logdrain.Tokenize.{Token}
use logdrain.Tree.{TreeNode, descend}
use logdrain.Tree.Leaf.{LeafBucket}

-- An id, its score, and the body to which the shared handle leads.
pub record Candidate (F : Type 0) : Type 0 where
  pub id : ℕ
  pub sim : F
  pub body : ClusterInner

module _ {F : Type 0} ⦃fl : Float F⦄ where
  -- `best.is_none_or(|b| sim > b)`
  abbrev pub improves : Option (Candidate F) → F → Bool
  improves none sim = true
  improves (some b) sim = fl.flt b.sim sim

  abbrev pub consider : ℕ → ClusterInner → F → Option (Candidate F) → Option (Candidate F)
  consider id body sim best =
      if improves best sim then some (record { id = id; sim = sim; body = body }) else best

  module _ (clusters : List (ℕ × ClusterInner)) (wildcard : Text) (tokens : List Token) where
    -- One round of the loop over the ids. An id without a body is passed over.
    unfoldable pub best_step : ℕ → Option (Candidate F) → Option (Candidate F)
    best_step id best = elim (lookup id clusters) [
      | some body ↦ consider id body (similarity body.tokens tokens wildcard) best
      | none ↦ best
    ]

    unfoldable pub best_loop : List ℕ → Option (Candidate F) → Option (Candidate F)
    best_loop [] best = best
    best_loop (id ∷ ids) best = best_loop ids (best_step id best)

    unfoldable pub best_match : LeafBucket → Option (Candidate F)
    best_match leaf = best_loop leaf.ids none

  -- `.filter(|(_, sim, _)| *sim >= threshold)`
  unfoldable pub at_least : F → Option (Candidate F) → Option (Candidate F)
  at_least threshold none = none
  at_least threshold (some c) = if fl.fle threshold c.sim then some c else none
