-- ===== src/Miner/Invariant.antt =====
-- The invariant that ties the prefix trees of crates/logdrain/src/miner.rs to the cluster bodies.
pub mod Keys
pub mod Replace
pub mod Write
pub mod Place
pub mod Calls
pub mod Create
pub mod Steps
use logdrain.Common.{
  ℕ, List, [], ◌∷◌, Option, none, some, ◌≡◌, ◌≤◌, Text, length, map, count, nat_eq, arith,
}
use logdrain.Common.Assoc.{lookup}
use logdrain.Cluster.{ClusterInner}
use logdrain.Miner.Layout.{leaf_at, key_count}
use logdrain.Miner.State.{Miner, Shard, text_keys}
use logdrain.Options.{Options}
use logdrain.Tokenize.{OwnedToken}
use logdrain.Tree.Leaf.{LeafBucket}
use logdrain.Tree.Shape.{IsRoot}

abbrev pub template_texts : ClusterInner → List Text
template_texts body = map (λ (t : OwnedToken). t.text) body.tokens

module _ {F R : Type 0} (o : Options F R) where
  -- The keys under which a body is to be found.
  abbrev pub body_keys : ClusterInner → List Text
  body_keys body = text_keys o (template_texts body)

  -- The id has a body, and the body belongs where the id stands.
  pub record IsFiled (clusters : List (ℕ × ClusterInner)) (width : ℕ) (keys : List Text) (id : ℕ)
      : Type 0 where
    pub body : ClusterInner
    pub found : lookup id clusters ≡ some body
    pub named : body.id ≡ id
    pub tokens_width : length body.tokens ≡ width
    pub path : body_keys body ≡ keys

  -- A leaf within its capacity, with no id twice, whose ids are all filed.
  pub record IsLeaf (clusters : List (ℕ × ClusterInner)) (width : ℕ) (keys : List Text)
      (leaf : LeafBucket) : Type 0 where
    pub capped : leaf.cap ≡ o.max_clusters_per_leaf
    pub bounded : length leaf.ids ≤ o.max_clusters_per_leaf
    pub distinct : (id : ℕ) → count id leaf.ids ≤ 1
    pub filed : (id : ℕ) → 1 ≤ count id leaf.ids → IsFiled clusters width keys id

module _ {F R : Type 0} where
  -- The body's id stands in the leaf of its width and keys.
  pub record IsHeld (m : Miner F R) (id : ℕ) (body : ClusterInner) : Type 0 where
    pub leaf : LeafBucket
    pub there : leaf_at m.shards (length body.tokens) (body_keys m.options body) ≡ some leaf
    pub member : 1 ≤ count id leaf.ids

  pub record IsWellFormed (m : Miner F R) : Type 0 where
    pub capacity : 1 ≤ m.options.max_clusters_per_leaf
    pub roots :
        (width : ℕ) (shard : Shard)
        → lookup width m.shards ≡ some shard
        → IsRoot (key_count m.options width) shard
    pub leaves :
        (width : ℕ) (keys : List Text) (leaf : LeafBucket)
        → length keys ≡ key_count m.options width
        → leaf_at m.shards width keys ≡ some leaf
        → IsLeaf m.options m.clusters_by_id width keys leaf
    pub held :
        (id : ℕ) (body : ClusterInner) → lookup id m.clusters_by_id ≡ some body → IsHeld m id body
    pub issued :
        (id : ℕ) (body : ClusterInner) → lookup id m.clusters_by_id ≡ some body → id ≤ m.counter
