-- ===== src/Miner/Rematch/Created.antt =====
-- A query right after `create_cluster` of crates/logdrain/src/miner.rs finds the new cluster.
use logdrain.Common.{
  ℕ, ◌+◌, ◌<◌, ◌≤◌, List, Option, none, some, ◌≡◌, sym, ◌∙◌, ap, true, Text, length, map, count,
  nat_eq, arith, u64_values, wrapping_add, length-map,
}
use logdrain.Common.Assoc.{lookup}
use logdrain.Cluster.{ClusterInner}
use logdrain.Cluster.Time.{SystemTime}
use logdrain.Extern.{Float, IsIeee, one}
use logdrain.Miner.Invariant.{IsWellFormed}
use logdrain.Miner.Invariant.Calls.{length-descent_keys}
use logdrain.Miner.Invariant.Create.{
  new_body-tokens, evicted-IsPlaced, inner, inner_width, inner_keys, new_id_fresh, evicted,
}
use logdrain.Miner.Invariant.Place.{count-fresh, leaf-IsLeaf}
use logdrain.Miner.Invariant.Steps.{best_in}
use logdrain.Miner.Layout.{leaf_at-write}
use logdrain.Miner.Learn.{create_cluster}
use logdrain.Miner.Matching.{best_match, at_least}
use logdrain.Miner.Matching.After.{Fits}
use logdrain.Miner.Matching.Below.{AllBelow, at_least-AllBelow, best_loop_last}
use logdrain.Miner.Matching.Scores.{similarity-Covers}
use logdrain.Miner.Query.{match_tokens}
use logdrain.Miner.Rematch.{Covers-to_owned, match_tokens-some}
use logdrain.Miner.State.{Miner, descent_keys, next_tick}
use logdrain.Similarity.{similarity}
use logdrain.Tokenize.{Token, to_owned}
use logdrain.Tree.{TreeNode, descend_or_create}
use logdrain.Tree.Leaf
use logdrain.Tree.Leaf.{LeafBucket}
use logdrain.Tree.Shape.{IsShaped}

module _ {F R : Type 0} ⦃fl : Float F⦄ (ieee : IsIeee fl) (now : SystemTime) (tokens : List Token)
    (suffix member : Option Text) (event_ms : Option ℕ) (m : Miner F R) (wf : IsWellFormed m)
    (shard root : TreeNode) (leaf : LeafBucket)
    (at_width : lookup (length tokens) m.shards ≡ some shard)
    (made : descend_or_create (descent_keys m.options tokens) m.options.max_clusters_per_leaf shard
      ≡ some (root, leaf))
    (shaped : IsShaped (length (descent_keys m.options tokens)) root)
    (bound : m.counter + 1 < u64_values) (below : best_in m tokens leaf ≡ none)
    (reachable : fl.fle m.options.sim_threshold one ≡ true) where
  abbrev id : ℕ
  id = wrapping_add m.counter 1

  abbrev body : ClusterInner
  body = inner now tokens suffix member event_ms m wf shard root leaf at_width made shaped bound

  abbrev kept : LeafBucket
  kept =
      (evicted now tokens suffix member event_ms m wf shard root leaf at_width made shaped bound).0

  abbrev left : List (ℕ × ClusterInner)
  left =
      (evicted now tokens suffix member event_ms m wf shard root leaf at_width made shaped bound).1

  old_Fits : Fits ieee m.options.wildcard tokens m.clusters_by_id leaf.ids
  old_Fits i b c e =
      let h =
        leaf-IsLeaf m wf (length tokens) (descent_keys m.options tokens)
          (length-descent_keys m.options tokens) shard root leaf at_width made shaped in
      let f = h.filed i c in
      let q : f.body ≡ b = ground (arith, f.found) in
      ap (λ b. length b.tokens) (sym q) ∙ f.tokens_width

  placed :
      (x : ℕ)
      → 1 ≤ count x kept.ids
      → (1 ≤ count x leaf.ids) × (lookup x left ≡ lookup x m.clusters_by_id)
  placed x c =
      let p =
        evicted-IsPlaced now tokens suffix member event_ms m wf shard root leaf at_width made shaped
          bound in
      let zero =
        count-fresh m wf (length tokens) (descent_keys m.options tokens)
          (length-descent_keys m.options tokens) shard root leaf at_width made shaped id body
          (new_id_fresh now tokens suffix member event_ms m wf shard root leaf at_width made shaped
            bound)
          (new_body-tokens now id m.tick tokens suffix member event_ms).0
          (inner_width now tokens suffix member event_ms m wf shard root leaf at_width made shaped
            bound)
          (inner_keys now tokens suffix member event_ms m wf shard root leaf at_width made shaped
            bound) in
      let old : 1 ≤ count x leaf.ids = omega (arith, p.fewer x) in
      (old, p.stay x (λ e. absurd (ground (arith, zero, old, e))) c)

  kept_Fits : Fits ieee m.options.wildcard tokens left kept.ids
  kept_Fits x b c e = let (old, same) = placed x c in old_Fits x b old (sym same ∙ e)

  kept_AllBelow : AllBelow ieee m.options.wildcard tokens m.options.sim_threshold left kept.ids
  unfolding best_match
  kept_AllBelow x b c e =
      let (old, same) = placed x c in
      at_least-AllBelow ieee m.options.wildcard tokens m.options.sim_threshold m.clusters_by_id
        leaf.ids old_Fits below x b old (sym same ∙ e)

  full : similarity {F = F} body.tokens tokens m.options.wildcard ≡ one
  full = rw (new_body-tokens now id m.tick tokens suffix member event_ms).1 (
      similarity-Covers ieee (map to_owned tokens) tokens m.options.wildcard
        (length-map to_owned tokens) (Covers-to_owned m.options.wildcard tokens))

  pub create_cluster-match_tokens :
      match_tokens tokens
        (create_cluster now
          (length tokens)
          (descent_keys m.options tokens)
          root
          leaf
          tokens
          suffix
          member
          event_ms
          m).0
      ≡ some id
  unfolding create_cluster next_tick best_match at_least Leaf.insert
  create_cluster-match_tokens =
      let p =
        evicted-IsPlaced now tokens suffix member event_ms m wf shard root leaf at_width made shaped
          bound in
      let wins =
        best_loop_last ieee m.options.wildcard tokens m.options.sim_threshold left id body p.new
          full reachable kept.ids none kept_Fits kept_AllBelow tt tt in
      match_tokens-some
        (create_cluster now (length tokens) (descent_keys m.options tokens) root leaf tokens suffix
          member event_ms m).0
        tokens (Leaf.insert id kept) (record { id = id; sim = one; body = body })
        (leaf_at-write m.shards (length tokens) (descent_keys m.options tokens) shard at_width
          m.options.max_clusters_per_leaf root leaf made (Leaf.insert id kept))
        (rw wins (ground arith))
