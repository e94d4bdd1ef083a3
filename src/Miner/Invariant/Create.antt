-- ===== src/Miner/Invariant/Create.antt =====
-- `create_cluster` of crates/logdrain/src/miner.rs on a well-formed miner: the new id is fresh, its
-- body is stored, and the miner stays well-formed.
use logdrain.Common.{
  ℕ, ◌+◌, ◌<◌, List, Option, none, some, ◌≡◌, refl, sym, ◌∙◌, ap, Text, length, length-map, map,
  nat_eq, arith, Option-cases, u64_values, wrapping_add, inl, inr,
}
use logdrain.Common.Assoc.{lookup, insert}
use logdrain.Cluster
use logdrain.Cluster.{ClusterInner, add_member}
use logdrain.Cluster.Time.{SystemTime}
use logdrain.Miner.Invariant.{IsWellFormed, body_keys}
use logdrain.Miner.Invariant.Calls.{length-descent_keys}
use logdrain.Miner.Invariant.Keys.{owned_texts-to_owned, descent_keys-prefix_keys}
use logdrain.Miner.Invariant.Place.{placed-IsWellFormed, leaf-IsLeaf, insert-IsPlaced, IsPlaced}
use logdrain.Miner.Learn.{create_cluster, add_member_option, evict_if_full}
use logdrain.Miner.Learn.Evict.{evict_if_full-IsEvicted}
use logdrain.Miner.State.{Miner, descent_keys, text_keys, next_tick}
use logdrain.Tokenize.{Token, OwnedToken, to_owned}
use logdrain.Tree.{TreeNode, descend_or_create}
use logdrain.Tree.Leaf.{LeafBucket}
use logdrain.Tree.Shape.{IsShaped}

-- The body of a new cluster.
abbrev pub new_body :
    SystemTime → ℕ → ℕ → List Token → Option Text → Option Text → Option ℕ → ClusterInner
new_body now id tick tokens suffix member event_ms =
    add_member_option member
      (record (Cluster.new id (map to_owned tokens) now suffix event_ms) { last_used = tick })

pub new_body-tokens :
    (now : SystemTime) (id tick : ℕ) (tokens : List Token) (suffix member : Option Text)
    (event_ms : Option ℕ)
    → ((new_body now id tick tokens suffix member event_ms).id ≡ id)
      × ((new_body now id tick tokens suffix member event_ms).tokens ≡ map to_owned tokens)
unfolding Cluster.new add_member
new_body-tokens now id tick tokens suffix none event_ms = (refl, refl)
new_body-tokens now id tick tokens suffix (some member) event_ms = ground arith

module _ {F R : Type 0} (now : SystemTime) (tokens : List Token) (suffix member : Option Text)
    (event_ms : Option ℕ) (m : Miner F R) (wf : IsWellFormed m) (shard root : TreeNode)
    (leaf : LeafBucket) (at_width : lookup (length tokens) m.shards ≡ some shard)
    (made : descend_or_create (descent_keys m.options tokens) m.options.max_clusters_per_leaf shard
      ≡ some (root, leaf))
    (shaped : IsShaped (length (descent_keys m.options tokens)) root)
    (bound : m.counter + 1 < u64_values) where
  abbrev pub new_id : ℕ
  new_id = wrapping_add m.counter 1

  abbrev pub inner : ClusterInner
  inner = new_body now new_id m.tick tokens suffix member event_ms

  new_id_suc : new_id ≡ m.counter + 1
  new_id_suc = omega arith

  pub new_id_fresh : lookup new_id m.clusters_by_id ≡ none
  new_id_fresh = elim (Option-cases (lookup new_id m.clusters_by_id)) [
    | inl e ↦ e
    | inr (body, e) ↦ absurd (omega (arith, wf.issued new_id body e))
  ]

  pub inner_width : length inner.tokens ≡ length tokens
  inner_width =
      ap length (new_body-tokens now new_id m.tick tokens suffix member event_ms).1
      ∙ length-map to_owned tokens

  pub inner_keys : body_keys m.options inner ≡ descent_keys m.options tokens
  inner_keys =
      ap (λ template. text_keys m.options (map (λ (t : OwnedToken). t.text) template))
        (new_body-tokens now new_id m.tick tokens suffix member event_ms).1
      ∙ ap (text_keys m.options) (owned_texts-to_owned m.options tokens)
      ∙ sym (descent_keys-prefix_keys m.options tokens)

  abbrev pub evicted : LeafBucket × List (ℕ × ClusterInner)
  evicted = evict_if_full leaf (insert new_id inner m.clusters_by_id)

  -- Whoever has been evicted, the new body is stored and the other ids of the leaf keep theirs.
  pub evicted-IsPlaced :
      IsPlaced m wf
        (length tokens)
        (descent_keys m.options tokens)
        (length-descent_keys m.options tokens)
        shard
        root
        leaf
        at_width
        made
        shaped
        new_id
        inner
        new_id_fresh
        (new_body-tokens now new_id m.tick tokens suffix member event_ms).0
        inner_width
        inner_keys
        evicted.0
        evicted.1
  evicted-IsPlaced =
      let h =
        leaf-IsLeaf m wf (length tokens) (descent_keys m.options tokens)
          (length-descent_keys m.options tokens) shard root leaf at_width made shaped in
      insert-IsPlaced m wf (length tokens) (descent_keys m.options tokens)
        (length-descent_keys m.options tokens) shard root leaf at_width made shaped new_id inner
        new_id_fresh (new_body-tokens now new_id m.tick tokens suffix member event_ms).0 inner_width
        inner_keys evicted.0 evicted.1
        (evict_if_full-IsEvicted leaf (insert new_id inner m.clusters_by_id)
          (omega (arith, h.capped, wf.capacity)) (omega (arith, h.capped, h.bounded)) h.distinct)

  pub create_cluster-IsWellFormed :
      IsWellFormed
        (create_cluster now
          (length tokens)
          (descent_keys m.options tokens)
          root
          leaf
          tokens
          suffix
          member
          event_ms
          m).0
  unfolding create_cluster next_tick
  create_cluster-IsWellFormed =
      placed-IsWellFormed m wf (length tokens) (descent_keys m.options tokens)
        (length-descent_keys m.options tokens) shard root leaf at_width made shaped new_id inner
        new_id_fresh (new_body-tokens now new_id m.tick tokens suffix member event_ms).0 inner_width
        inner_keys evicted.0 evicted.1 evicted-IsPlaced new_id (wrapping_add m.tick 1) (omega arith)
        (omega arith)
