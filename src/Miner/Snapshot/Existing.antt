-- ===== src/Miner/Snapshot/Existing.antt =====
-- One body of a snapshot in crates/logdrain/src/miner.rs: it comes back as it was, and
-- `insert_existing` stores it.
use logdrain.Common.{
  ℕ, ◌*◌, ◌/◌, ◌%◌, ◌<◌, ◌≤◌, List, [], ◌∷◌, none, some, ◌≡◌, ◌≢◌, refl, sym, subst, ◌∙◌, ap, Text,
  length, length-map, map, nat_eq, arith, u64_values, Option-cases, inl, inr,
}
use logdrain.Common.Assoc.{lookup, insert}
use logdrain.Cluster.{ClusterInner}
use logdrain.Cluster.Time.{unix_ms, time_from_ms}
use logdrain.Miner.Invariant.{IsLeaf, IsWellFormed, body_keys}
use logdrain.Miner.Invariant.Calls.{length-descent_keys, shard_for-IsWellFormed}
use logdrain.Miner.Invariant.Place.{placed-IsWellFormed, leaf-IsLeaf, evict-IsPlaced}
use logdrain.Miner.Layout.{key_count, lookup-shard_for, shard_for_frame}
use logdrain.Miner.Learn.{evict_if_full}
use logdrain.Miner.Learn.Evict.{evict_if_full_cases, evict_if_full-IsEvicted}
use logdrain.Miner.Snapshot.{
  snapshot_token, restore_token, snapshot_cluster, restore_cluster, view, insert_existing,
}
use logdrain.Miner.State.{Miner, shard_for, descent_keys, text_keys}
use logdrain.Options.{Options}
use logdrain.Snapshot.{TokenSnapshot, ClusterSnapshot}
use logdrain.Tokenize.{Token, OwnedToken}
use logdrain.Tree.{TreeNode, descend_or_create, set_leaf}
use logdrain.Tree.Leaf
use logdrain.Tree.Leaf.{LeafBucket}
use logdrain.Tree.Shape.{descend_or_create-IsRoot}

tokens_back : (tokens : List TokenSnapshot) → map snapshot_token (map restore_token tokens) ≡ tokens
tokens_back [] = refl
tokens_back (t ∷ tokens) = ap (λ rest. t ∷ rest) (tokens_back tokens)

-- A stored cluster whose time of creation is a `u64` is the snapshot of the body restored from it.
pub snapshot_cluster-restore_cluster :
    (cs : ClusterSnapshot)
    → cs.created_at_ms < u64_values
    → snapshot_cluster (restore_cluster cs) ≡ cs
unfolding snapshot_cluster restore_cluster unix_ms time_from_ms
snapshot_cluster-restore_cluster cs h =
    let created : (cs.created_at_ms * 1000000) / 1000000 % u64_values ≡ cs.created_at_ms =
      omega (arith, h) in
    rw (tokens_back cs.tokens, created)

texts_view :
    (tokens : List OwnedToken)
    → map (λ (t : Token). t.text) (map view tokens) ≡ map (λ (t : OwnedToken). t.text) tokens
texts_view [] = refl
texts_view (t ∷ tokens) = ap (λ rest. t.text ∷ rest) (texts_view tokens)

module _ {F R : Type 0} where
  keys_view :
      (o : Options F R) (body : ClusterInner)
      → descent_keys o (map view body.tokens) ≡ body_keys o body
  unfolding descent_keys
  keys_view o body = ap (text_keys o) (texts_view body.tokens)

  fits_view :
      (o : Options F R) (body : ClusterInner)
      → length (descent_keys o (map view body.tokens)) ≡ key_count o (length body.tokens)
  fits_view o body =
      length-descent_keys o (map view body.tokens) ∙ ap (key_count o) (length-map view body.tokens)

  IsLeaf-moved :
      (body : ClusterInner) (leaf : LeafBucket) {o o' : Options F R}
      {clusters others : List (ℕ × ClusterInner)}
      → o ≡ o'
      → clusters ≡ others
      → IsLeaf o clusters (length body.tokens) (descent_keys o (map view body.tokens)) leaf
      → IsLeaf o' others (length body.tokens) (body_keys o' body) leaf
  IsLeaf-moved body leaf {o = o} {o' = o'} {clusters = clusters} {others = others} p q h =
      subst (λ x. IsLeaf x others (length body.tokens) (body_keys x body) leaf) p
        (subst (λ cs. IsLeaf o cs (length body.tokens) (body_keys o body) leaf) q
          (subst (λ ks. IsLeaf o clusters (length body.tokens) ks leaf) (keys_view o body) h))

  module _ (inner : ClusterInner) (m : Miner F R) where
    abbrev base : Miner F R
    base = (shard_for (length inner.tokens) m).1

    abbrev keys : List Text
    keys = descent_keys base.options (map view inner.tokens)

    -- The miner after `insert_existing`, with the path made and the leaf at its end.
    abbrev stored : List Text → TreeNode → LeafBucket → Miner F R
    stored ks root leaf =
        let (kept, clusters) = evict_if_full leaf base.clusters_by_id in
        record base {
          shards =
              insert (length inner.tokens) (set_leaf ks (Leaf.insert inner.id kept) root)
                base.shards;
          clusters_by_id = insert inner.id inner clusters;
        }

    insert_existing_path :
        (root : TreeNode) (leaf : LeafBucket)
        → descend_or_create
            (descent_keys m.options (map view inner.tokens))
            m.options.max_clusters_per_leaf
            (shard_for (length inner.tokens) m).0
          ≡ some (root, leaf)
        → insert_existing inner m
          ≡ some (stored (descent_keys m.options (map view inner.tokens)) root leaf)
    unfolding insert_existing
    insert_existing_path root leaf made = rw (made, insert_existing)

    insert_existing-some :
        (root : TreeNode) (leaf : LeafBucket)
        → descend_or_create keys base.options.max_clusters_per_leaf
            (shard_for (length inner.tokens) m).0
          ≡ some (root, leaf)
        → insert_existing inner m ≡ some (stored keys root leaf)
    insert_existing-some root leaf made =
        let options = (shard_for_frame (length inner.tokens) m).1 in
        insert_existing_path root leaf (
          subst
            (λ (o : Options F R).
              descend_or_create (descent_keys o (map view inner.tokens)) o.max_clusters_per_leaf
                (shard_for (length inner.tokens) m).0
              ≡ some (root, leaf))
            options made)
        ∙ ap (λ (o : Options F R). some (stored (descent_keys o (map view inner.tokens)) root leaf))
            (sym options)

    -- Into a well-formed miner, a body with an id that is not in use and not above the counter is stored
    -- without a panic; the miner stays well-formed with its options and counter, and no other id comes
    -- into use.
    pub insert_existing-IsWellFormed :
        IsWellFormed m
        → lookup inner.id m.clusters_by_id ≡ none
        → inner.id ≤ m.counter
        → (m' : Miner F R) × (insert_existing inner m ≡ some m')
          × IsWellFormed m'
          × (m'.options ≡ m.options)
          × (m'.counter ≡ m.counter)
          × ((id : ℕ)
              → inner.id ≢ id
              → lookup id m.clusters_by_id ≡ none
              → lookup id m'.clusters_by_id ≡ none)
    insert_existing-IsWellFormed wf fresh numbered =
        let (bodies, options, counter, tick) = shard_for_frame (length inner.tokens) m in
        let well = shard_for-IsWellFormed (length inner.tokens) m wf in
        let at_width = lookup-shard_for (length inner.tokens) m in
        let fits = fits_view base.options inner in
        let (root, leaf, made, shaped) =
          descend_or_create-IsRoot keys base.options.max_clusters_per_leaf
            (shard_for (length inner.tokens) m).0
            (rw fits (well.roots (length inner.tokens) _ at_width)) in
        let shard = (shard_for (length inner.tokens) m).0 in
        let h =
          leaf-IsLeaf base well (length inner.tokens) keys fits shard root leaf at_width made
            shaped in
        let fresh' : lookup inner.id base.clusters_by_id ≡ none = rw bodies fresh in
        let (kept, clusters) = evict_if_full leaf base.clusters_by_id in
        let placed =
          evict-IsPlaced base well (length inner.tokens) keys fits shard root leaf at_width made
            shaped inner.id inner fresh' refl refl (sym (keys_view base.options inner)) kept
            clusters
            (evict_if_full-IsEvicted leaf base.clusters_by_id
              (omega (arith, h.capped, well.capacity)) (omega (arith, h.capped, h.bounded))
              h.distinct) in
        (
          stored keys root leaf,
          insert_existing-some root leaf made,
          placed-IsWellFormed base well (length inner.tokens) keys fits shard root leaf at_width
              made shaped inner.id inner fresh' refl refl (sym (keys_view base.options inner)) kept
              (insert inner.id inner clusters) placed base.counter base.tick (omega arith)
              (omega (arith, counter, numbered)),
          options,
          counter,
          λ id n e. elim (Option-cases (lookup id (stored keys root leaf).clusters_by_id)) [
            | inl gone ↦ gone
            | inr (body, f) ↦ let old = (placed.remain id body n f).0 in cc (old, bodies, e)
          ],
        )

    -- Where the leaf has room, nothing else is taken out of the miner.
    pub insert_existing_room :
        IsWellFormed m
        → ((leaf : LeafBucket)
            → IsLeaf m.options m.clusters_by_id
                (length inner.tokens)
                (body_keys m.options inner)
                leaf
            → length leaf.ids < m.options.max_clusters_per_leaf)
        → (m' : Miner F R) → insert_existing inner m ≡ some m'
        → m'.clusters_by_id ≡ insert inner.id inner m.clusters_by_id
    insert_existing_room wf room m' e =
        let (bodies, options, counter, tick) = shard_for_frame (length inner.tokens) m in
        let well = shard_for-IsWellFormed (length inner.tokens) m wf in
        let at_width = lookup-shard_for (length inner.tokens) m in
        let fits = fits_view base.options inner in
        let (root, leaf, made, shaped) =
          descend_or_create-IsRoot keys base.options.max_clusters_per_leaf
            (shard_for (length inner.tokens) m).0
            (rw fits (well.roots (length inner.tokens) _ at_width)) in
        let h =
          leaf-IsLeaf base well (length inner.tokens) keys fits
            (shard_for (length inner.tokens) m).0 root leaf at_width made shaped in
        let h' = IsLeaf-moved inner leaf options bodies h in
        let small : length leaf.ids < m.options.max_clusters_per_leaf = room leaf h' in
        let after : m' ≡ stored keys root leaf = cc (insert_existing-some root leaf made, e) in
        let kept : (evict_if_full leaf base.clusters_by_id).1 ≡ base.clusters_by_id =
          elim (evict_if_full_cases leaf base.clusters_by_id
            (omega (arith, h'.capped, wf.capacity))) [
              | inl (r, q) ↦ ap (λ p. p.1) q
              | inr (v, victim) ↦ absurd (omega (arith, victim.full, small, h'.capped))
            ] in
        ap (λ (t : Miner F R). t.clusters_by_id) after ∙ ap (insert inner.id inner) (kept ∙ bodies)
