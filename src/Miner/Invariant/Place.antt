-- ===== src/Miner/Invariant/Place.antt =====
-- The path that `descend_or_create` makes, and a new id at its end, leave the miner of
-- crates/logdrain/src/miner.rs well-formed.
use logdrain.Common.{
  ℕ, ◌<◌, List, none, some, ◌≡◌, refl, sym, ◌∙◌, ap, ◌≤◌, ◌≢◌, ◌⊎◌, inl, inr, Text, length, count,
  nat_eq, arith, ℕ_discrete,
}
use logdrain.Common.Assoc.{lookup, insert, lookup-insert_self, lookup-insert_ne}
use logdrain.Cluster.{ClusterInner}
use logdrain.Miner.Invariant.{IsFiled, IsLeaf, IsHeld, IsWellFormed, body_keys}
use logdrain.Miner.Invariant.Write.{IsLeaf-get_or, IsWritten, written-IsWellFormed}
use logdrain.Miner.Layout.{
  leaf_at, key_count, SamePlace, same_place, leaf_of_path, leaf_at-path, leaf_at-path_ne,
  leaf_at-write, leaf_at-write_ne,
}
use logdrain.Miner.Learn.Evict.{IsEvicted}
use logdrain.Miner.State.{Miner, Shard}
use logdrain.Tree.{TreeNode, descend_or_create, set_leaf}
use logdrain.Tree.Leaf
use logdrain.Tree.Leaf.{LeafBucket}
use logdrain.Tree.Membership.{count-insert, length-insert}
use logdrain.Tree.Shape.{IsShaped, IsRoot-IsShaped, set_leaf-IsShaped}

module _ {F R : Type 0} (m : Miner F R) (wf : IsWellFormed m) (width : ℕ) (keys : List Text)
    (fits : length keys ≡ key_count m.options width) (shard root : TreeNode) (leaf : LeafBucket)
    (at_width : lookup width m.shards ≡ some shard)
    (made : descend_or_create keys m.options.max_clusters_per_leaf shard ≡ some (root, leaf))
    (shaped : IsShaped (length keys) root) where
  abbrev cap : ℕ
  cap = m.options.max_clusters_per_leaf

  -- The leaf at the end of the path satisfies what the invariant asks of it.
  pub leaf-IsLeaf : IsLeaf m.options m.clusters_by_id width keys leaf
  leaf-IsLeaf =
      rw (leaf_of_path m.shards width keys shard at_width cap root leaf made)
        (IsLeaf-get_or m wf width keys fits)

  -- A body of this place has its id in that leaf.
  held_here :
      (id : ℕ) (body : ClusterInner)
      → IsHeld m id body
      → SamePlace (length body.tokens) (body_keys m.options body) width keys
      → 1 ≤ count id leaf.ids
  held_here id body h (p, q) =
      let e : leaf_at m.shards width keys ≡ some h.leaf = rw (p, q) at h.there in
      rw (leaf_of_path m.shards width keys shard at_width cap root leaf made, e) h.member

  -- An id filed at another place is not in this leaf.
  not_here :
      (w : ℕ) (k : List Text) (id : ℕ)
      → ¬ SamePlace w k width keys
      → IsFiled m.options m.clusters_by_id w k id
      → count id leaf.ids ≡ 0
  not_here w k id n f = elim (ℕ_discrete (count id leaf.ids) 0) [
    | yes p ↦ p
    | no p ↦
        let g = leaf-IsLeaf.filed id (omega arith) in
        let e : f.body ≡ g.body = ground arith in
        absurd (
          n (
            sym f.tokens_width ∙ ap (λ b. length b.tokens) e ∙ g.tokens_width,
            sym f.path ∙ ap (body_keys m.options) e ∙ g.path,
          ))
  ]

  path-IsWritten :
      IsWritten m width keys fits
        (insert width root m.shards)
        m.clusters_by_id
        m.counter
        m.tick
        leaf
  path-IsWritten = record {
    root = λ s e.
        let q : root ≡ s = ground (arith, lookup-insert_self width root m.shards) in
        rw (← q, ← fits) (IsRoot-IsShaped (length keys) root shaped);
    other_roots = λ w n. lookup-insert_ne width w root m.shards n;
    here = leaf_at-path m.shards width keys shard at_width cap root leaf made;
    elsewhere = leaf_at-path_ne m.shards width keys shard at_width cap root leaf made;
    leaf = leaf-IsLeaf;
    others = λ w k id n f. refl;
    held = λ id body e.
        let h = wf.held id body e in
        elim (same_place (length body.tokens) (body_keys m.options body) width keys) [
          | inl p ↦ inl (held_here id body h p, p)
          | inr n ↦ inr (h, n)
        ];
    issued = wf.issued;
  }

  pub path-IsWellFormed : IsWellFormed (record m { shards = insert width root m.shards })
  path-IsWellFormed =
      written-IsWellFormed m width keys fits (insert width root m.shards) m.clusters_by_id m.counter
        m.tick leaf wf path-IsWritten

  module _ (id : ℕ) (inner : ClusterInner) (fresh : lookup id m.clusters_by_id ≡ none)
      (named : inner.id ≡ id) (inner_width : length inner.tokens ≡ width)
      (inner_keys : body_keys m.options inner ≡ keys) where
    pub count-fresh : count id leaf.ids ≡ 0
    count-fresh = elim (ℕ_discrete (count id leaf.ids) 0) [
      | yes p ↦ p
      | no p ↦ let g = leaf-IsLeaf.filed id (omega arith) in cc
    ]

    -- What an eviction and the insertion of the new body give, in either order.
    pub record IsPlaced (kept : LeafBucket) (clusters : List (ℕ × ClusterInner)) : Type 0 where
      pub new : lookup id clusters ≡ some inner
      pub cap : kept.cap ≡ leaf.cap
      pub room : length kept.ids < leaf.cap
      pub fewer : (x : ℕ) → count x kept.ids ≤ count x leaf.ids
      pub stay :
          (x : ℕ) → id ≢ x → 1 ≤ count x kept.ids → lookup x clusters ≡ lookup x m.clusters_by_id
      pub remain :
          (x : ℕ) (body : ClusterInner)
          → id ≢ x
          → lookup x clusters ≡ some body
          → (lookup x m.clusters_by_id ≡ some body) × (count x kept.ids ≡ count x leaf.ids)
      pub elsewhere :
          (x : ℕ) → id ≢ x → count x leaf.ids ≡ 0 → lookup x clusters ≡ lookup x m.clusters_by_id

    -- `create_cluster` inserts, then evicts.
    pub insert-IsPlaced :
        (kept : LeafBucket) (left : List (ℕ × ClusterInner))
        → IsEvicted leaf (insert id inner m.clusters_by_id) kept left
        → IsPlaced kept left
    insert-IsPlaced kept left ev = record {
      new = ev.elsewhere id count-fresh ∙ lookup-insert_self id inner m.clusters_by_id;
      cap = ev.cap;
      room = ev.room;
      fewer = ev.fewer;
      stay = λ x n c. ev.stay x c ∙ lookup-insert_ne id x inner m.clusters_by_id n;
      remain = λ x body n e.
          let (p, q) = ev.remain x body e in
          (sym (lookup-insert_ne id x inner m.clusters_by_id n) ∙ p, q);
      elsewhere = λ x n c. ev.elsewhere x c ∙ lookup-insert_ne id x inner m.clusters_by_id n;
    }

    -- `insert_existing` evicts, then inserts.
    pub evict-IsPlaced :
        (kept : LeafBucket) (left : List (ℕ × ClusterInner))
        → IsEvicted leaf m.clusters_by_id kept left
        → IsPlaced kept (insert id inner left)
    evict-IsPlaced kept left ev = record {
      new = lookup-insert_self id inner left;
      cap = ev.cap;
      room = ev.room;
      fewer = ev.fewer;
      stay = λ x n c. lookup-insert_ne id x inner left n ∙ ev.stay x c;
      remain = λ x body n e. ev.remain x body (sym (lookup-insert_ne id x inner left n) ∙ e);
      elsewhere = λ x n c. lookup-insert_ne id x inner left n ∙ ev.elsewhere x c;
    }

    module _ (kept : LeafBucket) (clusters : List (ℕ × ClusterInner))
        (placed : IsPlaced kept clusters) (counter tick : ℕ) (later : m.counter ≤ counter)
        (numbered : id ≤ counter) where
      IsFiled-placed :
          (x : ℕ) → 1 ≤ count x (Leaf.insert id kept).ids → IsFiled m.options clusters width keys x
      IsFiled-placed x c = elim (ℕ_discrete id x) [
        | yes p ↦ record {
          body = inner;
          found = rw (← p) placed.new;
          named = named ∙ p;
          tokens_width = inner_width;
          path = inner_keys;
        }
        | no n ↦
            let one : 1 ≤ count x kept.ids = ground (arith, count-insert x id kept) in
            let f = leaf-IsLeaf.filed x (ground (arith, placed.fewer x)) in
            record {
              body = f.body;
              found = placed.stay x n one ∙ f.found;
              named = f.named;
              tokens_width = f.tokens_width;
              path = f.path;
            }
      ]

      placed-IsLeaf : IsLeaf m.options clusters width keys (Leaf.insert id kept)
      unfolding Leaf.insert
      placed-IsLeaf = record {
        capped = placed.cap ∙ leaf-IsLeaf.capped;
        bounded = omega (arith, length-insert id kept, placed.room, leaf-IsLeaf.capped);
        distinct = λ x.
            ground
              (arith, count-insert x id kept, placed.fewer x, leaf-IsLeaf.distinct x, count-fresh);
        filed = IsFiled-placed;
      }

      IsHeld-placed :
          (x : ℕ) (body : ClusterInner)
          → lookup x clusters ≡ some body
          → ((1 ≤ count x (Leaf.insert id kept).ids)
              × SamePlace (length body.tokens) (body_keys m.options body) width keys)
            ⊎ (IsHeld m x body
                × (¬ SamePlace (length body.tokens) (body_keys m.options body) width keys))
      IsHeld-placed x body e = elim (ℕ_discrete id x) [
        | yes p ↦
            let q : inner ≡ body = ground (arith, placed.new) in
            inl (ground (arith, count-insert x id kept), rw (← q) (inner_width, inner_keys))
        | no n ↦
            let (old, same) = placed.remain x body n e in
            let h = wf.held x body old in
            elim (same_place (length body.tokens) (body_keys m.options body) width keys) [
              | inl p ↦ inl (omega (arith, count-insert x id kept, held_here x body h p, same), p)
              | inr q ↦ inr (h, q)
            ]
      ]

      abbrev new_shards : List (ℕ × Shard)
      new_shards = insert width (set_leaf keys (Leaf.insert id kept) root) m.shards

      placed-IsWritten :
          IsWritten m width keys fits new_shards clusters counter tick (Leaf.insert id kept)
      placed-IsWritten = record {
        root = λ s e.
            let q : set_leaf keys (Leaf.insert id kept) root ≡ s = ground (
              arith,
              lookup-insert_self width (set_leaf keys (Leaf.insert id kept) root) m.shards,
            ) in
            rw (← q, ← fits)
              (IsRoot-IsShaped (length keys) _
                (set_leaf-IsShaped keys (Leaf.insert id kept) root shaped));
        other_roots = λ w n. lookup-insert_ne width w _ m.shards n;
        here =
            leaf_at-write m.shards width keys shard at_width m.options.max_clusters_per_leaf root
              leaf made (Leaf.insert id kept);
        elsewhere =
            leaf_at-write_ne m.shards width keys shard at_width m.options.max_clusters_per_leaf root
              leaf made (Leaf.insert id kept);
        leaf = placed-IsLeaf;
        others = λ w k x n f. placed.elsewhere x (λ e. cc (fresh, f.found, e)) (not_here w k x n f);
        held = IsHeld-placed;
        issued = λ x body e. elim (ℕ_discrete id x) [
          | yes p ↦ omega (arith, p, numbered)
          | no n ↦ omega (arith, wf.issued x body (placed.remain x body n e).0, later)
        ];
      }

      pub placed-IsWellFormed : IsWellFormed (record m {
        shards = new_shards;
        clusters_by_id = clusters;
        counter = counter;
        tick = tick;
      })
      placed-IsWellFormed =
          written-IsWellFormed m width keys fits new_shards clusters counter tick
            (Leaf.insert id kept) wf placed-IsWritten
