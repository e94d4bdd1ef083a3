-- ===== src/Miner/Invariant/Write.antt =====
-- A write at one place of the map of leaves of crates/logdrain/src/miner.rs, and what it needs for
-- the miner to stay well-formed.
use logdrain.Common.{
  ℕ, List, some, ◌≡◌, refl, sym, ◌∙◌, ap, ◌≤◌, ◌≢◌, ◌⊎◌, inl, inr, Text, length, length-map, count,
  nat_eq, arith, ℕ_discrete, Option-cases,
}
use mathlib.Core.Option
use logdrain.Common.Assoc.{lookup}
use logdrain.Cluster.{ClusterInner}
use logdrain.Miner.Invariant.{IsFiled, IsLeaf, IsHeld, IsWellFormed, body_keys, template_texts}
use logdrain.Miner.Layout.{leaf_at, key_count, SamePlace, same_place, length-text_keys}
use logdrain.Miner.State.{Miner, Shard}
use logdrain.Tokenize.{OwnedToken}
use logdrain.Tree.Leaf
use logdrain.Tree.Leaf.{LeafBucket}
use logdrain.Tree.Shape.{IsRoot}

module _ {F R : Type 0} (m : Miner F R) where
  -- The length of a body's keys.
  pub length-body_keys :
      (body : ClusterInner)
      → length (body_keys m.options body) ≡ key_count m.options (length body.tokens)
  length-body_keys body =
      length-text_keys m.options (template_texts body)
      ∙ ap (key_count m.options) (length-map (λ (t : OwnedToken). t.text) body.tokens)

  -- What stands at a place, or would be put there, holds only filed ids.
  pub IsLeaf-get_or :
      IsWellFormed m
      → (width : ℕ) (keys : List Text) → length keys ≡ key_count m.options width
      → IsLeaf m.options m.clusters_by_id width keys
          (Option.get_or (leaf_at m.shards width keys) (Leaf.new m.options.max_clusters_per_leaf))
  unfolding Leaf.new
  IsLeaf-get_or wf width keys l = elim (Option-cases (leaf_at m.shards width keys)) [
    | inr (leaf, e) ↦ rw e (wf.leaves width keys leaf l e)
    | inl e ↦ rw e (record {
      capped = refl;
      bounded = omega arith;
      distinct = λ id. omega arith;
      filed = λ id c. absurd (omega arith);
    })
  ]

  module _ (width : ℕ) (keys : List Text) (fits : length keys ≡ key_count m.options width)
      (shards : List (ℕ × Shard)) (clusters : List (ℕ × ClusterInner)) (counter tick : ℕ)
      (b : LeafBucket) where
    abbrev pub written : Miner F R
    written = record m {
      shards = shards;
      clusters_by_id = clusters;
      counter = counter;
      tick = tick;
    }

    -- The new leaf and bodies, against the old ones.
    pub record IsWritten : Type 0 where
      pub root :
          (shard : Shard)
          → lookup width shards ≡ some shard
          → IsRoot (key_count m.options width) shard
      pub other_roots : (w : ℕ) → width ≢ w → lookup w shards ≡ lookup w m.shards
      pub here : leaf_at shards width keys ≡ some b
      pub elsewhere :
          (w : ℕ) (k : List Text)
          → (w ≡ width → length k ≡ length keys)
          → ¬ SamePlace w k width keys
          → leaf_at shards w k ≡ leaf_at m.shards w k
      pub leaf : IsLeaf m.options clusters width keys b
      pub others :
          (w : ℕ) (k : List Text) (id : ℕ)
          → ¬ SamePlace w k width keys
          → IsFiled m.options m.clusters_by_id w k id
          → lookup id clusters ≡ lookup id m.clusters_by_id
      pub held :
          (id : ℕ) (body : ClusterInner)
          → lookup id clusters ≡ some body
          → ((1 ≤ count id b.ids)
              × SamePlace (length body.tokens) (body_keys m.options body) width keys)
            ⊎ (IsHeld m id body
                × (¬ SamePlace (length body.tokens) (body_keys m.options body) width keys))
      pub issued : (id : ℕ) (body : ClusterInner) → lookup id clusters ≡ some body → id ≤ counter

    module _ (wf : IsWellFormed m) (w : IsWritten) where
      same_length :
          (c : ℕ) (k : List Text)
          → length k ≡ key_count m.options c
          → c ≡ width
          → length k ≡ length keys
      same_length c k l e = l ∙ ap (key_count m.options) e ∙ sym fits

      roots_written :
          (c : ℕ) (shard : Shard)
          → lookup c shards ≡ some shard
          → IsRoot (key_count m.options c) shard
      roots_written c shard e = elim (ℕ_discrete width c) [
        | yes p ↦ rw (← p) (w.root shard (rw p e))
        | no n ↦ wf.roots c shard (sym (w.other_roots c n) ∙ e)
      ]

      leaves_written :
          (c : ℕ) (k : List Text) (leaf : LeafBucket)
          → length k ≡ key_count m.options c
          → leaf_at shards c k ≡ some leaf
          → IsLeaf m.options clusters c k leaf
      leaves_written c k leaf l e = elim (same_place c k width keys) [
        | inl (p, q) ↦ let r : b ≡ leaf = ground (arith, w.here) in rw (p, q, ← r) w.leaf
        | inr n ↦
            let h = wf.leaves c k leaf l (sym (w.elsewhere c k (same_length c k l) n) ∙ e) in
            record {
              capped = h.capped;
              bounded = h.bounded;
              distinct = h.distinct;
              filed = λ id one.
                  let f = h.filed id one in
                  record {
                    body = f.body;
                    found = w.others c k id n f ∙ f.found;
                    named = f.named;
                    tokens_width = f.tokens_width;
                    path = f.path;
                  };
            }
      ]

      IsHeld-written :
          (id : ℕ) (body : ClusterInner) → lookup id clusters ≡ some body → IsHeld written id body
      IsHeld-written id body e = elim (w.held id body e) [
        | inl (c, (p, q)) ↦ record { leaf = b; there = rw (p, q) w.here; member = c }
        | inr (h, n) ↦ record {
          leaf = h.leaf;
          there =
              w.elsewhere (length body.tokens) (body_keys m.options body)
                (same_length (length body.tokens) (body_keys m.options body)
                  (length-body_keys body))
                n
              ∙ h.there;
          member = h.member;
        }
      ]

      pub written-IsWellFormed : IsWellFormed written
      written-IsWellFormed = record {
        capacity = wf.capacity;
        roots = roots_written;
        leaves = leaves_written;
        held = IsHeld-written;
        issued = w.issued;
      }
