-- ===== src/Miner/Layout.antt =====
-- The shards of crates/logdrain/src/miner.rs as one map from a token count and a key vector to a
-- leaf, and what each change to a shard does to that map.
use logdrain.Common.{
  ℕ, List, Option, none, some, ◌≡◌, ◌⊎◌, inl, inr, ◌≢◌, Text, length, length-map, length-take, min,
  nat_eq, sym, ◌∙◌, take, arith, Option-cases, ℕ_discrete, List-discrete,
}
use mathlib.Core.Option
use logdrain.Common.Assoc.{lookup, insert, lookup-insert_self, lookup-insert_ne}
use logdrain.Miner.State.{Miner, Shard, shard_for, key_of, text_keys}
use logdrain.Options.{Options, prefix_len}
use logdrain.Tree.Leaf
use logdrain.Tree.Leaf.{LeafBucket}
use logdrain.Tree.{TreeNode, new_internal, descend, descend_or_create, set_leaf}
use logdrain.Tree.Descent.{
  descend-new_internal, descend-descend_or_create_self, descend-descend_or_create_ne,
  descend-set_leaf_self, descend-set_leaf_ne,
}

-- The leaf for lines of `count` tokens with these keys, if the path exists.
unfoldable pub leaf_at : List (ℕ × Shard) → ℕ → List Text → Option LeafBucket
leaf_at shards count keys = elim (lookup count shards) [
  | some root ↦ descend keys root
  | none ↦ none
]

-- How many keys a line of `count` tokens has.
abbrev pub key_count : {F R : Type 0} → Options F R → ℕ → ℕ
key_count o count = min (prefix_len o) count

pub length-text_keys :
    {F R : Type 0} (o : Options F R) (texts : List Text)
    → length (text_keys o texts) ≡ key_count o (length texts)
unfolding text_keys
length-text_keys o texts = omega (
  arith,
  length-map (key_of o) (take (key_count o (length texts)) texts),
  length-take (key_count o (length texts)) texts,
)

-- Whether two places in the map are one.
abbrev pub SamePlace : ℕ → List Text → ℕ → List Text → Type 0
SamePlace c k count keys = (c ≡ count) × (k ≡ keys)

pub same_place :
    (c : ℕ) (k : List Text) (count : ℕ) (keys : List Text)
    → SamePlace c k count keys ⊎ ¬ SamePlace c k count keys
same_place c k count keys = elim (ℕ_discrete c count) [
  | no p ↦ inr (λ h. p h.0)
  | yes p ↦ elim (List-discrete (List-discrete ℕ_discrete) k keys) [
    | yes q ↦ inl (p, q)
    | no q ↦ inr (λ h. q h.1)
  ]
]

leaf_at-insert :
    (shards : List (ℕ × Shard)) (count : ℕ) (keys : List Text) (root : Shard)
    → leaf_at (insert count root shards) count keys ≡ descend keys root
unfolding leaf_at
leaf_at-insert shards count keys root = rw (lookup-insert_self count root shards, leaf_at)

leaf_at-insert_ne :
    (shards : List (ℕ × Shard)) (count c : ℕ) (k : List Text) (root : Shard)
    → count ≢ c
    → leaf_at (insert count root shards) c k ≡ leaf_at shards c k
unfolding leaf_at
leaf_at-insert_ne shards count c k root n = rw (lookup-insert_ne count c root shards n, leaf_at)

pub leaf_at-eq :
    (shards : List (ℕ × Shard)) (count : ℕ) (keys : List Text) {root : Shard}
    → lookup count shards ≡ some root
    → leaf_at shards count keys ≡ descend keys root
unfolding leaf_at
leaf_at-eq shards count keys e = rw (e, leaf_at)

module _ (shards : List (ℕ × Shard)) (count : ℕ) (keys : List Text) (shard : Shard)
    (at_count : lookup count shards ≡ some shard) where
  -- Two trees that differ at one path make two maps that differ at one place.
  leaf_at_ne :
      (root : TreeNode)
      → ((k : List Text) → length k ≡ length keys → keys ≢ k → descend k root ≡ descend k shard)
      → (c : ℕ) (k : List Text) → (c ≡ count → length k ≡ length keys)
      → ¬ SamePlace c k count keys
      → leaf_at (insert count root shards) c k ≡ leaf_at shards c k
  leaf_at_ne root agree c k h n = elim (ℕ_discrete c count) [
    | no p ↦ leaf_at-insert_ne shards count c k root (λ e. p (sym e))
    | yes p ↦ rw p (
        leaf_at-insert shards count k root
        ∙ agree k (h p) (λ q. n (p, sym q))
        ∙ sym (leaf_at-eq shards count k at_count))
  ]

  module _ (cap : ℕ) (root : TreeNode) (leaf : LeafBucket)
      (made : descend_or_create keys cap shard ≡ some (root, leaf)) where
    -- A leaf found by `descend_or_create` is the one that was there, or a new one.
    pub leaf_of_path : leaf ≡ Option.get_or (leaf_at shards count keys) (Leaf.new cap)
    leaf_of_path =
        rw (leaf_at-eq shards count keys at_count)
          (descend-descend_or_create_self keys cap shard root leaf made).1

    -- The path is there, and every other place is as before.
    pub leaf_at-path : leaf_at (insert count root shards) count keys ≡ some leaf
    leaf_at-path =
        leaf_at-insert shards count keys root
        ∙ (descend-descend_or_create_self keys cap shard root leaf made).0

    pub leaf_at-path_ne :
        (c : ℕ) (k : List Text)
        → (c ≡ count → length k ≡ length keys)
        → ¬ SamePlace c k count keys
        → leaf_at (insert count root shards) c k ≡ leaf_at shards c k
    leaf_at-path_ne c k h n =
        leaf_at_ne root
          (λ k' l p. descend-descend_or_create_ne keys k' cap shard root leaf l p made) c k h n

    -- The same after a write through the reference.
    pub leaf_at-write :
        (b : LeafBucket) → leaf_at (insert count (set_leaf keys b root) shards) count keys ≡ some b
    leaf_at-write b =
        leaf_at-insert shards count keys (set_leaf keys b root)
        ∙ descend-set_leaf_self keys b leaf root
            (descend-descend_or_create_self keys cap shard root leaf made).0

    pub leaf_at-write_ne :
        (b : LeafBucket) (c : ℕ) (k : List Text)
        → (c ≡ count → length k ≡ length keys)
        → ¬ SamePlace c k count keys
        → leaf_at (insert count (set_leaf keys b root) shards) c k ≡ leaf_at shards c k
    leaf_at-write_ne b c k h n =
        leaf_at_ne (set_leaf keys b root)
          (λ k' l p.
            descend-set_leaf_ne keys k' b root l p
            ∙ descend-descend_or_create_ne keys k' cap shard root leaf l p made)
          c k h n

leaf_at_none :
    (shards : List (ℕ × Shard)) (count : ℕ) (keys : List Text)
    → lookup count shards ≡ none
    → leaf_at shards count keys ≡ none
unfolding leaf_at
leaf_at_none shards count keys e = rw (e, leaf_at)

-- A shard that is made on demand starts with no leaf, and nothing else changes.
module _ {F R : Type 0} (count : ℕ) (m : Miner F R) where
  pub shard_for-some :
      {root : Shard} → lookup count m.shards ≡ some root → shard_for count m ≡ (root, m)
  unfolding shard_for
  shard_for-some e = rw (e, shard_for)

  pub shard_for-none :
      lookup count m.shards ≡ none
      → shard_for count m ≡ (new_internal, record m { shards = insert count new_internal m.shards })
  unfolding shard_for
  shard_for-none e = rw (e, shard_for)

  pub lookup-shard_for : lookup count (shard_for count m).1.shards ≡ some (shard_for count m).0
  lookup-shard_for = elim (Option-cases (lookup count m.shards)) [
    | inl e ↦ rw (shard_for-none e) (lookup-insert_self count new_internal m.shards)
    | inr (root, e) ↦ rw (shard_for-some e) e
  ]

  pub lookup-shard_for_ne :
      (c : ℕ) → count ≢ c → lookup c (shard_for count m).1.shards ≡ lookup c m.shards
  lookup-shard_for_ne c n = elim (Option-cases (lookup count m.shards)) [
    | inl e ↦ rw (shard_for-none e) (lookup-insert_ne count c new_internal m.shards n)
    | inr (root, e) ↦ rw (shard_for-some e)
  ]

  -- The shard is the one that was there, or an empty one.
  pub shard_for_cases :
      (lookup count m.shards ≡ some (shard_for count m).0) ⊎ ((shard_for count m).0 ≡ new_internal)
  shard_for_cases = elim (Option-cases (lookup count m.shards)) [
    | inl e ↦ inr (rw (shard_for-none e))
    | inr (root, e) ↦ inl (rw (shard_for-some e) e)
  ]

  pub leaf_at-shard_for :
      (c : ℕ) (k : List Text) → leaf_at (shard_for count m).1.shards c k ≡ leaf_at m.shards c k
  leaf_at-shard_for c k = elim (Option-cases (lookup count m.shards)) [
    | inr (root, e) ↦ rw (shard_for-some e)
    | inl e ↦ elim (ℕ_discrete count c) [
      | no p ↦ rw (shard_for-none e) (leaf_at-insert_ne m.shards count c k new_internal p)
      | yes p ↦
          rw (shard_for-none e, ← p)
            (leaf_at-insert m.shards count k new_internal
              ∙ descend-new_internal k
              ∙ sym (leaf_at_none m.shards count k e))
    ]
  ]

  -- Nothing else changes.
  pub shard_for_frame :
      ((shard_for count m).1.clusters_by_id ≡ m.clusters_by_id)
      × ((shard_for count m).1.options ≡ m.options)
      × ((shard_for count m).1.counter ≡ m.counter)
      × ((shard_for count m).1.tick ≡ m.tick)
  unfolding shard_for
  shard_for_frame = ground arith
