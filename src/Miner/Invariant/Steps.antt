-- ===== src/Miner/Invariant/Steps.antt =====
-- The two ways through `add_inner` of crates/logdrain/src/miner.rs: a line joins a cluster, or it makes
-- one. On a well-formed miner no panic is on either way.
use logdrain.Common.{
  ℕ, List, Option, none, some, ◌≡◌, refl, ◌∙◌, ◌⊎◌, inl, inr, Text, length, nat_eq, arith,
  Option-cases,
}
use logdrain.Common.Assoc.{insert}
use logdrain.Cluster.Time.{SystemTime}
use logdrain.Extern.{Float}
use logdrain.Miner.Add.{find_match, match_or_create, add_tokens}
use logdrain.Miner.Invariant.{IsWellFormed}
use logdrain.Miner.Invariant.Calls.{length-descent_keys, shard_for-IsWellFormed, IsCandidate}
use logdrain.Miner.Invariant.Place.{path-IsWellFormed}
use logdrain.Miner.Layout.{leaf_at, leaf_at-eq, leaf_at-path, lookup-shard_for}
use logdrain.Miner.Learn.{apply_match, create_cluster}
use logdrain.Miner.Matching.{Candidate, best_match, at_least}
use logdrain.Miner.Matching.Found.{best_match-IsFound, at_least-some}
use logdrain.Miner.State.{Miner, shard_for, descent_keys}
use logdrain.Tokenize.{Token}
use logdrain.Tree.{TreeNode, descend, descend_or_create}
use logdrain.Tree.Leaf.{LeafBucket}
use logdrain.Tree.Shape.{IsShaped, descend_or_create-IsRoot}

module _ {F R : Type 0} ⦃fl : Float F⦄ where
  -- The line's leaf, and the best cluster in it if that reaches the threshold.
  abbrev pub best_in : Miner F R → List Token → LeafBucket → Option (Candidate F)
  best_in m tokens leaf =
      at_least m.options.sim_threshold (best_match m.clusters_by_id m.options.wildcard tokens leaf)

  pub best_in-IsCandidate :
      (m : Miner F R) (tokens : List Token) (leaf : LeafBucket) (c : Candidate F)
      → IsWellFormed m
      → leaf_at m.shards (length tokens) (descent_keys m.options tokens) ≡ some leaf
      → best_in m tokens leaf ≡ some c
      → IsCandidate m tokens c
  best_in-IsCandidate m tokens leaf c wf there e =
      let (best, _) = at_least-some m.options.sim_threshold _ c e in
      let found = best_match-IsFound m.clusters_by_id m.options.wildcard tokens leaf c best in
      let h =
        wf.leaves (length tokens) (descent_keys m.options tokens) leaf
          (length-descent_keys m.options tokens) there in
      let f = h.filed c.id found.member in
      let q : f.body ≡ c.body = ground (arith, f.found, found.handle) in
      record { handle = found.handle; width = rw (← q) f.tokens_width; keys = rw (← q) f.path }

  module _ (now : SystemTime) (tokens : List Token) (suffix member : Option Text)
      (event_ms : Option ℕ) (m : Miner F R) where
    abbrev pub base : Miner F R
    base = (shard_for (length tokens) m).1

    abbrev pub keys : List Text
    keys = descent_keys base.options tokens

    -- The line joins the cluster `c` of the leaf.
    pub record Joined : Type 0 where
      pub before : Miner F R
      pub well : IsWellFormed before
      pub options : before.options ≡ base.options
      pub counter : before.counter ≡ base.counter
      pub bodies : before.clusters_by_id ≡ base.clusters_by_id
      pub leaf : LeafBucket
      pub c : Candidate F
      pub there :
          leaf_at before.shards (length tokens) (descent_keys before.options tokens) ≡ some leaf
      pub chosen : best_in before tokens leaf ≡ some c
      pub result :
          add_tokens now tokens suffix member event_ms m
          ≡ some (apply_match now c tokens member event_ms before)

    -- No cluster of the leaf reaches the threshold: a new one is made.
    pub record Created : Type 0 where
      pub root : TreeNode
      pub leaf : LeafBucket
      pub made :
          descend_or_create keys base.options.max_clusters_per_leaf (shard_for (length tokens) m).0
          ≡ some (root, leaf)
      pub shaped : IsShaped (length keys) root
      pub below : best_in base tokens leaf ≡ none
      pub result :
          add_tokens now tokens suffix member event_ms m
          ≡ some
              (create_cluster now (length tokens) keys root leaf tokens suffix member event_ms base)

    add_tokens_matched :
        (c : Candidate F)
        → find_match base tokens (shard_for (length tokens) m).0 ≡ some c
        → add_tokens now tokens suffix member event_ms m
          ≡ some (apply_match now c tokens member event_ms base)
    unfolding add_tokens
    add_tokens_matched c e = rw (e, add_tokens)

    add_tokens_unmatched :
        find_match base tokens (shard_for (length tokens) m).0 ≡ none
        → add_tokens now tokens suffix member event_ms m
          ≡ match_or_create now tokens (shard_for (length tokens) m).0 suffix member event_ms base
    unfolding add_tokens
    add_tokens_unmatched e = rw (e, add_tokens)

    find_match-some :
        (c : Candidate F)
        → find_match base tokens (shard_for (length tokens) m).0 ≡ some c
        → (leaf : LeafBucket) × (descend keys (shard_for (length tokens) m).0 ≡ some leaf)
          × (best_in base tokens leaf ≡ some c)
    unfolding find_match
    find_match-some c e = elim (Option-cases (descend keys (shard_for (length tokens) m).0)) [
      | inl d ↦ absurd (ground arith)
      | inr (leaf, d) ↦ (leaf, d, ground arith)
    ]

    match_or_create_cases :
        (root : TreeNode) (leaf : LeafBucket)
        → descend_or_create keys base.options.max_clusters_per_leaf (shard_for (length tokens) m).0
          ≡ some (root, leaf)
        → ((best_in base tokens leaf ≡ none)
            × (match_or_create now tokens
                  (shard_for (length tokens) m).0
                  suffix
                  member
                  event_ms
                  base
                ≡ some (
                    create_cluster now
                      (length tokens)
                      keys
                      root
                      leaf
                      tokens
                      suffix
                      member
                      event_ms
                      base)))
          ⊎ ((c : Candidate F) × (best_in base tokens leaf ≡ some c)
              × (match_or_create now tokens
                    (shard_for (length tokens) m).0
                    suffix
                    member
                    event_ms
                    base
                  ≡ some (
                      apply_match now c tokens member event_ms
                        (record base { shards = insert (length tokens) root base.shards }))))
    unfolding match_or_create
    match_or_create_cases root leaf made = elim (Option-cases (best_in base tokens leaf)) [
      | inl b ↦ inl (b, rw (made, match_or_create) (rw (b, match_or_create)))
      | inr (c, b) ↦ inr (c, b, rw (made, match_or_create) (rw (b, match_or_create)))
    ]

    pub add_tokens_cases : IsWellFormed m → Joined ⊎ Created
    add_tokens_cases wf =
        let well = shard_for-IsWellFormed (length tokens) m wf in
        let at_width = lookup-shard_for (length tokens) m in
        elim (Option-cases (find_match base tokens (shard_for (length tokens) m).0)) [
          | inr (c, e) ↦
              let (leaf, d, b) = find_match-some c e in
              inl (record {
                before = base;
                well = well;
                options = refl;
                counter = refl;
                bodies = refl;
                leaf = leaf;
                c = c;
                there = leaf_at-eq base.shards (length tokens) keys at_width ∙ d;
                chosen = b;
                result = add_tokens_matched c e;
              })
          | inl e ↦
              let (root, leaf, made, shaped) =
                descend_or_create-IsRoot keys base.options.max_clusters_per_leaf
                  (shard_for (length tokens) m).0
                  (rw (length-descent_keys base.options tokens)
                    (well.roots (length tokens) _ at_width)) in
              elim (match_or_create_cases root leaf made) [
                | inl (b, r) ↦ inr (record {
                  root = root;
                  leaf = leaf;
                  made = made;
                  shaped = shaped;
                  below = b;
                  result = add_tokens_unmatched e ∙ r;
                })
                | inr (c, b, r) ↦ inl (record {
                  before = record base { shards = insert (length tokens) root base.shards };
                  well =
                      path-IsWellFormed base well (length tokens) keys
                        (length-descent_keys base.options tokens) (shard_for (length tokens) m).0
                        root leaf at_width made shaped;
                  options = refl;
                  counter = refl;
                  bodies = refl;
                  leaf = leaf;
                  c = c;
                  there =
                      leaf_at-path base.shards (length tokens) keys (shard_for (length tokens) m).0
                        at_width base.options.max_clusters_per_leaf root leaf made;
                  chosen = b;
                  result = add_tokens_unmatched e ∙ r;
                })
              ]
        ]
