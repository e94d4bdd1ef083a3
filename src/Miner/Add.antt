-- ===== src/Miner/Add.antt =====
-- `add` and its variants, crates/logdrain/src/miner.rs: the two phases of `add_inner`, run with no
-- other call between them. `none` is a panic.
use logdrain.Common.{ℕ, List, Option, none, some, Text, length, nat_eq, if◌then◌else◌}
use logdrain.Common.Assoc.{insert}
use logdrain.Cluster.Time.{SystemTime}
use logdrain.Extern.{Float, RegexEngine, as_ref}
use logdrain.Mask.{apply_masks}
use logdrain.Miner.Learn.{apply_match, create_cluster}
use logdrain.Miner.Matching.{Candidate, best_match, at_least}
use logdrain.Miner.State.{Miner, descent_keys, shard_for}
use logdrain.Miner.Update.{AddResult}
use logdrain.Options.{Options, active_path_delimiters}
use logdrain.Tokenize.{Token, tokenize_with, split_first_line}
use logdrain.Tree.{TreeNode, descend, descend_or_create}

module _ {F R : Type 0} where
  -- The first line and the suffix, or the whole text.
  unfoldable pub first_and_suffix : Options F R → Text → Text × Option Text
  first_and_suffix o masked = if o.first_line_only then split_first_line masked else (masked, none)

module _ {F R : Type 0} ⦃fl : Float F⦄ where
  -- `descend(keys).and_then(best_match).filter(…)`: phase 1, and the search of `match_only`
  unfoldable pub find_match : Miner F R → List Token → TreeNode → Option (Candidate F)
  find_match m tokens root = elim (descend (descent_keys m.options tokens) root) [
    | some leaf ↦
        at_least m.options.sim_threshold
          (best_match m.clusters_by_id m.options.wildcard tokens leaf)
    | none ↦ none
  ]

  -- Phase 2, under the shard's write lock: make the path, scan again, create.
  unfoldable pub match_or_create :
      SystemTime
      → List Token
      → TreeNode
      → Option Text
      → Option Text
      → Option ℕ
      → Miner F R
      → Option (Miner F R × AddResult)
  match_or_create now tokens shard suffix member event_ms m =
      let count = length tokens in
      let keys = descent_keys m.options tokens in
      elim (descend_or_create keys m.options.max_clusters_per_leaf shard) [
        | none ↦ none
        | some (root, leaf) ↦
            elim (at_least m.options.sim_threshold
              (best_match m.clusters_by_id m.options.wildcard tokens leaf)) [
                | some c ↦ some (
                    apply_match now c tokens member event_ms
                      (record m { shards = insert count root m.shards }))
                | none ↦
                    some (create_cluster now count keys root leaf tokens suffix member event_ms m)
              ]
      ]

  -- Both phases, from the tokens on.
  unfoldable pub add_tokens :
      SystemTime
      → List Token
      → Option Text
      → Option Text
      → Option ℕ
      → Miner F R
      → Option (Miner F R × AddResult)
  add_tokens now tokens suffix member event_ms m =
      let (shard, m') = shard_for (length tokens) m in
      elim (find_match m' tokens shard) [
        | some c ↦ some (apply_match now c tokens member event_ms m')
        | none ↦ match_or_create now tokens shard suffix member event_ms m'
      ]

module _ {F R : Type 0} ⦃re : RegexEngine R⦄ where
  -- The tokens of a line, and the suffix that a new cluster keeps.
  unfoldable pub preprocess : Options F R → Text → List Token × Option Text
  preprocess o line =
      let (first, suffix) = first_and_suffix o (as_ref (apply_masks line o.masks)) in
      (tokenize_with first (active_path_delimiters o), suffix)

module _ {F R : Type 0} ⦃fl : Float F⦄ ⦃re : RegexEngine R⦄ where
  unfoldable pub add_inner :
      SystemTime → Text → Option Text → Option ℕ → Miner F R → Option (Miner F R × AddResult)
  add_inner now line member event_ms m =
      let (tokens, suffix) = preprocess m.options line in
      add_tokens now tokens suffix member event_ms m

  unfoldable pub add : SystemTime → Text → Miner F R → Option (Miner F R × AddResult)
  add now line m = add_inner now line none none m

  unfoldable pub add_with_member :
      SystemTime → Text → Text → Miner F R → Option (Miner F R × AddResult)
  add_with_member now line member m = add_inner now line (some member) none m

  unfoldable pub add_at : SystemTime → Text → ℕ → Miner F R → Option (Miner F R × AddResult)
  add_at now line event_ms m = add_inner now line none (some event_ms) m

  unfoldable pub add_with_member_at :
      SystemTime → Text → Text → ℕ → Miner F R → Option (Miner F R × AddResult)
  add_with_member_at now line member event_ms m = add_inner now line (some member) (some event_ms) m
