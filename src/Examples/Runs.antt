-- ===== src/Examples/Runs.antt =====
-- The tests of crates/logdrain/src/miner.rs and crates/logdrain/src/cluster.rs, run on the model.
pub mod Race
pub mod Reload
pub mod Extracts
pub mod Vanish
use logdrain.Common.{
  ℕ, List, [], ◌∷◌, Option, none, some, ◌≡◌, refl, Text, codes, List-discrete, ℕ_discrete,
}
use logdrain.Common.Assoc.{lookup, insert, remove}
use logdrain.Cluster
use logdrain.Cluster.{
  Cluster, touch, observe_event, any_differs, would_generalize, generalize_tokens, generalize,
  add_member, recency, render_template, render_tokens, render_rest, to_public,
}
use logdrain.Cluster.Time.{since_epoch, unix_ms, time_from_ms}
use logdrain.Examples.Platform.{milli, whole_line}
use logdrain.Mask.{apply_masks, apply_loop, apply_mask}
use logdrain.Miner.Add.{
  add, add_inner, add_tokens, find_match, match_or_create, preprocess, first_and_suffix,
}
use logdrain.Miner.Learn.{
  apply_match, create_cluster, evict_if_full, match_body, min_by_key, min_loop, recency_of,
}
use logdrain.Miner.Matching.{best_match, best_loop, best_step, at_least}
use logdrain.Miner.Query.{cluster, extract, match_only, match_tokens, params_of, tokens_for_query}
use logdrain.Miner.State.{Miner, from_options, next_tick, shard_for, descent_keys, text_keys}
use logdrain.Options.{Options, default, prefix_len, active_path_delimiters}
use logdrain.Similarity.{similarity, count_matches}
use logdrain.Tokenize.{
  tokenize_with, tokenize_pieces, push_path_tokens, path_loop, push_segment, split_first_line,
  is_numeric_token,
}
use logdrain.Tokenize.Words.{split_whitespace, split_words, flush}
use logdrain.Tree.{
  descend, descend_or_create, set_leaf, get_child, set_child, has_child, ensure_child,
}
use logdrain.Tree.Leaf

-- All that the runs evaluate.
unfoldable program : Unit {0}
unfolding List-discrete ℕ_discrete lookup insert remove Cluster.new touch observe_event any_differs
    would_generalize generalize_tokens generalize add_member recency render_template render_tokens
    render_rest to_public unix_ms time_from_ms apply_masks apply_loop apply_mask add add_inner
    add_tokens find_match match_or_create preprocess first_and_suffix apply_match create_cluster
    evict_if_full match_body min_by_key min_loop recency_of best_match best_loop best_step at_least
    cluster extract match_only match_tokens params_of tokens_for_query from_options next_tick
    shard_for descent_keys text_keys default prefix_len active_path_delimiters similarity
    count_matches tokenize_with tokenize_pieces push_path_tokens path_loop push_segment
    split_first_line is_numeric_token split_whitespace split_words flush descend descend_or_create
    set_leaf get_child set_child has_child ensure_child Leaf.new Leaf.is_full Leaf.insert
    Leaf.position Leaf.split_last Leaf.swap_remove Leaf.remove
program = tt

-- The miner after the lines, added at the epoch.
abbrev pub after : Options ℕ Text → List Text → Option (Miner ℕ Text)
after o [] = some (from_options o)
after o (line ∷ lines) = elim (after o lines) [
  | none ↦ none
  | some m ↦ elim (add (since_epoch 0) line m) [ some (m', r) ↦ some m' | none ↦ none ]
]

abbrev template_of : ℕ → Option (Miner ℕ Text) → Option Text
template_of id none = none
template_of id (some m) = elim (cluster id m) [ some c ↦ some c.template | none ↦ none ]

abbrev extract_of : Text → Option (Miner ℕ Text) → Option (ℕ × List Text)
extract_of line none = none
extract_of line (some m) = extract line m

-- `similar_line_joins_and_generalizes`
similar_line_joins_and_generalizes :
    template_of 1 (after default (codes "user 99 logged in" ∷ codes "user 42 logged in" ∷ []))
    ≡ some (codes "user <*> logged in")
unfolding program
similar_line_joins_and_generalizes = refl

-- `extract_returns_wildcard_values`
extract_returns_wildcard_values :
    extract_of
      (codes "user 7 logged in")
      (after default (codes "user 99 logged in" ∷ codes "user 42 logged in" ∷ []))
    ≡ some (1, codes "7" ∷ [])
unfolding program
extract_returns_wildcard_values = refl

abbrev with_paths : Options ℕ Text
with_paths = record default { path_delimiters = codes "/" }

-- `path_clustering_preserves_structure`
path_clustering_preserves_structure :
    template_of 1
      (after with_paths (codes "GET /servers/410/foo" ∷ codes "GET /servers/409/foo" ∷ []))
    ≡ some (codes "GET /servers/<*>/foo")
unfolding program
path_clustering_preserves_structure = refl

-- A delimiter at the end of a word takes the place of the space behind it.
template_loses_space :
    template_of 1 (after with_paths (codes "GET /api/ HTTP" ∷ [])) ≡ some (codes "GET /api/HTTP")
unfolding program
template_loses_space = refl
