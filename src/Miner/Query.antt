-- ===== src/Miner/Query.antt =====
-- The queries of crates/logdrain/src/miner.rs: `match_only`, `extract`, `clusters`, `cluster`. They
-- return no new miner.
pub mod Params
use logdrain.Common.{
  ℕ, List, [], ◌∷◌, Option, none, some, Text, length, map, nat_eq, list_eq, ◌==◌, if◌then◌else◌,
}
use logdrain.Common.Assoc.{lookup}
use logdrain.Cluster.{Cluster, to_public}
use logdrain.Extern.{Float, RegexEngine, as_ref}
use logdrain.Mask.{apply_masks}
use logdrain.Miner.Add.{find_match}
use logdrain.Miner.State.{Miner}
use logdrain.Options.{Options, active_path_delimiters}
use logdrain.Tokenize.{Token, OwnedToken, tokenize_with, split_first_line}

module _ {F R : Type 0} where
  -- `tokens_for_query`, of a masked line
  unfoldable pub tokens_for_query : Options F R → Text → List Token
  tokens_for_query o masked =
      tokenize_with (if o.first_line_only then (split_first_line masked).0 else masked)
        (active_path_delimiters o)

  -- `clusters` and `cluster`
  unfoldable pub clusters : Miner F R → List Cluster
  clusters m = map (λ e. to_public e.1) m.clusters_by_id

  unfoldable pub cluster : ℕ → Miner F R → Option Cluster
  cluster id m = elim (lookup id m.clusters_by_id) [
    | some body ↦ some (to_public body)
    | none ↦ none
  ]

-- The loop of `extract` over `zip`: the incoming token at each wildcard of the template.
unfoldable pub params_of : Text → List OwnedToken → List Token → List Text
params_of wildcard [] tokens = []
params_of wildcard (stored ∷ template) [] = []
params_of wildcard (stored ∷ template) (tok ∷ tokens) =
    let rest = params_of wildcard template tokens in
    if stored.text == wildcard then tok.text ∷ rest else rest

module _ {F R : Type 0} ⦃fl : Float F⦄ where
  -- `match_only` from the tokens on
  unfoldable pub match_tokens : List Token → Miner F R → Option ℕ
  match_tokens tokens m = elim (lookup (length tokens) m.shards) [
    | some shard ↦ elim (find_match m tokens shard) [ some c ↦ some c.id | none ↦ none ]
    | none ↦ none
  ]

module _ {F R : Type 0} ⦃fl : Float F⦄ ⦃re : RegexEngine R⦄ where
  unfoldable pub match_only : Text → Miner F R → Option ℕ
  match_only line m =
      match_tokens (tokens_for_query m.options (as_ref (apply_masks line m.options.masks))) m

  unfoldable pub extract : Text → Miner F R → Option (ℕ × List Text)
  extract line m = elim (match_only line m) [
    | some id ↦ elim (lookup id m.clusters_by_id) [
      | some body ↦ some (
        id,
        params_of m.options.wildcard body.tokens
            (tokens_for_query m.options (as_ref (apply_masks line m.options.masks))),
      )
      | none ↦ none
    ]
    | none ↦ none
  ]
