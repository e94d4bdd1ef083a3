-- ===== src/Examples/Runs/Extracts.antt =====
-- What `extract` of crates/logdrain/src/miner.rs answers after two lines.
use logdrain.Common.{
  ℕ, List, [], ◌∷◌, ◌≡◌, refl, some, inl, inr, Text, codes, map, length, count, list_eq, nat_eq,
}
use logdrain.Common.Assoc.{lookup}
use logdrain.Cluster.{ClusterInner}
use logdrain.Cluster.Generalize.{Covers}
use logdrain.Examples.Platform.{milli, whole_line}
use logdrain.Examples.Runs.{program, after}
use logdrain.Miner.Query.{match_only, extract}
use logdrain.Miner.Query.Params.{query_tokens, fill, extract-fill}
use logdrain.Miner.State.{Miner}
use logdrain.Options.{default}
use logdrain.Tokenize.{Token, OwnedToken}

grown :
    (m : Miner ℕ Text) × (after default (codes "user 99 logged in" ∷ codes "user 42 logged in" ∷ [])
      ≡ some m)
unfolding program
grown = (_, refl)

abbrev miner : Miner ℕ Text
miner = grown.0

abbrev line : Text
line = codes "user 7 logged in"

held : (body : ClusterInner) × (lookup 1 miner.clusters_by_id ≡ some body)
unfolding program grown
held = (_, refl)

matched : match_only line miner ≡ some 1
unfolding program grown
matched = refl

covered : Covers miner.options.wildcard held.0.tokens (query_tokens miner.options line)
unfolding program grown held
covered = (inr refl, (inl refl, (inr refl, (inr refl, tt))))

extract-fill_example :
    (params : List Text) × (extract line miner ≡ some (1, params))
    × (length params
        ≡ count miner.options.wildcard (map (λ (t : OwnedToken). t.text) held.0.tokens))
    × (fill miner.options.wildcard (map (λ (t : OwnedToken). t.text) held.0.tokens) params
        ≡ map (λ (t : Token). t.text) (query_tokens miner.options line))
extract-fill_example = extract-fill line miner 1 held.0 matched held.1 covered
