-- ===== src/Miner/State.antt =====
-- `struct Miner` of crates/logdrain/src/miner.rs. The two `DashMap`s are association lists; the
-- locks leave no trace where one call runs at a time.
use logdrain.Common.{
  ℕ, List, [], none, some, Bool, ◌&&◌, Text, length, is_empty, min, take, map, wrapping_add,
  if◌then◌else◌, nat_eq, Result, ok, ◌>>=◌,
}
use logdrain.Common.Assoc.{lookup, insert}
use logdrain.Cluster.{ClusterInner}
use logdrain.Errors.{LogdrainError}
use logdrain.Extern.{Float}
use logdrain.Options.{Options, MinerBuilder, build_options, prefix_len}
use logdrain.Tokenize.{Token, is_numeric_token}
use logdrain.Tree.{TreeNode, new_internal}

-- `struct Shard`, with its one field `root`
abbrev pub Shard : Type 0
Shard = TreeNode

pub record Miner (F R : Type 0) : Type 0 where
  pub shards : List (ℕ × Shard)
  pub clusters_by_id : List (ℕ × ClusterInner)
  pub options : Options F R
  pub counter : ℕ
  pub tick : ℕ

module _ {F R : Type 0} where
  unfoldable pub from_options : Options F R → Miner F R
  from_options options = record {
    shards = [];
    clusters_by_id = [];
    options = options;
    counter = 0;
    tick = 0;
  }

  -- `MinerBuilder::build`
  unfoldable pub build : ⦃fl : Float F⦄ → MinerBuilder F R → Result LogdrainError (Miner F R)
  build b = do options ← build_options b; ok (from_options options)

  -- `next_tick`: the tick, and the miner after it
  unfoldable pub next_tick : Miner F R → ℕ × Miner F R
  next_tick m = (m.tick, record m { tick = wrapping_add m.tick 1 })

  -- `len` and `is_empty`
  unfoldable pub len : Miner F R → ℕ
  len m = length m.clusters_by_id

  unfoldable pub has_no_clusters : Miner F R → Bool
  has_no_clusters m = is_empty m.clusters_by_id

  -- The key of one token text.
  abbrev pub key_of : Options F R → Text → Text
  key_of o text = if o.parametrize_numeric_tokens && is_numeric_token text then o.wildcard else text

  -- `descent_keys`, of the texts of the tokens
  unfoldable pub text_keys : Options F R → List Text → List Text
  text_keys o texts = map (key_of o) (take (min (prefix_len o) (length texts)) texts)

  unfoldable pub descent_keys : Options F R → List Token → List Text
  descent_keys o tokens = text_keys o (map (λ t. t.text) tokens)

  -- `shard_for`: the shard, and the miner in which it exists
  unfoldable pub shard_for : ℕ → Miner F R → Shard × Miner F R
  shard_for count m = elim (lookup count m.shards) [
    | some s ↦ (s, m)
    | none ↦ (new_internal, record m { shards = insert count new_internal m.shards })
  ]
