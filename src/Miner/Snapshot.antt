-- ===== src/Miner/Snapshot.antt =====
-- Saving and loading the miner, crates/logdrain/src/miner.rs: `snapshot`, `restore`,
-- `insert_existing`, `save_state`, `load_state`.
pub mod Existing
pub mod Restore
pub mod Room
pub mod Entries
pub mod Roundtrip
pub mod Persisted
use logdrain.Common.{
  ℕ, List, [], ◌∷◌, Option, none, some, Bool, true, false, Result, ok, err, map_err, map, length,
  nat_eq,
}
use logdrain.Common.Assoc.{insert}
use logdrain.Cluster.{ClusterInner}
use logdrain.Cluster.Time.{unix_ms, time_from_ms}
use logdrain.Errors.{LogdrainError, persistence}
use logdrain.Miner.Learn.{evict_if_full}
use logdrain.Miner.State.{Miner, shard_for, descent_keys}
use logdrain.Persistence.{Persistence}
use logdrain.Snapshot.{
  Bytes, Bincode, TokenSnapshot, ClusterSnapshot, SnapshotV1, encode, decode_snapshot,
}
use logdrain.Tokenize.{Token, OwnedToken}
use logdrain.Tree.{descend_or_create, set_leaf}
use logdrain.Tree.Leaf

abbrev pub snapshot_token : OwnedToken → TokenSnapshot
snapshot_token t = record {
  text = t.text;
  leading_delim = t.leading_delim;
  trailing_delim = t.trailing_delim;
}

-- The closure in `snapshot`
unfoldable pub snapshot_cluster : ClusterInner → ClusterSnapshot
snapshot_cluster b = record {
  id = b.id;
  tokens = map snapshot_token b.tokens;
  size = b.size;
  created_at_ms = unix_ms b.created_at;
  updated_at_ms = b.updated_at_ms;
  event_first_ms = b.event_first_ms;
  event_last_ms = b.event_last_ms;
  suffix = b.suffix;
  members = b.members;
}

abbrev pub restore_token : TokenSnapshot → OwnedToken
restore_token t = record {
  text = t.text;
  leading_delim = t.leading_delim;
  trailing_delim = t.trailing_delim;
}

-- The body that a round of `restore` makes: the recency starts at 0.
unfoldable pub restore_cluster : ClusterSnapshot → ClusterInner
restore_cluster cs = record {
  id = cs.id;
  tokens = map restore_token cs.tokens;
  size = cs.size;
  created_at = time_from_ms cs.created_at_ms;
  updated_at_ms = cs.updated_at_ms;
  last_used = 0;
  event_first_ms = cs.event_first_ms;
  event_last_ms = cs.event_last_ms;
  suffix = cs.suffix;
  members = cs.members;
}

-- `view` in `insert_existing`
abbrev pub view : OwnedToken → Token
view t = record {
  text = t.text;
  leading_delim = t.leading_delim;
  trailing_delim = t.trailing_delim;
}

module _ {F R : Type 0} where
  -- `insert_existing`; `none` is a panic in `descend_or_create`.
  unfoldable pub insert_existing : ClusterInner → Miner F R → Option (Miner F R)
  insert_existing inner m =
      let count = length inner.tokens in
      let (shard, made) = shard_for count m in
      let keys = descent_keys m.options (map view inner.tokens) in
      elim (descend_or_create keys m.options.max_clusters_per_leaf shard) [
        | none ↦ none
        | some (root, leaf) ↦
            let (kept, clusters) = evict_if_full leaf made.clusters_by_id in
            some (record made {
              shards = insert count (set_leaf keys (Leaf.insert inner.id kept) root) made.shards;
              clusters_by_id = insert inner.id inner clusters;
            })
      ]

  -- The loop of `restore`
  unfoldable pub insert_all : List ClusterSnapshot → Miner F R → Option (Miner F R)
  insert_all [] m = some m
  insert_all (cs ∷ clusters) m = elim (insert_existing (restore_cluster cs) m) [
    | some m' ↦ insert_all clusters m'
    | none ↦ none
  ]

  -- The body that `snapshot` encodes
  unfoldable pub snapshot_body : Miner F R → SnapshotV1 F R
  snapshot_body m = record {
    options = m.options;
    counter = m.counter;
    clusters = map (λ e. snapshot_cluster e.1) m.clusters_by_id;
  }

  -- What `restore` empties and stores before the loop
  abbrev pub cleared : ℕ → Miner F R → Miner F R
  cleared counter m = record m { shards = []; clusters_by_id = []; counter = counter }

module _ {F R : Type 0} ⦃bin : Bincode F R⦄ where
  unfoldable pub snapshot : Miner F R → Bytes
  snapshot m = encode (snapshot_body m)

  -- The miner after the call, with its result: an error leaves the miner as it was.
  unfoldable pub restore : Bytes → Miner F R → Option (Miner F R × Result LogdrainError Unit)
  restore bytes m = elim (decode_snapshot {F = F} {R = R} bytes) [
    | err e ↦ some (m, err e)
    | ok body ↦ elim (insert_all body.clusters (cleared body.counter m)) [
      | some m' ↦ some (m', ok tt)
      | none ↦ none
    ]
  ]

  module _ {S : Type 0} (p : Persistence S) where
    unfoldable pub save_state : Miner F R → S → S × Result LogdrainError Unit
    save_state m s = let (s', r) = p.save (snapshot m) s in (s', map_err persistence r)

    unfoldable pub load_state : S → Miner F R → Option (Miner F R × Result LogdrainError Bool)
    load_state s m = elim (p.load s) [
      | err e ↦ some (m, err (persistence e))
      | ok stored ↦ elim stored [
        | none ↦ some (m, ok false)
        | some bytes ↦ elim (restore bytes m) [
          | none ↦ none
          | some (m', r) ↦ elim r [ ok u ↦ some (m', ok true) | err e ↦ some (m', err e) ]
        ]
      ]
    ]
