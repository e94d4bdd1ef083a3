-- ===== src/Examples/Adding.antt =====
-- The theorems on the miner, applied to miners with the default options and concrete lines.
use logdrain.Common.{
  ℕ, nat_eq, ◌+◌, ◌<◌, ◌≤◌, [], ◌∷◌, none, some, ◌≡◌, ◌≢◌, ◌⊎◌, refl, true, Text, codes, length,
  u64_values, leb, arith,
}
use logdrain.Common.Assoc.{lookup}
use logdrain.Cluster.Time.{since_epoch}
use logdrain.Examples.Platform.{milli, whole_line, milli-IsIeee}
use logdrain.Extern.{one}
use logdrain.Miner.Add.{add_inner}
use logdrain.Miner.Adding.History.{Call, replay, empty-IsWellFormed, replay-from_options}
use logdrain.Miner.Adding.Outcome.{
  add_inner-IsWellFormed, add_inner-cluster_id, add_inner-match_only,
}
use logdrain.Miner.Invariant.{IsWellFormed}
use logdrain.Miner.Query.{match_only}
use logdrain.Miner.State.{Miner, from_options}
use logdrain.Miner.Update.{UpdateType, AddResult}
use logdrain.Options.{Options, default}

abbrev options : Options ℕ Text
options = default

capacity : 1 ≤ options.max_clusters_per_leaf
unfolding default
capacity = omega arith

abbrev new_miner : Miner ℕ Text
new_miner = from_options options

new_miner-IsWellFormed : IsWellFormed new_miner
unfolding from_options
new_miner-IsWellFormed = empty-IsWellFormed (from_options options) capacity

new_miner_bound : new_miner.counter + 1 < u64_values
unfolding from_options
new_miner_bound = omega arith

abbrev login : Call
login = record {
  now = since_epoch 5000000;
  line = codes "user 42 logged in";
  member = none;
  event_ms = some 7;
}

-- A new miner that has read two lines.
replay-from_options_example :
    (m : Miner ℕ Text) × (replay (login ∷ login ∷ []) (from_options options) ≡ some m)
    × IsWellFormed m
    × (m.options ≡ options)
    × (m.counter ≤ length (login ∷ login ∷ []))
replay-from_options_example =
    replay-from_options options (login ∷ login ∷ []) capacity (omega arith)

used :
    (m : Miner ℕ Text) × (replay (login ∷ []) (from_options options) ≡ some m)
    × IsWellFormed m
    × (m.options ≡ options)
    × (m.counter ≤ length (login ∷ []))
used = replay-from_options options (login ∷ []) capacity (omega arith)

abbrev used_miner : Miner ℕ Text
used_miner = used.0

used_bound : used_miner.counter + 1 < u64_values
used_bound = omega (arith, used.4)

used_threshold : leb used_miner.options.sim_threshold (one {F = ℕ}) ≡ true
unfolding default
used_threshold = rw used.3 refl

add_inner-IsWellFormed_example :
    (m' : Miner ℕ Text) × (r : AddResult) × (add_inner
        (since_epoch 9)
        (codes "user 99 logged in")
        (some (codes "host"))
        none
        used_miner
      ≡ some (m', r))
    × IsWellFormed m'
    × (m'.options ≡ used_miner.options)
add_inner-IsWellFormed_example =
    add_inner-IsWellFormed (since_epoch 9) (codes "user 99 logged in") (some (codes "host")) none
      used_miner used.2 used_bound

add_inner-cluster_id_example :
    (m' : Miner ℕ Text) × (r : AddResult) × (add_inner
        (since_epoch 9)
        (codes "disk full")
        none
        none
        new_miner
      ≡ some (m', r))
    × (((m'.counter ≡ new_miner.counter) × (r.update ≢ UpdateType.created))
        ⊎ ((m'.counter ≡ new_miner.counter + 1)
            × (r.update ≡ UpdateType.created)
            × (r.cluster_id ≡ new_miner.counter + 1)
            × (lookup r.cluster_id new_miner.clusters_by_id ≡ none)))
add_inner-cluster_id_example =
    add_inner-cluster_id (since_epoch 9) (codes "disk full") none none new_miner
      new_miner-IsWellFormed new_miner_bound

add_inner-match_only_example :
    (m' : Miner ℕ Text) × (r : AddResult) × (add_inner
        (since_epoch 9)
        (codes "user 99 logged in")
        none
        (some 8)
        used_miner
      ≡ some (m', r))
    × (match_only (codes "user 99 logged in") m' ≡ some r.cluster_id)
add_inner-match_only_example =
    add_inner-match_only (since_epoch 9) (codes "user 99 logged in") none (some 8) used_miner used.2
      used_bound milli-IsIeee used_threshold
