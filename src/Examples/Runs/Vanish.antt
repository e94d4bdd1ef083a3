-- ===== src/Examples/Runs/Vanish.antt =====
-- A cluster that goes while a thread holds it: crates/logdrain/src/miner.rs gives the shard back before
-- `apply_match`.
use logdrain.Common.{ℕ, none, ◌≡◌, refl, Text, codes, nat_eq, ◌==◌, if◌then◌else◌}
use logdrain.Common.Assoc.{lookup}
use logdrain.Cluster.Time.{SystemTime, since_epoch}
use logdrain.Examples.Platform.{milli, whole_line}
use logdrain.Examples.Runs.{program}
use logdrain.Miner.Concurrent.{
  Request, request_of, Pc, System, advance, search_section, create_section, read_section, handle,
  write_body, turn, Reach, here, next,
}
use logdrain.Miner.State.{from_options}
use logdrain.Miner.Update.{UpdateType}
use logdrain.Options.{Options, default}

-- One cluster to a leaf.
abbrev narrow : Options ℕ Text
narrow = record default { max_clusters_per_leaf = 1 }

abbrev now : SystemTime
now = since_epoch 5000000

-- Thread 2 adds another line with the same first tokens.
abbrev line_of : ℕ → Text
line_of i = if i == 2 then codes "a b u v w x" else codes "a b c d e f"

abbrev requests : ℕ → Request
requests i = request_of narrow (line_of i) none none

-- Thread 1 misses, thread 0 creates the cluster 1, thread 1 finds it under the write lock and gives
-- the lock back; thread 2 creates the cluster 2 and evicts 1, and then thread 1 counts its hit.
vanish : (s : System ℕ Text) × Reach requests (from_options narrow) 10 s
unfolding program advance search_section create_section read_section handle write_body
vanish = (
  _,
  next
      (next
        (next
          (next
            (next
              (next
                (next
                  (next (next (next here (turn 1 now refl)) (turn 1 now refl)) (turn 0 now refl))
                  (turn 0 now refl))
                (turn 0 now refl))
              (turn 1 now refl))
            (turn 2 now refl))
          (turn 2 now refl))
        (turn 2 now refl))
      (turn 1 now refl),
)

-- Thread 1 is answered the id 1, which has no cluster any more.
vanished :
    (vanish.0.pcs 1 ≡ Pc.done (record { cluster_id = 1; update = UpdateType.none }))
    × (lookup 1 vanish.0.shared.miner.clusters_by_id ≡ none)
unfolding vanish program
vanished = (refl, refl)
