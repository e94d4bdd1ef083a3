-- ===== src/Examples/Runs/Race.antt =====
-- Two threads of crates/logdrain/src/miner.rs that add one new line at the same time: both miss, one
-- creates the cluster, and the other finds it in its second scan.
use logdrain.Common.{ℕ, ◌+◌, ◌≤◌, ◌-◌, none, ◌≡◌, refl, Text, codes, nat_eq, arith}
use logdrain.Cluster.Time.{SystemTime, since_epoch}
use logdrain.Common.Assoc.{lookup}
use logdrain.Common.Sums.{sum_to}
use logdrain.Examples.Platform.{milli, whole_line}
use logdrain.Examples.Runs.{program}
use logdrain.Miner.Adding.History.{empty-IsWellFormed}
use logdrain.Miner.Concurrent.{
  Request, request_of, Pc, System, start, advance, search_section, create_section, read_section,
  handle, write_body, Step, turn, Reach, here, next,
}
use logdrain.Miner.Concurrent.Conserved.{counted, AreIdle, Reach-hits}
use logdrain.Miner.Concurrent.Hits.{hits}
use logdrain.Miner.Concurrent.Progress.{turns, Reach_progress}
use logdrain.Miner.Concurrent.Reachable.{IsSound, Reach-IsSound}
use logdrain.Miner.Concurrent.Sections.{rank}
use logdrain.Miner.Invariant.{IsWellFormed}
use logdrain.Miner.State.{Miner, from_options}
use logdrain.Miner.Update.{UpdateType, AddResult}
use logdrain.Options.{Options, default}

abbrev options : Options ℕ Text
options = default

abbrev new_miner : Miner ℕ Text
new_miner = from_options options

capacity : 1 ≤ options.max_clusters_per_leaf
unfolding default
capacity = omega arith

new_miner-IsWellFormed : IsWellFormed new_miner
unfolding from_options
new_miner-IsWellFormed = empty-IsWellFormed (from_options options) capacity

abbrev now : SystemTime
now = since_epoch 5000000

-- Every thread adds the same line.
abbrev requests : ℕ → Request
requests i = request_of options (codes "disk full") none none

-- By turns, the second thread once more at the end.
race : (s : System ℕ Text) × Reach requests new_miner 9 s
unfolding program advance search_section create_section read_section handle write_body
race = (
  _,
  next
      (next
        (next
          (next
            (next
              (next (next (next (next here (turn 0 now refl)) (turn 1 now refl)) (turn 0 now refl))
                (turn 1 now refl))
              (turn 0 now refl))
            (turn 1 now refl))
          (turn 0 now refl))
        (turn 1 now refl))
      (turn 1 now refl),
)

abbrev race_end : System ℕ Text
race_end = race.0

-- One cluster, with both hits.
race_answers :
    (race_end.pcs 0 ≡ Pc.done (record { cluster_id = 1; update = UpdateType.created }))
    × (race_end.pcs 1 ≡ Pc.done (record { cluster_id = 1; update = UpdateType.none }))
unfolding race
race_answers = (refl, refl)

Reach-IsSound_example : IsSound requests new_miner 9 race_end
unfolding from_options
Reach-IsSound_example =
    Reach-IsSound requests new_miner {n = 9} {s = race_end} new_miner-IsWellFormed (omega arith)
      race.1

race_idle : AreIdle 1 race_end.pcs
unfolding race
race_idle i h = ground arith

no_hits : hits (start new_miner).shared ≡ 0
unfolding from_options sum_to handle lookup
no_hits = refl

-- Two calls, two hits.
race_hits : (hits race_end.shared ≡ 2) × (counted 1 race_end.pcs ≡ 2)
unfolding race sum_to handle
race_hits = (refl, refl)

Reach-hits_example : hits race_end.shared ≡ hits (start new_miner).shared + counted 1 race_end.pcs
unfolding from_options
Reach-hits_example =
    Reach-hits requests new_miner 1 {n = 9} {s = race_end} new_miner-IsWellFormed (omega arith)
      (omega (arith, no_hits)) race.1 race_idle

Reach_progress_example :
    ((now : SystemTime)
      → (t : System ℕ Text) × Step requests race_end t
        × (rank (t.pcs 1) ≤ rank (race_end.pcs 1) - 1))
    × (5 ≤ turns requests 1 {m = new_miner} {n = 9} {s = race_end} race.1
        → (result : AddResult) × (race_end.pcs 1 ≡ Pc.done result))
unfolding from_options
Reach_progress_example =
    Reach_progress requests new_miner {n = 9} {s = race_end} new_miner-IsWellFormed (omega arith)
      race.1 1

five_turns : turns requests 1 {m = new_miner} {n = 9} {s = race_end} race.1 ≡ 5
unfolding race turns
five_turns = refl
