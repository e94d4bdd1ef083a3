-- ===== src/Miner/Snapshot/Restore.antt =====
-- `restore` in crates/logdrain/src/miner.rs leaves a well-formed miner.
use logdrain.Common.{ℕ, ◌≤◌, List, [], ◌∷◌, none, some, ◌≡◌, ◌≢◌, refl, ◌∙◌, ok, nat_eq, All}
use logdrain.Common.Assoc.{lookup}
use logdrain.Miner.Adding.History.{empty-IsWellFormed}
use logdrain.Miner.Invariant.{IsWellFormed}
use logdrain.Miner.Snapshot.{restore_cluster, insert_all, cleared, restore}
use logdrain.Miner.State.{Miner}
use logdrain.Snapshot.{Bytes, Bincode, ClusterSnapshot, SnapshotV1, decode_snapshot}
use logdrain.Miner.Snapshot.Existing.{insert_existing-IsWellFormed}

-- No id stands twice.
abbrev pub HaveDistinctIds : List ClusterSnapshot → Type 0
HaveDistinctIds [] = Unit
HaveDistinctIds (cs ∷ clusters) =
    All (λ (d : ClusterSnapshot). cs.id ≢ d.id) clusters × HaveDistinctIds clusters

module _ {F R : Type 0} where
  AllUnused-insert_existing :
      (cs : ClusterSnapshot) (clusters : List ClusterSnapshot) (m m' : Miner F R)
      → ((id : ℕ)
          → cs.id ≢ id
          → lookup id m.clusters_by_id ≡ none
          → lookup id m'.clusters_by_id ≡ none)
      → All (λ (d : ClusterSnapshot). cs.id ≢ d.id) clusters
      → All (λ (d : ClusterSnapshot). lookup d.id m.clusters_by_id ≡ none) clusters
      → All (λ (d : ClusterSnapshot). lookup d.id m'.clusters_by_id ≡ none) clusters
  AllUnused-insert_existing cs [] m m' keep n u = tt
  AllUnused-insert_existing cs (d ∷ clusters) m m' keep n u =
      (keep d.id n.0 u.0, AllUnused-insert_existing cs clusters m m' keep n.1 u.1)

  insert_all-IsWellFormed :
      (clusters : List ClusterSnapshot) (m : Miner F R)
      → IsWellFormed m
      → HaveDistinctIds clusters
      → All (λ (cs : ClusterSnapshot). lookup cs.id m.clusters_by_id ≡ none) clusters
      → All (λ (cs : ClusterSnapshot). cs.id ≤ m.counter) clusters
      → (m' : Miner F R) × (insert_all clusters m ≡ some m')
        × IsWellFormed m'
        × (m'.options ≡ m.options)
        × (m'.counter ≡ m.counter)
  unfolding insert_all restore_cluster
  insert_all-IsWellFormed [] m wf d u n = (m, refl, wf, refl, refl)
  insert_all-IsWellFormed (cs ∷ clusters) m wf d u n =
      let (m1, e, wf1, options, counter, keep) =
        insert_existing-IsWellFormed (restore_cluster cs) m wf u.0 n.0 in
      let (m', e', wf', options', counter') =
        insert_all-IsWellFormed clusters m1 wf1 d.1
          (AllUnused-insert_existing cs clusters m m1 keep d.0 u.1) (rw counter n.1) in
      (m', rw (e, insert_all) e', wf', options' ∙ options, counter' ∙ counter)

  All-unused :
      (clusters : List ClusterSnapshot) (m : Miner F R) (counter : ℕ)
      → All
          (λ (cs : ClusterSnapshot). lookup cs.id (cleared counter m).clusters_by_id ≡ none)
          clusters
  unfolding lookup
  All-unused [] m counter = tt
  All-unused (cs ∷ clusters) m counter = (refl, All-unused clusters m counter)

  -- With a leaf capacity of at least 1, bytes that decode to a snapshot with no id twice and none above
  -- its counter are restored without a panic, whatever the miner held and whichever clusters no longer fit into a leaf; the result is
  -- well-formed, with the snapshot's counter and the miner's own options.
  pub restore-IsWellFormed :
      ⦃bin : Bincode F R⦄ (bytes : Bytes) (body : SnapshotV1 F R) (m : Miner F R)
      → 1 ≤ m.options.max_clusters_per_leaf
      → decode_snapshot bytes ≡ ok body
      → HaveDistinctIds body.clusters
      → All (λ (cs : ClusterSnapshot). cs.id ≤ body.counter) body.clusters
      → (m' : Miner F R) × (restore bytes m ≡ some (m', ok tt))
        × IsWellFormed m'
        × (m'.options ≡ m.options)
        × (m'.counter ≡ body.counter)
  unfolding restore
  restore-IsWellFormed bytes body m h e d n =
      let (m', e', wf, options, counter) =
        insert_all-IsWellFormed body.clusters (cleared body.counter m)
          (empty-IsWellFormed (cleared body.counter m) h) d
          (All-unused body.clusters m body.counter) n in
      (m', rw (e, restore) (rw (e', restore)), wf, options, counter)
