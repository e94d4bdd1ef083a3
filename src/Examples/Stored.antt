-- ===== src/Examples/Stored.antt =====
-- The theorems on snapshots and persistence, applied to a snapshot of one cluster.
use logdrain.Common.{
  ℕ, nat_eq, list_eq, ◌≤◌, [], ◌∷◌, ◌++◌, none, some, ◌≡◌, ◌≢◌, ◌⊎◌, refl, Text, codes, ok, err,
  arith,
}
use logdrain.Common.Assoc.{lookup}
use logdrain.Errors.{PersistenceError, unsupported_snapshot_version}
use logdrain.Examples.Platform.{milli, whole_line}
use logdrain.Miner.Invariant.{IsWellFormed}
use logdrain.Miner.Snapshot.{snapshot_cluster, restore_cluster, restore}
use logdrain.Miner.Snapshot.Existing.{snapshot_cluster-restore_cluster}
use logdrain.Miner.Snapshot.Restore.{restore-IsWellFormed}
use logdrain.Miner.State.{Miner, from_options}
use logdrain.Options.{Options, default}
use logdrain.Persistence.{Faults, FilePersistence, Files, save_file}
use logdrain.Persistence.Atomic.{save_file-atomic}
use logdrain.Snapshot.{
  Bincode, ClusterSnapshot, SnapshotV1, SnapshotBodyV2, encode, decode_snapshot, header, upgrade,
  version,
}
use logdrain.Snapshot.Format.{decode_snapshot_lem}

abbrev options : Options ℕ Text
options = default

abbrev stored_cluster : ClusterSnapshot
stored_cluster = record {
  id = 4;
  tokens = record { text = codes "user"; leading_delim = none; trailing_delim = none } ∷ [];
  size = 2;
  created_at_ms = 1000;
  updated_at_ms = 2000;
  event_first_ms = 5;
  event_last_ms = 6;
  suffix = some (codes "trace");
  members = codes "host" ∷ [];
}

abbrev stored_body : SnapshotV1 ℕ Text
stored_body = record { options = options; counter = 9; clusters = stored_cluster ∷ [] }

abbrev old_body : SnapshotBodyV2 ℕ Text
old_body = record { options = options; counter = 3; clusters = [] }

-- A codec that knows one value of each version.
instance abbrev codec : Bincode ℕ Text
codec = record {
  serialize = λ b. 1 ∷ [];
  serialize_v2 = λ b. 2 ∷ [];
  deserialize = λ bytes. ok stored_body;
  deserialize_v2 = λ bytes. ok old_body;
}

abbrev oldest : ℕ
oldest = 1

one_ne : oldest ≢ 2
one_ne e = absurd (omega (arith, e))

one_ne_version : oldest ≢ version
one_ne_version e = absurd (omega (arith, e))

decode_snapshot_lem_example :
    (decode_snapshot (encode stored_body) ≡ ok stored_body)
    × (decode_snapshot (header 2 ++ 2 ∷ []) ≡ ok (upgrade old_body))
    × (decode_snapshot {F = ℕ} {R = Text} (header oldest ++ 7 ∷ [])
        ≡ err (unsupported_snapshot_version oldest version))
unfolding default
decode_snapshot_lem_example =
    decode_snapshot_lem stored_body old_body oldest (7 ∷ []) refl refl (omega arith) one_ne
      one_ne_version

decoded : decode_snapshot (encode stored_body) ≡ ok stored_body
unfolding default
decoded =
    (decode_snapshot_lem stored_body old_body oldest [] refl refl (omega arith) one_ne
      one_ne_version).0

snapshot_cluster-restore_cluster_example :
    snapshot_cluster (restore_cluster stored_cluster) ≡ stored_cluster
snapshot_cluster-restore_cluster_example =
    snapshot_cluster-restore_cluster stored_cluster (omega arith)

capacity : 1 ≤ options.max_clusters_per_leaf
unfolding default
capacity = omega arith

abbrev blank : Miner ℕ Text
blank = record (from_options options) { shards = []; clusters_by_id = [] }

blank_capacity : 1 ≤ (from_options options).options.max_clusters_per_leaf
unfolding from_options
blank_capacity = capacity

restore-IsWellFormed_example :
    (m' : Miner ℕ Text) × (restore (encode stored_body) blank ≡ some (m', ok tt))
    × IsWellFormed m'
    × (m'.options ≡ blank.options)
    × (m'.counter ≡ stored_body.counter)
restore-IsWellFormed_example =
    restore-IsWellFormed (encode stored_body) stored_body blank blank_capacity decoded (tt, tt)
      (omega arith, tt)

-- The write breaks off after one byte.
abbrev broken : Faults
broken = record {
  create = none;
  write = some (codes "disk full");
  written = 1;
  sync = none;
  rename = none;
  read = none;
}

abbrev state_file : FilePersistence
state_file = record { path = codes "state" }

abbrev files : Files
files = (codes "state", 7 ∷ []) ∷ []

save_file-atomic_example :
    ((save_file broken state_file (8 ∷ 9 ∷ []) files).1 ≡ ok tt)
      × (lookup state_file.path (save_file broken state_file (8 ∷ 9 ∷ []) files).0
          ≡ some (8 ∷ 9 ∷ []))
    ⊎ (e : PersistenceError) × ((save_file broken state_file (8 ∷ 9 ∷ []) files).1 ≡ err e)
      × (lookup state_file.path (save_file broken state_file (8 ∷ 9 ∷ []) files).0
          ≡ lookup state_file.path files)
save_file-atomic_example = save_file-atomic broken state_file (8 ∷ 9 ∷ []) files
