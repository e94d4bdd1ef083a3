-- ===== src/Examples/Runs/Reload.antt =====
-- A snapshot of crates/logdrain/src/miner.rs with one cluster, taken and restored.
use mathlib.Core.Option
use logdrain.Common.{
  ℕ, [], ◌∷◌, ap, none, some, ◌≡◌, refl, Text, codes, ok, nat_eq, arith, true, false, err, ◌⊎◌, leb,
  All, ℕ_discrete,
}
use logdrain.Common.Assoc.{lookup}
use logdrain.Cluster.{ClusterInner, render_template}
use logdrain.Cluster.Reread.{IsSegment}
use logdrain.Cluster.Time.{since_epoch}
use logdrain.Errors.{PersistenceError, persistence}
use logdrain.Examples.Platform.{milli-IsIeee, milli, whole_line}
use logdrain.Examples.Runs.{program}
use logdrain.Extern.{one, as_ref}
use logdrain.Mask.{apply_masks}
use logdrain.Miner.Adding.History.{empty-IsWellFormed}
use logdrain.Miner.Invariant.{IsWellFormed}
use logdrain.Miner.Query.{match_only}
use logdrain.Miner.Rematch.Template.{match_only-render_template}
use logdrain.Miner.Snapshot.{
  insert_existing, snapshot, restore, snapshot_body, save_state, load_state,
}
use logdrain.Miner.Snapshot.Existing.{insert_existing-IsWellFormed}
use logdrain.Miner.Snapshot.Persisted.{IsRestored, load_state-save_state}
use logdrain.Miner.Snapshot.Room.{refreshed}
use logdrain.Miner.Snapshot.Roundtrip.{restore-snapshot}
use logdrain.Miner.State.{Miner, from_options}
use logdrain.Options.{active_path_delimiters, Options, default}
use logdrain.Persistence.{
  Persistence, Faults, Files, file, save_file, create_file, write_all, sync_all, rename_file,
}
use logdrain.Persistence.Stores.{Never, file-IsStore}
use logdrain.Snapshot.{Bincode, without_masks}

abbrev options : Options ℕ Text
options = default

-- Made 1.5 ms after the epoch.
abbrev body : ClusterInner
body = record {
  id = 4;
  tokens =
      record { text = codes "user"; leading_delim = none; trailing_delim = none }
      ∷ record { text = codes "<*>"; leading_delim = none; trailing_delim = none }
      ∷ [];
  size = 2;
  created_at = since_epoch 1500000;
  updated_at_ms = 2000;
  last_used = 3;
  event_first_ms = 5;
  event_last_ms = 6;
  suffix = some (codes "trace");
  members = codes "host" ∷ [];
}

abbrev empty_miner : Miner ℕ Text
empty_miner = record (from_options options) { shards = []; clusters_by_id = []; counter = 9 }

empty_miner-IsWellFormed : IsWellFormed empty_miner
unfolding default from_options
empty_miner-IsWellFormed = empty-IsWellFormed empty_miner (omega arith)

filled :
    (m : Miner ℕ Text) × (insert_existing body empty_miner ≡ some m)
    × IsWellFormed m
    × (m.options ≡ options)
    × (m.counter ≡ 9)
unfolding from_options lookup
filled =
    let (m, e, wf, o, c, _) =
      insert_existing-IsWellFormed body empty_miner empty_miner-IsWellFormed refl (omega arith) in
    (m, e, wf, o, c)

abbrev miner : Miner ℕ Text
miner = filled.0

stored_bodies :
    Option.map (λ (m : Miner ℕ Text). m.clusters_by_id) (insert_existing body empty_miner)
    ≡ some ((4, body) ∷ [])
unfolding program insert_existing
stored_bodies = refl

miner_bodies : miner.clusters_by_id ≡ (4, body) ∷ []
miner_bodies =
    let e = ap (Option.map (λ (m : Miner ℕ Text). m.clusters_by_id)) filled.1 in
    cc (stored_bodies, e)

-- A codec that knows this snapshot.
abbrev codec : Bincode ℕ Text
codec = record {
  serialize = λ b. 1 ∷ [];
  serialize_v2 = λ b. 2 ∷ [];
  deserialize =
      λ bytes. ok (record (snapshot_body miner) { options = without_masks miner.options });
  deserialize_v2 = λ bytes. ok (record { options = options; counter = 3; clusters = [] });
}

restore-snapshot_example :
    (after : Miner ℕ Text) × (restore ⦃bin = codec⦄ (snapshot ⦃bin = codec⦄ miner) empty_miner
      ≡ some (after, ok tt))
    × IsWellFormed after
    × (after.counter ≡ miner.counter)
    × ((id : ℕ)
        → lookup id after.clusters_by_id ≡ Option.map refreshed (lookup id miner.clusters_by_id))
unfolding from_options snapshot_body filled
restore-snapshot_example =
    restore-snapshot miner filled.2 ⦃bin = codec⦄ empty_miner (rw miner_bodies (tt, tt))
      (rw filled.3) refl

-- No call of the operating system fails.
abbrev sound : Faults
sound = record { create = none; write = none; written = 0; sync = none; rename = none; read = none }

abbrev state_file : Persistence Files
state_file = file sound (record { path = codes "state" })

abbrev written : Files
written = (save_state ⦃bin = codec⦄ state_file miner []).0

written_without_error : save_state ⦃bin = codec⦄ state_file miner [] ≡ (written, ok tt)
unfolding program save_state save_file create_file write_all sync_all rename_file
written_without_error = refl

load_state-save_state_example :
    ((after : Miner ℕ Text) × (load_state ⦃bin = codec⦄ state_file written empty_miner
        ≡ some (after, ok true))
      × IsRestored miner after)
    ⊎ ((load_state ⦃bin = codec⦄ state_file written empty_miner ≡ some (empty_miner, ok false))
        × Never written)
    ⊎ ((e : PersistenceError) × (load_state ⦃bin = codec⦄ state_file written empty_miner
          ≡ some (empty_miner, err (persistence e))))
unfolding from_options snapshot_body filled
load_state-save_state_example =
    load_state-save_state ⦃bin = codec⦄ state_file
      (file-IsStore sound (record { path = codes "state" })) miner empty_miner [] written filled.2
      (rw miner_bodies (tt, tt)) (rw filled.3) refl written_without_error

body_here : lookup 4 miner.clusters_by_id ≡ some body
unfolding lookup ℕ_discrete
body_here = rw miner_bodies refl

threshold : leb miner.options.sim_threshold (one {F = ℕ}) ≡ true
unfolding default
threshold = rw filled.3 refl

whole : miner.options.first_line_only ≡ false
unfolding default
whole = rw filled.3 refl

segments : All (IsSegment (active_path_delimiters miner.options)) body.tokens
unfolding default active_path_delimiters ℕ_discrete
segments = rw filled.3 (
  record {
    filled = λ e. cc;
    dark = (refl, (refl, (refl, (refl, tt))));
    plain = (refl, (refl, (refl, (refl, tt))));
    leading = tt;
    trailing = tt;
  },
  (
    record {
      filled = λ e. cc;
      dark = (refl, (refl, (refl, tt)));
      plain = (refl, (refl, (refl, tt)));
      leading = tt;
      trailing = tt;
    },
    tt,
  ),
)

unmasked : as_ref (apply_masks (render_template body) miner.options.masks) ≡ render_template body
unfolding default apply_masks
unmasked = rw filled.3 refl

match_only-render_template_example :
    (found : ℕ) × (match_only (render_template body) miner ≡ some found)
match_only-render_template_example =
    match_only-render_template milli-IsIeee miner filled.2 threshold 4 body body_here whole segments
      unmasked
