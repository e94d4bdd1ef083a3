-- ===== src/Miner/Snapshot/Persisted.antt =====
-- `load_state` after `save_state`, both of crates/logdrain/src/miner.rs, over any backend that keeps its
-- promise.
use mathlib.Core.Option
use logdrain.Common.{
  ℕ, none, some, ◌≡◌, ◌⊎◌, ap, inl, inr, true, false, Result, ok, err, map_err, nat_eq,
}
use logdrain.Common.Assoc.{lookup}
use logdrain.Errors.{PersistenceError, persistence}
use logdrain.Miner.Invariant.{IsWellFormed}
use logdrain.Miner.Snapshot.{snapshot, snapshot_body, restore, save_state, load_state}
use logdrain.Miner.Snapshot.Entries.{HaveDistinctKeys}
use logdrain.Miner.Snapshot.Room.{refreshed}
use logdrain.Miner.Snapshot.Roundtrip.{restore-snapshot}
use logdrain.Miner.State.{Miner}
use logdrain.Persistence.{Persistence}
use logdrain.Persistence.Stores.{IsStore}
use logdrain.Snapshot.{Bincode, Bytes, ReadsBack}

-- A miner with the clusters of `m`, as they come back.
abbrev pub IsRestored : {F R : Type 0} → Miner F R → Miner F R → Type 0
IsRestored m after =
    IsWellFormed after
    × (after.counter ≡ m.counter)
    × ((id : ℕ)
        → lookup id after.clusters_by_id ≡ Option.map refreshed (lookup id m.clusters_by_id))

-- A save of the miner that reported no error had none from the backend.
saved :
    {S : Type 0} (answer : S × Result PersistenceError Unit) (after : S)
    → answer.0 ≡ after
    → map_err persistence answer.1 ≡ ok tt
    → answer ≡ (after, ok tt)
saved (a, ok u) after e done = ap (λ x. (x, ok tt)) e
saved (a, err x) after e done = absurd cc

module _ {F R S : Type 0} ⦃bin : Bincode F R⦄ (p : Persistence S) (t : Miner F R) (s : S) where
  load_state-err :
      (e : PersistenceError) → p.load s ≡ err e → load_state p s t ≡ some (t, err (persistence e))
  unfolding load_state
  load_state-err e q = rw (q, load_state)

  load_state-none : p.load s ≡ ok none → load_state p s t ≡ some (t, ok false)
  unfolding load_state
  load_state-none q = rw (q, load_state)

  load_state-restore :
      (blob : Bytes) (after : Miner F R)
      → p.load s ≡ ok (some blob)
      → restore blob t ≡ some (after, ok tt)
      → load_state p s t ≡ some (after, ok true)
  unfolding load_state
  load_state-restore blob after q r = rw (q, load_state) (rw r)

-- Over any backend that is a store, for a well-formed miner whose bodies are a map: after a `save_state`
-- that returned no error, `load_state` into any miner with the same options, where `bincode` reads back
-- what it has written, but for the masks, does not panic; either it answers true with a well-formed miner
-- that has the counter of the saved one and each of its bodies under its id, but that its recency is 0 and
-- that its time of creation is cut to milliseconds after the epoch, or it answers false in a state in which the backend may be
-- silent, or it returns the backend's error; in the two last cases the miner is as it was.
pub load_state-save_state :
    {F R S : Type 0} ⦃bin : Bincode F R⦄ (p : Persistence S) {Silent : S → Type 0}
    (store : IsStore p Silent) (m t : Miner F R) (s s' : S)
    → IsWellFormed m
    → HaveDistinctKeys m.clusters_by_id
    → t.options ≡ m.options
    → ReadsBack bin (snapshot_body m)
    → save_state p m s ≡ (s', ok tt)
    → ((after : Miner F R) × (load_state p s' t ≡ some (after, ok true)) × IsRestored m after)
      ⊎ ((load_state p s' t ≡ some (t, ok false)) × Silent s')
      ⊎ ((e : PersistenceError) × (load_state p s' t ≡ some (t, err (persistence e))))
unfolding save_state
load_state-save_state p store m t s s' wf distinct same read e =
    elim (store.stored (snapshot m) s s'
      (saved (p.save (snapshot m) s) s' (ap (λ x. x.0) e) (ap (λ x. x.1) e))) [
        | inr (inl (q, silent)) ↦ inr (inl (load_state-none p t s' q, silent))
        | inr (inr (x, q)) ↦ inr (inr (x, load_state-err p t s' x q))
        | inl q ↦
            let (after, r, well, counter, bodies) = restore-snapshot m wf t distinct same read in
            inl (after, load_state-restore p t s' (snapshot m) after q r, (well, counter, bodies))
      ]
