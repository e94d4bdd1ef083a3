-- ===== src/Miner/Snapshot/Roundtrip.antt =====
-- `restore` of a `snapshot`, both of crates/logdrain/src/miner.rs: every cluster comes back.
use mathlib.Core.Option
use logdrain.Common.{
  ℕ, List, [], ◌∷◌, Option, none, some, ◌≡◌, refl, sym, ◌∙◌, ap, map, nat_eq, arith, All, ok,
  ℕ_discrete,
}
use logdrain.Common.Assoc.{lookup, insert, lookup-insert_self, lookup-insert_ne}
use logdrain.Cluster.{ClusterInner}
use logdrain.Miner.Adding.History.{empty-IsWellFormed}
use logdrain.Miner.Invariant.{IsWellFormed}
use logdrain.Miner.Snapshot.{
  snapshot_cluster, restore_cluster, insert_existing, insert_all, snapshot_body, cleared, snapshot,
  restore,
}
use logdrain.Miner.Snapshot.Existing.{insert_existing-IsWellFormed, insert_existing_room}
use logdrain.Miner.Snapshot.Room.{
  refreshed, restore_cluster-snapshot_cluster, ComesFrom, has_room, held_named,
}
use logdrain.Miner.State.{Miner}
use logdrain.Snapshot.{Bincode, ClusterSnapshot, ReadsBack}
use logdrain.Snapshot.Format.{decode_snapshot-encode}
use logdrain.Miner.Snapshot.Entries.{
  Entries, HaveDistinctKeys, All-IsFound, All-unused_insert, after_restore, after_restore-cons,
}

module _ {F R : Type 0} (m : Miner F R) (wf : IsWellFormed m) where
  -- A miner that has some of the bodies of `m`, as they come back.
  record IsPart (part : Miner F R) : Type 0 where
    well : IsWellFormed part
    options : part.options ≡ m.options
    counter : part.counter ≡ m.counter
    comes : ComesFrom m part wf well options

  module _ (part : Miner F R) (h : IsPart part) (id : ℕ) (b : ClusterInner)
      (here : lookup id m.clusters_by_id ≡ some b)
      (new : lookup id part.clusters_by_id ≡ none) where
    -- One round of the loop in `restore`.
    record IsRound : Type 0 where
      after : Miner F R
      stored : insert_existing (refreshed b) part ≡ some after
      bodies : after.clusters_by_id ≡ insert id (refreshed b) part.clusters_by_id
      is_part : IsPart after

    round : IsRound
    unfolding snapshot_cluster restore_cluster
    round =
        let named : (refreshed b).id ≡ id = held_named m id b wf here in
        let (after, e, well, options, counter, keep) =
          insert_existing-IsWellFormed (refreshed b) part h.well (rw named new)
            (omega (arith, named, h.counter, wf.issued id b here)) in
        let bodies =
          insert_existing_room (refreshed b) part h.well
            (λ leaf l. has_room m part wf h.well h.options h.comes id b here new leaf l) after e in
        let bodies' : after.clusters_by_id ≡ insert id (refreshed b) part.clusters_by_id =
          bodies ∙ ap (λ k. insert k (refreshed b) part.clusters_by_id) named in
        record {
          after = after;
          stored = e;
          bodies = bodies';
          is_part = record {
            well = well;
            options = options ∙ h.options;
            counter = counter ∙ h.counter;
            comes = λ i body f. elim (ℕ_discrete id i) [
              | yes p ↦
                  let q : refreshed b ≡ body = cc (
                    rw (bodies', ← p) at f,
                    lookup-insert_self id (refreshed b) part.clusters_by_id,
                  ) in
                  (b, rw (← p) here, sym q)
              | no p ↦ h.comes i body (
                  sym (lookup-insert_ne id i (refreshed b) part.clusters_by_id p) ∙ rw bodies' at f)
            ];
          };
        }

  insert_all-cons :
      (cs : ClusterSnapshot) (clusters : List ClusterSnapshot) (part after : Miner F R)
      → insert_existing (restore_cluster cs) part ≡ some after
      → insert_all (cs ∷ clusters) part ≡ insert_all clusters after
  unfolding insert_all
  insert_all-cons cs clusters part after e = rw (e, insert_all)

  insert_all-IsPart :
      (entries : Entries) (part : Miner F R)
      → IsPart part
      → HaveDistinctKeys entries
      → All (λ (d : ℕ × ClusterInner). lookup d.0 m.clusters_by_id ≡ some d.1) entries
      → All (λ (d : ℕ × ClusterInner). lookup d.0 part.clusters_by_id ≡ none) entries
      → (after : Miner F R) × (insert_all (map (λ d. snapshot_cluster d.1) entries) part
          ≡ some after)
        × IsPart after
        × ((id : ℕ)
            → lookup id after.clusters_by_id
              ≡ after_restore (lookup id entries) (lookup id part.clusters_by_id))
  unfolding insert_all lookup
  insert_all-IsPart [] part h distinct found unused = (part, refl, h, λ id. refl)
  insert_all-IsPart ((key, b) ∷ entries) part h distinct found unused =
      let r = round part h key b found.0 unused.0 in
      let unused' : All (λ (d : ℕ × ClusterInner). lookup d.0 r.after.clusters_by_id ≡ none)
          entries =
        rw r.bodies
          (All-unused_insert key (refreshed b) part.clusters_by_id entries distinct.0 unused.1) in
      let (after, e, is_part, bodies) =
        insert_all-IsPart entries r.after r.is_part distinct.1 found.1 unused' in
      (
        after,
        insert_all-cons (snapshot_cluster b) (map (λ d. snapshot_cluster d.1) entries) part r.after
              (ap (λ c. insert_existing c part) (restore_cluster-snapshot_cluster b) ∙ r.stored)
            ∙ e,
        is_part,
        λ id.
            bodies id
            ∙ ap (λ held. after_restore (lookup id entries) (lookup id held)) r.bodies
            ∙ after_restore-cons key b entries part.clusters_by_id id distinct.0,
      )

  start_IsPart : (t : Miner F R) → t.options ≡ m.options → IsPart (cleared m.counter t)
  unfolding lookup
  start_IsPart t same = record {
    well = empty-IsWellFormed (cleared m.counter t) (rw same wf.capacity);
    options = same;
    counter = refl;
    comes = λ id body e. absurd (ground arith);
  }

  All-unused_cleared :
      (entries : Entries) (t : Miner F R)
      → All
          (λ (d : ℕ × ClusterInner). lookup d.0 (cleared m.counter t).clusters_by_id ≡ none)
          entries
  unfolding lookup
  All-unused_cleared [] t = tt
  All-unused_cleared (d ∷ entries) t = (refl, All-unused_cleared entries t)

  after_restore_none : (o : Option ClusterInner) → after_restore o none ≡ Option.map refreshed o
  after_restore_none none = refl
  after_restore_none (some b) = refl

  -- A snapshot of a well-formed miner, whose bodies are a map, restored into any miner with the same
  -- options, where `bincode` reads back what it has written, but for the masks: the call does not panic,
  -- no cluster finds its leaf full, and each id has the body that it had, with the same tokens, size,
  -- times, suffix and members, but that its recency is 0, and that its time of creation loses what is
  -- below a millisecond, or is the epoch if it was before it; the miner is well-formed and has the counter
  -- of the snapshot.
  pub restore-snapshot :
      ⦃bin : Bincode F R⦄ (t : Miner F R)
      → HaveDistinctKeys m.clusters_by_id
      → t.options ≡ m.options
      → ReadsBack bin (snapshot_body m)
      → (after : Miner F R) × (restore (snapshot m) t ≡ some (after, ok tt))
        × IsWellFormed after
        × (after.counter ≡ m.counter)
        × ((id : ℕ)
            → lookup id after.clusters_by_id ≡ Option.map refreshed (lookup id m.clusters_by_id))
  unfolding restore snapshot snapshot_body lookup
  restore-snapshot t distinct same read =
      let (after, e, is_part, bodies) =
        insert_all-IsPart m.clusters_by_id (cleared m.counter t) (start_IsPart t same) distinct
          (All-IsFound m.clusters_by_id distinct) (All-unused_cleared m.clusters_by_id t) in
      (
        after,
        rw (decode_snapshot-encode (snapshot_body m) read, restore) (rw (e, restore)),
        is_part.well,
        is_part.counter,
        λ id. bodies id ∙ after_restore_none (lookup id m.clusters_by_id),
      )
