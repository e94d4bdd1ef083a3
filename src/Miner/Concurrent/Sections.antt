-- ===== src/Miner/Concurrent/Sections.antt =====
-- Every section of a thread in crates/logdrain/src/miner.rs, on a well-formed miner: it does not panic,
-- and what it leaves to the other threads.
use logdrain.Common.{
  ℕ, ◌+◌, ◌-◌, ◌≤◌, some, Bool, true, false, not, ◌&&◌, ◌≡◌, ◌⊎◌, refl, ◌∙◌, nat_eq, arith, inl,
  inr, Bool-cases, wrapping_add, if◌then◌else◌,
}
use logdrain.Cluster.{ClusterInner, touch, would_generalize}
use logdrain.Cluster.Time.{SystemTime}
use logdrain.Miner.Concurrent.{Request, Pc, Shared, handle, write_body, read_section, write_section}
use logdrain.Miner.Concurrent.Handles.{
  SameSpot, ticked-IsWellFormed, write_body_frame, write_body-IsWellFormed, Evolves,
  write_body-Evolves, IsKept, IsKept-Evolves, IsAt,
}
use logdrain.Miner.Concurrent.Hits.{
  weight, hits, IsCounted, size-hits, hits-write_body, size-add_member_option, size-hit,
}
use logdrain.Miner.Concurrent.Spots.{
  hit-SameSpot, add_member_option-SameSpot, template_of, template_of-SameSpot, size-template_of,
}
use logdrain.Miner.Invariant.{IsWellFormed}
use logdrain.Miner.Learn.{observe_option, add_member_option, is_none, update_type}
use logdrain.Miner.State.{next_tick}
use logdrain.Miner.Update.{UpdateType}

-- How many sections a thread has before it at most.
abbrev pub rank : Pc → ℕ
rank Pc.entering = 5
rank Pc.searching = 4
rank Pc.missed = 3
rank (Pc.matched id) = 2
rank (Pc.changing id needs_generalize) = 1
rank (Pc.done result) = 0

-- Whether the thread has returned with a new cluster, whose id is `id`.
abbrev pub HasCreated : Pc → ℕ → Type 0
HasCreated (Pc.done result) id = (result.update ≡ UpdateType.created) × (result.cluster_id ≡ id)
HasCreated _ id = ⊥

update_type-HasCreated :
    (changed : Bool) (id i : ℕ)
    → ¬ HasCreated (Pc.done (record { cluster_id = id; update = update_type changed })) i
update_type-HasCreated true id i h = cc
update_type-HasCreated false id i h = cc

-- The way on from the read lock.
abbrev pub after_read : Request → ℕ → Bool → Pc
after_read req id needs_generalize =
    if not needs_generalize && is_none req.member
    then Pc.done (record { cluster_id = id; update = UpdateType.none })
    else Pc.changing id needs_generalize

module _ {F R : Type 0} where
  -- What a section does to the miner and to its thread.
  pub record IsAdvanced (s : Shared F R) (req : Request) (pc : Pc) (t : Shared F R) (after : Pc)
      : Type 0 where
    pub well : IsWellFormed t.miner
    pub evolves : Evolves s t
    pub place : IsAt t req after
    pub counter : t.miner.counter ≤ s.miner.counter + 1
    pub created :
        (id : ℕ)
        → HasCreated after id
        → HasCreated pc id ⊎ ((id ≡ s.miner.counter + 1) × (t.miner.counter ≡ id))
    pub closer : rank after ≤ rank pc - 1
    pub counted : IsCounted s pc t after

  pub Evolves-refl : (s : Shared F R) → Evolves s s
  Evolves-refl s = record {
    options = refl;
    counter = omega arith;
    shards = λ width shard e. (shard, e);
    bodies = λ id body bound e. (body, e, record { id = refl; width = refl; keys = refl });
  }

  IsKept-write_body :
      (req : Request) (id : ℕ) (s : Shared F R) (body : ClusterInner) (h : IsKept s req id)
      → SameSpot s.miner.options h.body body
      → IsKept (write_body id body s) req id
  IsKept-write_body req id s body h same =
      IsKept-Evolves req id (write_body-Evolves id s h.body body h.there same) h

  pub write_section-IsAdvanced :
      (req : Request) (id : ℕ) (needs_generalize : Bool) (s : Shared F R)
      → IsWellFormed s.miner
      → IsKept s req id
      → (t : Shared F R) × (after : Pc) × (write_section req id needs_generalize s
          ≡ some (t, after))
        × IsAdvanced s req (Pc.changing id needs_generalize) t after
  unfolding write_section
  write_section-IsAdvanced req id needs_generalize s wf h =
      let o = s.miner.options in
      let (template, changed) = template_of o req.tokens needs_generalize h.body in
      let body = add_member_option req.member template in
      let same =
        add_member_option-SameSpot o req.member h.body template
          (template_of-SameSpot o req.tokens needs_generalize h.body h.width h.keys) in
      let (shards, options, counter) = write_body_frame id s body in
      (
        write_body id body s,
        Pc.done (record { cluster_id = id; update = update_type changed }),
        rw (h.there, write_section),
        record {
          well = write_body-IsWellFormed id s body h.body h.there same wf;
          evolves = write_body-Evolves id s h.body body h.there same;
          place = omega (arith, counter, h.issued);
          counter = omega (arith, counter);
          created = λ i c. absurd (update_type-HasCreated changed id i c);
          closer = omega arith;
          counted = λ room.
              let same_size : body.size ≡ h.body.size =
                size-add_member_option req.member template
                ∙ size-template_of o req.tokens needs_generalize h.body in
              omega (arith, hits-write_body id s h.body h.issued h.there body, same_size);
        },
      )

  after_read_lem :
      (t : Shared F R) (req : Request) (id : ℕ) (needs_generalize : Bool)
      → IsKept t req id
      → IsAt t req (after_read req id needs_generalize)
        × ((i : ℕ) → ¬ HasCreated (after_read req id needs_generalize) i)
        × (rank (after_read req id needs_generalize) ≤ 1)
        × (weight (after_read req id needs_generalize) ≡ 1)
  after_read_lem t req id true h = (h, λ i c. c, omega arith, refl)
  after_read_lem t req id false h = elim (Bool-cases (is_none req.member)) [
    | inl e ↦ rw e (h.issued, λ i c. cc, omega arith, refl)
    | inr e ↦ rw e (h, λ i c. c, omega arith, refl)
  ]

  pub read_section-IsAdvanced :
      (now : SystemTime) (req : Request) (id : ℕ) (s : Shared F R)
      → IsWellFormed s.miner
      → IsKept s req id
      → (t : Shared F R) × (after : Pc) × (read_section now req id s ≡ some (t, after))
        × IsAdvanced s req (Pc.matched id) t after
  unfolding read_section next_tick handle
  read_section-IsAdvanced now req id s wf h =
      let ticked : Shared F R = record s {
        miner = record s.miner { tick = wrapping_add s.miner.tick 1 };
      } in
      let hit = observe_option req.event_ms (touch now s.miner.tick h.body) in
      let same = hit-SameSpot s.miner.options now s.miner.tick req.event_ms h.body in
      let needs = would_generalize hit req.tokens s.miner.options.wildcard in
      let (shards, options, counter) = write_body_frame id ticked hit in
      let evolves = write_body-Evolves id ticked h.body hit h.there same in
      let kept : IsKept ticked req id = record {
        issued = h.issued;
        body = h.body;
        there = h.there;
        width = h.width;
        keys = h.keys;
      } in
      let (place, created, closer, weighs) =
        after_read_lem (write_body id hit ticked) req id needs
          (IsKept-Evolves req id evolves kept) in
      (
        write_body id hit ticked,
        after_read req id needs,
        rw (h.there, read_section),
        record {
          well =
              write_body-IsWellFormed id ticked hit h.body h.there same
                (ticked-IsWellFormed s.miner (wrapping_add s.miner.tick 1) wf);
          evolves = record {
            options = evolves.options;
            counter = evolves.counter;
            shards = evolves.shards;
            bodies = evolves.bodies;
          };
          place = place;
          counter = omega (arith, counter);
          created = λ i c. absurd (created i c);
          closer = closer;
          counted = λ room.
              let below : h.body.size ≤ hits s = size-hits id s h.body h.issued h.there in
              let moved : hits (write_body id hit ticked) + h.body.size ≡ hits s + hit.size =
                hits-write_body id ticked h.body h.issued h.there hit in
              let one = size-hit now s.miner.tick req.event_ms h.body in
              omega (arith, below, moved, one, weighs);
        },
      )
