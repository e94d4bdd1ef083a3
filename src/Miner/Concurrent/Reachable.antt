-- ===== src/Miner/Concurrent/Reachable.antt =====
-- What holds of every miner of crates/logdrain/src/miner.rs that threads can reach, in any order.
use logdrain.Common.{
  ℕ, suc, ◌+◌, ◌<◌, ◌≤◌, some, ◌≡◌, ◌≢◌, refl, sym, ◌∙◌, subst, nat_eq, arith, inl, inr, ℕ_discrete,
  u64_values,
}
use logdrain.Cluster.Time.{SystemTime}
use logdrain.Extern.{Float}
use logdrain.Miner.Concurrent.{
  Request, Pc, Shared, System, update_pc, start, advance, turn, Reach, here, next,
}
use logdrain.Miner.Concurrent.Handles.{IsAt, IsAt-Evolves}
use logdrain.Miner.Concurrent.Phases.{advance-IsAdvanced}
use logdrain.Miner.Concurrent.Sections.{IsAdvanced, HasCreated}
use logdrain.Miner.Invariant.{IsWellFormed}
use logdrain.Miner.State.{Miner}

module _ {F R : Type 0} ⦃fl : Float F⦄ where
  -- The section that a step runs is the one that `advance` gives.
  pub advanced :
      (now : SystemTime) (req : Request) (pc : Pc) (s : Shared F R)
      → IsWellFormed s.miner
      → s.miner.counter + 1 < u64_values
      → IsAt s req pc
      → (t : Shared F R) (after : Pc) → advance now req pc s ≡ some (t, after)
      → IsAdvanced s req pc t after
  advanced now req pc s wf bound h t after e =
      let (t', after', e', a) = advance-IsAdvanced now req pc s wf bound h in
      let p : t' ≡ t = cc in let q : after' ≡ after = cc in rw (← p, ← q) a

module _ {F R : Type 0} ⦃fl : Float F⦄ (requests : ℕ → Request) where
  -- Of the threads and their miner, `n` sections after they started on `m`: the miner is well-formed,
  -- has the options of `m` and has given out at most one id per section; every thread stands where it
  -- can go on; and the ids of the clusters that threads have created are new, each a different one.
  pub record IsSound (m : Miner F R) (n : ℕ) (s : System F R) : Type 0 where
    pub well : IsWellFormed s.shared.miner
    pub options : s.shared.miner.options ≡ m.options
    pub counter : s.shared.miner.counter ≤ m.counter + n
    pub grown : m.counter ≤ s.shared.miner.counter
    pub places : (i : ℕ) → IsAt s.shared (requests i) (s.pcs i)
    pub fresh :
        (i id : ℕ) → HasCreated (s.pcs i) id → (m.counter < id) × (id ≤ s.shared.miner.counter)
    pub distinct : (i j id : ℕ) → i ≢ j → HasCreated (s.pcs i) id → ¬ HasCreated (s.pcs j) id

  start-IsSound : (m : Miner F R) → IsWellFormed m → IsSound m 0 (start m)
  start-IsSound m wf = record {
    well = wf;
    options = refl;
    counter = omega arith;
    grown = omega arith;
    places = λ i. tt;
    fresh = λ i id c. absurd c;
    distinct = λ i j id n c. absurd c;
  }

  module _ (m : Miner F R) (n : ℕ) (s : System F R) (sound : IsSound m n s) (i : ℕ) (t : Shared F R)
      (after : Pc) (step : IsAdvanced s.shared (requests i) (s.pcs i) t after) where
    abbrev moved : ℕ → Pc
    moved = update_pc s.pcs i after

    moved_self : moved i ≡ after
    moved_self = ground arith

    moved_ne : (j : ℕ) → i ≢ j → moved j ≡ s.pcs j
    moved_ne j h = ground arith

    -- A new cluster of the thread that moves is the newest of all.
    moved-fresh : (j id : ℕ) → HasCreated (moved j) id → (m.counter < id) × (id ≤ t.miner.counter)
    moved-fresh j id c = elim (ℕ_discrete i j) [
      | no h ↦
          let (a, b) = sound.fresh j id (subst (λ pc. HasCreated pc id) (moved_ne j h) c) in
          (a, omega (arith, b, step.evolves.counter))
      | yes h ↦
          let c' : HasCreated after id = subst (λ pc. HasCreated pc id) (rw (← h) moved_self) c in
          elim (step.created id c') [
            | inl old ↦
                let (a, b) = sound.fresh i id old in (a, omega (arith, b, step.evolves.counter))
            | inr (e, e') ↦ (omega (arith, sound.grown), omega (arith, e'))
          ]
    ]

    -- Two threads: the one that has created now has an id that no other has.
    moved_distinct : (j k id : ℕ) → j ≢ k → HasCreated (moved j) id → ¬ HasCreated (moved k) id
    moved_distinct j k id n c d = elim (ℕ_discrete i j) [
      | yes h ↦ newest j k id h n c d
      | no h ↦ elim (ℕ_discrete i k) [
        | yes h' ↦ newest k j id h' (λ p. n (sym p)) d c
        | no h' ↦
            sound.distinct j k id n (subst (λ pc. HasCreated pc id) (moved_ne j h) c)
              (subst (λ pc. HasCreated pc id) (moved_ne k h') d)
      ]
    ]
      where
        newest : (j k id : ℕ) → i ≡ j → j ≢ k → HasCreated (moved j) id → ¬ HasCreated (moved k) id
        newest j k id h n c d =
            let other : HasCreated (s.pcs k) id =
              subst (λ pc. HasCreated pc id) (moved_ne k (λ p. n (sym h ∙ p))) d in
            let own : HasCreated after id =
              subst (λ pc. HasCreated pc id) (rw (← h) moved_self) c in
            elim (step.created id own) [
              | inl old ↦ sound.distinct i k id (λ p. n (sym h ∙ p)) old other
              | inr (e, e') ↦ let (a, b) = sound.fresh k id other in omega (arith, b, e)
            ]

    moved-IsSound : IsSound m (suc n) (record { shared = t; pcs = moved })
    moved-IsSound = record {
      well = step.well;
      options = step.evolves.options ∙ sound.options;
      counter = omega (arith, step.counter, sound.counter);
      grown = omega (arith, step.evolves.counter, sound.grown);
      places = λ j. elim (ℕ_discrete i j) [
        | no h ↦
            subst (IsAt t (requests j)) (sym (moved_ne j h))
              (IsAt-Evolves (requests j) (s.pcs j) step.evolves (sound.places j))
        | yes h ↦ rw (← h) (subst (IsAt t (requests i)) (sym moved_self) step.place)
      ];
      fresh = moved-fresh;
      distinct = moved_distinct;
    }

  -- Threads that run `add_inner` on a well-formed miner, each on any line, reach in any order of their
  -- sections only well-formed miners, and no two of them create a cluster under one id; given that the
  -- counter has room for one id per section.
  pub Reach-IsSound :
      (m : Miner F R) {n : ℕ} {s : System F R}
      → IsWellFormed m
      → m.counter + n < u64_values
      → Reach requests m n s
      → IsSound m n s
  Reach-IsSound m wf bound here = start-IsSound m wf
  Reach-IsSound m wf bound (next {n = k} {s = before} r (turn i now {after = after} {pc = pc} e)) =
      let sound = Reach-IsSound m {n = k} {s = before} wf (omega (arith, bound)) r in
      moved-IsSound m k before sound i after pc (
        advanced now (requests i) (before.pcs i) before.shared sound.well
          (omega (arith, sound.counter, bound)) (sound.places i) after pc e)
