-- ===== src/Miner/Concurrent/Conserved.antt =====
-- Threads of crates/logdrain/src/miner.rs lose no hit: what the bodies count, and what the threads have
-- added.
use logdrain.Common.{
  ℕ, suc, ◌+◌, ◌<◌, ◌≤◌, ◌≡◌, ◌≢◌, sym, ◌∙◌, ap, nat_eq, arith, u64_values, ◌-◌, dec_le,
}
use logdrain.Common.Sums.{sum_to, sum_to_update, sum_to_zero}
use logdrain.Extern.{Float}
use logdrain.Miner.Concurrent.{
  Request, Pc, Shared, System, update_pc, start, turn, Reach, here, next,
}
use logdrain.Miner.Concurrent.Hits.{weight, hits}
use logdrain.Miner.Concurrent.Reachable.{Reach-IsSound, advanced}
use logdrain.Miner.Concurrent.Sections.{IsAdvanced, rank}
use logdrain.Miner.Invariant.{IsWellFormed}
use logdrain.Miner.State.{Miner}

-- How many of the threads up to `last` have counted their line.
abbrev pub counted : ℕ → (ℕ → Pc) → ℕ
counted last pcs = sum_to last (λ i. weight (pcs i))

-- No thread after `last` has begun.
abbrev pub AreIdle : ℕ → (ℕ → Pc) → Type 0
AreIdle last pcs = (i : ℕ) → last < i → pcs i ≡ Pc.entering

weight_le : (pc : Pc) → weight pc ≤ 1
weight_le Pc.entering = omega arith
weight_le Pc.searching = omega arith
weight_le Pc.missed = omega arith
weight_le (Pc.matched id) = omega arith
weight_le (Pc.changing id needs_generalize) = omega arith
weight_le (Pc.done result) = omega arith

rank_le : (pc : Pc) → rank pc ≤ 5
rank_le Pc.entering = omega arith
rank_le Pc.searching = omega arith
rank_le Pc.missed = omega arith
rank_le (Pc.matched id) = omega arith
rank_le (Pc.changing id needs_generalize) = omega arith
rank_le (Pc.done result) = omega arith

-- A thread that has moved is not at its start.
moved_once : (pc after : Pc) → rank after ≤ rank pc - 1 → after ≢ Pc.entering
moved_once pc after h e = let p : rank after ≡ 5 = ap rank e in omega (arith, h, rank_le pc)

module _ {F R : Type 0} ⦃fl : Float F⦄ (requests : ℕ → Request) (m : Miner F R) (last : ℕ) where
  abbrev AreCounted : ℕ → System F R → Type 0
  AreCounted n s =
      (hits s.shared ≡ hits (start m).shared + counted last s.pcs)
      × (hits s.shared ≤ hits (start m).shared + n)

  module _ (n : ℕ) (s : System F R) (i : ℕ) (t : Shared F R) (after : Pc)
      (step : IsAdvanced s.shared (requests i) (s.pcs i) t after)
      (idle : AreIdle last (update_pc s.pcs i after)) where
    moved_self : update_pc s.pcs i after i ≡ after
    moved_self = ground arith

    moved_ne : (j : ℕ) → i ≢ j → update_pc s.pcs i after j ≡ s.pcs j
    moved_ne j h = ground arith

    mover_le : i ≤ last
    mover_le = elim (dec_le i last) [
      | yes h ↦ h
      | no h ↦
          absurd (moved_once (s.pcs i) after step.closer (sym moved_self ∙ idle i (omega arith)))
    ]

    idle_before : AreIdle last s.pcs
    idle_before j h = let n : i ≢ j = λ e. omega (arith, mover_le) in sym (moved_ne j n) ∙ idle j h

    counted_moved :
        counted last (update_pc s.pcs i after) + weight (s.pcs i)
        ≡ counted last s.pcs + weight after
    counted_moved =
        sum_to_update last i (λ j. weight (update_pc s.pcs i after j)) (λ j. weight (s.pcs j))
          mover_le (λ j n. ap weight (moved_ne j n))
        ∙ ap (λ pc. counted last s.pcs + weight pc) moved_self

    moved-AreCounted :
        hits (start m).shared + suc n < u64_values
        → AreCounted n s
        → AreCounted (suc n) (record { shared = t; pcs = update_pc s.pcs i after })
    moved-AreCounted room (equal, below) =
        let moved = step.counted (omega (arith, below, room)) in
        (omega (arith, moved, equal, counted_moved), omega (arith, moved, below, weight_le after))

  reached :
      {n : ℕ} {s : System F R}
      → IsWellFormed m
      → m.counter + n < u64_values
      → hits (start m).shared + n < u64_values
      → Reach requests m n s
      → AreIdle last s.pcs
      → AreCounted n s
  reached wf bound room here idle = (omega (arith, sum_to_zero last), omega arith)
  reached wf bound room (next {n = k} {s = before} r (turn i now {after = after} {pc = pc} e))
        idle =
      let sound = Reach-IsSound requests m {n = k} {s = before} wf (omega (arith, bound)) r in
      let step =
        advanced now (requests i) (before.pcs i) before.shared sound.well
          (omega (arith, sound.counter, bound)) (sound.places i) after pc e in
      let earlier =
        reached {n = k} {s = before} wf (omega (arith, bound)) (omega (arith, room)) r
          (idle_before k before i after pc step idle) in
      moved-AreCounted k before i after pc step idle room earlier

  -- Threads up to `last` that run `add_inner` on a well-formed miner, in any order of their sections,
  -- lose no hit and count none twice: at every moment the sizes of all bodies, those that have been
  -- evicted included, are in sum what they were at the start, and one more for each thread that has
  -- passed the point where it counts its line; given that the counter and that sum have room for one
  -- more per section.
  pub Reach-hits :
      {n : ℕ} {s : System F R}
      → IsWellFormed m
      → m.counter + n < u64_values
      → hits (start m).shared + n < u64_values
      → Reach requests m n s
      → AreIdle last s.pcs
      → hits s.shared ≡ hits (start m).shared + counted last s.pcs
  Reach-hits {n} {s} wf bound room r idle = (reached {n = n} {s = s} wf bound room r idle).0
