-- ===== src/Miner/Concurrent/Progress.antt =====
-- That `add_inner` of crates/logdrain/src/miner.rs returns on every thread, whatever the others do.
use logdrain.Common.{
  ℕ, ◌+◌, ◌-◌, ◌<◌, ◌≤◌, ◌≡◌, refl, nat_eq, arith, ℕ_discrete, u64_values, if◌then◌else◌, ◌==◌,
}
use logdrain.Cluster.Time.{SystemTime}
use logdrain.Extern.{Float}
use logdrain.Miner.Concurrent.{Request, Pc, System, update_pc, Step, turn, Reach, here, next}
use logdrain.Miner.Concurrent.Phases.{advance-IsAdvanced}
use logdrain.Miner.Concurrent.Reachable.{Reach-IsSound, advanced}
use logdrain.Miner.Concurrent.Sections.{rank}
use logdrain.Miner.Invariant.{IsWellFormed}
use logdrain.Miner.State.{Miner}
use logdrain.Miner.Update.{AddResult}

-- A thread with no section before it has returned.
rank-zero : (pc : Pc) → rank pc ≤ 0 → (result : AddResult) × (pc ≡ Pc.done result)
rank-zero Pc.entering h = absurd (omega arith)
rank-zero Pc.searching h = absurd (omega arith)
rank-zero Pc.missed h = absurd (omega arith)
rank-zero (Pc.matched id) h = absurd (omega arith)
rank-zero (Pc.changing id needs) h = absurd (omega arith)
rank-zero (Pc.done result) h = (result, refl)

rank-update_pc_self : (pcs : ℕ → Pc) (i : ℕ) (pc : Pc) → rank (update_pc pcs i pc i) ≡ rank pc
rank-update_pc_self pcs i pc = ground arith

-- A turn of one thread, counted for another or for itself.
rank-update_pc :
    (pcs : ℕ → Pc) (j i : ℕ) (pc : Pc) (taken : ℕ)
    → rank pc ≤ rank (pcs j) - 1
    → rank (pcs i) ≤ 5 - taken
    → rank (update_pc pcs j pc i) ≤ 5 - ((if j == i then 1 else 0) + taken)
rank-update_pc pcs j i pc taken closer h = elim (ℕ_discrete j i) [
  | yes p ↦ ground arith
  | no p ↦ ground arith
]

module _ {F R : Type 0} ⦃fl : Float F⦄ (requests : ℕ → Request) where
  -- How many of the steps thread `i` has taken.
  unfoldable pub turns : (i : ℕ) {m : Miner F R} {n : ℕ} {s : System F R} → Reach requests m n s → ℕ
  turns i here = 0
  turns i (next r (turn j now e)) = (if j == i then 1 else 0) + turns i r

  rank-turns :
      (i : ℕ) (m : Miner F R) {n : ℕ} {s : System F R}
      → IsWellFormed m
      → m.counter + n < u64_values
      → (r : Reach requests m n s) → rank (s.pcs i) ≤ 5 - turns i r
  unfolding turns
  rank-turns i m wf bound here = omega arith
  rank-turns i m wf bound (next {n = k} {s = before} r (turn j now {after = after} {pc = pc} e)) =
      let sound = Reach-IsSound requests m {n = k} {s = before} wf (omega (arith, bound)) r in
      let a =
        advanced now (requests j) (before.pcs j) before.shared sound.well
          (omega (arith, sound.counter, bound)) (sound.places j) after pc e in
      let ih = rank-turns i m {n = k} {s = before} wf (omega (arith, bound)) r in
      rank-update_pc before.pcs j i pc (turns i r) a.closer ih

  -- Threads that run `add_inner` on a well-formed miner never panic: in whatever order their sections ran,
  -- the next section of each of them runs to its end and leaves at least one section fewer before the
  -- return, and a thread that has had five turns has returned; given that the counter has room for one
  -- id per section and one more. That a thread waits for a lock is not part of the model.
  pub Reach_progress :
      (m : Miner F R) {n : ℕ} {s : System F R}
      → IsWellFormed m
      → m.counter + n + 1 < u64_values
      → (r : Reach requests m n s) (i : ℕ)
      → ((now : SystemTime)
          → (t : System F R) × Step requests s t × (rank (t.pcs i) ≤ rank (s.pcs i) - 1))
        × (5 ≤ turns i r → (result : AddResult) × (s.pcs i ≡ Pc.done result))
  Reach_progress m {n = n} {s = s} wf bound r i =
      let sound = Reach-IsSound requests m {n = n} {s = s} wf (omega (arith, bound)) r in
      (
        λ now.
            let (t, after, e, a) =
              advance-IsAdvanced now (requests i) (s.pcs i) s.shared sound.well
                (omega (arith, sound.counter, bound)) (sound.places i) in
            (_, turn i now e, rw (rank-update_pc_self s.pcs i after) a.closer),
        λ h.
            rank-zero (s.pcs i)
              (omega (arith, h, rank-turns i m {n = n} {s = s} wf (omega (arith, bound)) r)),
      )
