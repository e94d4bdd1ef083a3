-- ===== src/Miner/Concurrent/Phases.antt =====
-- Every section of a thread in crates/logdrain/src/miner.rs, by where the thread stands.
use logdrain.Common.{◌+◌, ◌<◌, some, ◌≡◌, refl, nat_eq, arith, inl, u64_values}
use logdrain.Cluster.Time.{SystemTime}
use logdrain.Extern.{Float}
use logdrain.Miner.Concurrent.{Request, Pc, Shared, advance}
use logdrain.Miner.Concurrent.Creating.{create_section-IsAdvanced}
use logdrain.Miner.Concurrent.Handles.{IsAt}
use logdrain.Miner.Concurrent.Searching.{entered-IsAdvanced, search_section-IsAdvanced}
use logdrain.Miner.Concurrent.Sections.{
  IsAdvanced, Evolves-refl, read_section-IsAdvanced, write_section-IsAdvanced,
}
use logdrain.Miner.Invariant.{IsWellFormed}

module _ {F R : Type 0} where
  -- A thread whose place is right runs its next section without a panic.
  pub advance-IsAdvanced :
      ⦃fl : Float F⦄ (now : SystemTime) (req : Request) (pc : Pc) (s : Shared F R)
      → IsWellFormed s.miner
      → s.miner.counter + 1 < u64_values
      → IsAt s req pc
      → (t : Shared F R) × (after : Pc) × (advance now req pc s ≡ some (t, after))
        × IsAdvanced s req pc t after
  unfolding advance
  advance-IsAdvanced now req Pc.entering s wf bound h = (_, _, refl, entered-IsAdvanced req s wf)
  advance-IsAdvanced now req Pc.searching s wf bound h = search_section-IsAdvanced req s wf h.0 h.1
  advance-IsAdvanced now req Pc.missed s wf bound h =
      create_section-IsAdvanced req s wf h.0 h.1 now bound
  advance-IsAdvanced now req (Pc.matched id) s wf bound h =
      read_section-IsAdvanced now req id s wf h
  advance-IsAdvanced now req (Pc.changing id needs) s wf bound h =
      write_section-IsAdvanced req id needs s wf h
  advance-IsAdvanced now req (Pc.done result) s wf bound h = (
    s,
    Pc.done result,
    refl,
    record {
      well = wf;
      evolves = Evolves-refl s;
      place = h;
      counter = omega arith;
      created = λ id c. inl c;
      closer = omega arith;
      counted = λ room. omega arith;
    },
  )
