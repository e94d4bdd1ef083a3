-- ===== src/Miner/Adding/History.antt =====
-- Any sequence of additions to a new miner of crates/logdrain/src/miner.rs.
use logdrain.Common.{
  ℕ, ◌+◌, ◌<◌, ◌≤◌, List, [], ◌∷◌, Option, none, some, ◌≡◌, refl, ◌∙◌, Text, length, nat_eq, arith,
  u64_values,
}
use logdrain.Common.Assoc.{lookup}
use logdrain.Cluster.Time.{SystemTime}
use logdrain.Extern.{Float, RegexEngine}
use logdrain.Miner.Add.{add_inner}
use logdrain.Miner.Adding.Outcome.{add_inner-IsWellFormed, add_inner-cluster_id}
use logdrain.Miner.Invariant.{IsWellFormed}
use logdrain.Miner.Layout.{leaf_at}
use logdrain.Miner.State.{Miner, from_options}
use logdrain.Options.{Options}

-- One call of `add`, `add_with_member`, `add_at` or `add_with_member_at`, with the time of the call.
pub record Call : Type 0 where
  pub now : SystemTime
  pub line : Text
  pub member : Option Text
  pub event_ms : Option ℕ

-- A miner without shards and bodies.
pub empty-IsWellFormed :
    {F R : Type 0} (m : Miner F R)
    → 1 ≤ m.options.max_clusters_per_leaf
    → IsWellFormed (record m { shards = []; clusters_by_id = [] })
unfolding leaf_at lookup
empty-IsWellFormed m h = record {
  capacity = h;
  roots = λ width shard e. absurd (ground arith);
  leaves = λ width keys leaf l e. absurd (ground arith);
  held = λ id body e. absurd (ground arith);
  issued = λ id body e. absurd (ground arith);
}

module _ {F R : Type 0} ⦃fl : Float F⦄ ⦃re : RegexEngine R⦄ where
  -- The miner after the calls; `none` is a panic in one of them.
  unfoldable pub replay : List Call → Miner F R → Option (Miner F R)
  replay [] m = some m
  replay (c ∷ calls) m = elim (add_inner c.now c.line c.member c.event_ms m) [
    | some (m', r) ↦ replay calls m'
    | none ↦ none
  ]

  replay-IsWellFormed :
      (calls : List Call) (m : Miner F R)
      → IsWellFormed m
      → m.counter + length calls < u64_values
      → (m' : Miner F R) × (replay calls m ≡ some m')
        × IsWellFormed m'
        × (m'.options ≡ m.options)
        × (m'.counter ≤ m.counter + length calls)
  unfolding replay
  replay-IsWellFormed [] m wf bound = (m, refl, wf, refl, omega arith)
  replay-IsWellFormed (c ∷ calls) m wf bound =
      let (m1, r, e, wf1, options) =
        add_inner-IsWellFormed c.now c.line c.member c.event_ms m wf (omega arith) in
      let (m1', r', e', ids) =
        add_inner-cluster_id c.now c.line c.member c.event_ms m wf (omega arith) in
      let step : m1.counter ≤ m.counter + 1 = ground (arith, e, e', ids) in
      let (m', e2, wf', options', counter) =
        replay-IsWellFormed calls m1 wf1 (omega (arith, step)) in
      (m', rw (e, replay) e2, wf', options' ∙ options, omega (arith, step, counter))

  -- From a new miner with a leaf capacity of at least 1, every sequence of fewer than 2^64 additions
  -- runs without a panic, to a well-formed miner with the same options that has given out at most one
  -- id per addition.
  pub replay-from_options :
      (o : Options F R) (calls : List Call)
      → 1 ≤ o.max_clusters_per_leaf
      → length calls < u64_values
      → (m : Miner F R) × (replay calls (from_options o) ≡ some m)
        × IsWellFormed m
        × (m.options ≡ o)
        × (m.counter ≤ length calls)
  unfolding from_options
  replay-from_options o calls h bound =
      let (m, e, wf, options, counter) =
        replay-IsWellFormed calls (from_options o) (empty-IsWellFormed (from_options o) h)
          (omega (arith, bound)) in
      (m, e, wf, options, omega (arith, counter))
