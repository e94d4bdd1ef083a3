-- ===== src/Options/Build.antt =====
-- What `build_options` of crates/logdrain/src/options.rs accepts.
use logdrain.Common.{◌+◌, ◌≤◌, ◌<◌, ◌≡◌, ◌↔◌, true, ok, u64_values, nat_eq, arith}
use logdrain.Extern.{Float}
use logdrain.Options.{Options, MinerBuilder, prefix_len, in_unit, build_options}

module _ {F R : Type 0} ⦃fl : Float F⦄ where
  build_options_checks :
      (b : MinerBuilder F R) (o : Options F R)
      → build_options b ≡ ok o
      → (b.opts ≡ o)
        × ((2 ≤ b.opts.depth)
            × (in_unit b.opts.sim_threshold ≡ true)
            × (1 ≤ b.opts.max_clusters_per_leaf))
  unfolding build_options
  build_options_checks b o e = (ground arith, (ground arith, ground arith, ground arith))

  build_options_accepts :
      (b : MinerBuilder F R)
      → (2 ≤ b.opts.depth)
        × (in_unit b.opts.sim_threshold ≡ true)
        × (1 ≤ b.opts.max_clusters_per_leaf)
      → build_options b ≡ ok b.opts
  unfolding build_options
  build_options_accepts b h = ground arith

  -- `build_options` gives options exactly when the depth is at least 2, the threshold is in [0.0, 1.0]
  -- and a leaf has room for a cluster; they are the builder's.
  pub build_options-ok :
      (b : MinerBuilder F R) (o : Options F R)
      → (build_options b ≡ ok o) ↔ (
          (b.opts ≡ o)
          × (2 ≤ o.depth)
          × (in_unit o.sim_threshold ≡ true)
          × (1 ≤ o.max_clusters_per_leaf))
  unfolding build_options
  build_options-ok b o = (
    λ e.
        let (p, (deep, unit, room)) = build_options_checks b o e in
        (p, rw (← p) deep, rw (← p) unit, rw (← p) room),
    λ h.
        let (p, deep, unit, room) = h in
        rw (← p) (build_options_accepts b (rw p deep, rw p unit, rw p room)),
  )

  -- Options from `build_options` with a depth in a `u64` have as many prefix tokens as levels below the
  -- first two: the subtraction does not wrap.
  pub prefix_len-build_options :
      (b : MinerBuilder F R) (o : Options F R)
      → build_options b ≡ ok o
      → o.depth < u64_values
      → prefix_len o + 2 ≡ o.depth
  unfolding prefix_len
  prefix_len-build_options b o e h =
      let (_, deep, _, _) = (build_options-ok b o).0 e in omega (arith, h, deep)
