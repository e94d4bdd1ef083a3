-- ===== src/Cluster/Rates.antt =====
-- The rates of crates/logdrain/src/cluster.rs: `lines_per_minute` and `event_lines_per_minute`.
use logdrain.Common.{ℕ, Option, none, some, if◌then◌else◌}
use logdrain.Cluster.{Cluster}
use logdrain.Cluster.Time.{SystemTime, duration_since}
use logdrain.Extern.{Float}

module _ {F : Type 0} ⦃fl : Float F⦄ where
  -- `duration_since(…).map(|d| d.as_secs_f64()).unwrap_or(0.0)`
  abbrev pub span_secs : SystemTime → SystemTime → F
  span_secs later earlier = elim (duration_since later earlier) [
    | some ns ↦ fl.as_secs_f64 ns
    | none ↦ fl.from_ℕ 0
  ]

  abbrev pub rate : ℕ → F → F
  rate size secs =
      if fl.flt secs (fl.from_ℕ 1)
      then fl.from_ℕ 0
      else fl.div (fl.from_ℕ size) (fl.div secs (fl.from_ℕ 60))

  unfoldable pub lines_per_minute : Cluster → F
  lines_per_minute c = rate c.size (span_secs c.updated_at c.created_at)

  unfoldable pub event_lines_per_minute : Cluster → Option F
  event_lines_per_minute c = elim c.event_first [
    | none ↦ none
    | some first ↦ elim c.event_last [
      | none ↦ none
      | some last ↦ some (rate c.size (span_secs last first))
    ]
  ]
