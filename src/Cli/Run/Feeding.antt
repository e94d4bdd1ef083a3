-- ===== src/Cli/Run/Feeding.antt =====
-- The records of a run of crates/logdrain-cli/src/main.rs and its miner: `build_miner` makes a well-formed
-- one, and `feed` keeps it so.
use logdrain.Common.{
  ℕ, ◌+◌, ◌<◌, ◌≤◌, List, [], ◌∷◌, Option, none, some, ◌≡◌, refl, ◌∙◌, inl, inr, Text, Result, ok,
  err, length, arith, nat_eq, u64_values, Option-cases, true, false, Bool-cases, is_empty, map_err,
  ◌>>=◌,
}
use logdrain.Cli.Build.{Arguments, build_miner, build_masks, message, builder_of, with_masks}
use logdrain.Cli.Fields.{Json, extract_field}
use logdrain.Cli.Ingest.{Chrono, Ingestor, feed, event_ms, ingest_add, trim}
use logdrain.Cli.Output.{Writer}
use logdrain.Cli.Run.{Host, feed_all}
use logdrain.Cluster.Time.{SystemTime}
use logdrain.Errors.{LogdrainError}
use logdrain.Extern.{Float, RegexEngine}
use logdrain.Mask.{Mask}
use logdrain.Miner.Add.{add, add_at, add_inner}
use logdrain.Miner.Adding.{add_tokens-IsAdded}
use logdrain.Miner.Adding.History.{empty-IsWellFormed}
use logdrain.Miner.Add.{preprocess}
use logdrain.Miner.Invariant.{IsWellFormed}
use logdrain.Miner.State.{Miner, build, from_options}
use logdrain.Miner.Update.{AddResult}
use logdrain.Options.{Options, MinerBuilder, build_options, set_masks}
use logdrain.Options.Build.{build_options-ok}

module _ {F R : Type 0} ⦃fl : Float F⦄ ⦃re : RegexEngine R⦄ where
  added :
      (now : SystemTime) (line : Text) (member : Option Text) (event : Option ℕ) (m : Miner F R)
      → IsWellFormed m
      → m.counter + 1 < u64_values
      → (m' : Miner F R) × (r : AddResult) × (add_inner now line member event m ≡ some (m', r))
        × IsWellFormed m'
        × (m'.counter ≤ m.counter + 1)
  unfolding add_inner
  added now line member event m wf bound =
      let p = preprocess m.options line in
      let (m', r, e, h) = add_tokens-IsAdded now p.0 p.1 member event m wf bound in
      (m', r, e, h.well, elim h.ids [ inl a ↦ omega (arith, a.0) | inr a ↦ omega (arith, a.0) ])

  module _ {J : Type 0} (json : Json J) (chrono : Chrono) where
    -- A record is fed without a panic, and uses at most one id.
    abbrev IsFed : SystemTime → Text → Ingestor F R → Type 0
    IsFed now rec ing =
        (fed : Ingestor F R) × (feed json chrono now rec ing ≡ some fed)
        × IsWellFormed fed.miner
        × (fed.miner.counter ≤ ing.miner.counter + 1)

    ingest_add-IsWellFormed :
        (now : SystemTime) (msg : Text) (event : Option ℕ) (ing : Ingestor F R)
        → IsWellFormed ing.miner
        → ing.miner.counter + 1 < u64_values
        → (fed : Ingestor F R) × (ingest_add json chrono now msg event ing ≡ some fed)
          × IsWellFormed fed.miner
          × (fed.miner.counter ≤ ing.miner.counter + 1)
    unfolding ingest_add add add_at
    ingest_add-IsWellFormed now msg none ing wf bound =
        let (m, r, e, well, counter) = added now msg none none ing.miner wf bound in
        (record ing { miner = m }, rw e, well, counter)
    ingest_add-IsWellFormed now msg (some ms) ing wf bound =
        let (m, r, e, well, counter) = added now msg none (some ms) ing.miner wf bound in
        (record ing { miner = m }, rw e, well, counter)

    event_ms-miner :
        (rec : Text) (ing : Ingestor F R) → (event_ms json chrono rec ing).1.miner ≡ ing.miner
    unfolding event_ms
    event_ms-miner rec ing = ground arith

    module _ (now : SystemTime) (rec : Text) (ing : Ingestor F R) where
      abbrev event : Option ℕ
      event = (event_ms json chrono rec ing).0

      abbrev counted : Ingestor F R
      counted = (event_ms json chrono rec ing).1

      -- The ways through `feed`.
      feed_blank :
          ing.key ≡ none → is_empty (trim rec) ≡ true → feed json chrono now rec ing ≡ some counted
      unfolding feed
      feed_blank e b = ground arith

      feed_raw :
          ing.key ≡ none
          → is_empty (trim rec) ≡ false
          → feed json chrono now rec ing ≡ ingest_add json chrono now rec event counted
      unfolding feed
      feed_raw e b = ground arith

      feed_missing :
          (k : Text)
          → ing.key ≡ some k
          → extract_field json rec k ≡ none
          → feed json chrono now rec ing ≡ some counted
      unfolding feed
      feed_missing k e x = ground arith

      feed_found :
          (k msg : Text)
          → ing.key ≡ some k
          → extract_field json rec k ≡ some msg
          → feed json chrono now rec ing ≡ ingest_add json chrono now msg event counted
      unfolding feed
      feed_found k msg e x = ground arith

      feed-IsWellFormed :
          IsWellFormed ing.miner → ing.miner.counter + 1 < u64_values → IsFed now rec ing
      feed-IsWellFormed wf bound =
          let q = event_ms-miner rec ing in
          let well : IsWellFormed counted.miner = rw q wf in
          let room : counted.miner.counter + 1 < u64_values = rw q bound in
          let unfed : counted.miner.counter ≤ ing.miner.counter + 1 = rw q (omega arith) in
          elim (Option-cases ing.key) [
            | inl e ↦ elim (Bool-cases (is_empty (trim rec))) [
              | inl b ↦ (counted, feed_blank e b, well, unfed)
              | inr b ↦
                  let (t, p, w, c) = ingest_add-IsWellFormed now rec event counted well room in
                  (t, feed_raw e b ∙ p, w, rw q at c)
            ]
            | inr (k, e) ↦ elim (Option-cases (extract_field json rec k)) [
              | inl x ↦ (counted, feed_missing k e x, well, unfed)
              | inr (msg, x) ↦
                  let (t, p, w, c) = ingest_add-IsWellFormed now msg event counted well room in
                  (t, feed_found k msg e x ∙ p, w, rw q at c)
            ]
          ]

  built-ok :
      (r : Result LogdrainError (Options F R)) (m : Miner F R)
      → map_err message (r >>= (λ o. ok (from_options o))) ≡ ok m
      → (o : Options F R) × (r ≡ ok o) × (m ≡ from_options o)
  built-ok (ok o) m e = (o, refl, cc)
  built-ok (err x) m e = absurd cc

  -- What a builder gives is a new miner.
  build-IsWellFormed :
      (b : MinerBuilder F R) (m : Miner F R)
      → map_err message (build b) ≡ ok m
      → IsWellFormed m × (m.counter ≡ 0)
  unfolding build from_options
  build-IsWellFormed b m e =
      let (o, p, q) = built-ok (build_options b) m e in
      let (_, _, _, room) = (build_options-ok b o).0 p in
      rw q (empty-IsWellFormed (from_options o) room, refl)

  build_miner_plain :
      (cli : Arguments F)
      → cli.masks ≡ none
      → build_miner cli ≡ some (map_err message (build (builder_of {F = F} {R = R} cli)))
  unfolding build_miner
  build_miner_plain cli c = ground arith

  build_miner_masked :
      (cli : Arguments F) (spec : Text)
      → cli.masks ≡ some spec
      → build_miner cli ≡ with_masks (builder_of {F = F} {R = R} cli) (build_masks spec)
  unfolding build_miner
  build_miner_masked cli spec c = ground arith

  with_masks-ok :
      (b : MinerBuilder F R) (r : Option (Result Text (List (Mask R)))) (m : Miner F R)
      → with_masks b r ≡ some (ok m)
      → (masks : List (Mask R)) × (map_err message (build (set_masks b masks)) ≡ ok m)
  with_masks-ok b none m e = absurd cc
  with_masks-ok b (some (err x)) m e = absurd cc
  with_masks-ok b (some (ok masks)) m e = (masks, cc)

  pub build_miner-IsWellFormed :
      (cli : Arguments F) (m : Miner F R)
      → build_miner cli ≡ some (ok m)
      → IsWellFormed m × (m.counter ≡ 0)
  build_miner-IsWellFormed cli m e = elim (Option-cases cli.masks) [
    | inl c ↦ let p = build_miner_plain cli c in build-IsWellFormed (builder_of cli) m (cc)
    | inr (spec, c) ↦
        let (masks, p) =
          with_masks-ok (builder_of cli) (build_masks spec) m
            (rw (build_miner_masked cli spec c) at e) in
        build-IsWellFormed (set_masks (builder_of cli) masks) m p
  ]

module _ {F R J V : Type 0} (host : Host R) (json : Json J) (chrono : Chrono) (w : Writer F V)
    ⦃fl : Float F⦄ ⦃re : RegexEngine R⦄ where
  pub feed_all-IsWellFormed :
      (n : ℕ) (records : List Text) (ing : Ingestor F R)
      → IsWellFormed ing.miner
      → ing.miner.counter + length records < u64_values
      → (fed : Ingestor F R) × (feed_all host json chrono w n records ing ≡ some fed)
        × IsWellFormed fed.miner
  unfolding feed_all
  feed_all-IsWellFormed n [] ing wf bound = (ing, refl, wf)
  feed_all-IsWellFormed n (rec ∷ records) ing wf bound =
      let (next, e, well, counter) =
        feed-IsWellFormed json chrono (host.clock n) rec ing wf (omega (arith, bound)) in
      let (last, e', well') =
        feed_all-IsWellFormed (n + 1) records next well (omega (arith, bound, counter)) in
      (last, rw (e, feed_all) e', well')
