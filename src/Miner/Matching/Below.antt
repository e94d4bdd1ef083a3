-- ===== src/Miner/Matching/Below.antt =====
-- The loop of `best_match` in crates/logdrain/src/miner.rs over bodies that all score below the
-- threshold, and with one more body behind them.
use logdrain.Common.{
  ℕ, ◌≤◌, List, [], ◌∷◌, ◌++◌, Option, none, some, ◌≡◌, inl, inr, true, false, Text, count, length,
  nat_eq, arith, Option-cases, Bool-cases,
}
use logdrain.Common.Assoc.{lookup}
use logdrain.Cluster.{ClusterInner}
use logdrain.Extern.{Float, IsIeee, one}
use logdrain.Miner.Matching.{Candidate, improves, consider, best_step, best_loop, at_least}
use logdrain.Miner.Matching.After.{
  Fits, Fits-tail, score, score-IsScore, BestIsScore, best_step-some, best_step-none,
  best_step-BestIsScore,
}
use logdrain.Miner.Matching.Scores.{flt_score, fle_score_total, one-IsScore}
use logdrain.Tokenize.{Token}

module _ {F : Type 0} ⦃fl : Float F⦄ (ieee : IsIeee fl) (wildcard : Text) (tokens : List Token)
    (threshold : F) where
  abbrev pub AllBelow : List (ℕ × ClusterInner) → List ℕ → Type 0
  AllBelow clusters ids =
      (id : ℕ) (body : ClusterInner)
      → 1 ≤ count id ids
      → lookup id clusters ≡ some body
      → fl.fle threshold (score ieee wildcard tokens body) ≡ false

  abbrev Below : Option (Candidate F) → Type 0
  Below none = Unit
  Below (some b) = fl.fle threshold b.sim ≡ false

  at_least-Below : (best : Option (Candidate F)) → at_least threshold best ≡ none → Below best
  unfolding at_least
  at_least-Below none e = tt
  at_least-Below (some b) e = ground arith

  -- The better of two is below the threshold only if both are.
  consider-Below :
      (id : ℕ) (body : ClusterInner) (best : Option (Candidate F))
      → length body.tokens ≡ length tokens
      → BestIsScore ieee wildcard tokens best
      → Below (consider id body (score ieee wildcard tokens body) best)
      → Below best × (fl.fle threshold (score ieee wildcard tokens body) ≡ false)
  consider-Below id body none l s h = (tt, h)
  consider-Below id body (some b) l s h =
      let x : F = score ieee wildcard tokens body in
      let n = length tokens in
      let q = score-IsScore ieee wildcard tokens body l in
      ground (
        arith,
        flt_score ieee n b.sim x s q,
        fle_score_total ieee n x b.sim q s,
        ieee.fle_trans threshold b.sim x,
        ieee.fle_trans threshold x b.sim,
      )

  module _ (clusters : List (ℕ × ClusterInner)) where
    best_step-Below :
        (id : ℕ) (ids : List ℕ) (best : Option (Candidate F))
        → Fits ieee wildcard tokens clusters (id ∷ ids)
        → BestIsScore ieee wildcard tokens best
        → Below (best_step clusters wildcard tokens id best)
        → Below best
          × ((body : ClusterInner)
              → lookup id clusters ≡ some body
              → fl.fle threshold (score ieee wildcard tokens body) ≡ false)
    best_step-Below id ids best f s h = elim (Option-cases (lookup id clusters)) [
      | inl e ↦ (rw (best_step-none ieee wildcard tokens clusters id best e) at h, λ body e'. cc)
      | inr (b, e) ↦
          let (p, q) =
            consider-Below id b best (f id b (ground arith) e) s
              (rw (best_step-some ieee wildcard tokens clusters id best e) at h) in
          (p, λ body e'. ground arith)
    ]

    best_loop-Below :
        (ids : List ℕ) (best : Option (Candidate F))
        → Fits ieee wildcard tokens clusters ids
        → BestIsScore ieee wildcard tokens best
        → Below (best_loop clusters wildcard tokens ids best)
        → Below best × AllBelow clusters ids
    unfolding best_loop
    best_loop-Below [] best f s h = (h, λ id body c e. absurd (omega arith))
    best_loop-Below (id ∷ ids) best f s h =
        let (p, rest) =
          best_loop-Below ids (best_step clusters wildcard tokens id best)
            (Fits-tail ieee wildcard tokens clusters id ids f)
            (best_step-BestIsScore ieee wildcard tokens clusters id ids best f s) h in
        let (q, first) = best_step-Below id ids best f s p in
        (q, λ i body c e. ground (arith, rest i body, first body))

    -- No cluster reaches the threshold: every body is below it.
    pub at_least-AllBelow :
        (ids : List ℕ)
        → Fits ieee wildcard tokens clusters ids
        → at_least threshold (best_loop clusters wildcard tokens ids none) ≡ none
        → AllBelow clusters ids
    at_least-AllBelow ids f e = (best_loop-Below ids none f tt (at_least-Below _ e)).1

    best_step-Below_back :
        (id : ℕ) (ids : List ℕ) (best : Option (Candidate F))
        → AllBelow clusters (id ∷ ids)
        → Below best
        → Below (best_step clusters wildcard tokens id best)
    best_step-Below_back id ids best a h = elim (Option-cases (lookup id clusters)) [
      | inl e ↦ rw (best_step-none ieee wildcard tokens clusters id best e) h
      | inr (b, e) ↦
          rw (best_step-some ieee wildcard tokens clusters id best e)
            (elim (Bool-cases (improves best (score ieee wildcard tokens b))) [
              | inl t ↦ rw t (a id b (ground arith) e)
              | inr t ↦ rw t h
            ])
    ]

    module _ (target : ℕ) (body : ClusterInner) (here : lookup target clusters ≡ some body)
        (full : score ieee wildcard tokens body ≡ one)
        (reachable : fl.fle threshold one ≡ true) where
      best_step_last :
          (best : Option (Candidate F))
          → BestIsScore ieee wildcard tokens best
          → Below best
          → best_step clusters wildcard tokens target best
            ≡ some (record { id = target; sim = one; body = body })
      best_step_last none s h =
          rw (best_step-some ieee wildcard tokens clusters target none here) (ground arith)
      best_step_last (some b) s h =
          rw (best_step-some ieee wildcard tokens clusters target (some b) here) (
            ground (
              arith,
              flt_score ieee (length tokens) b.sim one s (one-IsScore ieee (length tokens)),
              ieee.fle_trans threshold one b.sim,
            ))

      -- A body that scores 1.0 at the end of the leaf wins.
      pub best_loop_last :
          (ids : List ℕ) (best : Option (Candidate F))
          → Fits ieee wildcard tokens clusters ids
          → AllBelow clusters ids
          → BestIsScore ieee wildcard tokens best
          → Below best
          → best_loop clusters wildcard tokens (ids ++ target ∷ []) best
            ≡ some (record { id = target; sim = one; body = body })
      unfolding best_loop
      best_loop_last [] best f a s h = best_step_last best s h
      best_loop_last (id ∷ ids) best f a s h =
          best_loop_last ids (best_step clusters wildcard tokens id best)
            (Fits-tail ieee wildcard tokens clusters id ids f) (λ i b c e. a i b (omega arith) e)
            (best_step-BestIsScore ieee wildcard tokens clusters id ids best f s)
            (best_step-Below_back id ids best a h)
