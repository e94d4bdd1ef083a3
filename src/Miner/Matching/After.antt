-- ===== src/Miner/Matching/After.antt =====
-- `best_match` of crates/logdrain/src/miner.rs run again after the bodies have changed: a cluster
-- that won and now scores 1.0 wins again, and so does a new one behind clusters below the threshold.
use logdrain.Common.{
  ℕ, ◌≤◌, List, [], ◌∷◌, Option, none, some, ◌≡◌, ◌≢◌, refl, sym, subst, inl, inr, true, false,
  Text, count, length, nat_eq, arith, Option-cases, Bool-cases, ℕ_discrete,
}
use logdrain.Common.Assoc.{lookup}
use logdrain.Cluster.{ClusterInner}
use logdrain.Extern.{Float, IsIeee, one}
use logdrain.Miner.Matching.{Candidate, improves, consider, best_step, best_loop}
use logdrain.Miner.Matching.Scores.{IsScore, flt_score, one-IsScore, fle-one, similarity-IsScore}
use logdrain.Similarity.{similarity}
use logdrain.Tokenize.{Token}

module _ {F : Type 0} ⦃fl : Float F⦄ (ieee : IsIeee fl) (wildcard : Text)
    (tokens : List Token) where
  -- Every body that the ids lead to is as long as the line.
  abbrev pub Fits : List (ℕ × ClusterInner) → List ℕ → Type 0
  Fits clusters ids =
      (id : ℕ) (body : ClusterInner)
      → 1 ≤ count id ids
      → lookup id clusters ≡ some body
      → length body.tokens ≡ length tokens

  abbrev pub score : ClusterInner → F
  score body = similarity body.tokens tokens wildcard

  pub score-IsScore :
      (body : ClusterInner)
      → length body.tokens ≡ length tokens
      → IsScore ieee (length tokens) (score body)
  score-IsScore body h = similarity-IsScore ieee body.tokens tokens wildcard h

  abbrev pub BestIsScore : Option (Candidate F) → Type 0
  BestIsScore none = Unit
  BestIsScore (some b) = IsScore ieee (length tokens) b.sim

  pub Fits-tail :
      (clusters : List (ℕ × ClusterInner)) (id : ℕ) (ids : List ℕ)
      → Fits clusters (id ∷ ids)
      → Fits clusters ids
  Fits-tail clusters id ids f = λ i b h l. f i b (omega arith) l

  pub best_step-some :
      (clusters : List (ℕ × ClusterInner)) (id : ℕ) (best : Option (Candidate F))
      {body : ClusterInner}
      → lookup id clusters ≡ some body
      → best_step clusters wildcard tokens id best ≡ consider id body (score body) best
  unfolding best_step
  best_step-some clusters id best e = rw (e, best_step)

  pub best_step-none :
      (clusters : List (ℕ × ClusterInner)) (id : ℕ) (best : Option (Candidate F))
      → lookup id clusters ≡ none
      → best_step clusters wildcard tokens id best ≡ best
  unfolding best_step
  best_step-none clusters id best e = rw (e, best_step)

  pub consider-BestIsScore :
      (id : ℕ) (body : ClusterInner) (best : Option (Candidate F))
      → IsScore ieee (length tokens) (score body)
      → BestIsScore best
      → BestIsScore (consider id body (score body) best)
  consider-BestIsScore id body none q s = q
  consider-BestIsScore id body (some b) q s = elim (Bool-cases (fl.flt b.sim (score body))) [
    | inl t ↦ rw t q
    | inr t ↦ rw t s
  ]

  pub best_step-BestIsScore :
      (clusters : List (ℕ × ClusterInner)) (id : ℕ) (ids : List ℕ) (best : Option (Candidate F))
      → Fits clusters (id ∷ ids)
      → BestIsScore best
      → BestIsScore (best_step clusters wildcard tokens id best)
  best_step-BestIsScore clusters id ids best f s = elim (Option-cases (lookup id clusters)) [
    | inl e ↦ rw (best_step-none clusters id best e) s
    | inr (body, e) ↦
        rw (best_step-some clusters id best e)
          (consider-BestIsScore id body best (score-IsScore body (f id body (ground arith) e)) s)
  ]

  module _ (clusters : List (ℕ × ClusterInner)) (target : ℕ) (body : ClusterInner)
      (here : lookup target clusters ≡ some body) (full : score body ≡ one) where
    abbrev pub winner : Candidate F
    winner = record { id = target; sim = one; body = body }

    best_step-winner :
        (id : ℕ) (ids : List ℕ)
        → Fits clusters (id ∷ ids)
        → best_step clusters wildcard tokens id (some winner) ≡ some winner
    best_step-winner id ids f = elim (Option-cases (lookup id clusters)) [
      | inl e ↦ best_step-none clusters id (some winner) e
      | inr (b, e) ↦
          let s = score-IsScore b (f id b (ground arith) e) in
          rw (best_step-some clusters id (some winner) e) (
            ground (
              arith,
              flt_score ieee (length tokens) one (score b) (one-IsScore ieee (length tokens)) s,
              fle-one ieee (length tokens) (score b) s,
            ))
    ]

    -- Once chosen, it stays.
    best_loop-winner :
        (ids : List ℕ)
        → Fits clusters ids
        → best_loop clusters wildcard tokens ids (some winner) ≡ some winner
    unfolding best_loop
    best_loop-winner [] f = refl
    best_loop-winner (id ∷ ids) f =
        rw (best_step-winner id ids f) (best_loop-winner ids (Fits-tail clusters id ids f))

    -- A score that beats another one is itself beaten by 1.0 as much.
    improves-one :
        (best : Option (Candidate F)) (x : F)
        → BestIsScore best
        → IsScore ieee (length tokens) x
        → improves best x ≡ true
        → improves best one ≡ true
    improves-one none x s q h = refl
    improves-one (some b) x s q h =
        let n = length tokens in
        ground (
          arith,
          flt_score ieee n b.sim x s q,
          flt_score ieee n b.sim one s (one-IsScore ieee n),
          fle-one ieee n x q,
          ieee.fle_trans x one b.sim,
        )

    module _ (before : List (ℕ × ClusterInner)) (old : ClusterInner)
        (was : lookup target before ≡ some old)
        (agree : (id : ℕ) → target ≢ id → lookup id clusters ≡ lookup id before) where
      abbrev NotTarget : Option (Candidate F) → Type 0
      NotTarget none = Unit
      NotTarget (some b) = b.id ≢ target

      best_step_agree :
          (id : ℕ) (best : Option (Candidate F))
          → target ≢ id
          → best_step clusters wildcard tokens id best ≡ best_step before wildcard tokens id best
      unfolding best_step
      best_step_agree id best n = rw (agree id n, best_step)

      consider-NotTarget :
          (id : ℕ) (b : ClusterInner) (best : Option (Candidate F))
          → target ≢ id
          → NotTarget best
          → NotTarget (consider id b (score b) best)
      consider-NotTarget id b none n h = λ e. n (sym e)
      consider-NotTarget id b (some c) n h = elim (Bool-cases (fl.flt c.sim (score b))) [
        | inl t ↦ rw t (λ e. n (sym e))
        | inr t ↦ rw t h
      ]

      best_step-NotTarget :
          (id : ℕ) (best : Option (Candidate F))
          → target ≢ id
          → NotTarget best
          → NotTarget (best_step before wildcard tokens id best)
      best_step-NotTarget id best n h = elim (Option-cases (lookup id before)) [
        | inl e ↦ rw (best_step-none before id best e) h
        | inr (b, e) ↦ rw (best_step-some before id best e) (consider-NotTarget id b best n h)
      ]

      -- The round of the target itself.
      best_step_here :
          (best : Option (Candidate F))
          → improves best one ≡ true
          → best_step clusters wildcard tokens target best ≡ some winner
      best_step_here best h = rw (best_step-some clusters target best here) (ground arith)

      best_step_passed :
          (best : Option (Candidate F))
          → improves best one ≡ false
          → best_step clusters wildcard tokens target best ≡ best
      best_step_passed best h = rw (best_step-some clusters target best here) (ground arith)

      best_step_passed_before :
          (best : Option (Candidate F))
          → BestIsScore best
          → length old.tokens ≡ length tokens
          → improves best one ≡ false
          → best_step before wildcard tokens target best ≡ best
      best_step_passed_before best s l h = elim (Bool-cases (improves best (score old))) [
        | inl t ↦ absurd (ground (arith, improves-one best (score old) s (score-IsScore old l) t))
        | inr t ↦ rw (best_step-some before target best was) (ground arith)
      ]

      -- The winner of the first run, now at 1.0, wins the second run.
      pub best_loop-again :
          (ids : List ℕ) (best : Option (Candidate F)) (c : Candidate F)
          → Fits before ids
          → Fits clusters ids
          → NotTarget best
          → BestIsScore best
          → best_loop before wildcard tokens ids best ≡ some c
          → c.id ≡ target
          → best_loop clusters wildcard tokens ids best ≡ some winner
      unfolding best_loop
      best_loop-again [] best c f f' n s e p = absurd (subst NotTarget e n p)
      best_loop-again (id ∷ ids) best c f f' n s e p = elim (ℕ_discrete target id) [
        | no q ↦ rw (best_step_agree id best q) (
            best_loop-again ids (best_step before wildcard tokens id best) c
              (Fits-tail before id ids f) (Fits-tail clusters id ids f')
              (best_step-NotTarget id best q n) (best_step-BestIsScore before id ids best f s) e p)
        | yes q ↦ elim (Bool-cases (improves best one)) [
          | inl t ↦
              rw (← q, best_step_here best t) (best_loop-winner ids (Fits-tail clusters id ids f'))
          | inr t ↦
              rw (← q, best_step_passed best t)
                (best_loop-again ids best c (Fits-tail before id ids f)
                  (Fits-tail clusters id ids f') n s
                  (rw (← q, best_step_passed_before best s (f target old (ground arith) was) t) at
                    e)
                  p)
        ]
      ]
