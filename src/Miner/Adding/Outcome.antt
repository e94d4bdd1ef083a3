-- ===== src/Miner/Adding/Outcome.antt =====
-- The promises of `add` in crates/logdrain/src/miner.rs for one line: no panic, the invariant, the
-- ids, and the query that follows.
use logdrain.Common.{
  ℕ, ◌+◌, ◌<◌, Option, none, some, ◌≡◌, ◌≢◌, sym, ◌∙◌, ap, ◌⊎◌, inl, inr, true, Text, nat_eq, arith,
  u64_values, Bool-cases,
}
use logdrain.Common.Assoc.{lookup}
use logdrain.Cluster.Time.{SystemTime}
use logdrain.Extern.{Float, IsIeee, one, RegexEngine, as_ref}
use logdrain.Mask.{apply_masks}
use logdrain.Miner.Add.{add_inner, preprocess, first_and_suffix}
use logdrain.Miner.Adding.{IsAdded, add_tokens-IsAdded}
use logdrain.Miner.Invariant.{IsWellFormed}
use logdrain.Miner.Query.{match_tokens, match_only, tokens_for_query}
use logdrain.Miner.State.{Miner}
use logdrain.Miner.Update.{UpdateType, AddResult}
use logdrain.Options.{Options}

module _ {F R : Type 0} ⦃re : RegexEngine R⦄ where
  preprocess-tokens_for_query :
      (o : Options F R) (line : Text)
      → (preprocess o line).0 ≡ tokens_for_query o (as_ref (apply_masks line o.masks))
  unfolding preprocess tokens_for_query first_and_suffix
  preprocess-tokens_for_query o line = elim (Bool-cases o.first_line_only) [
    | inl e ↦ ground arith
    | inr e ↦ ground arith
  ]

module _ {F R : Type 0} ⦃fl : Float F⦄ ⦃re : RegexEngine R⦄ where
  match_only-match_tokens :
      (line : Text) (m m' : Miner F R)
      → m'.options ≡ m.options
      → match_only line m' ≡ match_tokens (preprocess m.options line).0 m'
  unfolding match_only
  match_only-match_tokens line m m' e =
      ap (λ o. match_tokens (tokens_for_query o (as_ref (apply_masks line o.masks))) m') e
      ∙ ap (λ tokens. match_tokens tokens m') (sym (preprocess-tokens_for_query m.options line))

  module _ (now : SystemTime) (line : Text) (member : Option Text) (event_ms : Option ℕ)
      (m : Miner F R) (wf : IsWellFormed m) (bound : m.counter + 1 < u64_values) where
    add_inner-IsAdded :
        (m' : Miner F R) × (r : AddResult) × (add_inner now line member event_ms m ≡ some (m', r))
        × IsAdded (preprocess m.options line).0 m m' r
    unfolding add_inner
    add_inner-IsAdded =
        add_tokens-IsAdded now (preprocess m.options line).0 (preprocess m.options line).1 member
          event_ms m wf bound

    -- On a well-formed miner whose counter has not come to the last `u64`, adding any line does not
    -- panic: it gives a well-formed miner with the same options and an answer.
    pub add_inner-IsWellFormed :
        (m' : Miner F R) × (r : AddResult) × (add_inner now line member event_ms m ≡ some (m', r))
        × IsWellFormed m'
        × (m'.options ≡ m.options)
    add_inner-IsWellFormed =
        let (m', r, e, added) = add_inner-IsAdded in (m', r, e, added.well, added.options)

    -- On a well-formed miner whose counter has not come to the last `u64`, adding a line gives an answer:
    -- it is `created` with the counter's next value as its id, which no cluster had, and the counter
    -- moves on; or it is another update, and the counter stays.
    pub add_inner-cluster_id :
        (m' : Miner F R) × (r : AddResult) × (add_inner now line member event_ms m ≡ some (m', r))
        × (((m'.counter ≡ m.counter) × (r.update ≢ UpdateType.created))
            ⊎ ((m'.counter ≡ m.counter + 1)
                × (r.update ≡ UpdateType.created)
                × (r.cluster_id ≡ m.counter + 1)
                × (lookup r.cluster_id m.clusters_by_id ≡ none)))
    add_inner-cluster_id = let (m', r, e, added) = add_inner-IsAdded in (m', r, e, added.ids)

    -- With floats that obey IEEE 754 and a threshold of at most 1.0, on a well-formed miner whose counter
    -- has not come to the last `u64`, the query for a line that has just been added gives the cluster
    -- that the line joined or made.
    pub add_inner-match_only :
        IsIeee fl
        → fl.fle m.options.sim_threshold one ≡ true
        → (m' : Miner F R) × (r : AddResult) × (add_inner now line member event_ms m ≡ some (m', r))
          × (match_only line m' ≡ some r.cluster_id)
    add_inner-match_only ieee reachable =
        let (m', r, e, added) = add_inner-IsAdded in
        (m', r, e, match_only-match_tokens line m m' added.options ∙ added.found ieee reachable)
