-- ===== src/Miner/Adding.antt =====
-- What a call of `add_inner` in crates/logdrain/src/miner.rs guarantees, and any sequence of calls.
pub mod Outcome
pub mod History
use logdrain.Common.{
  ℕ, ◌+◌, ◌<◌, ◌≤◌, List, [], ◌∷◌, ◌++◌, Option, none, some, ◌≡◌, ◌≢◌, refl, sym, ◌∙◌, ap, ◌⊎◌, inl,
  inr, Bool, true, false, Text, length, nat_eq, arith, u64_values, Bool-cases, wrapping_add,
}
use logdrain.Common.Assoc.{lookup, insert, lookup-insert_self}
use logdrain.Cluster.{ClusterInner, any_differs}
use logdrain.Cluster.Generalize.{Generalizes, Generalizes-generalize_tokens}
use logdrain.Cluster.Time.{SystemTime}
use logdrain.Extern.{Float, IsIeee, one, RegexEngine, as_ref}
use logdrain.Mask.{apply_masks}
use logdrain.Miner.Add.{add_tokens, add_inner, preprocess, first_and_suffix}
use logdrain.Miner.Invariant.{IsWellFormed}
use logdrain.Miner.Invariant.Calls.{shard_for-IsWellFormed, apply_match-IsWellFormed, IsCandidate}
use logdrain.Miner.Invariant.Create.{create_cluster-IsWellFormed, new_id_fresh}
use logdrain.Miner.Invariant.Steps.{
  base, best_in, best_in-IsCandidate, Joined, Created, add_tokens_cases,
}
use logdrain.Miner.Layout.{lookup-shard_for, shard_for_frame}
use logdrain.Miner.Learn.{apply_match, create_cluster, match_body, update_type}
use logdrain.Miner.Learn.Body.{Matched, match_body-Matched}
use logdrain.Miner.Query.{match_tokens, match_only, tokens_for_query}
use logdrain.Miner.Rematch.{apply_match-match_tokens}
use logdrain.Miner.Rematch.Created.{create_cluster-match_tokens}
use logdrain.Miner.State.{Miner, descent_keys, next_tick, shard_for, from_options}
use logdrain.Miner.Update.{UpdateType, AddResult}
use logdrain.Options.{Options}
use logdrain.Tokenize.{Token}

update_type_ne : (changed : Bool) → update_type changed ≢ UpdateType.created
update_type_ne true e = cc
update_type_ne false e = cc

module _ {F R : Type 0} ⦃fl : Float F⦄ where
  -- What `add` promises of the miner `m'` and the answer `r`.
  pub record IsAdded (tokens : List Token) (m m' : Miner F R) (r : AddResult) : Type 0 where
    pub well : IsWellFormed m'
    pub options : m'.options ≡ m.options
    pub ids :
        ((m'.counter ≡ m.counter) × (r.update ≢ UpdateType.created))
        ⊎ ((m'.counter ≡ m.counter + 1)
            × (r.update ≡ UpdateType.created)
            × (r.cluster_id ≡ m.counter + 1)
            × (lookup r.cluster_id m.clusters_by_id ≡ none))
    pub found :
        IsIeee fl
        → fl.fle m.options.sim_threshold one ≡ true
        → match_tokens tokens m' ≡ some r.cluster_id

  module _ (now : SystemTime) (tokens : List Token) (suffix member : Option Text)
      (event_ms : Option ℕ) (m : Miner F R) (wf : IsWellFormed m)
      (bound : m.counter + 1 < u64_values) where
    abbrev start : Miner F R
    start = base now tokens suffix member event_ms m

    joined-IsAdded :
        (j : Joined now tokens suffix member event_ms m)
        → IsAdded tokens m
            (apply_match now j.c tokens member event_ms j.before).0
            (apply_match now j.c tokens member event_ms j.before).1
    unfolding apply_match next_tick
    joined-IsAdded j =
        let (bodies, options, counter, tick) = shard_for_frame (length tokens) m in
        record {
          well =
              apply_match-IsWellFormed now j.c tokens member event_ms j.before j.well
                (best_in-IsCandidate j.before tokens j.leaf j.c j.well j.there j.chosen);
          options = j.options ∙ options;
          ids = inl (j.counter ∙ counter, update_type_ne _);
          found = λ ieee reachable.
              apply_match-match_tokens ieee now tokens member event_ms j.before j.leaf j.c j.well
                (rw (j.options, options) reachable) j.there j.chosen;
        }

    created-IsAdded :
        (c : Created now tokens suffix member event_ms m)
        → IsAdded tokens m
            (create_cluster now
              (length tokens)
              (descent_keys start.options tokens)
              c.root
              c.leaf
              tokens
              suffix
              member
              event_ms
              start).0
            (create_cluster now
              (length tokens)
              (descent_keys start.options tokens)
              c.root
              c.leaf
              tokens
              suffix
              member
              event_ms
              start).1
    unfolding create_cluster next_tick
    created-IsAdded c =
        let (bodies, options, counter, tick) = shard_for_frame (length tokens) m in
        let well = shard_for-IsWellFormed (length tokens) m wf in
        let at_width = lookup-shard_for (length tokens) m in
        let bound' : start.counter + 1 < u64_values = rw counter bound in
        let fresh =
          new_id_fresh now tokens suffix member event_ms start well (shard_for (length tokens) m).0
            c.root c.leaf at_width c.made c.shaped bound' in
        record {
          well =
              create_cluster-IsWellFormed now tokens suffix member event_ms start well
                (shard_for (length tokens) m).0 c.root c.leaf at_width c.made c.shaped bound';
          options = options;
          ids = inr (omega (arith, counter), refl, omega (arith, counter), rw bodies at fresh);
          found = λ ieee reachable.
              create_cluster-match_tokens ieee now tokens suffix member event_ms start well
                (shard_for (length tokens) m).0 c.root c.leaf at_width c.made c.shaped bound'
                c.below (rw options reachable);
        }

    pub add_tokens-IsAdded :
        (m' : Miner F R) × (r : AddResult) × (add_tokens now tokens suffix member event_ms m
          ≡ some (m', r))
        × IsAdded tokens m m' r
    add_tokens-IsAdded = elim (add_tokens_cases now tokens suffix member event_ms m wf) [
      | inl j ↦ (_, _, j.result, joined-IsAdded j)
      | inr c ↦ (_, _, c.result, created-IsAdded c)
    ]
