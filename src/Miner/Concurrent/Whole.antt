-- ===== src/Miner/Concurrent/Whole.antt =====
-- Uninterrupted, the sections of a thread of crates/logdrain/src/miner.rs make up the call `add_inner`.
use logdrain.Common.{
  ℕ, suc, ◌+◌, ◌<◌, Option, none, some, ◌≡◌, refl, ◌∙◌, Text, length, nat_eq, arith, inl, inr,
  Option-cases, u64_values, wrapping_add,
}
use logdrain.Common.Assoc.{lookup, insert}
use logdrain.Cluster.Time.{SystemTime}
use logdrain.Extern.{Float, RegexEngine}
use logdrain.Miner.Add.{find_match, match_or_create, add_tokens, add_inner}
use logdrain.Miner.Concurrent.{
  Request, request_of, Pc, Shared, search_section, create_section, advance,
}
use logdrain.Miner.Concurrent.Creating.{made_cluster, created_section, rescanned_section}
use logdrain.Miner.Invariant.{IsWellFormed}
use logdrain.Miner.Invariant.Calls.{length-descent_keys, shard_for-IsWellFormed}
use logdrain.Miner.Invariant.Steps.{best_in}
use logdrain.Miner.Layout.{lookup-shard_for, shard_for_frame}
use logdrain.Miner.Matching.Found.{best_match-IsFound, at_least-some}
use logdrain.Tree.{TreeNode, descend, descend_or_create}
use logdrain.Tree.Leaf.{LeafBucket}
use logdrain.Tree.Shape.{IsShaped, descend_or_create-IsRoot}
use logdrain.Miner.Learn.{create_cluster}
use logdrain.Miner.Matching.{Candidate}
use logdrain.Miner.State.{Miner, Shard, next_tick, descent_keys, shard_for}
use logdrain.Miner.Update.{UpdateType, AddResult}
use logdrain.Miner.Concurrent.Alone.{run_alone, run_alone-suc, run_alone-done, whole, matched_alone}

module _ {F R : Type 0} ⦃fl : Float F⦄ where
  best_in-lookup :
      (m : Miner F R) (req : Request) (leaf : LeafBucket) (c : Candidate F)
      → best_in m req.tokens leaf ≡ some c
      → lookup c.id m.clusters_by_id ≡ some c.body
  best_in-lookup m req leaf c e =
      (best_match-IsFound m.clusters_by_id m.options.wildcard req.tokens leaf c
        (at_least-some m.options.sim_threshold _ c e).0).handle

  found-lookup :
      (m : Miner F R) (req : Request) (shard : Shard) (c : Candidate F)
      → find_match m req.tokens shard ≡ some c
      → lookup c.id m.clusters_by_id ≡ some c.body
  unfolding find_match
  found-lookup m req shard c e =
      elim (Option-cases (descend (descent_keys m.options req.tokens) shard)) [
        | inl d ↦ absurd (ground arith)
        | inr (leaf, d) ↦ best_in-lookup m req leaf c (ground arith)
      ]

  module _ (now : SystemTime) (req : Request) (s : Shared F R) (wf : IsWellFormed s.miner)
      (bound : s.miner.counter + 1 < u64_values) where
    abbrev width : ℕ
    width = length req.tokens

    abbrev shard : Shard
    shard = (shard_for width s.miner).0

    abbrev entered : Shared F R
    entered = record s { miner = (shard_for width s.miner).1 }

    entered_alone :
        (n : ℕ) → run_alone (suc n) now req Pc.entering s ≡ run_alone n now req Pc.searching entered
    unfolding advance
    entered_alone n = run_alone-suc n now req Pc.entering s entered Pc.searching refl

    searched_alone :
        (n : ℕ) (after : Pc)
        → search_section req entered ≡ some (entered, after)
        → run_alone (suc (suc n)) now req Pc.entering s ≡ run_alone n now req after entered
    unfolding advance
    searched_alone n after e =
        entered_alone (suc n) ∙ run_alone-suc n now req Pc.searching entered entered after e

    -- What the run and the one call have in common.
    record IsSame : Type 0 where
      last : Shared F R
      answer : AddResult
      alone : run_alone 5 now req Pc.entering s ≡ some (last, Pc.done answer)
      at_once :
          add_tokens now req.tokens req.suffix req.member req.event_ms s.miner
          ≡ some (last.miner, answer)

    matched-IsSame : (c : Candidate F) → find_match entered.miner req.tokens shard ≡ some c → IsSame
    unfolding search_section add_tokens
    matched-IsSame c e =
        let there = found-lookup entered.miner req shard c e in
        let at_width = lookup-shard_for width s.miner in
        record {
          last = (whole now req c entered there).0;
          answer = (whole now req c entered there).1;
          alone =
              searched_alone 3 (Pc.matched c.id)
                (rw (at_width, search_section) (rw (e, search_section)))
              ∙ matched_alone now req c entered there 1;
          at_once = rw (e, add_tokens);
        }

    module _ (missed : find_match entered.miner req.tokens shard ≡ none) where
      missed_alone :
          (n : ℕ) (t : Shared F R) (after : Pc)
          → create_section now req entered ≡ some (t, after)
          → run_alone (suc (suc (suc n))) now req Pc.entering s ≡ run_alone n now req after t
      unfolding search_section advance
      missed_alone n t after e =
          searched_alone (suc n) Pc.missed
            (rw (lookup-shard_for width s.miner, search_section) (rw (missed, search_section)))
          ∙ run_alone-suc n now req Pc.missed entered t after e

      module _ (root : TreeNode) (leaf : LeafBucket)
          (made : descend_or_create
              (descent_keys entered.miner.options req.tokens)
              entered.miner.options.max_clusters_per_leaf
              shard
            ≡ some (root, leaf))
          (shaped : IsShaped (length (descent_keys entered.miner.options req.tokens)) root) where
        abbrev rescanned : Shared F R
        rescanned = record entered {
          miner = record entered.miner { shards = insert width root entered.miner.shards };
        }

        rescanned-IsSame :
            (c : Candidate F) → best_in entered.miner req.tokens leaf ≡ some c → IsSame
        unfolding add_tokens match_or_create
        rescanned-IsSame c e =
            let well = shard_for-IsWellFormed width s.miner wf in
            let at_width = lookup-shard_for width s.miner in
            let there = best_in-lookup entered.miner req leaf c e in
            record {
              last = (whole now req c rescanned there).0;
              answer = (whole now req c rescanned there).1;
              alone =
                  missed_alone 2 rescanned (Pc.matched c.id) (
                    rescanned_section req entered well shard at_width now root leaf made shaped c e)
                  ∙ matched_alone now req c rescanned there 0;
              at_once = rw (missed, add_tokens) (rw (made, match_or_create) (rw e));
            }

        created-IsSame : best_in entered.miner req.tokens leaf ≡ none → IsSame
        unfolding add_tokens match_or_create create_cluster next_tick
        created-IsSame e =
            let well = shard_for-IsWellFormed width s.miner wf in
            let at_width = lookup-shard_for width s.miner in
            let (bodies, options, counter, tick) = shard_for_frame width s.miner in
            let room : entered.miner.counter + 1 < u64_values = rw counter bound in
            let last =
              made_cluster req entered well shard at_width now root leaf made shaped room in
            let answer : AddResult = record {
              cluster_id = wrapping_add entered.miner.counter 1;
              update = UpdateType.created;
            } in
            record {
              last = last;
              answer = answer;
              alone =
                  missed_alone 2 last (Pc.done answer) (
                    created_section req entered well shard at_width now root leaf made shaped room
                      e)
                  ∙ run_alone-done 2 now req answer last;
              at_once = rw (missed, add_tokens) (rw (made, match_or_create) (rw e));
            }

    -- The run and the call `add_tokens`.
    run_alone-add_tokens :
        (t : Shared F R) × (r : AddResult) × (run_alone 5 now req Pc.entering s
          ≡ some (t, Pc.done r))
        × (add_tokens now req.tokens req.suffix req.member req.event_ms s.miner ≡ some (t.miner, r))
    run_alone-add_tokens =
        let well = shard_for-IsWellFormed width s.miner wf in
        let (root, leaf, made, shaped) =
          descend_or_create-IsRoot (descent_keys entered.miner.options req.tokens)
            entered.miner.options.max_clusters_per_leaf shard
            (rw (length-descent_keys entered.miner.options req.tokens)
              (well.roots width shard (lookup-shard_for width s.miner))) in
        elim (Option-cases (find_match entered.miner req.tokens shard)) [
          | inr (c, e) ↦ same (matched-IsSame c e)
          | inl e ↦ elim (Option-cases (best_in entered.miner req.tokens leaf)) [
            | inr (c, b) ↦ same (rescanned-IsSame e root leaf made shaped c b)
            | inl b ↦ same (created-IsSame e root leaf made shaped b)
          ]
        ]
      where
        same :
            IsSame
            → (t : Shared F R) × (r : AddResult) × (run_alone 5 now req Pc.entering s
                ≡ some (t, Pc.done r))
              × (add_tokens now req.tokens req.suffix req.member req.event_ms s.miner
                  ≡ some (t.miner, r))
        same h = (h.last, h.answer, h.alone, h.at_once)

module _ {F R : Type 0} ⦃fl : Float F⦄ ⦃re : RegexEngine R⦄ where
  -- On a well-formed miner whose counter has room for an id, a thread that nobody interrupts returns
  -- after at most five sections, and the miner and the answer are those of the one call `add_inner`.
  pub run_alone-add_inner :
      (now : SystemTime) (line : Text) (member : Option Text) (event_ms : Option ℕ) (s : Shared F R)
      → IsWellFormed s.miner
      → s.miner.counter + 1 < u64_values
      → (t : Shared F R) × (r : AddResult) × (run_alone 5 now
            (request_of s.miner.options line member event_ms)
            Pc.entering
            s
          ≡ some (t, Pc.done r))
        × (add_inner now line member event_ms s.miner ≡ some (t.miner, r))
  unfolding add_inner
  run_alone-add_inner now line member event_ms s wf bound =
      run_alone-add_tokens now (request_of s.miner.options line member event_ms) s wf bound
