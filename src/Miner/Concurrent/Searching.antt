-- ===== src/Miner/Concurrent/Searching.antt =====
-- The sections of `add_inner` in crates/logdrain/src/miner.rs that look for a shard and a cluster.
use logdrain.Common.{
  List, some, ◌≡◌, refl, ◌∙◌, Text, length, nat_eq, arith, inl, inr, Option-cases, ℕ_discrete,
}
use logdrain.Common.Assoc.{lookup}
use logdrain.Extern.{Float}
use logdrain.Miner.Add.{find_match}
use logdrain.Miner.Concurrent.{Request, Pc, Shared, handle, search_section}
use logdrain.Miner.Concurrent.Handles.{handle-some, IsKept}
use logdrain.Miner.Concurrent.Hits.{hits_eq}
use logdrain.Miner.Concurrent.Sections.{IsAdvanced, Evolves-refl}
use logdrain.Miner.Invariant.{IsWellFormed}
use logdrain.Miner.Invariant.Calls.{shard_for-IsWellFormed, IsCandidate}
use logdrain.Miner.Invariant.Steps.{best_in, best_in-IsCandidate}
use logdrain.Miner.Layout.{
  leaf_at, leaf_at-eq, lookup-shard_for, lookup-shard_for_ne, shard_for_frame,
}
use logdrain.Miner.Matching.{Candidate}
use logdrain.Miner.State.{Shard, descent_keys, shard_for}
use logdrain.Tree.{descend}
use logdrain.Tree.Leaf.{LeafBucket}

module _ {F R : Type 0} where
  pub entered-IsAdvanced :
      (req : Request) (s : Shared F R)
      → IsWellFormed s.miner
      → IsAdvanced s req Pc.entering
          (record s { miner = (shard_for (length req.tokens) s.miner).1 })
          Pc.searching
  unfolding handle
  entered-IsAdvanced req s wf =
      let width = length req.tokens in
      let (bodies, options, counter, tick) = shard_for_frame width s.miner in
      record {
        well = shard_for-IsWellFormed width s.miner wf;
        evolves = record {
          options = options;
          counter = omega (arith, counter);
          shards = λ w shard e. elim (ℕ_discrete width w) [
            | yes p ↦ ((shard_for width s.miner).0, rw (← p) (lookup-shard_for width s.miner))
            | no n ↦ (shard, lookup-shard_for_ne width s.miner w n ∙ e)
          ];
          bodies = λ id body bound e.
              (body, rw (bodies, handle) e, record { id = refl; width = refl; keys = refl });
        };
        place = ((shard_for width s.miner).0, lookup-shard_for width s.miner);
        counter = omega (arith, counter);
        created = λ id c. absurd c;
        closer = omega arith;
        counted = λ room.
            let same =
              hits_eq s (record s { miner = (shard_for width s.miner).1 }) counter
                (λ id. rw (bodies, handle) refl) in
            omega (arith, same);
      }

  module _ ⦃fl : Float F⦄ (req : Request) where
    -- Whoever is chosen in the leaf of the line can be held.
    pub chosen-IsKept :
        (t : Shared F R) (leaf : LeafBucket) (c : Candidate F)
        → IsWellFormed t.miner
        → leaf_at t.miner.shards (length req.tokens) (descent_keys t.miner.options req.tokens)
          ≡ some leaf
        → best_in t.miner req.tokens leaf ≡ some c
        → IsKept t req c.id
    chosen-IsKept t leaf c well there e =
        let h : IsCandidate t.miner req.tokens c =
          best_in-IsCandidate t.miner req.tokens leaf c well there e in
        record {
          issued = well.issued c.id c.body h.handle;
          body = c.body;
          there = handle-some c.id t h.handle;
          width = h.width;
          keys = h.keys;
        }

  module _ ⦃fl : Float F⦄ (req : Request) (s : Shared F R) (wf : IsWellFormed s.miner)
      (shard : Shard) (at_width : lookup (length req.tokens) s.miner.shards ≡ some shard) where
    abbrev pub keys : List Text
    keys = descent_keys s.miner.options req.tokens

    found-IsKept :
        (c : Candidate F) → find_match s.miner req.tokens shard ≡ some c → IsKept s req c.id
    unfolding find_match
    found-IsKept c e = elim (Option-cases (descend keys shard)) [
      | inl d ↦ absurd (ground arith)
      | inr (leaf, d) ↦
          chosen-IsKept req s leaf c wf
            (leaf_at-eq s.miner.shards (length req.tokens) keys at_width ∙ d) (ground arith)
    ]

    pub search_section-IsAdvanced :
        (t : Shared F R) × (after : Pc) × (search_section req s ≡ some (t, after))
        × IsAdvanced s req Pc.searching t after
    unfolding search_section
    search_section-IsAdvanced = elim (Option-cases (find_match s.miner req.tokens shard)) [
      | inl e ↦ (
        s,
        Pc.missed,
        rw (at_width, search_section) (rw (e, search_section)),
        record {
          well = wf;
          evolves = Evolves-refl s;
          place = (shard, at_width);
          counter = omega arith;
          created = λ id c. absurd c;
          closer = omega arith;
          counted = λ room. omega arith;
        },
      )
      | inr (c, e) ↦ (
        s,
        Pc.matched c.id,
        rw (at_width, search_section) (rw (e, search_section)),
        record {
          well = wf;
          evolves = Evolves-refl s;
          place = found-IsKept c e;
          counter = omega arith;
          created = λ id c. absurd c;
          closer = omega arith;
          counted = λ room. omega arith;
        },
      )
    ]
