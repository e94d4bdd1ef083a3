-- ===== src/Miner/Concurrent/Creating.antt =====
-- The section of `add_inner` in crates/logdrain/src/miner.rs that creates a cluster, unless its own scan
-- finds one.
use logdrain.Common.{
  ℕ, ◌+◌, ◌<◌, ◌≤◌, List, ◌++◌, none, some, ◌≡◌, refl, sym, ◌∙◌, Text, length, nat_eq, arith, inl,
  inr, Option-cases, ℕ_discrete, u64_values, wrapping_add, subst, suc, ap, Option,
}
use logdrain.Common.Assoc.{lookup, insert, lookup-insert_ne, lookup-insert_self}
use logdrain.Cluster
use logdrain.Cluster.{ClusterInner}
use logdrain.Cluster.Time.{SystemTime}
use logdrain.Extern.{Float}
use logdrain.Miner.Concurrent.{Request, Pc, Shared, handle, create_section}
use logdrain.Miner.Concurrent.Handles.{
  handle-some, handle-none, lookup-append_some, lookup-append_none,
}
use logdrain.Miner.Concurrent.Hits.{hits, hits_next, size-add_member_option}
use logdrain.Miner.Concurrent.Searching.{chosen-IsKept}
use logdrain.Miner.Concurrent.Sections.{IsAdvanced}
use logdrain.Miner.Invariant.{IsWellFormed}
use logdrain.Miner.Invariant.Calls.{length-descent_keys}
use logdrain.Miner.Invariant.Create.{create_cluster-IsWellFormed, evicted-IsPlaced, new_body}
use logdrain.Miner.Invariant.Place.{path-IsWellFormed}
use logdrain.Miner.Invariant.Steps.{best_in}
use logdrain.Miner.Layout.{leaf_at-path}
use logdrain.Miner.Learn.{create_cluster}
use logdrain.Miner.Matching.{Candidate}
use logdrain.Miner.State.{Shard, next_tick, descent_keys}
use logdrain.Miner.Update.{UpdateType}
use logdrain.Tokenize.{Token}
use logdrain.Tree.{TreeNode, descend_or_create}
use logdrain.Tree.Leaf.{LeafBucket}
use logdrain.Tree.Shape.{IsShaped, descend_or_create-IsRoot}

-- A shard that is there stays there when one is written.
lookup-insert_kept :
    (width w : ℕ) (root shard : Shard) (shards : List (ℕ × Shard))
    → lookup w shards ≡ some shard
    → (after : Shard) × (lookup w (insert width root shards) ≡ some after)
lookup-insert_kept width w root shard shards e = elim (ℕ_discrete width w) [
  | yes p ↦ (root, rw (← p) (lookup-insert_self width root shards))
  | no n ↦ (shard, lookup-insert_ne width w root shards n ∙ e)
]

new_body-size :
    (now : SystemTime) (id tick : ℕ) (tokens : List Token) (suffix member : Option Text)
    (event_ms : Option ℕ)
    → (new_body now id tick tokens suffix member event_ms).size ≡ 1
unfolding Cluster.new
new_body-size now id tick tokens suffix member event_ms = size-add_member_option member _

module _ {F R : Type 0} where
  module _ ⦃fl : Float F⦄ (req : Request) (s : Shared F R) (wf : IsWellFormed s.miner)
      (shard : Shard) (at_width : lookup (length req.tokens) s.miner.shards ≡ some shard) where
    abbrev pub keys : List Text
    keys = descent_keys s.miner.options req.tokens

    module _ (now : SystemTime) (root : TreeNode) (leaf : LeafBucket)
        (made : descend_or_create keys s.miner.options.max_clusters_per_leaf shard
          ≡ some (root, leaf))
        (shaped : IsShaped (length keys) root) where
      -- The scan under the write lock finds a cluster after all.
      rescanned-IsAdvanced :
          (c : Candidate F)
          → best_in s.miner req.tokens leaf ≡ some c
          → IsAdvanced s req Pc.missed
              (record s {
                miner = record s.miner { shards = insert (length req.tokens) root s.miner.shards };
              })
              (Pc.matched c.id)
      unfolding handle
      rescanned-IsAdvanced c e =
          let well =
            path-IsWellFormed s.miner wf (length req.tokens) keys
              (length-descent_keys s.miner.options req.tokens) shard root leaf at_width made
              shaped in
          record {
            well = well;
            evolves = record {
              options = refl;
              counter = omega arith;
              shards = λ w shard' q.
                  lookup-insert_kept (length req.tokens) w root shard' s.miner.shards q;
              bodies =
                  λ id body bound q. (body, q, record { id = refl; width = refl; keys = refl });
            };
            place =
                chosen-IsKept req _ leaf c well
                  (leaf_at-path s.miner.shards (length req.tokens) keys shard at_width
                    s.miner.options.max_clusters_per_leaf root leaf made)
                  e;
            counter = omega arith;
            created = λ id c. absurd c;
            closer = omega arith;
            counted = λ room. omega arith;
          }

      module _ (bound : s.miner.counter + 1 < u64_values) where
        abbrev pub made_cluster : Shared F R
        made_cluster = record {
          miner =
              (create_cluster now (length req.tokens) keys root leaf req.tokens req.suffix
                req.member req.event_ms s.miner).0;
          dropped = s.miner.clusters_by_id ++ s.dropped;
        }

        -- Every id that was out keeps its body: in the miner, or, if it was evicted, for those who
        -- hold it.
        handle-made_cluster : (id : ℕ) → id ≤ s.miner.counter → handle id made_cluster ≡ handle id s
        unfolding create_cluster next_tick
        handle-made_cluster id old =
            let placed =
              evicted-IsPlaced now req.tokens req.suffix req.member req.event_ms s.miner wf shard
                root leaf at_width made shaped bound in
            elim (Option-cases (lookup id made_cluster.miner.clusters_by_id)) [
              | inr (found, q) ↦
                  let (p, _) = placed.remain id found (λ r. omega arith) q in
                  handle-some id made_cluster q ∙ sym (handle-some id s p)
              | inl q ↦
                  handle-none id made_cluster q
                  ∙ elim (Option-cases (lookup id s.miner.clusters_by_id)) [
                    | inr (found, p) ↦
                        lookup-append_some id s.miner.clusters_by_id s.dropped p
                        ∙ sym (handle-some id s p)
                    | inl p ↦
                        lookup-append_none id s.miner.clusters_by_id s.dropped p
                        ∙ sym (handle-none id s p)
                  ]
            ]

        -- The new body counts one hit.
        hits-made_cluster : hits made_cluster ≡ hits s + 1
        unfolding create_cluster next_tick
        hits-made_cluster =
            let placed =
              evicted-IsPlaced now req.tokens req.suffix req.member req.event_ms s.miner wf shard
                root leaf at_width made shaped bound in
            let id : wrapping_add s.miner.counter 1 ≡ suc s.miner.counter = omega arith in
            hits_next s made_cluster
              (new_body now (wrapping_add s.miner.counter 1) s.miner.tick req.tokens req.suffix
                req.member req.event_ms)
              id handle-made_cluster
              (subst
                (λ i.
                  handle i made_cluster
                  ≡ some (
                      new_body now (wrapping_add s.miner.counter 1) s.miner.tick req.tokens
                        req.suffix req.member req.event_ms))
                id (handle-some (wrapping_add s.miner.counter 1) made_cluster placed.new))
            ∙ ap (λ n. hits s + n)
                (new_body-size now (wrapping_add s.miner.counter 1) s.miner.tick req.tokens
                  req.suffix req.member req.event_ms)

        created-IsAdvanced : IsAdvanced s req Pc.missed made_cluster (
            Pc.done
              (record { cluster_id = wrapping_add s.miner.counter 1; update = UpdateType.created }))
        unfolding create_cluster next_tick
        created-IsAdvanced = record {
          well =
              create_cluster-IsWellFormed now req.tokens req.suffix req.member req.event_ms s.miner
                wf shard root leaf at_width made shaped bound;
          evolves = record {
            options = refl;
            counter = omega arith;
            shards =
                λ w shard' q. lookup-insert_kept (length req.tokens) w _ shard' s.miner.shards q;
            bodies = λ id body old e. (
              body,
              handle-made_cluster id old ∙ e,
              record { id = refl; width = refl; keys = refl },
            );
          };
          place = omega arith;
          counter = omega arith;
          created = λ id c. inr (omega (arith, c.1), omega (arith, c.1));
          closer = omega arith;
          counted = λ room. omega (arith, hits-made_cluster);
        }

        pub created_section :
            best_in s.miner req.tokens leaf ≡ none
            → create_section now req s
              ≡ some (
                made_cluster,
                Pc.done (record {
                  cluster_id = wrapping_add s.miner.counter 1;
                  update = UpdateType.created;
                }),
              )
        unfolding create_section create_cluster
        created_section e = rw (at_width, create_section) (rw (made, create_section) (rw (e)))

      pub rescanned_section :
          (c : Candidate F)
          → best_in s.miner req.tokens leaf ≡ some c
          → create_section now req s
            ≡ some (
              record s {
                miner = record s.miner { shards = insert (length req.tokens) root s.miner.shards };
              },
              Pc.matched c.id,
            )
      unfolding create_section
      rescanned_section c e = rw (at_width, create_section) (rw (made, create_section) (rw (e)))

    pub create_section-IsAdvanced :
        (now : SystemTime)
        → s.miner.counter + 1 < u64_values
        → (t : Shared F R) × (after : Pc) × (create_section now req s ≡ some (t, after))
          × IsAdvanced s req Pc.missed t after
    create_section-IsAdvanced now bound =
        let (root, leaf, made, shaped) =
          descend_or_create-IsRoot keys s.miner.options.max_clusters_per_leaf shard (
            rw (length-descent_keys s.miner.options req.tokens)
              (wf.roots (length req.tokens) shard at_width)) in
        elim (Option-cases (best_in s.miner req.tokens leaf)) [
          | inl e ↦ (
            _,
            _,
            created_section now root leaf made shaped bound e,
            created-IsAdvanced now root leaf made shaped bound,
          )
          | inr (c, e) ↦ (
            _,
            _,
            rescanned_section now root leaf made shaped c e,
            rescanned-IsAdvanced now root leaf made shaped c e,
          )
        ]
