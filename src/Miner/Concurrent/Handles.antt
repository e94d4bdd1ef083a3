-- ===== src/Miner/Concurrent/Handles.antt =====
-- Handles on cluster bodies in crates/logdrain/src/miner.rs: what a write through a handle changes, and
-- what a thread may rely on while others run.
use logdrain.Common.{
  ℕ, ◌≤◌, List, [], ◌∷◌, ◌++◌, none, some, ◌≡◌, ◌≢◌, refl, ◌∙◌, length, nat_eq, arith, ℕ_discrete,
  inl, inr, Option-cases,
}
use logdrain.Common.Assoc.{lookup, insert, lookup-insert_self, lookup-insert_ne}
use logdrain.Cluster.{ClusterInner}
use logdrain.Miner.Concurrent.{Request, Pc, Shared, handle, write_body}
use logdrain.Miner.Invariant.{IsWellFormed, body_keys}
use logdrain.Miner.Invariant.Replace.{replaced-IsWellFormed}
use logdrain.Miner.State.{Miner, Shard, descent_keys}
use logdrain.Options.{Options}

pub lookup-append_some :
    (id : ℕ) (entries others : List (ℕ × ClusterInner)) {body : ClusterInner}
    → lookup id entries ≡ some body
    → lookup id (entries ++ others) ≡ some body
unfolding lookup
lookup-append_some id [] others e = absurd (ground arith)
lookup-append_some id (entry ∷ entries) others {body} e =
    ground (arith, lookup-append_some id entries others {body = body})

pub lookup-append_none :
    (id : ℕ) (entries others : List (ℕ × ClusterInner))
    → lookup id entries ≡ none
    → lookup id (entries ++ others) ≡ lookup id others
unfolding lookup
lookup-append_none id [] others e = refl
lookup-append_none id (entry ∷ entries) others e =
    ground (arith, lookup-append_none id entries others)

-- Two bodies that stand at one place of the trees, under one id.
pub record SameSpot {F R : Type 0} (o : Options F R) (old body : ClusterInner) : Type 0 where
  pub id : body.id ≡ old.id
  pub width : length body.tokens ≡ length old.tokens
  pub keys : body_keys o body ≡ body_keys o old

module _ {F R : Type 0} where
  -- A tick changes nothing that the invariant speaks of.
  pub ticked-IsWellFormed :
      (m : Miner F R) (tick : ℕ) → IsWellFormed m → IsWellFormed (record m { tick = tick })
  ticked-IsWellFormed m tick wf = record {
    capacity = wf.capacity;
    roots = wf.roots;
    leaves = wf.leaves;
    held = λ id body e.
        let h = wf.held id body e in record { leaf = h.leaf; there = h.there; member = h.member };
    issued = wf.issued;
  }

  module _ (id : ℕ) (s : Shared F R) where
    pub handle-some :
        {body : ClusterInner}
        → lookup id s.miner.clusters_by_id ≡ some body
        → handle id s ≡ some body
    unfolding handle
    handle-some e = rw (e, handle)

    pub handle-none : lookup id s.miner.clusters_by_id ≡ none → handle id s ≡ lookup id s.dropped
    unfolding handle
    handle-none e = rw (e, handle)

    module _ (body : ClusterInner) where
      pub write_body-some :
          {old : ClusterInner}
          → lookup id s.miner.clusters_by_id ≡ some old
          → write_body id body s ≡ record s {
            miner = record s.miner { clusters_by_id = insert id body s.miner.clusters_by_id };
          }
      unfolding write_body
      write_body-some e = rw (e, write_body)

      write_body-none :
          lookup id s.miner.clusters_by_id ≡ none
          → write_body id body s ≡ record s { dropped = insert id body s.dropped }
      unfolding write_body
      write_body-none e = rw (e, write_body)

      pub write_body_frame :
          ((write_body id body s).miner.shards ≡ s.miner.shards)
          × ((write_body id body s).miner.options ≡ s.miner.options)
          × ((write_body id body s).miner.counter ≡ s.miner.counter)
      write_body_frame = elim (Option-cases (lookup id s.miner.clusters_by_id)) [
        | inl e ↦ rw (write_body-none e) (refl, refl, refl)
        | inr (old, e) ↦ rw (write_body-some e) (refl, refl, refl)
      ]

      pub handle-write_body_self : handle id (write_body id body s) ≡ some body
      unfolding handle
      handle-write_body_self = elim (Option-cases (lookup id s.miner.clusters_by_id)) [
        | inl e ↦ rw (write_body-none e) (rw (e, handle) (lookup-insert_self id body s.dropped))
        | inr (old, e) ↦
            rw (write_body-some e) (rw (lookup-insert_self id body s.miner.clusters_by_id, handle))
      ]

      pub handle-write_body_ne : (i : ℕ) → id ≢ i → handle i (write_body id body s) ≡ handle i s
      unfolding handle
      handle-write_body_ne i n = elim (Option-cases (lookup id s.miner.clusters_by_id)) [
        | inl e ↦ rw (write_body-none e) (ground (arith, lookup-insert_ne id i body s.dropped n))
        | inr (old, e) ↦
            rw (write_body-some e)
              (ground (arith, lookup-insert_ne id i body s.miner.clusters_by_id n))
      ]

      pub write_body-IsWellFormed :
          (old : ClusterInner)
          → handle id s ≡ some old
          → SameSpot s.miner.options old body
          → IsWellFormed s.miner
          → IsWellFormed (write_body id body s).miner
      write_body-IsWellFormed old h same wf =
          elim (Option-cases (lookup id s.miner.clusters_by_id)) [
            | inl e ↦ rw (write_body-none e) wf
            | inr (found, e) ↦
                let q : found ≡ old = ground (arith, handle-some e) in
                rw (write_body-some e) (
                  replaced-IsWellFormed s.miner id s.miner.tick old body (rw q at e) same.id
                    same.width same.keys wf)
          ]

  -- What no step takes back: the options, the ids that are out, the shards that are there, and for
  -- every id that is out the place of its body.
  pub record Evolves (s t : Shared F R) : Type 0 where
    pub options : t.miner.options ≡ s.miner.options
    pub counter : s.miner.counter ≤ t.miner.counter
    pub shards :
        (width : ℕ) (shard : Shard)
        → lookup width s.miner.shards ≡ some shard
        → (after : Shard) × (lookup width t.miner.shards ≡ some after)
    pub bodies :
        (id : ℕ) (body : ClusterInner)
        → id ≤ s.miner.counter
        → handle id s ≡ some body
        → (after : ClusterInner) × (handle id t ≡ some after) × SameSpot s.miner.options body after

  pub write_body-Evolves :
      (id : ℕ) (s : Shared F R) (old body : ClusterInner)
      → handle id s ≡ some old
      → SameSpot s.miner.options old body
      → Evolves s (write_body id body s)
  write_body-Evolves id s old body h same =
      let (shards, options, counter) = write_body_frame id s body in
      record {
        options = options;
        counter = omega (arith, counter);
        shards = λ width shard e. (shard, rw shards e);
        bodies = λ i b bound e. elim (ℕ_discrete id i) [
          | no n ↦ (
            b,
            handle-write_body_ne id s body i n ∙ e,
            record { id = refl; width = refl; keys = refl },
          )
          | yes p ↦
              let q : old ≡ b = ground (arith, h) in
              (body, rw (← p) (handle-write_body_self id s body), rw q at same)
        ];
      }

  -- The handle of a thread: an id that is out, with a body of the line's width and keys.
  pub record IsKept (s : Shared F R) (req : Request) (id : ℕ) : Type 0 where
    pub issued : id ≤ s.miner.counter
    pub body : ClusterInner
    pub there : handle id s ≡ some body
    pub width : length body.tokens ≡ length req.tokens
    pub keys : body_keys s.miner.options body ≡ descent_keys s.miner.options req.tokens

  pub IsKept-Evolves :
      {s t : Shared F R} (req : Request) (id : ℕ) → Evolves s t → IsKept s req id → IsKept t req id
  IsKept-Evolves req id step h =
      let (after, there, same) = step.bodies id h.body h.issued h.there in
      record {
        issued = omega (arith, h.issued, step.counter);
        body = after;
        there = there;
        width = same.width ∙ h.width;
        keys = rw step.options (same.keys ∙ h.keys);
      }

  -- What holds of a thread wherever it stands.
  abbrev pub IsAt : Shared F R → Request → Pc → Type 0
  IsAt s req Pc.entering = Unit
  IsAt s req Pc.searching =
      (shard : Shard) × (lookup (length req.tokens) s.miner.shards ≡ some shard)
  IsAt s req Pc.missed = (shard : Shard) × (lookup (length req.tokens) s.miner.shards ≡ some shard)
  IsAt s req (Pc.matched id) = IsKept s req id
  IsAt s req (Pc.changing id needs_generalize) = IsKept s req id
  IsAt s req (Pc.done result) = result.cluster_id ≤ s.miner.counter

  pub IsAt-Evolves :
      {s t : Shared F R} (req : Request) (pc : Pc) → Evolves s t → IsAt s req pc → IsAt t req pc
  IsAt-Evolves req Pc.entering step h = tt
  IsAt-Evolves req Pc.searching step h = step.shards (length req.tokens) h.0 h.1
  IsAt-Evolves req Pc.missed step h = step.shards (length req.tokens) h.0 h.1
  IsAt-Evolves req (Pc.matched id) step h = IsKept-Evolves req id step h
  IsAt-Evolves req (Pc.changing id needs) step h = IsKept-Evolves req id step h
  IsAt-Evolves req (Pc.done result) step h = omega (arith, h, step.counter)
