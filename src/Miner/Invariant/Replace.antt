-- ===== src/Miner/Invariant/Replace.antt =====
-- A body that is replaced by one with the same id, width and keys leaves the miner of
-- crates/logdrain/src/miner.rs well-formed: what a match does.
use logdrain.Common.{ℕ, List, some, ◌≡◌, sym, ◌∙◌, ap, Text, length, nat_eq, arith, ℕ_discrete}
use logdrain.Common.Assoc.{lookup, insert, lookup-insert_self, lookup-insert_ne}
use logdrain.Cluster.{ClusterInner}
use logdrain.Miner.Invariant.{IsFiled, IsHeld, IsWellFormed, body_keys}
use logdrain.Miner.State.{Miner}

module _ {F R : Type 0} (m : Miner F R) (id tick : ℕ) (old body : ClusterInner)
    (was : lookup id m.clusters_by_id ≡ some old) (same_id : body.id ≡ old.id)
    (same_width : length body.tokens ≡ length old.tokens)
    (same_keys : body_keys m.options body ≡ body_keys m.options old) where
  abbrev replaced : Miner F R
  replaced = record m { clusters_by_id = insert id body m.clusters_by_id; tick = tick }

  IsFiled-replaced :
      (width : ℕ) (keys : List Text) (i : ℕ)
      → IsFiled m.options m.clusters_by_id width keys i
      → IsFiled m.options replaced.clusters_by_id width keys i
  IsFiled-replaced width keys i f = elim (ℕ_discrete id i) [
    | no n ↦ record {
      body = f.body;
      found = lookup-insert_ne id i body m.clusters_by_id n ∙ f.found;
      named = f.named;
      tokens_width = f.tokens_width;
      path = f.path;
    }
    | yes p ↦
        let e : f.body ≡ old = ground arith in
        record {
          body = body;
          found = rw (← p) (lookup-insert_self id body m.clusters_by_id);
          named = same_id ∙ sym (ap (λ b. b.id) e) ∙ f.named;
          tokens_width = same_width ∙ sym (ap (λ b. length b.tokens) e) ∙ f.tokens_width;
          path = same_keys ∙ sym (ap (body_keys m.options) e) ∙ f.path;
        }
  ]

  IsHeld-replaced :
      IsWellFormed m
      → (i : ℕ) (b : ClusterInner) → lookup i replaced.clusters_by_id ≡ some b
      → IsHeld replaced i b
  IsHeld-replaced wf i b e = elim (ℕ_discrete id i) [
    | no n ↦
        let h = wf.held i b (sym (lookup-insert_ne id i body m.clusters_by_id n) ∙ e) in
        record { leaf = h.leaf; there = h.there; member = h.member }
    | yes p ↦
        let h = wf.held i old (rw (← p) was) in
        let q : body ≡ b = ground (arith, lookup-insert_self id body m.clusters_by_id) in
        record { leaf = h.leaf; there = rw (← q, same_width, same_keys) h.there; member = h.member }
  ]

  pub replaced-IsWellFormed : IsWellFormed m → IsWellFormed replaced
  replaced-IsWellFormed wf = record {
    capacity = wf.capacity;
    roots = wf.roots;
    leaves = λ width keys leaf l e.
        let h = wf.leaves width keys leaf l e in
        record {
          capped = h.capped;
          bounded = h.bounded;
          distinct = h.distinct;
          filed = λ i c. IsFiled-replaced width keys i (h.filed i c);
        };
    held = IsHeld-replaced wf;
    issued = λ i b e. elim (ℕ_discrete id i) [
      | no n ↦ wf.issued i b (sym (lookup-insert_ne id i body m.clusters_by_id n) ∙ e)
      | yes p ↦ wf.issued i old (rw (← p) was)
    ];
  }
