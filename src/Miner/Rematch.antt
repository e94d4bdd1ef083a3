-- ===== src/Miner/Rematch.antt =====
-- A query for a line that has just been added, in crates/logdrain/src/miner.rs: `match_only` gives the
-- cluster that `add` gave.
pub mod Created
pub mod Template
use logdrain.Common.{
  ℕ, ◌+◌, ◌<◌, ◌≤◌, List, [], ◌∷◌, ◌++◌, Option, none, some, ◌≡◌, ◌≢◌, refl, sym, ◌∙◌, ap, ◌⊎◌, inl,
  inr, Bool, true, false, Text, length, map, count, nat_eq, arith, Option-cases, u64_values,
  length-map,
}
use logdrain.Common.Assoc.{lookup, insert, lookup-insert_self, lookup-insert_ne}
use logdrain.Cluster.{ClusterInner}
use logdrain.Cluster.Generalize.{Covers, Covers-generalize_tokens, length-generalize_tokens}
use logdrain.Cluster.Time.{SystemTime}
use logdrain.Extern.{Float, IsIeee, one}
use logdrain.Miner.Add.{find_match, add_tokens}
use logdrain.Miner.Invariant.{IsWellFormed}
use logdrain.Miner.Invariant.Calls.{
  length-descent_keys, shard_for-IsWellFormed, IsCandidate, apply_match-IsWellFormed,
}
use logdrain.Miner.Invariant.Create.{
  create_cluster-IsWellFormed, new_body, new_body-tokens, evicted-IsPlaced, new_id, inner,
  inner_width, inner_keys, new_id_fresh, evicted,
}
use logdrain.Miner.Invariant.Place.{count-fresh}
use logdrain.Miner.Invariant.Steps.{best_in, best_in-IsCandidate, base}
use logdrain.Miner.Layout.{leaf_at, leaf_at-eq, leaf_at-write, lookup-shard_for, shard_for_frame}
use logdrain.Miner.Learn.{apply_match, create_cluster, match_body}
use logdrain.Miner.Learn.Body.{Matched, match_body-Matched}
use logdrain.Miner.Matching.{Candidate, best_match, best_loop, at_least}
use logdrain.Miner.Matching.After.{Fits, score, best_loop-again}
use logdrain.Miner.Matching.Below.{AllBelow, at_least-AllBelow, best_loop_last}
use logdrain.Miner.Matching.Found.{at_least-some}
use logdrain.Miner.Matching.Scores.{similarity-Covers}
use logdrain.Miner.Query.{match_tokens}
use logdrain.Miner.State.{Miner, descent_keys, next_tick}
use logdrain.Miner.Update.{AddResult}
use logdrain.Similarity.{similarity}
use logdrain.Tokenize.{Token, OwnedToken, to_owned}
use logdrain.Tree.{TreeNode, descend}
use logdrain.Tree.Leaf
use logdrain.Tree.Leaf.{LeafBucket}

pub Covers-to_owned :
    (wildcard : Text) (tokens : List Token) → Covers wildcard (map to_owned tokens) tokens
Covers-to_owned wildcard [] = tt
Covers-to_owned wildcard (t ∷ tokens) = (inr refl, Covers-to_owned wildcard tokens)

leaf_at-some :
    (shards : List (ℕ × TreeNode)) (width : ℕ) (keys : List Text) (leaf : LeafBucket)
    → leaf_at shards width keys ≡ some leaf
    → (shard : TreeNode) × (lookup width shards ≡ some shard) × (descend keys shard ≡ some leaf)
unfolding leaf_at
leaf_at-some shards width keys leaf e = elim (Option-cases (lookup width shards)) [
  | inl f ↦ absurd (ground arith)
  | inr (shard, f) ↦ (shard, f, ground arith)
]

module _ {F R : Type 0} ⦃fl : Float F⦄ where
  find_match-eq :
      (m : Miner F R) (tokens : List Token) (shard : TreeNode) (leaf : LeafBucket)
      → descend (descent_keys m.options tokens) shard ≡ some leaf
      → find_match m tokens shard ≡ best_in m tokens leaf
  unfolding find_match
  find_match-eq m tokens shard leaf e = rw (e, find_match)

  -- A query answers with the best cluster of the line's leaf.
  pub match_tokens-some :
      (m : Miner F R) (tokens : List Token) (leaf : LeafBucket) (c : Candidate F)
      → leaf_at m.shards (length tokens) (descent_keys m.options tokens) ≡ some leaf
      → best_in m tokens leaf ≡ some c
      → match_tokens tokens m ≡ some c.id
  unfolding match_tokens
  match_tokens-some m tokens leaf c there e =
      let (shard, f, d) =
        leaf_at-some m.shards (length tokens) (descent_keys m.options tokens) leaf there in
      ground (arith, find_match-eq m tokens shard leaf d)

  pub leaf-Fits :
      (ieee : IsIeee fl) (m : Miner F R) (tokens : List Token) (leaf : LeafBucket)
      → IsWellFormed m
      → leaf_at m.shards (length tokens) (descent_keys m.options tokens) ≡ some leaf
      → Fits ieee m.options.wildcard tokens m.clusters_by_id leaf.ids
  leaf-Fits ieee m tokens leaf wf there id body c e =
      let h =
        wf.leaves (length tokens) (descent_keys m.options tokens) leaf
          (length-descent_keys m.options tokens) there in
      let f = h.filed id c in
      let q : f.body ≡ body = ground (arith, f.found) in
      ap (λ b. length b.tokens) (sym q) ∙ f.tokens_width

  -- A match replaces the winner by a body that scores 1.0, and it wins again.
  pub apply_match-match_tokens :
      (ieee : IsIeee fl) (now : SystemTime) (tokens : List Token) (member : Option Text)
      (event_ms : Option ℕ) (m : Miner F R) (leaf : LeafBucket) (c : Candidate F)
      → IsWellFormed m
      → fl.fle m.options.sim_threshold one ≡ true
      → leaf_at m.shards (length tokens) (descent_keys m.options tokens) ≡ some leaf
      → best_in m tokens leaf ≡ some c
      → match_tokens tokens (apply_match now c tokens member event_ms m).0 ≡ some c.id
  unfolding apply_match next_tick best_match at_least
  apply_match-match_tokens ieee now tokens member event_ms m leaf c wf reachable there e =
      let wildcard = m.options.wildcard in
      let h = best_in-IsCandidate m tokens leaf c wf there e in
      let b = match_body now m.tick tokens wildcard member event_ms c.body in
      let q = match_body-Matched now m.tick tokens wildcard member event_ms c.body in
      let wf' = apply_match-IsWellFormed now c tokens member event_ms m wf h in
      let m' = (apply_match now c tokens member event_ms m).0 in
      let full : similarity {F = F} b.0.tokens tokens wildcard ≡ one = rw q.template (
        similarity-Covers ieee _ tokens wildcard
          (length-generalize_tokens wildcard c.body.tokens tokens ∙ h.width)
          (Covers-generalize_tokens wildcard c.body.tokens tokens h.width)) in
      let again =
        best_loop-again ieee wildcard tokens (insert c.id b.0 m.clusters_by_id) c.id b.0
          (lookup-insert_self c.id b.0 m.clusters_by_id) full m.clusters_by_id c.body h.handle
          (λ id n. lookup-insert_ne c.id id b.0 m.clusters_by_id n) leaf.ids none c
          (leaf-Fits ieee m tokens leaf wf there) (leaf-Fits ieee m' tokens leaf wf' there) tt tt
          (at_least-some m.options.sim_threshold _ c e).0 refl in
      match_tokens-some m' tokens leaf (record { id = c.id; sim = one; body = b.0 }) there
        (rw again (ground arith))
