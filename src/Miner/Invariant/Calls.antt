-- ===== src/Miner/Invariant/Calls.antt =====
-- The steps of an `add` in crates/logdrain/src/miner.rs on a well-formed miner: the shard, the match,
-- the new cluster.
use logdrain.Common.{
  ℕ, List, Option, none, some, ◌≡◌, sym, ◌∙◌, ap, inl, inr, Text, length, length-map, map, nat_eq,
  arith, ℕ_discrete, Option-cases, wrapping_add,
}
use logdrain.Common.Assoc.{lookup, insert, lookup-insert_self, lookup-insert_ne}
use logdrain.Cluster.Generalize.{length-generalize_tokens}
use logdrain.Cluster.Time.{SystemTime}
use logdrain.Miner.Invariant.{IsWellFormed, body_keys}
use logdrain.Miner.Invariant.Keys.{text_keys-generalize_tokens, descent_keys-prefix_keys}
use logdrain.Miner.Invariant.Replace.{replaced-IsWellFormed}
use logdrain.Miner.Layout.{
  leaf_at, key_count, shard_for-some, shard_for-none, leaf_at-shard_for, length-text_keys,
}
use logdrain.Miner.Learn.{match_body, apply_match}
use logdrain.Miner.Learn.Body.{match_body-Matched}
use logdrain.Miner.Matching.{Candidate}
use logdrain.Miner.State.{Miner, shard_for, descent_keys, text_keys, next_tick}
use logdrain.Options.{Options}
use logdrain.Tokenize.{Token, OwnedToken}
use logdrain.Tree.{new_internal}
use logdrain.Tree.Shape.{IsRoot-new_internal}

module _ {F R : Type 0} where
  pub length-descent_keys :
      (o : Options F R) (tokens : List Token)
      → length (descent_keys o tokens) ≡ key_count o (length tokens)
  length-descent_keys o tokens = rw (descent_keys-prefix_keys o tokens) (
      length-text_keys o (map (λ (t : Token). t.text) tokens)
      ∙ ap (key_count o) (length-map (λ (t : Token). t.text) tokens))

  shard_for_new-IsWellFormed :
      (width : ℕ) (m : Miner F R)
      → IsWellFormed m
      → lookup width m.shards ≡ none
      → ((c : ℕ) (k : List Text)
          → leaf_at (insert width new_internal m.shards) c k ≡ leaf_at m.shards c k)
      → IsWellFormed (record m { shards = insert width new_internal m.shards })
  shard_for_new-IsWellFormed width m wf e same = record {
    capacity = wf.capacity;
    roots = λ c s f. elim (ℕ_discrete width c) [
      | yes p ↦
          let q : new_internal ≡ s =
            ground (arith, lookup-insert_self width new_internal m.shards) in
          rw (← q) (IsRoot-new_internal (key_count m.options c))
      | no n ↦ wf.roots c s (sym (lookup-insert_ne width c new_internal m.shards n) ∙ f)
    ];
    leaves = λ c k leaf l f. wf.leaves c k leaf l (sym (same c k) ∙ f);
    held = λ id body f.
        let h = wf.held id body f in
        record {
          leaf = h.leaf;
          there = same (length body.tokens) (body_keys m.options body) ∙ h.there;
          member = h.member;
        };
    issued = wf.issued;
  }

  pub shard_for-IsWellFormed :
      (width : ℕ) (m : Miner F R) → IsWellFormed m → IsWellFormed (shard_for width m).1
  shard_for-IsWellFormed width m wf = elim (Option-cases (lookup width m.shards)) [
    | inr (s, e) ↦ rw (shard_for-some width m e) wf
    | inl e ↦ rw (shard_for-none width m e) (
        shard_for_new-IsWellFormed width m wf e
          (λ c k. rw (shard_for-none width m e) at (leaf_at-shard_for width m c k)))
  ]

  -- A cluster that a line may join: it has a body, of the line's width and keys.
  pub record IsCandidate (m : Miner F R) (tokens : List Token) (c : Candidate F) : Type 0 where
    pub handle : lookup c.id m.clusters_by_id ≡ some c.body
    pub width : length c.body.tokens ≡ length tokens
    pub keys : body_keys m.options c.body ≡ descent_keys m.options tokens

  pub apply_match-IsWellFormed :
      (now : SystemTime) (c : Candidate F) (tokens : List Token) (member : Option Text)
      (event_ms : Option ℕ) (m : Miner F R)
      → IsWellFormed m
      → IsCandidate m tokens c
      → IsWellFormed (apply_match now c tokens member event_ms m).0
  unfolding apply_match next_tick
  apply_match-IsWellFormed now c tokens member event_ms m wf h =
      let b = match_body now m.tick tokens m.options.wildcard member event_ms c.body in
      let q = match_body-Matched now m.tick tokens m.options.wildcard member event_ms c.body in
      replaced-IsWellFormed m c.id (wrapping_add m.tick 1) c.body b.0 h.handle q.id
        (ap length q.template ∙ length-generalize_tokens m.options.wildcard c.body.tokens tokens)
        (ap (λ template. text_keys m.options (map (λ (t : OwnedToken). t.text) template)) q.template
          ∙ text_keys-generalize_tokens m.options c.body.tokens tokens h.width h.keys
          ∙ sym h.keys)
        wf
