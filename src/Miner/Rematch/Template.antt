-- ===== src/Miner/Rematch/Template.antt =====
-- A query of crates/logdrain/src/miner.rs for the rendered template of a cluster.
use logdrain.Common.{
  ℕ, List, [], ◌∷◌, some, ◌≡◌, sym, ◌∙◌, ap, inl, inr, true, false, Text, All, length, length-map,
  nat_eq, Option-cases, if◌then◌else◌,
}
use mathlib.Core.List.{head-eq_of_cons-eq, tail-eq_of_cons-eq}
use logdrain.Common.Assoc.{lookup}
use logdrain.Cluster.{ClusterInner, render_template}
use logdrain.Cluster.Generalize.{Covers}
use logdrain.Cluster.Reread.{IsSegment, owned_texts, tokenize_with-render_template}
use logdrain.Extern.{Float, IsIeee, one, RegexEngine, as_ref}
use logdrain.Mask.{apply_masks}
use logdrain.Miner.Invariant.{IsWellFormed, body_keys}
use logdrain.Miner.Invariant.Keys.{descent_keys-prefix_keys}
use logdrain.Miner.Invariant.Steps.{best_in}
use logdrain.Miner.Layout.{leaf_at}
use logdrain.Miner.Matching.{best_match}
use logdrain.Miner.Matching.After.{score}
use logdrain.Miner.Matching.Below.{at_least-AllBelow}
use logdrain.Miner.Matching.Scores.{similarity-Covers}
use logdrain.Miner.Query.{match_tokens, match_only, tokens_for_query}
use logdrain.Miner.Rematch.{match_tokens-some, leaf-Fits}
use logdrain.Miner.State.{Miner, text_keys, descent_keys}
use logdrain.Options.{Options, active_path_delimiters}
use logdrain.Tokenize.{Token, OwnedToken, tokenize_with, split_first_line}
use logdrain.Tokenize.Reread.{texts}

-- A template covers the line of its own texts.
Covers-texts :
    (wildcard : Text) (template : List OwnedToken) (tokens : List Token)
    → texts tokens ≡ owned_texts template
    → Covers wildcard template tokens
Covers-texts wildcard [] [] e = tt
Covers-texts wildcard [] (tok ∷ tokens) e = absurd cc
Covers-texts wildcard (t ∷ template) [] e = absurd cc
Covers-texts wildcard (t ∷ template) (tok ∷ tokens) e =
    (inr (sym (head-eq_of_cons-eq e)), Covers-texts wildcard template tokens (tail-eq_of_cons-eq e))

tokens_for_query-whole :
    {F R : Type 0} (o : Options F R) (line : Text)
    → o.first_line_only ≡ false
    → tokens_for_query o line ≡ tokenize_with line (active_path_delimiters o)
unfolding tokens_for_query
tokens_for_query-whole o line e =
    ap
      (λ b.
        tokenize_with (if b then (split_first_line line).0 else line) (active_path_delimiters o))
      e

module _ {F R : Type 0} ⦃fl : Float F⦄ (ieee : IsIeee fl) (m : Miner F R) (wf : IsWellFormed m)
    (reachable : fl.fle m.options.sim_threshold one ≡ true) (id : ℕ) (body : ClusterInner)
    (here : lookup id m.clusters_by_id ≡ some body) where
  -- A line of the texts of a template in the miner reaches the threshold in the template's leaf.
  match_tokens-texts :
      (tokens : List Token)
      → texts tokens ≡ owned_texts body.tokens
      → (found : ℕ) × (match_tokens tokens m ≡ some found)
  unfolding best_match
  match_tokens-texts tokens e =
      let o = m.options in
      let held = wf.held id body here in
      let width : length body.tokens ≡ length tokens =
        sym (length-map (λ (t : OwnedToken). t.text) body.tokens)
        ∙ ap length (sym e)
        ∙ length-map (λ (t : Token). t.text) tokens in
      let keys : body_keys o body ≡ descent_keys o tokens =
        ap (text_keys o) (sym e) ∙ sym (descent_keys-prefix_keys o tokens) in
      let there : leaf_at m.shards (length tokens) (descent_keys o tokens) ≡ some held.leaf =
        ap (λ n. leaf_at m.shards n (descent_keys o tokens)) (sym width)
        ∙ ap (leaf_at m.shards (length body.tokens)) (sym keys)
        ∙ held.there in
      elim (Option-cases (best_in m tokens held.leaf)) [
        | inr (c, q) ↦ (c.id, match_tokens-some m tokens held.leaf c there q)
        | inl q ↦
            let below =
              at_least-AllBelow ieee o.wildcard tokens o.sim_threshold m.clusters_by_id
                held.leaf.ids (leaf-Fits ieee m tokens held.leaf wf there) q id body held.member
                here in
            let full : score ieee o.wildcard tokens body ≡ one =
              similarity-Covers ieee body.tokens tokens o.wildcard width
                (Covers-texts o.wildcard body.tokens tokens e) in
            absurd (cc (below, reachable, ap (fl.fle o.sim_threshold) full))
      ]

  module _ ⦃re : RegexEngine R⦄ where
    -- With floats that obey IEEE 754 and a threshold of at most 1.0: in a well-formed miner that does not
    -- read first lines only, the query for the rendered template of any cluster finds a cluster, where
    -- no text of the template is broken up by whitespace or a path delimiter and the masks leave the
    -- rendered template as it is.
    pub match_only-render_template :
        m.options.first_line_only ≡ false
        → All (IsSegment (active_path_delimiters m.options)) body.tokens
        → as_ref (apply_masks (render_template body) m.options.masks) ≡ render_template body
        → (found : ℕ) × (match_only (render_template body) m ≡ some found)
    unfolding match_only
    match_only-render_template whole segments unmasked =
        let line = render_template body in
        let delims = active_path_delimiters m.options in
        let (found, e) =
          match_tokens-texts (tokenize_with line delims)
            (tokenize_with-render_template delims body segments) in
        (
          found,
          ap (λ masked. match_tokens (tokens_for_query m.options masked) m) unmasked
              ∙ ap (λ tokens. match_tokens tokens m) (tokens_for_query-whole m.options line whole)
              ∙ e,
        )
