-- ===== src/Miner/Query/Params.antt =====
-- The values that `extract` of crates/logdrain/src/miner.rs captures.
use logdrain.Common.{
  ℕ, ℕ_discrete, count, length, some, List, [], ◌∷◌, ◌≡◌, refl, inl, inr, false, Text, map, list_eq,
  nat_eq, ◌==◌, if◌then◌else◌, arith, Bool-cases,
}
use logdrain.Cluster.Generalize.{Covers}
use logdrain.Cluster.{ClusterInner}
use logdrain.Common.Assoc.{lookup}
use logdrain.Extern.{Float, RegexEngine, as_ref}
use logdrain.Mask.{apply_masks}
use logdrain.Miner.Query.{params_of, tokens_for_query, match_only, extract}
use logdrain.Miner.State.{Miner}
use logdrain.Options.{Options, active_path_delimiters}
use logdrain.Tokenize.{Token, OwnedToken, tokenize_with, split_first_line}

-- A template whose wildcards are filled in turn.
abbrev pub fill : Text → List Text → List Text → List Text
fill wildcard [] params = []
fill wildcard (t ∷ template) [] = t ∷ fill wildcard template []
fill wildcard (t ∷ template) (p ∷ params) =
    let next = fill wildcard template params in
    let keep = fill wildcard template (p ∷ params) in if t == wildcard then p ∷ next else t ∷ keep

fill-cons_ne :
    (wildcard t : Text) (template params : List Text)
    → (t == wildcard) ≡ false
    → fill wildcard (t ∷ template) params ≡ t ∷ fill wildcard template params
fill-cons_ne wildcard t template [] e = refl
fill-cons_ne wildcard t template (p ∷ params) e = rw e

fill-params_of :
    (wildcard : Text) (template : List OwnedToken) (tokens : List Token)
    → Covers wildcard template tokens
    → fill wildcard (map (λ (t : OwnedToken). t.text) template) (params_of wildcard template tokens)
      ≡ map (λ (t : Token). t.text) tokens
unfolding params_of
fill-params_of wildcard [] [] c = refl
fill-params_of wildcard [] (tok ∷ tokens) c = absurd c
fill-params_of wildcard (t ∷ template) [] c = absurd c
fill-params_of wildcard (t ∷ template) (tok ∷ tokens) c =
    let rest = fill-params_of wildcard template tokens c.1 in
    elim (Bool-cases (t.text == wildcard)) [
      | inl e ↦ ground (arith, rest)
      | inr e ↦ ground (
        arith,
        rest,
        fill-cons_ne wildcard t.text (map (λ (t : OwnedToken). t.text) template)
            (params_of wildcard template tokens),
      )
    ]

length-params_of :
    (wildcard : Text) (template : List OwnedToken) (tokens : List Token)
    → Covers wildcard template tokens
    → length (params_of wildcard template tokens)
      ≡ count wildcard (map (λ (t : OwnedToken). t.text) template)
unfolding params_of ℕ_discrete
length-params_of wildcard [] [] c = refl
length-params_of wildcard [] (tok ∷ tokens) c = absurd c
length-params_of wildcard (t ∷ template) [] c = absurd c
length-params_of wildcard (t ∷ template) (tok ∷ tokens) c =
    ground (arith, length-params_of wildcard template tokens c.1)

-- The tokens that a query has of a line: masked, and of the first line only where the options say so.
abbrev pub query_tokens : {F R : Type 0} → ⦃re : RegexEngine R⦄ → Options F R → Text → List Token
query_tokens o line =
    let masked = as_ref (apply_masks line o.masks) in
    tokenize_with (if o.first_line_only then (split_first_line masked).0 else masked)
      (active_path_delimiters o)

-- Where a line matches a cluster, and every token of the masked line is at a wildcard of the cluster's
-- template or equal to the template's token: `extract` answers the cluster's id, with one value for each
-- wildcard of the template, and the template with its wildcards filled by them in turn is the line, token
-- by token.
pub extract-fill :
    {F R : Type 0} ⦃fl : Float F⦄ ⦃re : RegexEngine R⦄ (line : Text) (m : Miner F R) (id : ℕ)
    (body : ClusterInner)
    → match_only line m ≡ some id
    → lookup id m.clusters_by_id ≡ some body
    → Covers m.options.wildcard body.tokens (query_tokens m.options line)
    → (params : List Text) × (extract line m ≡ some (id, params))
      × (length params ≡ count m.options.wildcard (map (λ (t : OwnedToken). t.text) body.tokens))
      × (fill m.options.wildcard (map (λ (t : OwnedToken). t.text) body.tokens) params
          ≡ map (λ (t : Token). t.text) (query_tokens m.options line))
unfolding extract tokens_for_query
extract-fill line m id body matched here covers = (
  params_of m.options.wildcard body.tokens (query_tokens m.options line),
  rw (matched, extract) (rw here),
  length-params_of m.options.wildcard body.tokens (query_tokens m.options line) covers,
  fill-params_of m.options.wildcard body.tokens (query_tokens m.options line) covers,
)
