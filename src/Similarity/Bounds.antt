-- ===== src/Similarity/Bounds.antt =====
-- The count behind the score of crates/logdrain/src/similarity.rs: at most the length of the
-- template, and the whole length exactly for a line that the template covers.
use logdrain.Common.{
  ℕ, ◌+◌, ◌≤◌, List, [], ◌∷◌, ◌≡◌, Text, length, nat_eq, list_eq, if◌then◌else◌, arith,
}
use logdrain.Cluster.Generalize.{Covers}
use logdrain.Similarity.{count_matches, position_matches}
use logdrain.Tokenize.{Token, OwnedToken}

module _ (wildcard : Text) where
  pub count_matches-le :
      (template : List OwnedToken) (tokens : List Token) (acc : ℕ)
      → count_matches wildcard template tokens acc ≤ acc + length template
  unfolding count_matches
  count_matches-le [] tokens acc = omega arith
  count_matches-le (t ∷ template) [] acc = omega arith
  count_matches-le (t ∷ template) (tok ∷ tokens) acc = ground (
    arith,
    count_matches-le template tokens (if position_matches wildcard t tok then acc + 1 else acc),
  )

  pub count_matches-Covers :
      (template : List OwnedToken) (tokens : List Token) (acc : ℕ)
      → Covers wildcard template tokens
      → count_matches wildcard template tokens acc ≡ acc + length template
  unfolding count_matches
  count_matches-Covers [] [] acc c = omega arith
  count_matches-Covers [] (tok ∷ tokens) acc c = absurd c
  count_matches-Covers (t ∷ template) [] acc c = absurd c
  count_matches-Covers (t ∷ template) (tok ∷ tokens) acc c =
      ground (arith, count_matches-Covers template tokens (acc + 1))

  pub Covers-count_matches :
      (template : List OwnedToken) (tokens : List Token) (acc : ℕ)
      → length template ≡ length tokens
      → count_matches wildcard template tokens acc ≡ acc + length template
      → Covers wildcard template tokens
  unfolding count_matches
  Covers-count_matches [] [] acc h e = tt
  Covers-count_matches [] (tok ∷ tokens) acc h e = absurd (omega arith)
  Covers-count_matches (t ∷ template) [] acc h e = absurd (omega arith)
  Covers-count_matches (t ∷ template) (tok ∷ tokens) acc h e =
      ground (
        arith,
        Covers-count_matches template tokens (acc + 1),
        count_matches-le template tokens acc,
      )
