-- ===== src/Similarity.antt =====
-- The score of a line against a template, crates/logdrain/src/similarity.rs.

pub mod Bounds
use logdrain.Common.{
  ℕ, ◌+◌, List, [], ◌∷◌, Bool, not, ◌||◌, Text, length, is_empty, nat_eq, list_eq, ◌==◌,
  if◌then◌else◌,
}
use logdrain.Extern.{Float, one, ratio}
use logdrain.Tokenize.{Token, OwnedToken}

-- A position matches if the template holds the wildcard or the token itself.
abbrev pub position_matches : Text → OwnedToken → Token → Bool
position_matches wildcard t tok = t.text == wildcard || t.text == tok.text

-- The loop over `zip`, with its counter.
unfoldable pub count_matches : Text → List OwnedToken → List Token → ℕ → ℕ
count_matches wildcard [] tokens matches = matches
count_matches wildcard (t ∷ template) [] matches = matches
count_matches wildcard (t ∷ template) (tok ∷ tokens) matches =
    count_matches wildcard template tokens
      (if position_matches wildcard t tok then matches + 1 else matches)

module _ {F : Type 0} ⦃fl : Float F⦄ where
  unfoldable pub similarity : List OwnedToken → List Token → Text → F
  unfolding count_matches
  similarity template tokens wildcard =
      if not (length template == length tokens)
      then fl.from_ℕ 0
      else if is_empty template
      then one
      else ratio (count_matches wildcard template tokens 0) (length template)
