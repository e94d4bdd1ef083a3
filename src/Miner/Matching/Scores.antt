-- ===== src/Miner/Matching/Scores.antt =====
-- The scores that lines of one token count can get, and how `f64` orders them.
use logdrain.Common.{
  ℕ, ◌≤◌, ◌<◌, List, [], ◌∷◌, ◌≡◌, sym, not, true, false, Text, length, nat_eq, arith, max, dec_le,
  ℕ_discrete,
}
use logdrain.Cluster.Generalize.{Covers}
use logdrain.Extern.{Float, IsIeee, ratio, one}
use logdrain.Similarity.{count_matches, similarity}
use logdrain.Similarity.Bounds.{count_matches-le, count_matches-Covers}
use logdrain.Tokenize.{Token, OwnedToken}

module _ {F : Type 0} ⦃fl : Float F⦄ (ieee : IsIeee fl) where
  one-ratio : one {F = F} ≡ ratio 1 1
  one-ratio = sym (ieee.ratio_self 1 (omega arith))

  -- A score at a width is a quotient with some denominator that all scores of that width share.
  pub record IsScore (width : ℕ) (x : F) : Type 0 where
    pub numerator : ℕ
    pub small : numerator ≤ (max 1 width)
    pub value : x ≡ ratio numerator (max 1 width)

  module _ (width : ℕ) where
    abbrev denominator : ℕ
    denominator = max 1 width

    denominator_pos : 0 < denominator
    denominator_pos = omega arith

    pub flt_score : (x y : F) → IsScore width x → IsScore width y → fl.flt x y ≡ not (fl.fle y x)
    flt_score x y p q =
        rw (p.value, q.value) (ieee.flt_ratio p.numerator q.numerator denominator denominator_pos)

    pub fle_score_total :
        (x y : F) → IsScore width x → IsScore width y → fl.fle x y ≡ false → fl.fle y x ≡ true
    fle_score_total x y p q h = elim (dec_le p.numerator q.numerator) [
      | yes le ↦
          absurd
            (ground (arith, ieee.ratio_mono p.numerator q.numerator denominator denominator_pos le))
      | no gt ↦
          rw (p.value, q.value)
            (ieee.ratio_mono q.numerator p.numerator denominator denominator_pos (omega arith))
    ]

    pub one-IsScore : IsScore width one
    one-IsScore = record {
      numerator = denominator;
      small = omega arith;
      value = sym (ieee.ratio_self denominator denominator_pos);
    }

    pub fle-one : (x : F) → IsScore width x → fl.fle x one ≡ true
    fle-one x p =
        rw (p.value, ← ieee.ratio_self denominator denominator_pos)
          (ieee.ratio_mono p.numerator denominator denominator denominator_pos p.small)

  pub similarity-IsScore :
      (template : List OwnedToken) (tokens : List Token) (wildcard : Text)
      → length template ≡ length tokens
      → IsScore (length tokens) (similarity template tokens wildcard)
  unfolding similarity ℕ_discrete
  similarity-IsScore [] [] wildcard h = record {
    numerator = 1;
    small = omega arith;
    value = one-ratio;
  }
  similarity-IsScore [] (tok ∷ tokens) wildcard h = absurd (omega arith)
  similarity-IsScore (t ∷ template) [] wildcard h = absurd (omega arith)
  similarity-IsScore (t ∷ template) (tok ∷ tokens) wildcard h = record {
    numerator = count_matches wildcard (t ∷ template) (tok ∷ tokens) 0;
    small = ground (arith, count_matches-le wildcard (t ∷ template) (tok ∷ tokens) 0);
    value = ground arith;
  }

  -- With floats that obey IEEE 754, a line of the template's length whose every token is at a wildcard
  -- or equal to the template's token scores 1.0.
  pub similarity-Covers :
      (template : List OwnedToken) (tokens : List Token) (wildcard : Text)
      → length template ≡ length tokens
      → Covers wildcard template tokens
      → similarity {F = F} template tokens wildcard ≡ one
  unfolding similarity
  similarity-Covers [] tokens wildcard h c = ground arith
  similarity-Covers (t ∷ template) tokens wildcard h c = ground (
    arith,
    count_matches-Covers wildcard (t ∷ template) tokens 0 c,
    ieee.ratio_self (length (t ∷ template)),
  )
