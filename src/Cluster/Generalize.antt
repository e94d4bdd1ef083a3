-- ===== src/Cluster/Generalize.antt =====
-- What `generalize` and `would_generalize` of crates/logdrain/src/cluster.rs do to a template.
use logdrain.Common.{
  List, [], ◌∷◌, ◌≡◌, refl, ◌⊎◌, inr, false, Text, length, nat_eq, list_eq, if◌then◌else◌, arith,
}
use logdrain.Cluster.{ClusterInner, any_differs, would_generalize, generalize_tokens, generalize}
use logdrain.Tokenize.{Token, OwnedToken}

module _ (wildcard : Text) where
  -- The test made under the read lock tells exactly whether `generalize` changes the template.
  pub any_differs-generalize_tokens :
      (template : List OwnedToken) (tokens : List Token)
      → any_differs wildcard template tokens ≡ (generalize_tokens wildcard template tokens).1
  unfolding any_differs generalize_tokens
  any_differs-generalize_tokens [] tokens = refl
  any_differs-generalize_tokens (t ∷ template) [] = refl
  any_differs-generalize_tokens (t ∷ template) (tok ∷ tokens) =
      ground (arith, any_differs-generalize_tokens template tokens)

  pub length-generalize_tokens :
      (template : List OwnedToken) (tokens : List Token)
      → length (generalize_tokens wildcard template tokens).0 ≡ length template
  unfolding generalize_tokens
  length-generalize_tokens [] tokens = refl
  length-generalize_tokens (t ∷ template) [] = refl
  length-generalize_tokens (t ∷ template) (tok ∷ tokens) =
      ground (arith, length-generalize_tokens template tokens)

  -- Every position of the template holds the wildcard or the line's token.
  abbrev pub Covers : List OwnedToken → List Token → Type 0
  Covers [] [] = Unit
  Covers [] (tok ∷ tokens) = ⊥
  Covers (t ∷ template) [] = ⊥
  Covers (t ∷ template) (tok ∷ tokens) =
      ((t.text ≡ wildcard) ⊎ (t.text ≡ tok.text)) × Covers template tokens

  -- Position by position the second template holds the wildcard or what the first one holds, with
  -- the same delimiters.
  abbrev pub Generalizes : List OwnedToken → List OwnedToken → Type 0
  Generalizes [] [] = Unit
  Generalizes [] (u ∷ other) = ⊥
  Generalizes (t ∷ template) [] = ⊥
  Generalizes (t ∷ template) (u ∷ other) =
      ((u.text ≡ wildcard) ⊎ (u.text ≡ t.text))
      × (u.leading_delim ≡ t.leading_delim)
      × (u.trailing_delim ≡ t.trailing_delim)
      × Generalizes template other

  pub Covers-generalize_tokens :
      (template : List OwnedToken) (tokens : List Token)
      → length template ≡ length tokens
      → Covers (generalize_tokens wildcard template tokens).0 tokens
  unfolding generalize_tokens
  Covers-generalize_tokens [] [] h = tt
  Covers-generalize_tokens [] (tok ∷ tokens) h = absurd (omega arith)
  Covers-generalize_tokens (t ∷ template) [] h = absurd (omega arith)
  Covers-generalize_tokens (t ∷ template) (tok ∷ tokens) h =
      ground (arith, Covers-generalize_tokens template tokens)

  Generalizes-refl : (template : List OwnedToken) → Generalizes template template
  Generalizes-refl [] = tt
  Generalizes-refl (t ∷ template) = (inr refl, refl, refl, Generalizes-refl template)

  pub Generalizes-generalize_tokens :
      (template : List OwnedToken) (tokens : List Token)
      → Generalizes template (generalize_tokens wildcard template tokens).0
  unfolding generalize_tokens
  Generalizes-generalize_tokens [] tokens = tt
  Generalizes-generalize_tokens (t ∷ template) [] = Generalizes-refl (t ∷ template)
  Generalizes-generalize_tokens (t ∷ template) (tok ∷ tokens) =
      ground (arith, Generalizes-generalize_tokens template tokens)

  -- It is the least such template.
  generalize_tokens_least :
      (template : List OwnedToken) (tokens : List Token) (other : List OwnedToken)
      → Generalizes template other
      → Covers other tokens
      → Generalizes (generalize_tokens wildcard template tokens).0 other
  unfolding generalize_tokens
  generalize_tokens_least [] [] [] g c = tt
  generalize_tokens_least (t ∷ template) (tok ∷ tokens) (u ∷ other) g c =
      ground (arith, generalize_tokens_least template tokens other)
  generalize_tokens_least [] [] (u ∷ other) g c = absurd g
  generalize_tokens_least [] (tok ∷ tokens) other g c = g
  generalize_tokens_least (t ∷ template) [] other g c = g
  generalize_tokens_least (t ∷ template) (tok ∷ tokens) [] g c = absurd g

  -- A more general template covers what the first one covers.
  pub Covers-Generalizes :
      (template other : List OwnedToken) (line : List Token)
      → Generalizes template other
      → Covers template line
      → Covers other line
  Covers-Generalizes [] [] [] g c = tt
  Covers-Generalizes (t ∷ template) (u ∷ other) (tok ∷ line) g c =
      ground (arith, Covers-Generalizes template other line)
  Covers-Generalizes [] [] (tok ∷ line) g c = absurd c
  Covers-Generalizes [] (u ∷ other) line g c = absurd g
  Covers-Generalizes (t ∷ template) [] line g c = absurd g
  Covers-Generalizes (t ∷ template) (u ∷ other) [] g c = absurd c

  any_differs-Covers :
      (template : List OwnedToken) (tokens : List Token)
      → Covers template tokens
      → any_differs wildcard template tokens ≡ false
  unfolding any_differs
  any_differs-Covers [] tokens c = refl
  any_differs-Covers (t ∷ template) [] c = absurd c
  any_differs-Covers (t ∷ template) (tok ∷ tokens) c =
      ground (arith, any_differs-Covers template tokens)

  Covers-any_differs :
      (template : List OwnedToken) (tokens : List Token)
      → length template ≡ length tokens
      → any_differs wildcard template tokens ≡ false
      → Covers template tokens
  unfolding any_differs
  Covers-any_differs [] [] h e = tt
  Covers-any_differs [] (tok ∷ tokens) h e = absurd (omega arith)
  Covers-any_differs (t ∷ template) [] h e = absurd (omega arith)
  Covers-any_differs (t ∷ template) (tok ∷ tokens) h e =
      ground (arith, Covers-any_differs template tokens)

  pub generalize_tokens-eq_self :
      (template : List OwnedToken) (tokens : List Token)
      → any_differs wildcard template tokens ≡ false
      → (generalize_tokens wildcard template tokens).0 ≡ template
  unfolding any_differs generalize_tokens
  generalize_tokens-eq_self [] tokens e = refl
  generalize_tokens-eq_self (t ∷ template) [] e = refl
  generalize_tokens-eq_self (t ∷ template) (tok ∷ tokens) e =
      ground (arith, generalize_tokens-eq_self template tokens)

  module _ (c : ClusterInner) (tokens : List Token) where
    -- `would_generalize` answers what `generalize` returns, whether a position changes; where it answers
    -- no, `generalize` leaves the body as it is.
    pub would_generalize-changed :
        (would_generalize c tokens wildcard ≡ (generalize c tokens wildcard).1)
        × ((generalize c tokens wildcard).0
            ≡ (if would_generalize c tokens wildcard then (generalize c tokens wildcard).0 else c))
    unfolding would_generalize generalize
    would_generalize-changed = (
      any_differs-generalize_tokens c.tokens tokens,
      ground (arith, generalize_tokens-eq_self c.tokens tokens),
    )

    -- On a line of the template's length, `generalize` gives the least template above the old one
    -- (with the wildcard above every text, and delimiters kept) that covers the line. After it, a
    -- second call with the line changes nothing.
    pub generalize-Covers :
        length c.tokens ≡ length tokens
        → let c' = (generalize c tokens wildcard).0 in
          Covers c'.tokens tokens
          × Generalizes c.tokens c'.tokens
          × ((other : List OwnedToken)
              → Generalizes c.tokens other
              → Covers other tokens
              → Generalizes c'.tokens other)
          × (would_generalize c' tokens wildcard ≡ false)
    unfolding generalize would_generalize
    generalize-Covers h =
        let covers = Covers-generalize_tokens c.tokens tokens h in
        (
          covers,
          Generalizes-generalize_tokens c.tokens tokens,
          generalize_tokens_least c.tokens tokens,
          any_differs-Covers _ tokens covers,
        )
