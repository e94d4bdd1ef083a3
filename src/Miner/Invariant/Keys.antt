-- ===== src/Miner/Invariant/Keys.antt =====
-- Generalizing a template does not move it: its keys in crates/logdrain/src/miner.rs stay.
use logdrain.Common.{
  ℕ, zero, suc, List, [], ◌∷◌, ◌≡◌, refl, ap, false, Text, length, length-map, map, take, min,
  list_eq, nat_eq, ◌==◌, arith,
}
use mathlib.Core.List.{head-eq_of_cons-eq, tail-eq_of_cons-eq}
use logdrain.Cluster.{generalize_tokens}
use logdrain.Cluster.Generalize.{length-generalize_tokens}
use logdrain.Miner.State.{key_of, text_keys, descent_keys}
use logdrain.Options.{Options, prefix_len}
use logdrain.Tokenize.{Token, OwnedToken, to_owned}

module _ {F R : Type 0} (o : Options F R) where
  abbrev prefix_keys : ℕ → List Text → List Text
  prefix_keys n texts = map (key_of o) (take n texts)

  abbrev owned_texts : List OwnedToken → List Text
  owned_texts template = map (λ (t : OwnedToken). t.text) template

  abbrev token_texts : List Token → List Text
  token_texts tokens = map (λ (t : Token). t.text) tokens

  -- Two texts of one key: a text that the wildcard replaces has the wildcard as its key.
  key_of-wildcard :
      (t k : Text) → key_of o t ≡ key_of o k → (t == k) ≡ false → key_of o o.wildcard ≡ key_of o t
  key_of-wildcard t k e n = ground arith

  prefix_keys-generalize_tokens :
      (n : ℕ) (template : List OwnedToken) (tokens : List Token)
      → prefix_keys n (owned_texts template) ≡ prefix_keys n (token_texts tokens)
      → prefix_keys n (owned_texts (generalize_tokens o.wildcard template tokens).0)
        ≡ prefix_keys n (owned_texts template)
  unfolding generalize_tokens
  prefix_keys-generalize_tokens zero template tokens e = refl
  prefix_keys-generalize_tokens (suc n) [] tokens e = refl
  prefix_keys-generalize_tokens (suc n) (t ∷ template) [] e = refl
  prefix_keys-generalize_tokens (suc n) (t ∷ template) (tok ∷ tokens) e = ground (
    arith,
    prefix_keys-generalize_tokens n template tokens (tail-eq_of_cons-eq e),
    key_of-wildcard t.text tok.text (head-eq_of_cons-eq e),
  )

  pub descent_keys-prefix_keys :
      (tokens : List Token) → descent_keys o tokens ≡ text_keys o (token_texts tokens)
  unfolding descent_keys
  descent_keys-prefix_keys tokens = refl

  -- The keys of the new template are the keys of the line.
  pub text_keys-generalize_tokens :
      (template : List OwnedToken) (tokens : List Token)
      → length template ≡ length tokens
      → text_keys o (owned_texts template) ≡ descent_keys o tokens
      → text_keys o (owned_texts (generalize_tokens o.wildcard template tokens).0)
        ≡ descent_keys o tokens
  unfolding text_keys descent_keys
  text_keys-generalize_tokens template tokens h e = ground (
    arith,
    length-map (λ (t : OwnedToken). t.text) template,
    length-map (λ (t : Token). t.text) tokens,
    length-map (λ (t : OwnedToken). t.text) (generalize_tokens o.wildcard template tokens).0,
    length-generalize_tokens o.wildcard template tokens,
    prefix_keys-generalize_tokens (min (prefix_len o) (length tokens)) template tokens,
  )

  -- A new template has the texts of its line.
  pub owned_texts-to_owned :
      (tokens : List Token) → owned_texts (map to_owned tokens) ≡ token_texts tokens
  owned_texts-to_owned [] = refl
  owned_texts-to_owned (t ∷ tokens) = ap (λ texts. t.text ∷ texts) (owned_texts-to_owned tokens)
