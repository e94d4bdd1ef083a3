-- ===== src/Examples/Templates.antt =====
-- Templates of crates/logdrain/src/cluster.rs with path delimiters, rendered and tokenized again.
use logdrain.Common.{ℕ, List, [], ◌∷◌, none, some, ◌≡◌, refl, All, codes, map, ℕ_discrete, nat_eq}
use logdrain.Cluster
use logdrain.Cluster.{ClusterInner, render_template, render_tokens, render_rest}
use logdrain.Cluster.Reread.{IsSegment, owned_texts, tokenize_with-render_template}
use logdrain.Cluster.Time.{since_epoch}
use logdrain.Tokenize.{
  OwnedToken, to_owned, tokenize_with, path_loop, push_segment, tokenize_pieces, push_path_tokens,
}
use logdrain.Tokenize.Reread.{texts}
use logdrain.Tokenize.Words.{split_whitespace, split_words, flush}

abbrev delims : List ℕ
delims = 47 ∷ []

-- "GET /api/<*> ok"
abbrev template : List OwnedToken
template =
    record { text = codes "GET"; leading_delim = none; trailing_delim = none }
    ∷ record { text = codes "api"; leading_delim = some 47; trailing_delim = some 47 }
    ∷ record { text = codes "<*>"; leading_delim = some 47; trailing_delim = none }
    ∷ record { text = codes "ok"; leading_delim = none; trailing_delim = none }
    ∷ []

abbrev body : ClusterInner
body = Cluster.new 1 template (since_epoch 0) none none

template_segments : All (IsSegment delims) body.tokens
unfolding Cluster.new ℕ_discrete
template_segments = (
  record {
    filled = λ e. cc;
    dark = (refl, (refl, (refl, tt)));
    plain = (refl, (refl, (refl, tt)));
    leading = tt;
    trailing = tt;
  },
  (
    record {
      filled = λ e. cc;
      dark = (refl, (refl, (refl, tt)));
      plain = (refl, (refl, (refl, tt)));
      leading = (refl, refl);
      trailing = (refl, refl);
    },
    (
      record {
        filled = λ e. cc;
        dark = (refl, (refl, (refl, tt)));
        plain = (refl, (refl, (refl, tt)));
        leading = (refl, refl);
        trailing = tt;
      },
      (
        record {
          filled = λ e. cc;
          dark = (refl, (refl, tt));
          plain = (refl, (refl, tt));
          leading = tt;
          trailing = tt;
        },
        tt,
      ),
    ),
  ),
)

tokenize_with-render_template_example :
    texts (tokenize_with (render_template body) delims) ≡ owned_texts body.tokens
tokenize_with-render_template_example = tokenize_with-render_template delims body template_segments

-- The line "a/ / b" has three tokens, and one of them is a delimiter; of its template two come back.
three_tokens :
    texts (tokenize_with (codes "a/ / b") delims) ≡ codes "a" ∷ codes "/" ∷ codes "b" ∷ []
unfolding tokenize_with split_whitespace split_words flush tokenize_pieces push_path_tokens
    path_loop push_segment ℕ_discrete
three_tokens = refl

two_come_back :
    texts
      (tokenize_with (render_tokens (map to_owned (tokenize_with (codes "a/ / b") delims))) delims)
    ≡ codes "a" ∷ codes "b" ∷ []
unfolding tokenize_with split_whitespace split_words flush tokenize_pieces push_path_tokens
    path_loop push_segment ℕ_discrete render_tokens render_rest
two_come_back = refl
