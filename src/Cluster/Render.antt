-- ===== src/Cluster/Render.antt =====
-- The rendered template of crates/logdrain/src/cluster.rs, read again by the tokenizer.
use logdrain.Common.{
  List, [], ◌∷◌, ◌++◌, append-nil, append_assoc, none, ◌≡◌, ◌≢◌, refl, sym, ◌∙◌, ap, Text, All, map,
  ℕ_discrete,
}
use logdrain.Cluster.{ClusterInner, render_template, render_tokens, render_rest}
use logdrain.Tokenize.{OwnedToken}
use logdrain.Tokenize.Clean.{IsDark, IsWord}
use logdrain.Tokenize.Words.{flush, split_words, split_whitespace}

-- A token without path delimiters.
abbrev pub without_delims : Text → OwnedToken
without_delims text = record { text = text; leading_delim = none; trailing_delim = none }

pub split_words-append :
    (text word rest : Text)
    → All IsDark text
    → split_words word (text ++ rest) ≡ split_words (word ++ text) rest
unfolding split_words
split_words-append [] word rest d = ap (λ w. split_words w rest) (sym (append-nil word))
split_words-append (c ∷ text) word rest d =
    rw (d.0, split_words)
      (split_words-append text (word ++ c ∷ []) rest d.1
        ∙ ap (λ w. split_words w rest) (append_assoc word (c ∷ []) text))

pub flush-cons : (word : Text) (words : List Text) → word ≢ [] → flush word words ≡ word ∷ words
unfolding flush
flush-cons [] words n = absurd (n refl)
flush-cons (c ∷ word) words n = refl

split_words-render_rest :
    (texts : List Text) (word : Text)
    → word ≢ []
    → All IsWord texts
    → split_words word (render_rest none (map without_delims texts)) ≡ word ∷ texts
unfolding split_words render_rest ℕ_discrete
split_words-render_rest [] word n h = flush-cons word [] n
split_words-render_rest (text ∷ texts) word n h =
    flush-cons word _ n
    ∙ ap (λ words. word ∷ words)
        (split_words-append text [] (render_rest none (map without_delims texts)) h.0.1
          ∙ split_words-render_rest texts text h.0.0 h.1)

-- Where no token of a template has a path delimiter and every token is a word without whitespace, the
-- rendered template splits at whitespace into the tokens' texts.
pub split_whitespace-render_template :
    (c : ClusterInner) (texts : List Text)
    → c.tokens ≡ map without_delims texts
    → All IsWord texts
    → split_whitespace (render_template c) ≡ texts
unfolding split_whitespace render_template render_tokens split_words
split_whitespace-render_template c [] e h = rw e refl
split_whitespace-render_template c (text ∷ texts) e h = rw e (
    split_words-append text [] (render_rest none (map without_delims texts)) h.0.1
    ∙ split_words-render_rest texts text h.0.0 h.1)
