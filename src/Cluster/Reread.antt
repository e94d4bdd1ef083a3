-- ===== src/Cluster/Reread.antt =====
-- The rendered template of crates/logdrain/src/cluster.rs with path delimiters, read again by
-- `tokenize_with` of crates/logdrain/src/tokenize.rs.
use logdrain.Common.{
  ℕ, List, [], ◌∷◌, ◌++◌, append-nil, append_assoc, Option, none, some, ◌≡◌, ◌≢◌, refl, sym, ◌∙◌,
  ap, true, Text, All, contains, map, nat_eq, ℕ_discrete,
}
use logdrain.Cluster.{ClusterInner, push_option, render_template, render_tokens, render_rest}
use logdrain.Cluster.Render.{split_words-append, flush-cons}
use logdrain.Tokenize.{Token, OwnedToken, push_path_tokens, tokenize_pieces, tokenize_with}
use logdrain.Tokenize.Clean.{IsDark, IsPlain}
use logdrain.Tokenize.Reread.{
  texts, IsRead, first-IsRead, leading-IsRead, next-IsRead, texts_closed, texts_delimited,
}
use logdrain.Tokenize.Words.{flush, split_words, split_whitespace}

-- A delimiter that is not whitespace, where there is one.
abbrev pub IsDelim : List ℕ → Option ℕ → Type 0
IsDelim delims none = Unit
IsDelim delims (some c) = (contains delims c ≡ true) × IsDark c

-- A token with a text that is neither empty nor broken up by whitespace or a delimiter.
pub record IsSegment (delims : List ℕ) (t : OwnedToken) : Type 0 where
  pub filled : t.text ≢ []
  pub dark : All IsDark t.text
  pub plain : All (IsPlain delims) t.text
  pub leading : IsDelim delims t.leading_delim
  pub trailing : IsDelim delims t.trailing_delim

abbrev pub owned_texts : List OwnedToken → List Text
owned_texts tokens = map (λ (t : OwnedToken). t.text) tokens

append_ne : (word rest : Text) (c : ℕ) → word ++ c ∷ rest ≢ []
append_ne [] rest c e = cc
append_ne (d ∷ word) rest c e = cc

append_right_ne : (word rest : Text) → rest ≢ [] → word ++ rest ≢ []
append_right_ne [] rest n e = n e
append_right_ne (d ∷ word) rest n e = cc

module _ (delims : List ℕ) where
  -- The first text of a word, with the delimiter before it.
  start_of_word :
      (leading : Option ℕ) (text : Text)
      → IsDelim delims leading
      → All (IsPlain delims) text
      → IsRead delims (push_option leading ++ text) [] text
  start_of_word none text d h = first-IsRead delims text h
  start_of_word (some c) text d h = leading-IsRead delims c text d.0 h

  -- The same characters, as they are split off the line.
  split_words_start :
      (leading : Option ℕ) (text rest : Text)
      → IsDelim delims leading
      → All IsDark text
      → split_words [] (push_option leading ++ (text ++ rest))
        ≡ split_words (push_option leading ++ text) rest
  unfolding split_words
  split_words_start none text rest d h = split_words-append text [] rest h
  split_words_start (some c) text rest d h =
      rw (d.1, split_words) (split_words-append text (c ∷ []) rest h)

  -- From a token on, with the word `word` open in which `done` has been pushed and `seg` is open.
  texts-render_rest :
      (tokens : List OwnedToken) (prev : Option ℕ) (word : Text) (done : List Text) (seg : Text)
      (out : List Token)
      → IsRead delims word done seg
      → word ≢ []
      → seg ≢ []
      → IsDelim delims prev
      → All (IsSegment delims) tokens
      → texts (tokenize_pieces (split_words word (render_rest prev tokens)) delims out)
        ≡ texts out ++ ((done ++ seg ∷ []) ++ owned_texts tokens)
  unfolding split_words render_rest tokenize_pieces ℕ_discrete
  texts-render_rest [] none word done seg out r w n d h =
      ap (λ ws. texts (tokenize_pieces ws delims out)) (flush-cons word [] w)
      ∙ texts_closed delims word done seg out r n
      ∙ ap (λ ts. texts out ++ ts) (sym (append-nil (done ++ seg ∷ [])))
  texts-render_rest [] (some c) word done seg out r w n d h =
      rw (d.1, split_words)
        (ap (λ ws. texts (tokenize_pieces ws delims out))
            (flush-cons (word ++ c ∷ []) [] (append_ne word [] c))
          ∙ texts_delimited delims word done seg c out r n d.0
          ∙ ap (λ ts. texts out ++ ts) (sym (append-nil (done ++ seg ∷ []))))
  texts-render_rest (t ∷ tokens) none word done seg out r w n d h =
      let own = push_option t.leading_delim ++ t.text in
      let closed = push_path_tokens word delims out in
      ap (λ ws. texts (tokenize_pieces (flush word ws) delims out))
        (split_words_start t.leading_delim t.text (render_rest t.trailing_delim tokens) h.0.leading
          h.0.dark)
      ∙ ap (λ ws. texts (tokenize_pieces ws delims out)) (flush-cons word _ w)
      ∙ texts-render_rest tokens t.trailing_delim own [] t.text closed
          (start_of_word t.leading_delim t.text h.0.leading h.0.plain)
          (append_right_ne (push_option t.leading_delim) t.text h.0.filled) h.0.filled h.0.trailing
          h.1
      ∙ ap (λ ts. ts ++ t.text ∷ owned_texts tokens) (texts_closed delims word done seg out r n)
      ∙ append_assoc (texts out) (done ++ seg ∷ []) (t.text ∷ owned_texts tokens)
  texts-render_rest (t ∷ tokens) (some c) word done seg out r w n d h =
      rw (d.1, split_words)
        (ap (λ ws. texts (tokenize_pieces ws delims out))
            (split_words-append t.text (word ++ c ∷ []) (render_rest t.trailing_delim tokens)
                h.0.dark
              ∙ ap (λ word'. split_words word' (render_rest t.trailing_delim tokens))
                  (append_assoc word (c ∷ []) t.text))
          ∙ texts-render_rest tokens t.trailing_delim (word ++ c ∷ t.text) (done ++ seg ∷ []) t.text
              out (next-IsRead delims word done seg c t.text r n d.0 h.0.plain)
              (append_ne word t.text c) h.0.filled h.0.trailing h.1
          ∙ ap (λ ts. texts out ++ ts)
              (append_assoc (done ++ seg ∷ []) (t.text ∷ []) (owned_texts tokens)))

  texts-render_tokens :
      (tokens : List OwnedToken)
      → All (IsSegment delims) tokens
      → texts (tokenize_with (render_tokens tokens) delims) ≡ owned_texts tokens
  unfolding tokenize_with render_tokens split_whitespace split_words tokenize_pieces
  texts-render_tokens [] h = refl
  texts-render_tokens (t ∷ tokens) h =
      ap (λ ws. texts (tokenize_pieces ws delims []))
        (split_words_start t.leading_delim t.text (render_rest t.trailing_delim tokens) h.0.leading
          h.0.dark)
      ∙ texts-render_rest tokens t.trailing_delim (push_option t.leading_delim ++ t.text) [] t.text
          [] (start_of_word t.leading_delim t.text h.0.leading h.0.plain)
          (append_right_ne (push_option t.leading_delim) t.text h.0.filled) h.0.filled h.0.trailing
          h.1

  -- A template whose texts are neither empty nor broken up by whitespace or a path delimiter, and whose
  -- path delimiters are not whitespace, is rendered to a line that the tokenizer splits into the same
  -- texts, in order.
  pub tokenize_with-render_template :
      (c : ClusterInner)
      → All (IsSegment delims) c.tokens
      → texts (tokenize_with (render_template c) delims) ≡ owned_texts c.tokens
  unfolding tokenize_with render_template
  tokenize_with-render_template c h = texts-render_tokens c.tokens h
