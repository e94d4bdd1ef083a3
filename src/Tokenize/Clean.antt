-- ===== src/Tokenize/Clean.antt =====
-- What the tokens of crates/logdrain/src/tokenize.rs are made of.
use logdrain.Common.{
  ℕ, ◌+◌, ◌≤◌, List, [], ◌∷◌, ◌++◌, append_assoc, Option, none, some, ◌≡◌, ◌≢◌, refl, ◌∙◌, ap, ◌⊎◌,
  inl, inr, true, false, Text, length, length-append, All, All-append, contains, nat_eq, ◌==◌,
  ==_eq, if◌then◌else◌, arith, Bool-cases,
}
use logdrain.Tokenize.{
  Token, push_segment, path_loop, push_path_tokens, tokenize_pieces, tokenize_with,
}
use logdrain.Tokenize.Words.{is_whitespace, flush, split_words, split_whitespace}

abbrev pub IsDark : ℕ → Type 0
IsDark c = is_whitespace c ≡ false

-- A piece between whitespace: some characters, none of them whitespace.
abbrev pub IsWord : Text → Type 0
IsWord word = (word ≢ []) × All IsDark word

flush-IsWord :
    (word : Text) (words : List Text)
    → All IsDark word
    → All IsWord words
    → All IsWord (flush word words)
unfolding flush
flush-IsWord [] words d h = h
flush-IsWord (c ∷ word) words d h = (((λ e. cc), d), h)

split_words-IsWord : (rest word : Text) → All IsDark word → All IsWord (split_words word rest)
unfolding split_words
split_words-IsWord [] word d = flush-IsWord word [] d tt
split_words-IsWord (c ∷ rest) word d = elim (Bool-cases (is_whitespace c)) [
  | inl e ↦
      rw (e, split_words)
        (flush-IsWord word (split_words [] rest) d (split_words-IsWord rest [] tt))
  | inr e ↦
      rw (e, split_words)
        (split_words-IsWord rest (word ++ c ∷ []) (All-append IsDark word (c ∷ []) d (e, tt)))
]

-- The characters that are not whitespace, in order.
abbrev pub dark : Text → Text
dark [] = []
dark (c ∷ text) = if is_whitespace c then dark text else c ∷ dark text

abbrev pub concat : List Text → Text
concat [] = []
concat (t ∷ texts) = t ++ concat texts

concat-flush : (word : Text) (words : List Text) → concat (flush word words) ≡ word ++ concat words
unfolding flush
concat-flush [] words = refl
concat-flush (c ∷ word) words = refl

concat-split_words : (rest word : Text) → concat (split_words word rest) ≡ word ++ dark rest
unfolding split_words
concat-split_words [] word = concat-flush word []
concat-split_words (c ∷ rest) word = elim (Bool-cases (is_whitespace c)) [
  | inl e ↦
      rw (e, split_words)
        (concat-flush word (split_words [] rest) ∙ ap (λ t. word ++ t) (concat-split_words rest []))
  | inr e ↦
      rw (e, split_words)
        (concat-split_words rest (word ++ c ∷ []) ∙ append_assoc word (c ∷ []) (dark rest))
]

-- Splitting at whitespace gives words without whitespace, none of them empty, whose characters are
-- those of the line that are not whitespace, in order.
pub split_whitespace-IsWord :
    (line : Text)
    → All IsWord (split_whitespace line) × (concat (split_whitespace line) ≡ dark line)
unfolding split_whitespace
split_whitespace-IsWord line = (split_words-IsWord line [] tt, concat-split_words line [])

module _ (delims : List ℕ) where
  abbrev pub IsPlain : ℕ → Type 0
  IsPlain c = contains delims c ≡ false

  abbrev IsDelim : ℕ → Type 0
  IsDelim c = contains delims c ≡ true

  -- A token: a word in which either no character is a delimiter, or every one is.
  abbrev pub IsClean : Token → Type 0
  IsClean t = IsWord t.text × (All IsPlain t.text ⊎ All IsDelim t.text)

  push_segment-IsClean :
      (seg : Text) (leading trailing : Option ℕ) (out : List Token)
      → All IsDark seg
      → All IsPlain seg
      → All IsClean out
      → All IsClean (push_segment seg leading trailing out)
  unfolding push_segment
  push_segment-IsClean [] leading trailing out d p h = h
  push_segment-IsClean (c ∷ seg) leading trailing out d p h =
      All-append IsClean out _ h ((((λ e. cc), d), inl p), tt)

  length-push_segment :
      (seg : Text) (leading trailing : Option ℕ) (out : List Token)
      → (length (push_segment seg leading trailing out) ≡ length out) × (seg ≡ [])
        ⊎ (length out + 1 ≤ length (push_segment seg leading trailing out))
  unfolding push_segment
  length-push_segment [] leading trailing out = inl (refl, refl)
  length-push_segment (c ∷ seg) leading trailing out = inr (
      omega (
        arith,
        length-append out
            (record { text = c ∷ seg; leading_delim = leading; trailing_delim = trailing } ∷ []),
      ))

  path_loop-IsClean :
      (rest : Text) (leading : Option ℕ) (seg : Text) (out : List Token)
      → All IsDark rest
      → All IsDark seg
      → All IsPlain seg
      → All IsClean out
      → All IsClean (path_loop delims leading seg rest out)
  unfolding path_loop
  path_loop-IsClean [] leading seg out r d p h = push_segment-IsClean seg leading none out d p h
  path_loop-IsClean (c ∷ rest) leading seg out r d p h = elim (Bool-cases (contains delims c)) [
    | inl e ↦
        rw (e, path_loop)
          (path_loop-IsClean rest (some c) [] (push_segment seg leading (some c) out) r.1 tt tt
            (push_segment-IsClean seg leading (some c) out d p h))
    | inr e ↦
        rw (e, path_loop)
          (path_loop-IsClean rest leading (seg ++ c ∷ []) out r.1
            (All-append IsDark seg (c ∷ []) d (r.0, tt)) (All-append IsPlain seg (c ∷ []) p (e, tt))
            h)
  ]

  length-path_loop_le :
      (rest : Text) (leading : Option ℕ) (seg : Text) (out : List Token)
      → length out ≤ length (path_loop delims leading seg rest out)
  unfolding path_loop
  length-path_loop_le [] leading seg out = ground (arith, length-push_segment seg leading none out)
  length-path_loop_le (c ∷ rest) leading seg out = elim (Bool-cases (contains delims c)) [
    | inl e ↦
        rw (e, path_loop)
          (ground (
            arith,
            length-push_segment seg leading (some c) out,
            length-path_loop_le rest (some c) [] (push_segment seg leading (some c) out),
          ))
    | inr e ↦ rw (e, path_loop) (length-path_loop_le rest leading (seg ++ c ∷ []) out)
  ]

  append_ne : (seg : Text) (c : ℕ) → (seg ++ c ∷ []) ≢ []
  append_ne [] c e = cc
  append_ne (b ∷ seg) c e = cc

  -- The loop pushes something, or the piece has only delimiters.
  length-path_loop :
      (rest : Text) (leading : Option ℕ) (seg : Text) (out : List Token)
      → (seg ≡ []) × All IsDelim rest
        ⊎ (length out + 1 ≤ length (path_loop delims leading seg rest out))
  unfolding path_loop
  length-path_loop [] leading seg out = elim (length-push_segment seg leading none out) [
    | inl (same, empty) ↦ inl (empty, tt)
    | inr more ↦ inr more
  ]
  length-path_loop (c ∷ rest) leading seg out = elim (Bool-cases (contains delims c)) [
    | inl e ↦
        let out' = push_segment seg leading (some c) out in
        elim (length-push_segment seg leading (some c) out) [
          | inr more ↦
              inr
                (rw (e, path_loop) (omega (arith, more, length-path_loop_le rest (some c) [] out')))
          | inl (same, empty) ↦ elim (length-path_loop rest (some c) [] out') [
            | inl (_, delimiters) ↦ inl (empty, (e, delimiters))
            | inr more ↦ inr (rw (e, path_loop) (omega (arith, same, more)))
          ]
        ]
    | inr e ↦ elim (length-path_loop rest leading (seg ++ c ∷ []) out) [
      | inl (empty, _) ↦ absurd (append_ne seg c empty)
      | inr more ↦ inr (rw (e, path_loop) more)
    ]
  ]

  push_path_tokens-IsClean :
      (piece : Text) (out : List Token)
      → IsWord piece
      → All IsClean out
      → All IsClean (push_path_tokens piece delims out)
  unfolding push_path_tokens
  push_path_tokens-IsClean [] out w h = absurd (w.0 refl)
  push_path_tokens-IsClean (c ∷ piece) out w h =
      let pushed = path_loop delims none [] (c ∷ piece) out in
      let clean = path_loop-IsClean (c ∷ piece) none [] out w.1 tt tt h in
      elim (Bool-cases (length pushed == length out)) [
        | inr e ↦ rw e clean
        | inl e ↦ elim (length-path_loop (c ∷ piece) none [] out) [
          | inr more ↦
              let same : length pushed ≡ length out = ==_eq e in absurd (omega (arith, more, same))
          | inl (_, delimiters) ↦ rw e (All-append IsClean pushed _ clean ((w, inr delimiters), tt))
        ]
      ]

  tokenize_pieces-IsClean :
      (pieces : List Text) (out : List Token)
      → All IsWord pieces
      → All IsClean out
      → All IsClean (tokenize_pieces pieces delims out)
  unfolding tokenize_pieces
  tokenize_pieces-IsClean [] out w h = h
  tokenize_pieces-IsClean (piece ∷ pieces) out w h =
      tokenize_pieces-IsClean pieces (push_path_tokens piece delims out) w.1
        (push_path_tokens-IsClean piece out w.0 h)

  -- Every token of a line is a word in which no character is a path delimiter, or every one is.
  pub tokenize_with-IsClean : (line : Text) → All IsClean (tokenize_with line delims)
  unfolding tokenize_with
  tokenize_with-IsClean line =
      tokenize_pieces-IsClean (split_whitespace line) [] (split_whitespace-IsWord line).0 tt
