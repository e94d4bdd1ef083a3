-- ===== src/Tokenize/Words.antt =====
-- `str::split_whitespace`, by which crates/logdrain/src/tokenize.rs finds its pieces.
use logdrain.Common.{ℕ, List, [], ◌∷◌, ◌++◌, Bool, true, false, ◌&&◌, ◌||◌, Text, leb, nat_eq, ◌==◌}

-- `char::is_whitespace`: the code points with the property White_Space.
abbrev pub is_whitespace : ℕ → Bool
is_whitespace c =
    (leb 9 c && leb c 13)
    || c == 32
    || c == 0x85
    || c == 0xa0
    || c == 0x1680
    || (leb 0x2000 c && leb c 0x200a)
    || c == 0x2028
    || c == 0x2029
    || c == 0x202f
    || c == 0x205f
    || c == 0x3000

unfoldable pub flush : Text → List Text → List Text
flush [] words = words
flush (c ∷ word) words = (c ∷ word) ∷ words

-- `word` is the run of other characters read so far.
unfoldable pub split_words : Text → Text → List Text
unfolding flush
split_words word [] = flush word []
split_words word (c ∷ rest) = elim (is_whitespace c) [
  | true ↦ flush word (split_words [] rest)
  | false ↦ split_words (word ++ c ∷ []) rest
]

unfoldable pub split_whitespace : Text → List Text
unfolding split_words
split_whitespace line = split_words [] line
