-- ===== src/Tokenize.antt =====
-- The tokenizer, crates/logdrain/src/tokenize.rs: whitespace splitting, path sub-tokens with the
-- delimiters round them, the first line of a record, and the numeric test.
pub mod Words
pub mod Clean
pub mod FirstLine
pub mod Reread
use logdrain.Common.{
  ℕ, List, [], ◌∷◌, ◌++◌, Option, none, some, Bool, true, false, not, ◌&&◌, ◌||◌, Text, length,
  is_empty, all, leb, contains, nat_eq, ◌==◌, if◌then◌else◌,
}
use logdrain.Tokenize.Words.{split_whitespace}

-- `struct Token`: a slice of the line with its path delimiters.
pub record Token : Type 0 where
  pub text : Text
  pub leading_delim : Option ℕ
  pub trailing_delim : Option ℕ

-- `struct OwnedToken`
pub record OwnedToken : Type 0 where
  pub text : Text
  pub leading_delim : Option ℕ
  pub trailing_delim : Option ℕ

-- `impl From<&Token> for OwnedToken`
abbrev pub to_owned : Token → OwnedToken
to_owned t = record {
  text = t.text;
  leading_delim = t.leading_delim;
  trailing_delim = t.trailing_delim;
}

-- `if !seg.is_empty() { out.push(…) }`
unfoldable pub push_segment : Text → Option ℕ → Option ℕ → List Token → List Token
push_segment seg leading trailing out =
    if is_empty seg
    then out
    else out ++ record { text = seg; leading_delim = leading; trailing_delim = trailing } ∷ []

-- The loop over `char_indices`: `seg` is `piece[seg_start..i]`. What follows the loop pushes the
-- last segment.
unfoldable pub path_loop : List ℕ → Option ℕ → Text → Text → List Token → List Token
unfolding push_segment
path_loop delims cur_leading seg [] out = push_segment seg cur_leading none out
path_loop delims cur_leading seg (ch ∷ rest) out = elim (contains delims ch) [
  | true ↦ path_loop delims (some ch) [] rest (push_segment seg cur_leading (some ch) out)
  | false ↦ path_loop delims cur_leading (seg ++ ch ∷ []) rest out
]

-- `push_path_tokens`: a piece of delimiters only is kept as one plain token.
unfoldable pub push_path_tokens : Text → List ℕ → List Token → List Token
unfolding path_loop
push_path_tokens piece delims out =
    let pushed = path_loop delims none [] piece out in
    if length pushed == length out && not (is_empty piece)
    then pushed ++ record { text = piece; leading_delim = none; trailing_delim = none } ∷ []
    else pushed

unfoldable pub tokenize_pieces : List Text → List ℕ → List Token → List Token
unfolding push_path_tokens
tokenize_pieces [] delims out = out
tokenize_pieces (piece ∷ pieces) delims out =
    tokenize_pieces pieces delims (push_path_tokens piece delims out)

-- `tokenize_with`
unfoldable pub tokenize_with : Text → List ℕ → List Token
unfolding tokenize_pieces
tokenize_with line delims = tokenize_pieces (split_whitespace line) delims []

-- `split_first_line`: at the first `\n`, which is dropped.
unfoldable pub split_first_line : Text → Text × Option Text
split_first_line [] = ([], none)
split_first_line (c ∷ line) =
    let (first, suffix) = split_first_line line in
    if c == 10 then ([], some line) else (c ∷ first, suffix)

-- `is_numeric_token`: not empty, and every byte an ASCII digit.
unfoldable pub is_numeric_token : Text → Bool
is_numeric_token s = not (is_empty s) && all (λ b. leb b'0' b && leb b b'9') s
