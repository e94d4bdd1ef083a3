-- ===== src/Cli/Escape.antt =====
-- `unescape` of crates/logdrain-cli/src/main.rs, which reads the escapes of a separator.
use logdrain.Common.{
  ℕ, [], ◌∷◌, ◌++◌, ◌≡◌, refl, ap, Bool, true, false, Text, nat_eq, ◌==◌, if◌then◌else◌, arith,
  ℕ_discrete,
}

-- What an escape after a backslash stands for.
abbrev escaped : ℕ → Text
escaped c =
    if c == b'n'
    then 10 ∷ []
    else if c == b'r'
    then 13 ∷ []
    else if c == b't'
    then 9 ∷ []
    else if c == b'0'
    then 0 ∷ []
    else if c == 92
    then 92 ∷ []
    else 92 ∷ c ∷ []

-- `unescape`; the flag says that a backslash has just been read.
unfoldable unescape_loop : Bool → Text → Text
unescape_loop true [] = 92 ∷ []
unescape_loop false [] = []
unescape_loop true (c ∷ s) = escaped c ++ unescape_loop false s
unescape_loop false (c ∷ s) = elim (c == 92) [
  | true ↦ unescape_loop true s
  | false ↦ c ∷ unescape_loop false s
]

unfoldable pub unescape : Text → Text
unfolding unescape_loop
unescape s = unescape_loop false s

-- A writer of escapes, to compare with: every control character that has one, and the backslash.
abbrev escape_char : ℕ → Text
escape_char c =
    if c == 10
    then 92 ∷ b'n' ∷ []
    else if c == 13
    then 92 ∷ b'r' ∷ []
    else if c == 9
    then 92 ∷ b't' ∷ []
    else if c == 0
    then 92 ∷ b'0' ∷ []
    else if c == 92
    then 92 ∷ 92 ∷ []
    else c ∷ []

abbrev pub escape : Text → Text
escape [] = []
escape (c ∷ s) = escape_char c ++ escape s

unescape_loop-escape_char :
    (c : ℕ) (s : Text) → unescape_loop false (escape_char c ++ s) ≡ c ∷ unescape_loop false s
unfolding unescape_loop ℕ_discrete
unescape_loop-escape_char c s = ground arith

-- A text written with escapes is read back.
pub unescape-escape : (s : Text) → unescape (escape s) ≡ s
unfolding unescape
unescape-escape [] = refl
unescape-escape (c ∷ s) =
    rw (unescape_loop-escape_char c (escape s)) (ap (λ t. c ∷ t) (unescape-escape s))
