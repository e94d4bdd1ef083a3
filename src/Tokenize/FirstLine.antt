-- ===== src/Tokenize/FirstLine.antt =====
-- `split_first_line` of crates/logdrain/src/tokenize.rs.
use logdrain.Common.{
  ℕ, [], ◌∷◌, ◌++◌, Option, none, some, ◌≡◌, refl, false, Text, contains, nat_eq, ◌==◌, arith,
  Bool-cases, inl, inr,
}
use logdrain.Tokenize.{split_first_line}

-- The first line, with a line feed and the suffix behind it if there is one.
abbrev pub rejoin : Text × Option Text → Text
rejoin (first, none) = first
rejoin (first, some suffix) = first ++ 10 ∷ suffix

rejoin-cons : (c : ℕ) (r : Text × Option Text) → rejoin (c ∷ r.0, r.1) ≡ c ∷ rejoin r
rejoin-cons c (first, none) = refl
rejoin-cons c (first, some suffix) = refl

-- The first line has no line feed, and with the suffix after a line feed it is the record.
pub split_first_line-rejoin :
    (line : Text)
    → (contains (split_first_line line).0 10 ≡ false) × (rejoin (split_first_line line) ≡ line)
unfolding split_first_line
split_first_line-rejoin [] = (refl, refl)
split_first_line-rejoin (c ∷ line) =
    let (clean, whole) = split_first_line-rejoin line in
    elim (Bool-cases (c == 10)) [
      | inl e ↦ (ground arith, ground arith)
      | inr e ↦ (ground arith, ground (arith, rejoin-cons c (split_first_line line)))
    ]
