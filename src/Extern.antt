-- ===== src/Extern.antt =====
-- What the code of crates/logdrain takes from elsewhere, as interfaces: `f64` arithmetic and the
-- `regex` crate. The types are parameters, and an instance gives the operations.
use logdrain.Common.{ℕ, ◌≤◌, ◌<◌, ◌≡◌, Bool, true, not, Text, Result}

-- The operations on `f64` that the code uses. `from_ℕ n` is `n as f64`, and for a small `n` the
-- literal `n.0`. `as_secs_f64` takes a duration in nanoseconds, `two_fifths` is the literal 0.4.
pub record Float (F : Type 0) : Type 0 where
  pub from_ℕ : ℕ → F
  pub div : F → F → F
  pub flt : F → F → Bool
  pub fle : F → F → Bool
  pub as_secs_f64 : ℕ → F
  pub two_fifths : F
  pub display : F → Text

abbrev pub ratio : {F : Type 0} ⦃fl : Float F⦄ → ℕ → ℕ → F
ratio ⦃fl⦄ i n = fl.div (fl.from_ℕ i) (fl.from_ℕ n)

abbrev pub one : {F : Type 0} ⦃fl : Float F⦄ → F
one ⦃fl⦄ = fl.from_ℕ 1

-- IEEE 754: `<=` is transitive where it succeeds; the quotients `i / n` of lengths are numbers, so
-- that between them `<` is the negation of the reversed `<=`; rounding is monotone; a positive
-- number divided by itself is 1.0.
pub record IsIeee {F : Type 0} (fl : Float F) : Type 0 where
  pub fle_trans : (a b c : F) → fl.fle a b ≡ true → fl.fle b c ≡ true → fl.fle a c ≡ true
  pub flt_ratio :
      (i j n : ℕ)
      → 0 < n
      → fl.flt (ratio ⦃fl = fl⦄ i n) (ratio ⦃fl = fl⦄ j n)
        ≡ not (fl.fle (ratio ⦃fl = fl⦄ j n) (ratio ⦃fl = fl⦄ i n))
  pub ratio_mono :
      (i j n : ℕ) → 0 < n → i ≤ j → fl.fle (ratio ⦃fl = fl⦄ i n) (ratio ⦃fl = fl⦄ j n) ≡ true
  pub ratio_self : (n : ℕ) → 0 < n → ratio ⦃fl = fl⦄ n n ≡ one ⦃fl = fl⦄

-- `Cow<str>`: `borrowed` when nothing was replaced.
pub data Cow : Type 0 where
  borrowed owned : Text → Cow

abbrev pub as_ref : Cow → Text
as_ref (borrowed s) = s
as_ref (owned s) = s

-- `Regex::new`, with an error as its text, and `Regex::replace_all` (pattern, haystack, replacement).
pub record RegexEngine (R : Type 0) : Type 0 where
  pub compile : Text → Result Text R
  pub replace_all : R → Text → Text → Cow

-- `replace_all` documents that it returns the haystack borrowed if there was no match.
pub record IsReplacing {R : Type 0} (re : RegexEngine R) : Type 0 where
  pub borrowed_haystack : (p : R) (s r t : Text) → re.replace_all p s r ≡ borrowed t → t ≡ s
