-- ===== src/Cli/Csv.antt =====
-- `csv_escape` of crates/logdrain-cli/src/format.rs.
use logdrain.Common.{
  ℕ, List, [], ◌∷◌, ◌++◌, ◌≡◌, refl, Bool, true, false, Text, any, contains, nat_eq, ◌==◌,
  if◌then◌else◌, arith, ℕ_discrete,
}

-- The characters that ask for quotes: a comma, a quote, a line feed, a carriage return.
abbrev pub special : List ℕ
special = 44 ∷ 34 ∷ 10 ∷ 13 ∷ []

-- `field.replace('"', "\"\"")`
unfoldable pub double_quotes : Text → Text
double_quotes [] = []
double_quotes (c ∷ field) =
    if c == 34 then 34 ∷ 34 ∷ double_quotes field else c ∷ double_quotes field

unfoldable pub csv_escape : Text → Text
csv_escape field =
    if any (contains special) field then 34 ∷ (double_quotes field ++ 34 ∷ []) else field

-- A reader of a field, to compare with: it ends at a quote that no second quote follows.
abbrev read_quoted : Bool → Text → Text
read_quoted quote [] = []
read_quoted false (c ∷ rest) = if c == 34 then read_quoted true rest else c ∷ read_quoted false rest
read_quoted true (c ∷ rest) = if c == 34 then 34 ∷ read_quoted false rest else []

abbrev pub read_field : Text → Text
read_field [] = []
read_field (c ∷ rest) = if c == 34 then read_quoted false rest else c ∷ rest

read_quoted-double_quotes :
    (field : Text) → read_quoted false (double_quotes field ++ 34 ∷ []) ≡ field
unfolding double_quotes ℕ_discrete
read_quoted-double_quotes [] = refl
read_quoted-double_quotes (c ∷ field) = ground (arith, read_quoted-double_quotes field)

-- A field is read back from what `csv_escape` makes of it.
pub read_field-csv_escape : (field : Text) → read_field (csv_escape field) ≡ field
unfolding csv_escape ℕ_discrete
read_field-csv_escape [] = refl
read_field-csv_escape (c ∷ field) = ground (arith, read_quoted-double_quotes (c ∷ field))
