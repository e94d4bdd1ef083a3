-- ===== src/Cli/Output/Table.antt =====
-- The CSV that `render_csv` of crates/logdrain-cli/src/format.rs writes, against a reader of the quoting
-- of RFC 4180 that takes a carriage return, a line feed, or both, for the end of a row.
use logdrain.Common.{
  ℕ, List, [], ◌∷◌, ◌++◌, append-nil, append_assoc, ◌≡◌, refl, ◌∙◌, ap, false, Text, codes, map,
  any, contains, nat_eq, ◌==◌, if◌then◌else◌, arith, ℕ_discrete, Bool-cases, inl, inr,
}
use logdrain.Common.Decimal.{to_string}
use logdrain.Cli.Csv.{csv_escape, double_quotes, special}
use logdrain.Cli.Output.{Writer, join, csv_line, csv_row, csv_rows, render_csv}
use logdrain.Cluster.{Cluster}
use logdrain.Extern.{Float}

-- Where the reader stands in a field: at its start, in a plain one, between quotes, behind a quote; or
-- behind a carriage return that has ended a row.
pub data Mode : Type 0 where
  start plain quoted quote_seen return_seen : Mode

pub data Kind : Type 0 where
  quote comma feed return other : Kind

abbrev pub kind : ℕ → Kind
kind c =
    if c == 34
    then Kind.quote
    else if c == 44
    then Kind.comma
    else if c == 10
    then Kind.feed
    else if c == 13
    then Kind.return
    else Kind.other

-- The rows of a text; `field` and `row` are what was read so far.
unfoldable pub read_table : Text → Mode → Text → List Text → List (List Text)
read_table [] mode [] [] = []
read_table [] mode (c ∷ field) [] = ((c ∷ field) ∷ []) ∷ []
read_table [] mode field (f ∷ row) = ((f ∷ row) ++ field ∷ []) ∷ []
read_table (c ∷ rest) Mode.start field row = elim (kind c) [
  | quote ↦ read_table rest Mode.quoted field row
  | comma ↦ read_table rest Mode.start [] (row ++ field ∷ [])
  | feed ↦ (row ++ field ∷ []) ∷ read_table rest Mode.start [] []
  | return ↦ (row ++ field ∷ []) ∷ read_table rest Mode.return_seen [] []
  | other ↦ read_table rest Mode.plain (field ++ c ∷ []) row
]
read_table (c ∷ rest) Mode.plain field row = elim (kind c) [
  | quote ↦ read_table rest Mode.plain (field ++ c ∷ []) row
  | comma ↦ read_table rest Mode.start [] (row ++ field ∷ [])
  | feed ↦ (row ++ field ∷ []) ∷ read_table rest Mode.start [] []
  | return ↦ (row ++ field ∷ []) ∷ read_table rest Mode.return_seen [] []
  | other ↦ read_table rest Mode.plain (field ++ c ∷ []) row
]
read_table (c ∷ rest) Mode.quoted field row = elim (kind c) [
  | quote ↦ read_table rest Mode.quote_seen field row
  | comma ↦ read_table rest Mode.quoted (field ++ c ∷ []) row
  | feed ↦ read_table rest Mode.quoted (field ++ c ∷ []) row
  | return ↦ read_table rest Mode.quoted (field ++ c ∷ []) row
  | other ↦ read_table rest Mode.quoted (field ++ c ∷ []) row
]
read_table (c ∷ rest) Mode.quote_seen field row = elim (kind c) [
  | quote ↦ read_table rest Mode.quoted (field ++ c ∷ []) row
  | comma ↦ read_table rest Mode.start [] (row ++ field ∷ [])
  | feed ↦ (row ++ field ∷ []) ∷ read_table rest Mode.start [] []
  | return ↦ (row ++ field ∷ []) ∷ read_table rest Mode.return_seen [] []
  | other ↦ read_table rest Mode.plain (field ++ c ∷ []) row
]
read_table (c ∷ rest) Mode.return_seen field row = elim (kind c) [
  | quote ↦ read_table rest Mode.quoted field row
  | comma ↦ read_table rest Mode.start [] (row ++ field ∷ [])
  | feed ↦ read_table rest Mode.start [] []
  | return ↦ (row ++ field ∷ []) ∷ read_table rest Mode.return_seen [] []
  | other ↦ read_table rest Mode.plain (field ++ c ∷ []) row
]

-- The rows of a whole text.
abbrev pub table_of : Text → List (List Text)
unfolding read_table
table_of s = read_table s Mode.start [] []

-- In a field, and not between its quotes.
abbrev IsInField : Mode → Type 0
IsInField Mode.start = Unit
IsInField Mode.plain = Unit
IsInField Mode.quoted = ⊥
IsInField Mode.quote_seen = Unit
IsInField Mode.return_seen = ⊥

module _ (row : List Text) (rest : Text) where
  read_plain :
      (field s : Text)
      → any (contains special) s ≡ false
      → read_table (s ++ rest) Mode.plain field row ≡ read_table rest Mode.plain (field ++ s) row
  unfolding read_table ℕ_discrete
  read_plain field [] h = rw (append-nil field)
  read_plain field (c ∷ s) h =
      ground (arith, read_plain (field ++ c ∷ []) s, append_assoc field (c ∷ []) s)

  read_quoted :
      (field s : Text)
      → read_table (double_quotes s ++ 34 ∷ rest) Mode.quoted field row
        ≡ read_table rest Mode.quote_seen (field ++ s) row
  unfolding read_table double_quotes ℕ_discrete
  read_quoted field [] = rw (append-nil field)
  read_quoted field (c ∷ s) =
      ground (arith, read_quoted (field ++ c ∷ []) s, append_assoc field (c ∷ []) s)

  -- A field as `csv_escape` writes it is read, and the reader stands outside of quotes.
  read_escaped :
      (s : Text)
      → (mode : Mode) × IsInField mode
        × (read_table (csv_escape s ++ rest) Mode.start [] row ≡ read_table rest mode s row)
  unfolding csv_escape read_table ℕ_discrete
  read_escaped [] = (Mode.start, tt, refl)
  read_escaped (c ∷ s) = elim (Bool-cases (any (contains special) (c ∷ s))) [
    | inl e ↦ (
      Mode.quote_seen,
      tt,
      rw e (rw (append_assoc (double_quotes (c ∷ s)) (34 ∷ []) rest) (read_quoted [] (c ∷ s))),
    )
    | inr e ↦ (Mode.plain, tt, rw e (ground (arith, read_plain (c ∷ []) s)))
  ]

-- Outside of quotes a comma ends the field, and a line feed the row.
read_comma :
    (row : List Text) (rest field : Text) (mode : Mode)
    → IsInField mode
    → read_table (44 ∷ rest) mode field row ≡ read_table rest Mode.start [] (row ++ field ∷ [])
unfolding read_table ℕ_discrete
read_comma row rest field Mode.start h = refl
read_comma row rest field Mode.plain h = refl
read_comma row rest field Mode.quoted h = absurd h
read_comma row rest field Mode.quote_seen h = refl
read_comma row rest field Mode.return_seen h = absurd h

read_feed :
    (row : List Text) (rest field : Text) (mode : Mode)
    → IsInField mode
    → read_table (10 ∷ rest) mode field row ≡ (row ++ field ∷ []) ∷ table_of rest
unfolding read_table ℕ_discrete
read_feed row rest field Mode.start h = refl
read_feed row rest field Mode.plain h = refl
read_feed row rest field Mode.quoted h = absurd h
read_feed row rest field Mode.quote_seen h = refl
read_feed row rest field Mode.return_seen h = absurd h

read_row :
    (rest : Text) (row : List Text) (field : Text) (more : List Text)
    → read_table (csv_line (field ∷ more) ++ rest) Mode.start [] row
      ≡ (row ++ field ∷ more) ∷ table_of rest
unfolding join
read_row rest row field [] =
    let (mode, out, e) = read_escaped row (10 ∷ rest) field in
    rw (append_assoc (csv_escape field) (10 ∷ []) rest) (e ∙ read_feed row rest field mode out)
read_row rest row field (next ∷ more) =
    let line = csv_line (next ∷ more) ++ rest in
    let (mode, out, e) = read_escaped row (44 ∷ line) field in
    let cells = join (codes ",") (map csv_escape (next ∷ more)) in
    rw
      (
        append_assoc (csv_escape field) (44 ∷ cells) (10 ∷ []),
        append_assoc (csv_escape field) (44 ∷ (cells ++ 10 ∷ [])) rest,
      )
      (e
        ∙ read_comma row line field mode out
        ∙ read_row rest (row ++ field ∷ []) next more
        ∙ ap (λ r. r ∷ table_of rest) (append_assoc row (field ∷ []) (next ∷ more)))

-- The names in the first row.
abbrev pub column_names : List Text
column_names =
    codes "id"
    ∷ codes "size"
    ∷ codes "rate_per_min"
    ∷ codes "template"
    ∷ codes "created_at"
    ∷ codes "updated_at"
    ∷ codes "event_first_seen"
    ∷ codes "event_last_seen"
    ∷ codes "event_rate_per_min"
    ∷ codes "members"
    ∷ codes "suffix"
    ∷ []

module _ {F V : Type 0} (fl : Float F) (w : Writer F V) where
  read_rows :
      (clusters : List Cluster) → table_of (csv_rows fl w clusters) ≡ map (csv_row fl w) clusters
  unfolding csv_rows csv_row read_table
  read_rows [] = refl
  read_rows (c ∷ clusters) =
      read_row (csv_rows fl w clusters) [] (to_string c.id) _
      ∙ ap (λ rows. csv_row fl w c ∷ rows) (read_rows clusters)

  -- A reader that knows the quotes of RFC 4180, and outside of quotes takes a carriage return, a line
  -- feed, or both, for the end of a row, gets from the CSV output the column names, and then for each
  -- cluster the fields of its row as they were before the escape, whatever is in its template, members
  -- and suffix.
  pub table_of-render_csv :
      (clusters : List Cluster)
      → table_of (render_csv fl w clusters) ≡ column_names ∷ map (csv_row fl w) clusters
  unfolding render_csv read_table ℕ_discrete
  table_of-render_csv clusters = ap (λ rows. column_names ∷ rows) (read_rows clusters)
