-- ===== src/Cli/Multiline.antt =====
-- `ingest_multiline_start` and `ingest_reader` of crates/logdrain-cli/src/main.rs: lines put together to
-- records. The records are those that are fed to the miner, in order.
use logdrain.Common.{
  ℕ, List, [], ◌∷◌, ◌++◌, append_assoc, ◌≡◌, refl, sym, ◌∙◌, ap, Bool, true, false, not, ◌&&◌, Text,
  Result, ok, err, is_empty, map, All, arith, Bool-cases, inl, inr, if◌then◌else◌,
}

-- `reader.lines()`: each line, or the error of its reading
abbrev pub Lines : Type 0
Lines = List (Result Text Text)

-- `ingest_reader`: every line up to an error
unfoldable pub ingest_reader : Lines → List Text × Result Text Unit
ingest_reader [] = ([], ok tt)
ingest_reader (err e ∷ lines) = ([], err e)
ingest_reader (ok line ∷ lines) = let (more, result) = ingest_reader lines in (line ∷ more, result)

-- The record after a line that does not open one.
abbrev extend : Text → Text → Text
extend [] line = line
extend (c ∷ rec) line = (c ∷ rec) ++ 10 ∷ line

-- `start` is the test that the pattern makes, `rec` the record in progress.
module _ (start : Text → Bool) where
  unfoldable pub multiline_loop : Lines → Text → List Text × Result Text Unit
  multiline_loop [] rec = ((if is_empty rec then [] else rec ∷ []), ok tt)
  multiline_loop (err e ∷ lines) rec = ([], err e)
  multiline_loop (ok line ∷ lines) rec = elim (start line && not (is_empty rec)) [
    | true ↦ let (more, result) = multiline_loop lines line in (rec ∷ more, result)
    | false ↦ multiline_loop lines (extend rec line)
  ]

  unfoldable pub ingest_multiline_start : Lines → List Text × Result Text Unit
  ingest_multiline_start lines = multiline_loop lines []

  -- Texts with a line feed between two of them.
  abbrev pub join_lines : Text → List Text → Text
  join_lines first [] = first
  join_lines first (line ∷ lines) = first ++ 10 ∷ join_lines line lines

  join_lines-append :
      (a b : Text) (lines : List Text) → join_lines (a ++ b) lines ≡ a ++ join_lines b lines
  join_lines-append a b [] = refl
  join_lines-append a b (line ∷ lines) = append_assoc a b (10 ∷ join_lines line lines)

  -- A line that opens a record is not empty.
  abbrev pub OpensNonempty : Text → Type 0
  OpensNonempty line = (start line && is_empty line) ≡ false

  opened : (line : Text) → is_empty line ≡ false → (b : ℕ) × (rest : Text) × (line ≡ b ∷ rest)
  opened [] e = cc
  opened (b ∷ rest) e = (b, rest, refl)

  multiline_loop-join_lines :
      (lines : List Text) (c : ℕ) (rec : Text)
      → All OpensNonempty lines
      → (first : Text) × (records : List Text) × (multiline_loop (map ok lines) (c ∷ rec)
          ≡ (first ∷ records, ok tt))
        × (join_lines first records ≡ join_lines (c ∷ rec) lines)
  unfolding multiline_loop
  multiline_loop-join_lines [] c rec h = (c ∷ rec, [], refl, refl)
  multiline_loop-join_lines (line ∷ lines) c rec h = elim (Bool-cases (start line)) [
    | inr e ↦
        let (first, records, fed, text) =
          multiline_loop-join_lines lines c (rec ++ 10 ∷ line) h.1 in
        (
          first,
          records,
          rw (e, multiline_loop) fed,
          text
              ∙ join_lines-append (c ∷ rec) (10 ∷ line) lines
              ∙ ap (λ t. (c ∷ rec) ++ t) (join_lines-append (10 ∷ []) line lines),
        )
    | inl e ↦
        let (b, rest, q) = opened line (ground (arith, h.0)) in
        let (first, records, fed, text) = multiline_loop-join_lines lines b rest h.1 in
        (
          c ∷ rec,
          first ∷ records,
          rw (e, q, multiline_loop) (ap (λ got. ((c ∷ rec) ∷ got.0, got.1)) fed),
          ap (λ t. (c ∷ rec) ++ 10 ∷ t) (text ∙ ap (λ l. join_lines l lines) (sym q)),
        )
  ]

  multiline_loop_first :
      (c : ℕ) (line : Text) (lines : Lines)
      → multiline_loop (ok (c ∷ line) ∷ lines) [] ≡ multiline_loop lines (c ∷ line)
  unfolding multiline_loop
  multiline_loop_first c line lines = elim (Bool-cases (start (c ∷ line))) [
    | inl e ↦ rw (e, multiline_loop)
    | inr e ↦ rw (e, multiline_loop)
  ]

  -- For lines that are read without an error, where the first line is not empty and no empty line opens
  -- a record: joined by line feeds, the records are the lines joined by line feeds.
  pub ingest_multiline_start-join_lines :
      (c : ℕ) (line : Text) (lines : List Text)
      → All OpensNonempty lines
      → (first : Text) × (records : List Text) × (ingest_multiline_start
            (map ok ((c ∷ line) ∷ lines))
          ≡ (first ∷ records, ok tt))
        × (join_lines first records ≡ join_lines (c ∷ line) lines)
  unfolding ingest_multiline_start
  ingest_multiline_start-join_lines c line lines h =
      let (first, records, fed, text) = multiline_loop-join_lines lines c line h in
      (first, records, multiline_loop_first c line (map ok lines) ∙ fed, text)
