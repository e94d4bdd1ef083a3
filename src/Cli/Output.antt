-- ===== src/Cli/Output.antt =====
-- `render` of crates/logdrain-cli/src/format.rs: prepared clusters as text, JSON, JSON lines or CSV.
pub mod Table
use logdrain.Common.{
  ℕ, zero, suc, ◌-◌, List, [], ◌∷◌, ◌++◌, Option, none, some, Bool, true, false, Text, codes, map,
  max, any, length, nat_eq, if◌then◌else◌,
}
use logdrain.Common.Decimal.{to_string}
use logdrain.Cli.Build.{Format}
use logdrain.Cli.Csv.{csv_escape}
use logdrain.Cluster.{Cluster}
use logdrain.Cluster.Rates.{lines_per_minute, event_lines_per_minute}
use logdrain.Cluster.Time.{SystemTime, unix_ms}
use logdrain.Extern.{Float}

-- `serde_json`: the values of the `json!` macro, their compact form, and the pretty form of an array;
-- and `{:.1}` of a float.
pub record Writer (F V : Type 0) : Type 0 where
  pub null : V
  pub of_u64 : ℕ → V
  pub of_f64 : F → V
  pub of_str : Text → V
  pub of_array : List V → V
  pub of_object : List (Text × V) → V
  pub compact : V → Text
  pub pretty : List V → Text
  pub one_decimal : F → Text

abbrev line_feed : Text
line_feed = 10 ∷ []

-- `{:>w$}`: spaces on the left up to the width
unfoldable spaces : ℕ → Text
spaces zero = []
spaces (suc n) = b' ' ∷ spaces n

unfoldable pub pad_left : ℕ → Text → Text
unfolding spaces
pad_left width s = spaces (width - length s) ++ s

-- `max().unwrap_or(least).max(least)` of the lengths
unfoldable pub column_width : ℕ → List Text → ℕ
column_width least [] = least
column_width least (s ∷ cells) = max (length s) (column_width least cells)

-- `join`
unfoldable pub join : Text → List Text → Text
join sep [] = []
join sep (s ∷ []) = s
join sep (s ∷ t ∷ more) = s ++ (sep ++ join sep (t ∷ more))

-- `unix_ms` of this file
unfoldable pub shown_ms : SystemTime → ℕ
shown_ms t = unix_ms t

abbrev or_empty : Option Text → Text
or_empty none = []
or_empty (some s) = s

abbrev opt_ms : Option SystemTime → Text
unfolding shown_ms
opt_ms none = []
opt_ms (some t) = to_string (shown_ms t)

-- A row as it is pushed.
abbrev pub csv_line : List Text → Text
unfolding join
csv_line fields = join (codes ",") (map csv_escape fields) ++ line_feed

-- The first row.
abbrev pub csv_header : Text
csv_header =
    codes "id,size,rate_per_min,template,created_at,updated_at,"
    ++ codes "event_first_seen,event_last_seen,event_rate_per_min,members,suffix"

module _ {F V : Type 0} (fl : Float F) (w : Writer F V) where
  abbrev has_rate : Cluster → Bool
  has_rate c = fl.flt (fl.from_ℕ 0) (lines_per_minute ⦃fl = fl⦄ c)

  -- The columns of a line, with the rate or without it.
  abbrev text_line : Bool → ℕ → ℕ → Text → Text → Text → Text → Text
  text_line true id_w size_w id size rate template =
      pad_left id_w id
      ++ (codes "  "
          ++ (pad_left size_w size
              ++ (codes "  " ++ (pad_left 9 rate ++ (codes "  " ++ (template ++ line_feed))))))
  text_line false id_w size_w id size rate template =
      pad_left id_w id
      ++ (codes "  " ++ (pad_left size_w size ++ (codes "  " ++ (template ++ line_feed))))

  unfoldable text_lines : Bool → ℕ → ℕ → List Cluster → Text
  unfolding pad_left
  text_lines show_rate id_w size_w [] = []
  text_lines show_rate id_w size_w (c ∷ clusters) =
      text_line show_rate id_w size_w (to_string c.id) (to_string c.size)
        (w.one_decimal (lines_per_minute ⦃fl = fl⦄ c)) c.template
      ++ text_lines show_rate id_w size_w clusters

  unfoldable pub render_text : List Cluster → Text
  unfolding text_lines pad_left column_width
  render_text clusters =
      let show_rate = any has_rate clusters in
      let id_w = column_width 2 (map (λ (c : Cluster). to_string c.id) clusters) in
      let size_w = column_width 4 (map (λ (c : Cluster). to_string c.size) clusters) in
      text_line show_rate id_w size_w (codes "ID") (codes "SIZE") (codes "RATE/MIN")
        (codes "TEMPLATE")
      ++ text_lines show_rate id_w size_w clusters

  abbrev json_ms : Option SystemTime → V
  unfolding shown_ms
  json_ms none = w.null
  json_ms (some t) = w.of_u64 (shown_ms t)

  abbrev json_rate : Option F → V
  json_rate none = w.null
  json_rate (some r) = w.of_f64 r

  abbrev json_text : Option Text → V
  json_text none = w.null
  json_text (some s) = w.of_str s

  unfoldable pub cluster_json : Cluster → V
  unfolding shown_ms
  cluster_json c = w.of_object (
      (codes "id", w.of_u64 c.id)
      ∷ (codes "size", w.of_u64 c.size)
      ∷ (codes "template", w.of_str c.template)
      ∷ (codes "linesPerMinute", w.of_f64 (lines_per_minute ⦃fl = fl⦄ c))
      ∷ (codes "createdAt", w.of_u64 (shown_ms c.created_at))
      ∷ (codes "updatedAt", w.of_u64 (shown_ms c.updated_at))
      ∷ (codes "eventFirstSeen", json_ms c.event_first)
      ∷ (codes "eventLastSeen", json_ms c.event_last)
      ∷ (codes "eventRatePerMinute", json_rate (event_lines_per_minute ⦃fl = fl⦄ c))
      ∷ (codes "members", w.of_array (map w.of_str c.members))
      ∷ (codes "suffix", json_text c.suffix)
      ∷ [])

  unfoldable pub render_json : List Cluster → Text
  render_json clusters = w.pretty (map cluster_json clusters)

  unfoldable pub render_jsonl : List Cluster → Text
  render_jsonl [] = []
  render_jsonl (c ∷ clusters) = (w.compact (cluster_json c) ++ line_feed) ++ render_jsonl clusters

  abbrev rate_cell : Option F → Text
  rate_cell none = []
  rate_cell (some r) = w.one_decimal r

  -- The fields of a row of `render_csv`.
  unfoldable pub csv_row : Cluster → List Text
  unfolding join shown_ms
  csv_row c =
      to_string c.id
      ∷ to_string c.size
      ∷ w.one_decimal (lines_per_minute ⦃fl = fl⦄ c)
      ∷ c.template
      ∷ to_string (shown_ms c.created_at)
      ∷ to_string (shown_ms c.updated_at)
      ∷ opt_ms c.event_first
      ∷ opt_ms c.event_last
      ∷ rate_cell (event_lines_per_minute ⦃fl = fl⦄ c)
      ∷ join (codes ";") c.members
      ∷ or_empty c.suffix
      ∷ []

  unfoldable pub csv_rows : List Cluster → Text
  unfolding csv_row join
  csv_rows [] = []
  csv_rows (c ∷ clusters) = csv_line (csv_row c) ++ csv_rows clusters

  unfoldable pub render_csv : List Cluster → Text
  unfolding csv_rows
  render_csv clusters = csv_header ++ (line_feed ++ csv_rows clusters)

  unfoldable pub render : List Cluster → Format → Text
  unfolding render_text render_json render_jsonl render_csv
  render clusters Format.text = render_text clusters
  render clusters Format.json = render_json clusters
  render clusters Format.jsonl = render_jsonl clusters
  render clusters Format.csv = render_csv clusters
