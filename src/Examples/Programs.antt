-- ===== src/Examples/Programs.antt =====
-- A run of the command line on a concrete input, and its CSV.
use logdrain.Common.{
  ℕ, [], ◌∷◌, none, some, ◌≡◌, false, Text, codes, ok, err, map, nat_eq, list_eq, true,
}
use logdrain.Cli.Build.{Arguments, Format}
use logdrain.Cli.Fields.{Json, Shape}
use logdrain.Cli.Ingest.{Chrono}
use logdrain.Cli.Output.{Writer, csv_row, render_csv}
use logdrain.Cli.Output.Table.{table_of, column_names, table_of-render_csv}
use logdrain.Cli.Prepare.{Sort}
use logdrain.Cli.Run.{Source, Host}
use logdrain.Cluster
use logdrain.Cluster.{Cluster, to_public}
use logdrain.Cluster.Time.{since_epoch}
use logdrain.Examples.Platform.{milli}

-- A JSON library that knows only strings, and floats shown by their digits.
abbrev strings : Json Text
strings = record { from_str = λ s. some s; get = λ j key. none; shape = λ j. Shape.string j }

abbrev no_dates : Chrono
no_dates = record {
  parse_offset = λ s f. none;
  parse_naive = λ s f. none;
  parse_rfc3339 = λ s. none;
}

abbrev writer : Writer ℕ Text
writer = record {
  null = codes "null";
  of_u64 = λ n. codes "1";
  of_f64 = λ x. codes "1.0";
  of_str = λ s. s;
  of_array = λ vs. codes "[]";
  of_object = λ fields. codes "{}";
  compact = λ v. v;
  pretty = λ vs. codes "[]";
  one_decimal = λ x. codes "0.0";
}

abbrev nothing : Source
nothing = record { reads = []; lines = [] }

abbrev host : Host Text
host = record {
  stdin = record {
    reads = [];
    lines = ok (codes "user 1 logged in") ∷ ok (codes "user 2 logged in") ∷ [];
  };
  open_file = λ path. err (codes "not found");
  clock = λ n. since_epoch n;
  from_utf8_lossy = λ bytes. bytes;
  into_bytes = λ s. s;
  is_match = λ r s. false;
  can_print = λ s. true;
  can_eprint = λ s. true;
}

abbrev arguments : Arguments ℕ
arguments = record {
  files = [];
  key = none;
  format = Format.csv;
  min_size = 0;
  sort = Sort.size;
  sim_th = 400;
  depth = 4;
  path_delimiters = none;
  first_line_only = false;
  masks = none;
  record_separator = none;
  multiline_start = none;
  time_key = none;
  time_format = none;
}

abbrev quoted : Cluster
quoted = to_public (Cluster.new 1 [] (since_epoch 0) (some (codes "a \"b\", c")) none)

table_of-render_csv_example :
    table_of (render_csv milli writer (quoted ∷ []))
    ≡ column_names ∷ map (csv_row milli writer) (quoted ∷ [])
table_of-render_csv_example = table_of-render_csv milli writer (quoted ∷ [])
