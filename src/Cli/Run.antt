-- ===== src/Cli/Run.antt =====
-- `ingest_source`, `run` and `main` of crates/logdrain-cli/src/main.rs: from the parsed flags to what is
-- printed. `none` is a panic.
pub mod Feeding
pub mod Outcomes
use logdrain.Common.{
  ℕ, ◌+◌, List, [], ◌∷◌, ◌++◌, Option, none, some, Bool, true, false, ◌&&◌, Text, codes, Result, ok,
  err, map, is_empty, ltb, nat_eq, if◌then◌else◌,
}
use logdrain.Common.Decimal.{to_string}
use logdrain.Cli.Build.{Arguments, build_miner}
use logdrain.Cli.Escape.{unescape}
use logdrain.Cli.Fields.{Json}
use logdrain.Cli.Ingest.{Chrono, Ingestor, feed}
use logdrain.Cli.Multiline.{Lines, ingest_reader, ingest_multiline_start}
use logdrain.Cli.Output.{Writer, render}
use logdrain.Cli.Prepare.{prepare}
use logdrain.Cli.Separated.{ingest_separated}
use logdrain.Cluster.Time.{SystemTime}
use logdrain.Extern.{Float, RegexEngine}
use logdrain.Miner.Query.{clusters}
use logdrain.Miner.State.{Miner}
use logdrain.Snapshot.{Bytes}

-- An input: what its calls of `read` give, and what `lines()` gives. A run reads it in one way.
pub record Source : Type 0 where
  pub reads : List (Result Text Bytes)
  pub lines : Lines

-- What the process finds around it: the files and the standard input, the clock's reading for every
-- record, `from_utf8_lossy` and `into_bytes`, `Regex::is_match`, and whether a text can be written to the
-- standard output and to the standard error.
pub record Host (R : Type 0) : Type 0 where
  pub stdin : Source
  pub open_file : Text → Result Text Source
  pub clock : ℕ → SystemTime
  pub from_utf8_lossy : Bytes → Text
  pub into_bytes : Text → Bytes
  pub is_match : R → Text → Bool
  pub can_print : Text → Bool
  pub can_eprint : Text → Bool

-- How the records are delimited: `sep` and `start` of `run`.
pub record Framing (R : Type 0) : Type 0 where
  pub sep : Option Bytes
  pub start : Option R

module _ {R : Type 0} (host : Host R) where
  -- `ingest_source`: the records that it feeds, and its result.
  unfoldable pub ingest_source : Framing R → Source → List Text × Result Text Unit
  ingest_source framing source = elim framing.sep [
    | some s ↦
        let (records, result) = ingest_separated s source.reads [] in
        (map host.from_utf8_lossy records, result)
    | none ↦ elim framing.start [
      | some re ↦ ingest_multiline_start (host.is_match re) source.lines
      | none ↦ ingest_reader source.lines
    ]
  ]

  -- The records of all files up to an error, which names the file if it does not open.
  unfoldable pub ingest_files : Framing R → List Text → List Text × Result Text Unit
  ingest_files framing [] = ([], ok tt)
  ingest_files framing (path ∷ files) = elim (host.open_file path) [
    | err e ↦ ([], err (path ++ (codes ": " ++ e)))
    | ok source ↦
        let (records, result) = ingest_source framing source in
        elim result [
          | err e ↦ (records, err e)
          | ok u ↦ let (more, last) = ingest_files framing files in (records ++ more, last)
        ]
  ]

  -- The standard input if no file is named.
  unfoldable pub ingest_inputs : Framing R → List Text → List Text × Result Text Unit
  ingest_inputs framing [] = ingest_source framing host.stdin
  ingest_inputs framing (path ∷ files) = ingest_files framing (path ∷ files)

abbrev is_some : Option Text → Bool
is_some none = false
is_some (some s) = true

module _ {R : Type 0} (host : Host R) (re : RegexEngine R) where
  -- The flags that delimit records.
  abbrev separator_of : Option Text → Result Text (Option Bytes)
  separator_of none = ok none
  separator_of (some s) =
      if is_empty (unescape s)
      then err (codes "--record-separator must not be empty")
      else ok (some (host.into_bytes (unescape s)))

  abbrev start_of : Option Text → Result Text (Option R)
  start_of none = ok none
  start_of (some p) = elim (re.compile p) [
    | ok r ↦ ok (some r)
    | err e ↦ err (codes "invalid --multiline-start regex: " ++ e)
  ]

  unfoldable pub framing_of : {F : Type 0} → Arguments F → Result Text (Framing R)
  framing_of cli =
      if is_some cli.record_separator && is_some cli.multiline_start
      then err (codes "--record-separator and --multiline-start are mutually exclusive")
      else elim (separator_of cli.record_separator) [
        | err e ↦ err e
        | ok sep ↦ elim (start_of cli.multiline_start) [
          | err e ↦ err e
          | ok start ↦ ok (record { sep = sep; start = start })
        ]
      ]

-- `print!` and `eprintln!` panic where the write fails. No text is no write.
abbrev pub written : (Text → Bool) → Text → Bool
written can [] = true
written can (c ∷ s) = can (c ∷ s)

-- What a process leaves behind.
pub record Outcome : Type 0 where
  pub stdout : Text
  pub stderr : Text
  pub code : ℕ

-- The warning on event times.
unfoldable pub warning : ℕ → Text
warning failures =
    if ltb 0 failures
    then codes "logdrain: warning: "
      ++ (to_string failures
          ++ codes
              " record(s) had a missing or unparseable --time-key value (clustered without event time)\n")
    else []

module _ {F R J V : Type 0} (host : Host R) (json : Json J) (chrono : Chrono) (w : Writer F V)
    ⦃fl : Float F⦄ ⦃re : RegexEngine R⦄ where
  -- The records are fed in their order; `n` of them were fed before.
  unfoldable pub feed_all : ℕ → List Text → Ingestor F R → Option (Ingestor F R)
  feed_all n [] ing = some ing
  feed_all n (rec ∷ records) ing = elim (feed json chrono (host.clock n) rec ing) [
    | none ↦ none
    | some fed ↦ feed_all (n + 1) records fed
  ]

  abbrev pub ingestor_of : Arguments F → Miner F R → Ingestor F R
  ingestor_of cli miner = record {
    miner = miner;
    key = cli.key;
    time_key = cli.time_key;
    time_format = cli.time_format;
    time_parse_failures = 0;
  }

  -- The end of `run`: the warning, and the clusters.
  unfoldable pub report : Arguments F → Ingestor F R → Option Outcome
  unfolding warning
  report cli ing =
      let warned = warning ing.time_parse_failures in
      let shown = render fl w (prepare fl (clusters ing.miner) cli.min_size cli.sort) cli.format in
      if written host.can_eprint warned && written host.can_print shown
      then some (record { stdout = shown; stderr = warned; code = 0 })
      else none

  -- `run`: an error is its message.
  unfoldable pub run : Arguments F → Option (Result Text Outcome)
  unfolding ingest_inputs
  run cli = elim (build_miner cli) [
    | none ↦ none
    | some built ↦ elim built [
      | err e ↦ some (err e)
      | ok miner ↦ elim (framing_of host re cli) [
        | err e ↦ some (err e)
        | ok framing ↦
            let (records, result) = ingest_inputs host framing cli.files in
            elim (feed_all 0 records (ingestor_of cli miner)) [
              | none ↦ none
              | some ing ↦ elim result [
                | err e ↦ some (err e)
                | ok u ↦ elim (report cli ing) [ none ↦ none | some out ↦ some (ok out) ]
              ]
            ]
      ]
    ]
  ]

  -- `main`, from the parsed flags on.
  unfoldable pub main : Arguments F → Option Outcome
  main cli = elim (run cli) [
    | none ↦ none
    | some result ↦ elim result [
      | ok out ↦ some out
      | err e ↦
          let message = codes "logdrain: " ++ (e ++ 10 ∷ []) in
          if written host.can_eprint message
          then some (record { stdout = []; stderr = message; code = 2 })
          else none
    ]
  ]
