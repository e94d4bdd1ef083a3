-- ===== src/Cli/Build.antt =====
-- `build_masks` and `build_miner` of crates/logdrain-cli/src/main.rs.
use logdrain.Common.{
  ℕ, List, [], ◌∷◌, ◌++◌, Option, none, some, Bool, Text, codes, Result, ok, err, map_err, is_empty,
  list_eq, nat_eq, ◌==◌, if◌then◌else◌,
}
use logdrain.Common.Decimal.{to_string}
use logdrain.Cli.Ingest.{trim}
use logdrain.Cli.Prepare.{Sort}
use logdrain.Errors.{
  PersistenceError, io, backend, LogdrainError, invalid_config, regex_compile, persistence,
  bad_magic, unsupported_snapshot_version, decode,
}
use logdrain.Extern.{Float, RegexEngine}
use logdrain.Mask.{Mask}
use logdrain.Mask.Builtin
use logdrain.Miner.State.{Miner, build}
use logdrain.Options.{
  MinerBuilder, builder, set_sim_threshold, set_depth, set_first_line_only, set_path_delimiters,
  set_masks,
}

-- `enum Format`
pub data Format : Type 0 where
  text json jsonl csv : Format

-- `struct Cli`
pub record Arguments (F : Type 0) : Type 0 where
  pub files : List Text
  pub key : Option Text
  pub format : Format
  pub min_size : ℕ
  pub sort : Sort
  pub sim_th : F
  pub depth : ℕ
  pub path_delimiters : Option Text
  pub first_line_only : Bool
  pub masks : Option Text
  pub record_separator : Option Text
  pub multiline_start : Option Text
  pub time_key : Option Text
  pub time_format : Option Text

-- `to_string` of the errors
abbrev persistence_message : PersistenceError → Text
persistence_message (io e) = codes "io: " ++ e
persistence_message (backend e) = codes "backend: " ++ e

unfoldable pub message : LogdrainError → Text
message (invalid_config e) = codes "invalid configuration: " ++ e
message (regex_compile e) = codes "regex compile failed: " ++ e
message (persistence e) = codes "persistence: " ++ persistence_message e
message bad_magic = codes "corrupt snapshot: bad magic"
message (unsupported_snapshot_version found max) =
    codes "snapshot version "
    ++ (to_string found ++ (codes " not supported (max " ++ (to_string max ++ codes ")")))
message (decode e) = codes "corrupt snapshot: " ++ e

-- `split(',')`
unfoldable split_commas : Text → Text → List Text
split_commas name [] = name ∷ []
split_commas name (c ∷ spec) =
    if c == b',' then name ∷ split_commas [] spec else split_commas (name ++ c ∷ []) spec

abbrev unknown : Text → Text
unknown name = codes "unknown mask '" ++ (name ++ codes "' (known: uuid, hex32, email, ipv4, jwt)")

module _ {R : Type 0} ⦃re : RegexEngine R⦄ where
  -- A name's mask, or the error; `none` is a panic of the built-in mask.
  abbrev with_ok : Option (Mask R) → Option (Result Text (Mask R))
  with_ok none = none
  with_ok (some m) = some (ok m)

  unfoldable pub named_mask : Text → Option (Result Text (Mask R))
  named_mask name =
      if name == codes "uuid"
      then with_ok Builtin.uuid
      else if name == codes "hex32"
      then with_ok Builtin.hex32
      else if name == codes "email"
      then with_ok Builtin.email
      else if name == codes "ipv4"
      then with_ok Builtin.ipv4
      else if name == codes "jwt"
      then with_ok Builtin.jwt
      else some (err (unknown name))

  -- `map(…).collect()`: it stops at the first error.
  abbrev cons_result : Mask R → Result Text (List (Mask R)) → Result Text (List (Mask R))
  cons_result m (ok masks) = ok (m ∷ masks)
  cons_result m (err e) = err e

  unfoldable pub collect_masks : List Text → Option (Result Text (List (Mask R)))
  collect_masks [] = some (ok [])
  collect_masks (name ∷ names) =
      let rest = collect_masks names in
      if is_empty (trim name) then rest else elim (named_mask (trim name)) [
        | none ↦ none
        | some result ↦ elim result [
          | err e ↦ some (err e)
          | ok m ↦ elim rest [ none ↦ none | some masks ↦ some (cons_result m masks) ]
        ]
      ]

  unfoldable pub build_masks : Text → Option (Result Text (List (Mask R)))
  unfolding split_commas
  build_masks spec = collect_masks (split_commas [] spec)

module _ {F R : Type 0} ⦃fl : Float F⦄ ⦃re : RegexEngine R⦄ where
  abbrev pub with_delimiters : Option Text → MinerBuilder F R → MinerBuilder F R
  with_delimiters none b = b
  with_delimiters (some chars) b = set_path_delimiters b chars

  abbrev built : MinerBuilder F R → Result Text (Miner F R)
  built b = map_err message (build b)

  -- The builder up to the masks.
  abbrev pub builder_of : Arguments F → MinerBuilder F R
  builder_of cli = with_delimiters cli.path_delimiters (
      set_first_line_only (set_depth (set_sim_threshold builder cli.sim_th) cli.depth)
        cli.first_line_only)

  -- `b.masks(build_masks(spec)?)`, and the end
  abbrev pub with_masks :
      MinerBuilder F R → Option (Result Text (List (Mask R))) → Option (Result Text (Miner F R))
  with_masks b none = none
  with_masks b (some (err e)) = some (err e)
  with_masks b (some (ok masks)) = some (built (set_masks b masks))

  unfoldable pub build_miner : Arguments F → Option (Result Text (Miner F R))
  build_miner cli = elim cli.masks [
    | none ↦ some (built (builder_of cli))
    | some spec ↦ with_masks (builder_of cli) (build_masks spec)
  ]
