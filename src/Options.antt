-- ===== src/Options.antt =====
-- Configuration, crates/logdrain/src/options.rs: the options, their defaults and the builder.
pub mod Build
use logdrain.Common.{
  ℕ, ◌+◌, ◌-◌, ◌%◌, List, [], ◌++◌, Bool, true, false, not, ◌&&◌, Text, codes, Result, ok, err,
  u64_values, is_empty, ltb, nat_eq, ◌==◌, if◌then◌else◌,
}
use logdrain.Common.Decimal.{to_string}
use logdrain.Errors.{LogdrainError, invalid_config}
use logdrain.Extern.{Float, one}
use logdrain.Mask.{Mask}

-- `struct Options`, over the types of floats and of compiled patterns.
pub record Options (F R : Type 0) : Type 0 where
  pub sim_threshold : F
  pub depth : ℕ
  pub max_clusters_per_leaf : ℕ
  pub parametrize_numeric_tokens : Bool
  pub wildcard : Text
  pub path_delimiters : List ℕ
  pub first_line_path_delimiters : List ℕ
  pub first_line_only : Bool
  pub masks : List (Mask R)

-- `impl Default for Options`
unfoldable pub default : {F R : Type 0} ⦃fl : Float F⦄ → Options F R
default ⦃fl⦄ = record {
  sim_threshold = fl.two_fifths;
  depth = 4;
  max_clusters_per_leaf = 100;
  parametrize_numeric_tokens = true;
  wildcard = codes "<*>";
  path_delimiters = [];
  first_line_path_delimiters = [];
  first_line_only = false;
  masks = [];
}

-- `struct MinerBuilder`
pub record MinerBuilder (F R : Type 0) : Type 0 where
  pub opts : Options F R

module _ {F R : Type 0} where
  -- `prefix_len`: at a depth below 2, which `build_options` rejects, the subtraction of `usize` wraps (and
  -- panics in a build with overflow checks).
  unfoldable pub prefix_len : Options F R → ℕ
  prefix_len o = (o.depth + u64_values - 2) % u64_values

  unfoldable pub active_path_delimiters : Options F R → List ℕ
  active_path_delimiters o =
      if o.first_line_only && not (is_empty o.first_line_path_delimiters)
      then o.first_line_path_delimiters
      else o.path_delimiters

module _ {F R : Type 0} where
  -- `MinerBuilder::new`
  unfoldable pub builder : ⦃fl : Float F⦄ → MinerBuilder F R
  unfolding default
  builder = record { opts = default }

  -- The setters, each the method of its name.
  unfoldable pub set_sim_threshold : MinerBuilder F R → F → MinerBuilder F R
  set_sim_threshold b v = record { opts = record (b.opts) { sim_threshold = v } }

  unfoldable pub set_depth : MinerBuilder F R → ℕ → MinerBuilder F R
  set_depth b v = record { opts = record (b.opts) { depth = v } }

  unfoldable pub set_max_clusters_per_leaf : MinerBuilder F R → ℕ → MinerBuilder F R
  set_max_clusters_per_leaf b v = record { opts = record (b.opts) { max_clusters_per_leaf = v } }

  unfoldable pub set_parametrize_numeric_tokens : MinerBuilder F R → Bool → MinerBuilder F R
  set_parametrize_numeric_tokens b v = record {
    opts = record (b.opts) { parametrize_numeric_tokens = v };
  }

  unfoldable pub set_wildcard : MinerBuilder F R → Text → MinerBuilder F R
  set_wildcard b v = record { opts = record (b.opts) { wildcard = v } }

  unfoldable pub set_path_delimiters : MinerBuilder F R → List ℕ → MinerBuilder F R
  set_path_delimiters b delims = record { opts = record (b.opts) { path_delimiters = delims } }

  unfoldable pub set_first_line_path_delimiters : MinerBuilder F R → List ℕ → MinerBuilder F R
  set_first_line_path_delimiters b delims = record {
    opts = record (b.opts) { first_line_path_delimiters = delims };
  }

  unfoldable pub set_first_line_only : MinerBuilder F R → Bool → MinerBuilder F R
  set_first_line_only b v = record { opts = record (b.opts) { first_line_only = v } }

  unfoldable pub set_masks : MinerBuilder F R → List (Mask R) → MinerBuilder F R
  set_masks b masks = record { opts = record (b.opts) { masks = masks } }

-- `(0.0..=1.0).contains(&v)`
abbrev pub in_unit : {F : Type 0} ⦃fl : Float F⦄ → F → Bool
in_unit ⦃fl⦄ v = fl.fle (fl.from_ℕ 0) v && fl.fle v one

module _ {F R : Type 0} ⦃fl : Float F⦄ where
  -- `build_options`: the first check that fails gives the error.
  unfoldable pub build_options : MinerBuilder F R → Result LogdrainError (Options F R)
  build_options b =
      let o = b.opts in
      if ltb o.depth 2
      then err (invalid_config (codes "depth must be >= 2, got " ++ to_string o.depth))
      else if not (in_unit o.sim_threshold)
      then err (
          invalid_config
            (codes "sim_threshold must be in [0.0, 1.0], got " ++ fl.display o.sim_threshold))
      else if o.max_clusters_per_leaf == 0
      then err (invalid_config (codes "max_clusters_per_leaf must be >= 1"))
      else ok o
