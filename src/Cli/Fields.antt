-- ===== src/Cli/Fields.antt =====
-- `extract_field` of crates/logdrain-cli/src/input.rs, over a JSON library as a parameter.
use logdrain.Common.{List, [], ◌∷◌, ◌++◌, Option, none, some, true, false, Text, nat_eq, ◌==◌}

-- What the code asks of a `serde_json::Value`: a string, null, or another value with its compact form.
pub data Shape : Type 0 where
  string : Text → Shape
  null : Shape
  other : Text → Shape

pub record Json (J : Type 0) : Type 0 where
  pub from_str : Text → Option J
  pub get : J → Text → Option J
  pub shape : J → Shape

-- `path.split('.')`
unfoldable split_dots : Text → Text → List Text
split_dots key [] = key ∷ []
split_dots key (c ∷ path) = elim (c == b'.') [
  | true ↦ key ∷ split_dots [] path
  | false ↦ split_dots (key ++ c ∷ []) path
]

module _ {J : Type 0} (json : Json J) where
  unfoldable follow : List Text → J → Option J
  follow [] cur = some cur
  follow (key ∷ keys) cur = elim (json.get cur key) [ some next ↦ follow keys next | none ↦ none ]

  unfoldable pub extract_field : Text → Text → Option Text
  unfolding split_dots follow
  extract_field line path = elim (json.from_str line) [
    | none ↦ none
    | some root ↦ elim (follow (split_dots [] path) root) [
      | none ↦ none
      | some cur ↦ elim (json.shape cur) [ string s ↦ some s | null ↦ none | other t ↦ some t ]
    ]
  ]
