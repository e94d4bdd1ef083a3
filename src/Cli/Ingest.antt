-- ===== src/Cli/Ingest.antt =====
-- The `Ingestor` of crates/logdrain-cli/src/main.rs: a record is fed to the miner, with its event time.
use logdrain.Common.{
  ℕ, zero, suc, ◌+◌, ◌*◌, ◌-◌, [], ◌∷◌, Option, none, some, Bool, true, false, not, ◌&&◌, Text,
  is_empty, all, leb, nat_eq, ◌==◌, if◌then◌else◌,
}
use logdrain.Cli.Epoch.{ℤ, pos, negsuc, scale_epoch}
use logdrain.Cli.Fields.{Json, extract_field}
use logdrain.Cluster.Time.{SystemTime}
use logdrain.Extern.{Float, RegexEngine}
use logdrain.Miner.Add
use logdrain.Miner.State.{Miner}
use logdrain.Miner.Update.{AddResult}
use logdrain.Tokenize.Words.{is_whitespace}

-- `chrono`: milliseconds after the epoch, of a text with an offset or without one by a format, and of a
-- text by RFC 3339.
pub record Chrono : Type 0 where
  pub parse_offset : Text → Text → Option ℤ
  pub parse_naive : Text → Text → Option ℤ
  pub parse_rfc3339 : Text → Option ℤ

-- `u64::try_from` of an `i64`
abbrev to_u64 : Option ℤ → Option ℕ
to_u64 none = none
to_u64 (some (pos n)) = some n
to_u64 (some (negsuc n)) = none

-- `trim`
unfoldable trim_start : Text → Text
trim_start [] = []
trim_start (c ∷ s) = elim (is_whitespace c) [ true ↦ trim_start s | false ↦ c ∷ s ]

-- Without the whitespace at the end.
unfoldable trim_end : Text → Text
trim_end [] = []
trim_end (c ∷ s) =
    let rest = trim_end s in if is_empty rest && is_whitespace c then [] else c ∷ rest

unfoldable pub trim : Text → Text
unfolding trim_start trim_end
trim s = trim_end (trim_start s)

-- The number that digits write after the one read so far.
unfoldable digits_value : ℕ → Text → ℕ
digits_value n [] = n
digits_value n (c ∷ s) = digits_value (n * 10 + (c - 48)) s

abbrev is_number : Text → Bool
is_number s = not (is_empty s) && all (λ c. leb b'0' c && leb c b'9') s

-- `parse::<i64>()`: digits with or without a sign, in range
abbrev negative : ℕ → Option ℤ
negative zero = some (pos 0)
negative (suc k) = if leb k 9223372036854775807 then some (negsuc k) else none

abbrev positive : Text → Option ℤ
positive s =
    if is_number s && leb (digits_value 0 s) 9223372036854775807
    then some (pos (digits_value 0 s))
    else none

unfoldable pub parse_i64 : Text → Option ℤ
unfolding digits_value
parse_i64 [] = none
parse_i64 (c ∷ s) =
    if c == b'-'
    then if is_number s then negative (digits_value 0 s) else none
    else if c == b'+'
    then positive s
    else positive (c ∷ s)

-- `parse_event_ms`, of the trimmed value
unfoldable parse_trimmed : Chrono → Text → Option Text → Option ℕ
parse_trimmed chrono value (some fmt) = elim (chrono.parse_offset value fmt) [
  | some ms ↦ to_u64 (some ms)
  | none ↦ to_u64 (chrono.parse_naive value fmt)
]
parse_trimmed chrono value none = elim (parse_i64 value) [
  | some n ↦ scale_epoch n
  | none ↦ to_u64 (chrono.parse_rfc3339 value)
]

unfoldable pub parse_event_ms : Chrono → Text → Option Text → Option ℕ
unfolding parse_trimmed
parse_event_ms chrono value format = parse_trimmed chrono (trim value) format

-- `struct Ingestor`, with the miner that it refers to.
pub record Ingestor (F R : Type 0) : Type 0 where
  pub miner : Miner F R
  pub key : Option Text
  pub time_key : Option Text
  pub time_format : Option Text
  pub time_parse_failures : ℕ

-- `field.and_then(|v| parse_event_ms(&v, …))`
abbrev parse_field : Chrono → Option Text → Option Text → Option ℕ
parse_field chrono none format = none
parse_field chrono (some v) format = parse_event_ms chrono v format

abbrev with_miner :
    {F R : Type 0} → Ingestor F R → Option (Miner F R × AddResult) → Option (Ingestor F R)
with_miner ing none = none
with_miner ing (some (m, r)) = some (record ing { miner = m })

module _ {F R J : Type 0} (json : Json J) (chrono : Chrono) where
  -- `Ingestor::event_ms`: the time, and the ingestor with a failure counted
  unfoldable pub event_ms : Text → Ingestor F R → Option ℕ × Ingestor F R
  event_ms rec ing = elim ing.time_key [
    | none ↦ (none, ing)
    | some tk ↦ elim (parse_field chrono (extract_field json rec tk) ing.time_format) [
      | some ms ↦ (some ms, ing)
      | none ↦ (none, record ing { time_parse_failures = ing.time_parse_failures + 1 })
    ]
  ]

  module _ ⦃fl : Float F⦄ ⦃re : RegexEngine R⦄ where
    -- `Ingestor::add`; the answer is dropped.
    unfoldable pub ingest_add : SystemTime → Text → Option ℕ → Ingestor F R → Option (Ingestor F R)
    ingest_add now msg none ing = with_miner ing (Add.add now msg ing.miner)
    ingest_add now msg (some ms) ing = with_miner ing (Add.add_at now msg ms ing.miner)

    -- `Ingestor::feed`
    unfoldable pub feed : SystemTime → Text → Ingestor F R → Option (Ingestor F R)
    feed now rec ing =
        let (event, counted) = event_ms rec ing in
        elim ing.key [
          | some k ↦ elim (extract_field json rec k) [
            | some msg ↦ ingest_add now msg event counted
            | none ↦ some counted
          ]
          | none ↦ if is_empty (trim rec) then some counted else ingest_add now rec event counted
        ]
