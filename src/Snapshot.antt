-- ===== src/Snapshot.antt =====
-- The snapshot format, crates/logdrain/src/snapshot.rs: header, version, and the upgrade of version 2.
-- Bytes are numbers. The `bincode` crate is a parameter.
pub mod Format
use logdrain.Common.{
  ℕ, ◌+◌, ◌*◌, ◌/◌, ◌%◌, ◌≡◌, List, [], ◌∷◌, ◌++◌, Option, Text, codes, Result, ok, err, map_err,
  map, length, take, drop, ltb, not, list_eq, nat_eq, ◌==◌, if◌then◌else◌,
}
use logdrain.Cluster.{event_unset}
use logdrain.Errors.{LogdrainError, bad_magic, decode, unsupported_snapshot_version}
use logdrain.Options.{Options}

abbrev pub Bytes : Type 0
Bytes = List ℕ

-- `MAGIC`
abbrev pub magic : Bytes
magic = codes "LOGDRAIN"

-- `VERSION`
abbrev pub version : ℕ
version = 3

pub record TokenSnapshot : Type 0 where
  pub text : Text
  pub leading_delim : Option ℕ
  pub trailing_delim : Option ℕ

pub record ClusterSnapshot : Type 0 where
  pub id : ℕ
  pub tokens : List TokenSnapshot
  pub size : ℕ
  pub created_at_ms : ℕ
  pub updated_at_ms : ℕ
  pub event_first_ms : ℕ
  pub event_last_ms : ℕ
  pub suffix : Option Text
  pub members : List Text

pub record SnapshotV1 (F R : Type 0) : Type 0 where
  pub options : Options F R
  pub counter : ℕ
  pub clusters : List ClusterSnapshot

pub record ClusterSnapshotV2 : Type 0 where
  pub id : ℕ
  pub tokens : List TokenSnapshot
  pub size : ℕ
  pub created_at_ms : ℕ
  pub updated_at_ms : ℕ
  pub suffix : Option Text
  pub members : List Text

pub record SnapshotBodyV2 (F R : Type 0) : Type 0 where
  pub options : Options F R
  pub counter : ℕ
  pub clusters : List ClusterSnapshotV2

-- The closure in `upgrade`
abbrev pub upgrade_cluster : ClusterSnapshotV2 → ClusterSnapshot
upgrade_cluster c = record {
  id = c.id;
  tokens = c.tokens;
  size = c.size;
  created_at_ms = c.created_at_ms;
  updated_at_ms = c.updated_at_ms;
  event_first_ms = event_unset;
  event_last_ms = 0;
  suffix = c.suffix;
  members = c.members;
}

unfoldable pub upgrade : {F R : Type 0} → SnapshotBodyV2 F R → SnapshotV1 F R
upgrade b = record {
  options = b.options;
  counter = b.counter;
  clusters = map upgrade_cluster b.clusters;
}

-- `bincode::serialize` and `bincode::deserialize` at the types that the code uses them at. The code
-- takes `serialize` not to fail.
pub record Bincode (F R : Type 0) : Type 0 where
  pub serialize : SnapshotV1 F R → Bytes
  pub serialize_v2 : SnapshotBodyV2 F R → Bytes
  pub deserialize : Bytes → Result Text (SnapshotV1 F R)
  pub deserialize_v2 : Bytes → Result Text (SnapshotBodyV2 F R)

-- The options without their masks, which `#[serde(skip)]` leaves out: they come back as the default of
-- their type, an empty list.
abbrev pub without_masks : {F R : Type 0} → Options F R → Options F R
without_masks o = record o { masks = [] }

-- `bincode` reads back the bytes that it has written for a value, but for the masks of its options.
abbrev pub ReadsBack : {F R : Type 0} → Bincode F R → SnapshotV1 F R → Type 0
ReadsBack bin b =
    bin.deserialize (bin.serialize b) ≡ ok (record b { options = without_masks b.options })

abbrev pub ReadsBackV2 : {F R : Type 0} → Bincode F R → SnapshotBodyV2 F R → Type 0
ReadsBackV2 bin b =
    bin.deserialize_v2 (bin.serialize_v2 b) ≡ ok (record b { options = without_masks b.options })

-- `u32::to_le_bytes` and `u32::from_le_bytes`
abbrev pub to_le_bytes : ℕ → Bytes
to_le_bytes n = n % 256 ∷ (n / 256) % 256 ∷ (n / 65536) % 256 ∷ (n / 16777216) % 256 ∷ []

abbrev pub from_le_bytes : Bytes → ℕ
from_le_bytes [] = 0
from_le_bytes (b ∷ bytes) = b + 256 * from_le_bytes bytes

-- The header with a version, as `encode` writes it for the current one.
abbrev pub header : ℕ → Bytes
header v = magic ++ to_le_bytes v

abbrev map_ok : {E A B : Type 0} → (A → B) → Result E A → Result E B
map_ok f (ok a) = ok (f a)
map_ok f (err e) = err e

module _ {F R : Type 0} ⦃bin : Bincode F R⦄ where
  unfoldable pub encode : SnapshotV1 F R → Bytes
  encode body = header version ++ bin.serialize body

  -- The last `match` of `decode`
  abbrev pub decode_payload : ℕ → Bytes → Result LogdrainError (SnapshotV1 F R)
  decode_payload found payload =
      if found == version
      then map_err decode (bin.deserialize payload)
      else if found == 2
      then map_err decode (map_ok upgrade (bin.deserialize_v2 payload))
      else err (unsupported_snapshot_version found version)

  -- `decode`
  unfoldable pub decode_snapshot : Bytes → Result LogdrainError (SnapshotV1 F R)
  decode_snapshot bytes =
      if ltb (length bytes) (length magic + 4)
      then err bad_magic
      else if not (take (length magic) bytes == magic)
      then err bad_magic
      else decode_payload (from_le_bytes (take 4 (drop (length magic) bytes)))
          (drop (length magic + 4) bytes)
