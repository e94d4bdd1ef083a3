-- ===== src/Snapshot/Format.antt =====
-- The round trip and the rejections of crates/logdrain/src/snapshot.rs.
use logdrain.Common.{ℕ, ◌<◌, ◌++◌, ◌≡◌, ◌≢◌, ok, err, list_eq, nat_eq, arith}
use logdrain.Errors.{unsupported_snapshot_version}
use logdrain.Snapshot.{
  Bytes, version, SnapshotV1, SnapshotBodyV2, upgrade, Bincode, ReadsBack, ReadsBackV2,
  without_masks, to_le_bytes, from_le_bytes, header, encode, decode_payload, decode_snapshot,
}

from_le_bytes-to_le_bytes : (v : ℕ) → v < 4294967296 → from_le_bytes (to_le_bytes v) ≡ v
from_le_bytes-to_le_bytes v h = omega arith

module _ {F R : Type 0} ⦃bin : Bincode F R⦄ where
  decode_snapshot-header :
      (v : ℕ) (payload : Bytes)
      → v < 4294967296
      → decode_snapshot {F = F} {R = R} (header v ++ payload) ≡ decode_payload v payload
  unfolding decode_snapshot
  decode_snapshot-header v payload h = ground (arith, from_le_bytes-to_le_bytes v h)

  -- The current version.
  pub decode_snapshot-encode :
      (b : SnapshotV1 F R)
      → ReadsBack bin b
      → decode_snapshot (encode b) ≡ ok (record b { options = without_masks b.options })
  unfolding encode
  decode_snapshot-encode b read =
      ground (arith, decode_snapshot-header version (bin.serialize b) (omega arith), read)

  -- Where `bincode` reads back what it has written, but for the masks of the options, which are not
  -- serialized: decoding an encoded snapshot gives the snapshot without masks, and decoding the bytes of
  -- version 2 gives the upgraded one without masks. Every other version below 2^32 is refused with its
  -- number, whatever follows it.
  pub decode_snapshot_lem :
      (b : SnapshotV1 F R) (old : SnapshotBodyV2 F R) (v : ℕ) (payload : Bytes)
      → ReadsBack bin b
      → ReadsBackV2 bin old
      → v < 4294967296
      → v ≢ 2
      → v ≢ version
      → (decode_snapshot (encode b) ≡ ok (record b { options = without_masks b.options }))
        × (decode_snapshot (header 2 ++ bin.serialize_v2 old)
            ≡ ok (upgrade (record old { options = without_masks old.options })))
        × (decode_snapshot {F = F} {R = R} (header v ++ payload)
            ≡ err (unsupported_snapshot_version v version))
  unfolding encode
  decode_snapshot_lem b old v payload read read_v2 h n2 n3 = (
    decode_snapshot-encode b read,
    ground (arith, decode_snapshot-header 2 (bin.serialize_v2 old) (omega arith), read_v2),
    ground (arith, decode_snapshot-header v payload h),
  )
