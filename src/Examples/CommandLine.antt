-- ===== src/Examples/CommandLine.antt =====
-- The theorems on the command line, applied to concrete inputs.
use logdrain.Common.{
  ℕ, All, List, [], ◌∷◌, ◌++◌, none, ◌≡◌, refl, Bool, Text, codes, ok, map, arith, list_eq, nat_eq,
  ◌==◌, ℕ_discrete, false,
}
use logdrain.Cli.Escape.{unescape, escape, unescape-escape}
use logdrain.Cli.Multiline.{
  OpensNonempty, ingest_multiline_start, join_lines, ingest_multiline_start-join_lines,
}
use logdrain.Cli.Prepare.{
  Sort, prepare, count_id, count_shown, AreLargestFirst, prepare-AreLargestFirst,
}
use logdrain.Cli.Separated.{
  IsRecord, HasNone, last_record, terminated, reads_of, stream_of, ingest_separated,
  ingest_separated-terminated,
}
use logdrain.Cluster
use logdrain.Cluster.{to_public}
use logdrain.Cluster.Time.{since_epoch}
use logdrain.Examples.Platform.{milli}
use logdrain.Snapshot.{Bytes}

unescape-escape_example : unescape (escape (9 ∷ 65 ∷ 92 ∷ 10 ∷ [])) ≡ 9 ∷ 65 ∷ 92 ∷ 10 ∷ []
unescape-escape_example = unescape-escape (9 ∷ 65 ∷ 92 ∷ 10 ∷ [])

-- "a--b-" and "-c": the separator lies across the chunks.
abbrev separator : Bytes
separator = codes "--"

abbrev chunks : List (ℕ × Bytes)
chunks = (b'a', codes "--b-") ∷ (b'-', codes "c") ∷ []

ingest_separated-terminated_example :
    (records : List Bytes) × (rest : Bytes) × (ingest_separated separator
        (reads_of separator chunks)
        []
      ≡ (records ++ last_record separator rest, ok tt))
    × (terminated separator records ++ rest ≡ stream_of separator chunks)
    × All (IsRecord separator) records
    × HasNone separator rest
ingest_separated-terminated_example = ingest_separated-terminated separator (omega arith) chunks

-- A record starts with a capital letter.
abbrev opens : Text → Bool
opens [] = false
opens (c ∷ line) = c == b'E'

opens_nonempty : All (OpensNonempty opens) (codes " at a" ∷ codes "" ∷ codes "End" ∷ [])
unfolding ℕ_discrete
opens_nonempty = (refl, (refl, (refl, tt)))

ingest_multiline_start-join_lines_example :
    (first : Text) × (records : List Text) × (ingest_multiline_start opens
        (map ok (codes "Error" ∷ codes " at a" ∷ codes "" ∷ codes "End" ∷ []))
      ≡ (first ∷ records, ok tt))
    × (join_lines opens first records
        ≡ join_lines opens (codes "Error") (codes " at a" ∷ codes "" ∷ codes "End" ∷ []))
ingest_multiline_start-join_lines_example =
    ingest_multiline_start-join_lines opens b'E' (codes "rror")
      (codes " at a" ∷ codes "" ∷ codes "End" ∷ []) opens_nonempty

abbrev shown : List Cluster.Cluster
shown =
    to_public (Cluster.new 1 [] (since_epoch 0) none none)
    ∷ record (to_public (Cluster.new 2 [] (since_epoch 0) none none)) { size = 5 }
    ∷ []

prepare-AreLargestFirst_example :
    AreLargestFirst (prepare milli shown 1 Sort.size)
    × (count_id 2 (prepare milli shown 1 Sort.size) ≡ count_shown 1 2 shown)
prepare-AreLargestFirst_example = prepare-AreLargestFirst milli shown 1 2
