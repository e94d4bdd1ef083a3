-- ===== src/Cli/Separated.antt =====
-- `find_sub` and `ingest_separated` of crates/logdrain-cli/src/main.rs: a byte stream, read in chunks,
-- split at a separator. The records are those that are fed to the miner, before they are decoded.
use mathlib.Core.Option
use logdrain.Common.{
  ℕ, zero, suc, ◌+◌, ◌≤◌, List, [], ◌∷◌, ◌++◌, append-nil, append_assoc, Option, none, some, ◌≡◌,
  refl, sym, ◌∙◌, ap, length, length-append, length-take, Text, Result, ok, err, take, drop,
  is_empty, list_eq, nat_eq, ◌==◌, ==_eq, if◌then◌else◌, arith, Option-cases, Bool-cases, inl, inr,
}
use mathlib.Core.List.{tail-eq_of_cons-eq}
use logdrain.Common.{All, All-append}
use logdrain.Snapshot.{Bytes}

-- `find_sub`, for a needle that is not empty
unfoldable pub find_sub : Bytes → Bytes → Option ℕ
find_sub [] needle = none
find_sub (b ∷ hay) needle =
    if take (length needle) (b ∷ hay) == needle
    then some 0
    else Option.map suc (find_sub hay needle)

take-drop : {A : Type 0} (n : ℕ) (xs : List A) → take n xs ++ drop n xs ≡ xs
take-drop zero xs = refl
take-drop (suc n) [] = refl
take-drop (suc n) (x ∷ xs) = ap (λ ys. x ∷ ys) (take-drop n xs)

take_whole : {A : Type 0} (xs ys : List A) → take (length xs) (xs ++ ys) ≡ xs
take_whole [] ys = refl
take_whole (x ∷ xs) ys = ap (λ t. x ∷ t) (take_whole xs ys)

module _ (sep : Bytes) where
  -- The inner loop: the records that `drain` takes off the buffer, and what stays. Each round drains at
  -- least the separator, so the length of the buffer is fuel enough.
  unfoldable pub drain_loop : ℕ → Bytes → List Bytes × Bytes
  drain_loop zero buf = ([], buf)
  drain_loop (suc fuel) buf = elim (find_sub buf sep) [
    | none ↦ ([], buf)
    | some pos ↦
        let (records, rest) = drain_loop fuel (drop (pos + length sep) buf) in
        (take pos buf ∷ records, rest)
  ]

  -- What follows the outer loop
  abbrev pub last_record : Bytes → List Bytes
  last_record buf = if is_empty buf then [] else buf ∷ []

  -- `ingest_separated`, on what the calls of `read` give: the records, and the result. An empty chunk
  -- is the end of the stream.
  unfoldable pub ingest_separated : List (Result Text Bytes) → Bytes → List Bytes × Result Text Unit
  ingest_separated [] buf = (last_record buf, ok tt)
  ingest_separated (err e ∷ reads) buf = ([], err e)
  ingest_separated (ok [] ∷ reads) buf = (last_record buf, ok tt)
  ingest_separated (ok (b ∷ chunk) ∷ reads) buf =
      let (records, rest) = drain_loop (length (buf ++ b ∷ chunk)) (buf ++ b ∷ chunk) in
      let (more, result) = ingest_separated reads rest in (records ++ more, result)

  -- The records with the separator after each.
  abbrev pub terminated : List Bytes → Bytes
  terminated [] = []
  terminated (r ∷ records) = r ++ (sep ++ terminated records)

  -- What a stream that is read without an error gives, a chunk at a time.
  abbrev pub reads_of : List (ℕ × Bytes) → List (Result Text Bytes)
  reads_of [] = []
  reads_of ((b, chunk) ∷ chunks) = ok (b ∷ chunk) ∷ reads_of chunks

  abbrev pub stream_of : List (ℕ × Bytes) → Bytes
  stream_of [] = []
  stream_of ((b, chunk) ∷ chunks) = (b ∷ chunk) ++ stream_of chunks

  find_sub-split :
      (hay : Bytes) (pos : ℕ)
      → find_sub hay sep ≡ some pos
      → (take pos hay ++ (sep ++ drop (pos + length sep) hay) ≡ hay)
        × (pos + length sep ≤ length hay)
  unfolding find_sub
  find_sub-split [] pos e = cc
  find_sub-split (b ∷ hay) pos e = elim (Bool-cases (take (length sep) (b ∷ hay) == sep)) [
    | inl t ↦
        let same : take (length sep) (b ∷ hay) ≡ sep = ==_eq t in
        let start : pos ≡ 0 = ground arith in
        let none_before : 0 + length sep ≡ length sep = omega arith in
        (
          rw (start, none_before)
              (ap (λ t. t ++ drop (length sep) (b ∷ hay)) (sym same)
                ∙ take-drop (length sep) (b ∷ hay)),
          omega (arith, start, ap length same, length-take (length sep) (b ∷ hay)),
        )
    | inr t ↦ elim (Option-cases (find_sub hay sep)) [
      | inl n ↦ absurd (ground arith)
      | inr (p, f) ↦
          let (split, small) = find_sub-split hay p f in
          let next : pos ≡ suc p = ground arith in
          let one_more : suc p + length sep ≡ suc (p + length sep) = omega arith in
          (rw (next, one_more) (ap (λ t. b ∷ t) split), omega (arith, next, small))
    ]
  ]

  find_sub_nil : find_sub [] sep ≡ none
  unfolding find_sub
  find_sub_nil = refl

  terminated-append :
      (xs ys : List Bytes) (t : Bytes)
      → terminated (xs ++ ys) ++ t ≡ terminated xs ++ (terminated ys ++ t)
  terminated-append [] ys t = refl
  terminated-append (x ∷ xs) ys t =
      append_assoc x (sep ++ terminated (xs ++ ys)) t
      ∙ ap (λ u. x ++ u)
          (append_assoc sep (terminated (xs ++ ys)) t
            ∙ ap (λ u. sep ++ u) (terminated-append xs ys t)
            ∙ sym (append_assoc sep (terminated xs) (terminated ys ++ t)))
      ∙ sym (append_assoc x (sep ++ terminated xs) (terminated ys ++ t))

  -- The separator stands in the bytes, after `before`.
  abbrev pub IsSplit : Bytes → Bytes → Bytes → Type 0
  IsSplit hay before after = hay ≡ before ++ (sep ++ after)

  -- The separator stands nowhere in the bytes.
  abbrev pub HasNone : Bytes → Type 0
  HasNone hay = (before after : Bytes) → ¬ IsSplit hay before after

  -- Followed by the separator, the record has it nowhere before its own end.
  abbrev pub IsRecord : Bytes → Type 0
  IsRecord r = (before after : Bytes) → IsSplit (r ++ sep) before after → length r ≤ length before

  module _ (sep_pos : 1 ≤ length sep) where
    -- `find_sub` finds the separator, and no later than where it stands.
    find_sub-IsSplit :
        (hay before after : Bytes)
        → IsSplit hay before after
        → (pos : ℕ) × (find_sub hay sep ≡ some pos) × (pos ≤ length before)
    unfolding find_sub
    find_sub-IsSplit [] before after e = absurd (
        omega (
          arith,
          sep_pos,
          ap length e,
          length-append before (sep ++ after),
          length-append sep after,
        ))
    find_sub-IsSplit (b ∷ hay) [] after e =
        let start : take (length sep) (b ∷ hay) ≡ sep =
          ap (take (length sep)) e ∙ take_whole sep after in
        elim (Bool-cases (take (length sep) (b ∷ hay) == sep)) [
          | inl t ↦ (0, rw t refl, omega arith)
          | inr t ↦ absurd (ground (arith, start))
        ]
    find_sub-IsSplit (b ∷ hay) (c ∷ before) after e =
        elim (Bool-cases (take (length sep) (b ∷ hay) == sep)) [
          | inl t ↦ (0, rw t refl, omega arith)
          | inr t ↦
              let (pos, f, small) = find_sub-IsSplit hay before after (tail-eq_of_cons-eq e) in
              (suc pos, rw t (rw f refl), omega (arith, small))
        ]

    find_sub-HasNone : (hay : Bytes) → find_sub hay sep ≡ none → HasNone hay
    find_sub-HasNone hay e before after split =
        let (pos, f, small) = find_sub-IsSplit hay before after split in absurd cc

    -- What stands before the first separator is a record.
    take-IsRecord : (buf : Bytes) (pos : ℕ) → find_sub buf sep ≡ some pos → IsRecord (take pos buf)
    take-IsRecord buf pos f before after e =
        let (split, fits) = find_sub-split buf pos f in
        let rest = drop (pos + length sep) buf in
        let whole : buf ≡ before ++ (sep ++ (after ++ rest)) =
          sym split
          ∙ sym (append_assoc (take pos buf) sep rest)
          ∙ ap (λ t. t ++ rest) e
          ∙ append_assoc before (sep ++ after) rest
          ∙ ap (λ t. before ++ t) (append_assoc sep after rest) in
        let (first, g, small) = find_sub-IsSplit buf before (after ++ rest) whole in
        let same : first ≡ pos = cc (f, g) in omega (arith, same, small, length-take pos buf)

    -- The buffer is its records, each with its separator, and a rest without a separator.
    drain_loop-terminated :
        (fuel : ℕ) (buf : Bytes)
        → length buf ≤ fuel
        → (terminated (drain_loop fuel buf).0 ++ (drain_loop fuel buf).1 ≡ buf)
          × (find_sub (drain_loop fuel buf).1 sep ≡ none)
          × All IsRecord (drain_loop fuel buf).0
    unfolding drain_loop
    drain_loop-terminated zero [] h = (refl, find_sub_nil, tt)
    drain_loop-terminated zero (b ∷ buf) h = absurd (omega arith)
    drain_loop-terminated (suc fuel) buf h = elim (Option-cases (find_sub buf sep)) [
      | inl n ↦ rw (n, drain_loop) (refl, n, tt)
      | inr (pos, f) ↦
          let (split, _) = find_sub-split buf pos f in
          let after : Bytes = drop (pos + length sep) buf in
          let shorter : length after ≤ fuel = omega (
            arith,
            h,
            ap length split,
            length-append (take pos buf) (sep ++ after),
            length-append sep after,
          ) in
          let (whole, clean, all) = drain_loop-terminated fuel after shorter in
          rw (f, drain_loop)
            (
              append_assoc (take pos buf) (sep ++ terminated (drain_loop fuel after).0)
                    (drain_loop fuel after).1
                  ∙ ap (λ t. take pos buf ++ t)
                      (append_assoc sep (terminated (drain_loop fuel after).0)
                          (drain_loop fuel after).1
                        ∙ ap (λ t. sep ++ t) whole)
                  ∙ split,
              clean,
              (take-IsRecord buf pos f, all),
            )
    ]

    -- Read without an error, in chunks however they fall, after a buffer without a separator: the
    -- records are some records and the rest, if there is one; no separator is in the rest, and the
    -- records, each followed by the separator, and the rest are the buffer and the stream.
    ingest_separated_from :
        (chunks : List (ℕ × Bytes)) (buf : Bytes)
        → find_sub buf sep ≡ none
        → (records : List Bytes) × (rest : Bytes) × (ingest_separated (reads_of chunks) buf
            ≡ (records ++ last_record rest, ok tt))
          × (terminated records ++ rest ≡ buf ++ stream_of chunks)
          × (find_sub rest sep ≡ none)
          × All IsRecord records
    unfolding ingest_separated
    ingest_separated_from [] buf h = ([], buf, refl, sym (append-nil buf), h, tt)
    ingest_separated_from ((b, chunk) ∷ chunks) buf h =
        let whole = buf ++ b ∷ chunk in
        let (drained, clean, first) = drain_loop-terminated (length whole) whole (omega arith) in
        let got = drain_loop (length whole) whole in
        let (records, rest, fed, text, last, all) = ingest_separated_from chunks got.1 clean in
        (
          got.0 ++ records,
          rest,
          rw (fed, ingest_separated)
              (ap (λ fed. (fed, ok tt)) (sym (append_assoc got.0 records (last_record rest)))),
          terminated-append got.0 records rest
              ∙ ap (λ t. terminated got.0 ++ t) text
              ∙ sym (append_assoc (terminated got.0) got.1 (stream_of chunks))
              ∙ ap (λ t. t ++ stream_of chunks) drained
              ∙ append_assoc buf (b ∷ chunk) (stream_of chunks),
          last,
          All-append IsRecord got.0 records first all,
        )

    -- For a separator that is not empty and a stream that is read without an error, in non-empty chunks
    -- however they fall: the records fed are some records and the rest, if that is not empty; the
    -- records, each followed by the separator, and the rest are the stream; followed by the separator,
    -- no record has it anywhere before its own end; and the rest has it nowhere.
    pub ingest_separated-terminated :
        (chunks : List (ℕ × Bytes))
        → (records : List Bytes) × (rest : Bytes) × (ingest_separated (reads_of chunks) []
            ≡ (records ++ last_record rest, ok tt))
          × (terminated records ++ rest ≡ stream_of chunks)
          × All IsRecord records
          × HasNone rest
    ingest_separated-terminated chunks =
        let (records, rest, fed, text, last, all) = ingest_separated_from chunks [] find_sub_nil in
        (records, rest, fed, text, all, find_sub-HasNone rest last)
