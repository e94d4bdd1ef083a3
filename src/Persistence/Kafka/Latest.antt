-- ===== src/Persistence/Kafka/Latest.antt =====
-- That a load from Kafka reads what was saved last, `KafkaPersistence` of
-- crates/logdrain/src/persistence.rs on a topic with one partition.
use logdrain.Common.{
  ℕ, zero, suc, ◌-◌, ◌≤◌, ◌<◌, List, [], ◌∷◌, ◌++◌, Option, none, some, ◌≡◌, refl, append-nil,
  append_assoc, sym, ◌∙◌, ap, ◌⊎◌, Text, Result, ok, err, Result-cases, Option-cases, length,
  length-append, arith, inl, inr,
}
use logdrain.Errors.{backend}
use logdrain.Persistence.Kafka.{
  KafkaCrate, KafkaPersistence, snapshot_key, producer_config, consumer_config, polled, read_tail,
  with_backend, save_kafka, load_kafka,
}
use logdrain.Snapshot.{Bytes}

-- The payload at an offset.
abbrev pub get_elem? : List Bytes → ℕ → Option Bytes
get_elem? [] offset = none
get_elem? (b ∷ log) zero = some b
get_elem? (b ∷ log) (suc offset) = get_elem? log offset

get_elem?-append_last :
    (log : List Bytes) (blob : Bytes) → get_elem? (log ++ blob ∷ []) (length log) ≡ some blob
get_elem?-append_last [] blob = refl
get_elem?-append_last (b ∷ log) blob = get_elem?-append_last log blob

-- A record, as often as retries have written it.
abbrev pub copies : ℕ → Bytes → List Bytes
copies zero blob = []
copies (suc n) blob = copies n blob ++ blob ∷ []

-- The end of `save`.
pub save_flushed :
    {S : Type 0} (flushed : S × Result Text Unit) (s' : S)
    → with_backend flushed ≡ (s', ok tt)
    → flushed ≡ (s', ok tt)
save_flushed (a, ok u) s' e = ap (λ t. (t, ok tt)) (ap (λ x. x.0) e)
save_flushed (a, err x) s' e = absurd cc

module _ {P C S : Type 0} (kafka : KafkaCrate P C S) where
  -- What Kafka documents of a topic with one partition: after a flush every record that was sent has been
  -- written, once or, by retries, several times, or its delivery has failed, of which only a delivery
  -- callback would hear; the high watermark is the offset of the next record, and the low one lies below it where there is a record;
  -- a consumer that is assigned to an offset reads the record there.
  pub record IsPartition (log : S → Text → List Bytes) : Type 0 where
    pub append :
        (p : P) (topic key : Text) (blob : Bytes) (timeout : ℕ) (s sent flushed : S)
        → kafka.send p topic key blob s ≡ (sent, ok tt)
        → kafka.flush p timeout sent ≡ (flushed, ok tt)
        → (n : ℕ) × (log flushed topic ≡ log s topic ++ copies n blob)
    pub marks :
        (c : C) (topic : Text) (timeout : ℕ) (s : S) (low high : ℕ)
        → kafka.fetch_watermarks c topic 0 timeout s ≡ ok (low, high)
        → (high ≡ length (log s topic)) × (1 ≤ high → low < high)
    pub read :
        (c assigned : C) (topic : Text) (offset timeout : ℕ) (s : S) (payload : Option Bytes)
        → kafka.assign c topic 0 offset ≡ ok assigned
        → kafka.poll assigned timeout s ≡ some (ok payload)
        → payload ≡ get_elem? (log s topic) offset

  -- What a load may answer: the blob, or `none` after a timeout, or an error.
  abbrev pub IsLatest : KafkaPersistence → Bytes → S → Type 0
  IsLatest p blob s =
      (load_kafka kafka p s ≡ ok (some blob))
      ⊎ ((load_kafka kafka p s ≡ ok none)
          × ((assigned : C) × (kafka.poll assigned p.timeout s ≡ none)))
      ⊎ ((e : Text) × (load_kafka kafka p s ≡ err (backend e)))

  module _ (log : S → Text → List Bytes) (h : IsPartition log) (p : KafkaPersistence)
      (blob : Bytes) where
    -- What a save without an error has written.
    save_kafka-append :
        (s s' : S)
        → save_kafka kafka p blob s ≡ (s', ok tt)
        → (n : ℕ) × (log s' p.topic ≡ log s p.topic ++ copies n blob)
    unfolding save_kafka
    save_kafka-append s s' e = elim (Result-cases (kafka.create_producer (producer_config p))) [
      | inr (x, q) ↦
          let f : save_kafka kafka p blob s ≡ (s, err (backend x)) = rw (q, save_kafka) in
          absurd (cc (f, e))
      | inl (producer, q) ↦
          let sent = kafka.send producer p.topic snapshot_key blob s in
          elim (Result-cases sent.1) [
            | inr (x, r) ↦
                let f : save_kafka kafka p blob s ≡ (sent.0, err (backend x)) =
                  rw (q, save_kafka) (rw r) in
                absurd (cc (f, e))
            | inl (u, r) ↦
                let f : save_kafka kafka p blob s
                    ≡ with_backend (kafka.flush producer p.timeout sent.0) =
                  rw (q, save_kafka) (rw r) in
                h.append producer p.topic snapshot_key blob p.timeout s sent.0 s'
                  (ap (λ (x : Result Text Unit). (sent.0, x)) r)
                  (save_flushed (kafka.flush producer p.timeout sent.0) s' (sym f ∙ e))
          ]
    ]

    load_kafka_tail :
        (s : S) (consumer : C) (low high : ℕ)
        → kafka.create_consumer (consumer_config p) ≡ ok consumer
        → kafka.fetch_watermarks consumer p.topic 0 p.timeout s ≡ ok (low, high)
        → low < high
        → load_kafka kafka p s ≡ read_tail kafka p consumer high s
    unfolding load_kafka
    load_kafka_tail s consumer low high q r lt = rw (q, load_kafka) (rw r (ground arith))

    module _ (s : S) (before : List Bytes) (appended : log s p.topic ≡ before ++ blob ∷ []) where
      -- The last offset holds the blob.
      last_is_blob :
          (high : ℕ)
          → high ≡ length (log s p.topic)
          → get_elem? (log s p.topic) (high - 1) ≡ some blob
      last_is_blob high e =
          let last : high - 1 ≡ length before =
            omega (arith, e, ap length appended, length-append before (blob ∷ [])) in
          rw (last, appended) (get_elem?-append_last before blob)

      -- From the watermarks on.
      module _ (consumer : C) (high : ℕ) (mark : high ≡ length (log s p.topic))
          (tail : load_kafka kafka p s ≡ read_tail kafka p consumer high s) where
        polled-IsLatest :
            (assigned : C)
            → kafka.assign consumer p.topic 0 (high - 1) ≡ ok assigned
            → load_kafka kafka p s ≡ polled kafka (kafka.poll assigned p.timeout s)
            → IsLatest p blob s
        polled-IsLatest assigned r f = elim (Option-cases (kafka.poll assigned p.timeout s)) [
          | inl t ↦ inr (inl (f ∙ rw t, (assigned, t)))
          | inr (answer, t) ↦ elim (Result-cases answer) [
            | inr (e, v) ↦ inr (inr (e, f ∙ rw (t, v)))
            | inl (payload, v) ↦
                let q : payload ≡ some blob =
                  h.read consumer assigned p.topic (high - 1) p.timeout s payload r (t ∙ ap some v)
                  ∙ last_is_blob high mark in
                inl (f ∙ rw (t, v, q))
          ]
        ]

        tail-IsLatest : IsLatest p blob s
        tail-IsLatest = elim (Result-cases (kafka.add_partition_offset p.topic 0 (high - 1))) [
          | inr (e, q) ↦ inr (inr (e, tail ∙ rw (q, read_tail)))
          | inl (u, q) ↦ elim (Result-cases (kafka.assign consumer p.topic 0 (high - 1))) [
            | inr (e, r) ↦ inr (inr (e, tail ∙ rw (q, read_tail) (rw r)))
            | inl (assigned, r) ↦ polled-IsLatest assigned r (tail ∙ rw (q, read_tail) (rw r))
          ]
        ]

      load_kafka-IsLatest : IsLatest p blob s
      unfolding load_kafka
      load_kafka-IsLatest = elim (Result-cases (kafka.create_consumer (consumer_config p))) [
        | inr (e, q) ↦ inr (inr (e, rw (q, load_kafka)))
        | inl (consumer, q) ↦
            elim (Result-cases (kafka.fetch_watermarks consumer p.topic 0 p.timeout s)) [
              | inr (e, r) ↦ inr (inr (e, rw (q, load_kafka) (rw r)))
              | inl (marks, r) ↦
                  let (low, high) = marks in
                  let (mark, room) = h.marks consumer p.topic p.timeout s low high r in
                  let held : 1 ≤ high =
                    omega (arith, mark, ap length appended, length-append before (blob ∷ [])) in
                  tail-IsLatest consumer high mark
                    (load_kafka_tail s consumer low high q r (room held))
            ]
      ]

    written_or_lost :
        (s s' : S) (n : ℕ)
        → log s' p.topic ≡ log s p.topic ++ copies n blob
        → (log s' p.topic ≡ log s p.topic) ⊎ IsLatest p blob s'
    written_or_lost s s' zero f = inl (f ∙ append-nil (log s p.topic))
    written_or_lost s s' (suc n) f = inr (
        load_kafka-IsLatest s' (log s p.topic ++ copies n blob)
          (f ∙ sym (append_assoc (log s p.topic) (copies n blob) (blob ∷ []))))

    -- On a topic with one partition that behaves as documented: after a save that reported no error, either
    -- the delivery has failed and the topic is as it was before; or a load answers the saved blob, or
    -- `none` because its poll timed out, or an error of the client, and never an older snapshot.
    pub load_kafka-save_kafka :
        (s s' : S)
        → save_kafka kafka p blob s ≡ (s', ok tt)
        → (log s' p.topic ≡ log s p.topic) ⊎ IsLatest p blob s'
    load_kafka-save_kafka s s' e = let (n, f) = save_kafka-append s s' e in written_or_lost s s' n f
