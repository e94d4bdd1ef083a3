-- ===== src/Examples/Topics.antt =====
-- A broker with one topic of one partition, and a save to it.
use logdrain.Common.{
  ℕ, List, [], ◌∷◌, ◌++◌, some, ◌≡◌, ◌⊎◌, refl, sym, ◌∙◌, ap, Text, codes, Result, ok, length,
  arith,
}
use logdrain.Persistence.Kafka
use logdrain.Persistence.Kafka.{KafkaCrate, KafkaPersistence, save_kafka}
use logdrain.Persistence.Kafka.Latest.{get_elem?, IsPartition, IsLatest, load_kafka-save_kafka}
use logdrain.Snapshot.{Bytes}

-- The records of the partition; a consumer is the offset that it reads next.
abbrev broker : KafkaCrate Text ℕ (List Bytes)
broker = record {
  create_producer = λ config. ok (codes "producer");
  send = λ p topic key blob s. (s ++ blob ∷ [], ok tt);
  flush = λ p timeout s. (s, ok tt);
  create_consumer = λ config. ok 0;
  fetch_watermarks = λ c topic partition timeout s. ok (0, length s);
  add_partition_offset = λ topic partition offset. ok tt;
  assign = λ c topic partition offset. ok offset;
  poll = λ c timeout s. some (ok (get_elem? s c));
}

abbrev records : List Bytes → Text → List Bytes
records s topic = s

watermarks : (a b : ℕ × ℕ) → ◌≡◌ {A = Result Text (ℕ × ℕ)} (ok a) (ok b) → a ≡ b
watermarks a b e = cc

broker-IsPartition : IsPartition broker records
broker-IsPartition = record {
  append = λ p topic key blob timeout s sent flushed e f. (
    1,
    sym (ap (λ (x : List Bytes × Result Text Unit). x.0) f)
        ∙ sym (ap (λ (x : List Bytes × Result Text Unit). x.0) e),
  );
  marks = λ c topic timeout s low high e.
      let q : (0, length s) ≡ (low, high) = watermarks (0, length s) (low, high) e in
      (sym (ap (λ (x : ℕ × ℕ). x.1) q), λ h. omega (arith, ap (λ (x : ℕ × ℕ). x.0) q, h));
  read = λ c assigned topic offset timeout s payload e f.
      let p : offset ≡ assigned = cc e in
      let q : get_elem? s assigned ≡ payload = cc f in sym q ∙ ap (get_elem? s) (sym p);
}

abbrev store : KafkaPersistence
store = Kafka.new (codes "127.0.0.1:9092") (codes "snapshots")

saved : save_kafka broker store (2 ∷ []) ((1 ∷ []) ∷ []) ≡ ((1 ∷ []) ∷ (2 ∷ []) ∷ [], ok tt)
unfolding save_kafka
saved = refl

load_kafka-save_kafka_example :
    (records ((1 ∷ []) ∷ (2 ∷ []) ∷ []) store.topic ≡ records ((1 ∷ []) ∷ []) store.topic)
    ⊎ IsLatest broker store (2 ∷ []) ((1 ∷ []) ∷ (2 ∷ []) ∷ [])
load_kafka-save_kafka_example =
    load_kafka-save_kafka broker records broker-IsPartition store (2 ∷ []) ((1 ∷ []) ∷ [])
      ((1 ∷ []) ∷ (2 ∷ []) ∷ []) saved
