-- ===== src/Persistence/Kafka.antt =====
-- `KafkaPersistence` of crates/logdrain/src/persistence.rs, over a client library as a parameter.
pub mod Latest
use logdrain.Common.{
  ℕ, zero, suc, ◌+◌, ◌-◌, ◌*◌, ◌≤◌, ◌<◌, List, [], ◌∷◌, ◌++◌, Option, none, some, ◌≡◌, ◌↔◌, refl,
  sym, ◌∙◌, Bool, true, false, Text, codes, Result, ok, err, map_err, Result-cases, Option-cases,
  length, leb, arith, inl, inr, Bool-cases, if◌then◌else◌,
}
use logdrain.Errors.{PersistenceError, backend}
use logdrain.Persistence.{Persistence}
use logdrain.Snapshot.{Bytes}

abbrev pub Config : Type 0
Config = List (Text × Text)

-- The `rdkafka` crate, with the brokers' state `S`, its producers `P` and its consumers `C`. A timeout is
-- in seconds. `poll` gives nothing after the timeout, or an error, or the payload of a record, if the record has one.
pub record KafkaCrate (P C S : Type 0) : Type 0 where
  pub create_producer : Config → Result Text P
  pub send : P → Text → Text → Bytes → S → S × Result Text Unit
  pub flush : P → ℕ → S → S × Result Text Unit
  pub create_consumer : Config → Result Text C
  pub fetch_watermarks : C → Text → ℕ → ℕ → S → Result Text (ℕ × ℕ)
  pub add_partition_offset : Text → ℕ → ℕ → Result Text Unit
  pub assign : C → Text → ℕ → ℕ → Result Text C
  pub poll : C → ℕ → S → Option (Result Text (Option Bytes))

abbrev pub snapshot_key : Text
snapshot_key = codes "logdrain-snapshot"

-- `struct KafkaPersistence`
pub record KafkaPersistence : Type 0 where
  pub brokers : Text
  pub topic : Text
  pub timeout : ℕ

-- `KafkaPersistence::new` and `with_timeout`
unfoldable pub new : Text → Text → KafkaPersistence
new brokers topic = record { brokers = brokers; topic = topic; timeout = 10 }

unfoldable pub with_timeout : KafkaPersistence → ℕ → KafkaPersistence
with_timeout p timeout = record p { timeout = timeout }

abbrev pub producer_config : KafkaPersistence → Config
producer_config p = (codes "bootstrap.servers", p.brokers) ∷ []

abbrev pub consumer_config : KafkaPersistence → Config
consumer_config p =
    (codes "bootstrap.servers", p.brokers)
    ∷ (codes "group.id", codes "logdrain-loader")
    ∷ (codes "enable.auto.commit", codes "false")
    ∷ []

-- `map_err(err)` at the end of a call.
abbrev pub with_backend : {S : Type 0} → S × Result Text Unit → S × Result PersistenceError Unit
with_backend (s, r) = (s, map_err backend r)

module _ {P C S : Type 0} (kafka : KafkaCrate P C S) where
  unfoldable pub save_kafka : KafkaPersistence → Bytes → S → S × Result PersistenceError Unit
  save_kafka p blob s = elim (kafka.create_producer (producer_config p)) [
    | err e ↦ (s, err (backend e))
    | ok producer ↦
        let (sent, r) = kafka.send producer p.topic snapshot_key blob s in
        elim r [
          | err e ↦ (sent, err (backend e))
          | ok u ↦ with_backend (kafka.flush producer p.timeout sent)
        ]
  ]

  -- The `match` on `poll`: a timeout reads like an empty topic.
  abbrev pub polled : Option (Result Text (Option Bytes)) → Result PersistenceError (Option Bytes)
  polled none = ok none
  polled (some (err e)) = err (backend e)
  polled (some (ok payload)) = ok payload

  -- From the watermarks on: the record before the high one is read.
  abbrev pub read_tail : KafkaPersistence → C → ℕ → S → Result PersistenceError (Option Bytes)
  read_tail p consumer high s = elim (kafka.add_partition_offset p.topic 0 (high - 1)) [
    | err e ↦ err (backend e)
    | ok u ↦ elim (kafka.assign consumer p.topic 0 (high - 1)) [
      | err e ↦ err (backend e)
      | ok assigned ↦ polled (kafka.poll assigned p.timeout s)
    ]
  ]

  unfoldable pub load_kafka : KafkaPersistence → S → Result PersistenceError (Option Bytes)
  load_kafka p s = elim (kafka.create_consumer (consumer_config p)) [
    | err e ↦ err (backend e)
    | ok consumer ↦ elim (kafka.fetch_watermarks consumer p.topic 0 p.timeout s) [
      | err e ↦ err (backend e)
      | ok marks ↦ if leb marks.1 marks.0 then ok none else read_tail p consumer marks.1 s
    ]
  ]

  -- The implementation of the trait.
  abbrev pub backend_kafka : KafkaPersistence → Persistence S
  backend_kafka p = record { save = save_kafka p; load = load_kafka p }
