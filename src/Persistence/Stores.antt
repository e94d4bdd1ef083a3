-- ===== src/Persistence/Stores.antt =====
-- What the backends of crates/logdrain/src/persistence.rs promise to the miner, as an interface, and
-- that each of them keeps it.
use logdrain.Common.{
  List, Option, none, some, ◌≡◌, ◌≢◌, ◌⊎◌, sym, ◌∙◌, ap, inl, inr, Text, ok, err, Result-cases,
  Option-cases, list_eq, nat_eq,
}
use logdrain.Errors.{PersistenceError, io, backend}
use logdrain.Persistence.{Persistence, memory, Faults, FilePersistence, save_file, load_file, file}
use logdrain.Persistence.Atomic.{save_file-atomic}
use logdrain.Persistence.Kafka.{
  KafkaCrate, KafkaPersistence, backend_kafka, with_backend, save_kafka,
}
use logdrain.Persistence.Kafka.Latest.{IsPartition, load_kafka-save_kafka, save_flushed}
use logdrain.Persistence.Redis.{RedisCrate, RedisPersistence, save_redis, load_redis, backend_redis}
use logdrain.Snapshot.{Bytes}

-- After a save that reported no error a load answers the blob, or an error; or it answers `none`
-- though the blob is stored, in the states in which the backend may be silent.
pub record IsStore {S : Type 0} (p : Persistence S) (Silent : S → Type 0) : Type 0 where
  pub stored :
      (blob : Bytes) (s after : S)
      → p.save blob s ≡ (after, ok tt)
      → (p.load after ≡ ok (some blob))
        ⊎ ((p.load after ≡ ok none) × Silent after)
        ⊎ ((e : PersistenceError) × (p.load after ≡ err e))

-- A backend that is never silent.
abbrev pub Never : {S : Type 0} → S → Type 0
Never s = ⊥

pub memory-IsStore : IsStore memory Never
memory-IsStore = record { stored = λ blob s after e. inl (ap ok (sym (ap (λ x. x.0) e))) }

-- The read may fail in its turn.
pub file-IsStore : (faults : Faults) (p : FilePersistence) → IsStore (file faults p) Never
unfolding load_file
file-IsStore faults p = record {
  stored = λ blob s after e. elim (save_file-atomic faults p blob s) [
    | inr (x, failed, same) ↦
        let done : (save_file faults p blob s).1 ≡ ok tt = ap (λ r. r.1) e in
        absurd (cc (done, failed))
    | inl (done, held) ↦
        let q : (save_file faults p blob s).0 ≡ after = ap (λ x. x.0) e in
        elim (Option-cases faults.read) [
          | inr (x, r) ↦ inr (inr (io x, rw (r, load_file)))
          | inl r ↦ inl (rw (r, load_file) (ap ok (rw q at held)))
        ]
  ];
}

module _ {C K S : Type 0} (redis : RedisCrate C K S) where
  -- What Redis documents of SET and GET on one server: after a SET that was answered, a GET of the key
  -- answers its value.
  pub record IsKeyValue : Type 0 where
    pub get_set :
        (c : C) (conn conn' : K) (key : Text) (blob : Bytes) (s after : S) (found : Option Bytes)
        → redis.get_connection c s ≡ ok conn
        → redis.set conn key blob s ≡ (after, ok tt)
        → redis.get_connection c after ≡ ok conn'
        → redis.get conn' key after ≡ ok found
        → found ≡ some blob

  module _ (h : IsKeyValue) (p : RedisPersistence C) (blob : Bytes) (s after : S) where
    -- From the connection of the load on.
    get-IsStored :
        (conn conn' : K)
        → redis.get_connection p.client s ≡ ok conn
        → redis.set conn p.key blob s ≡ (after, ok tt)
        → redis.get_connection p.client after ≡ ok conn'
        → (load_redis redis p after ≡ ok (some blob))
          ⊎ ((e : PersistenceError) × (load_redis redis p after ≡ err e))
    unfolding load_redis
    get-IsStored conn conn' opened done again = elim (Result-cases (redis.get conn' p.key after)) [
      | inr (e, q) ↦ inr (backend e, rw (again, load_redis) (rw q))
      | inl (found, q) ↦
          let f = h.get_set p.client conn conn' p.key blob s after found opened done again q in
          inl (rw (again, load_redis) (rw (q, f)))
    ]

    -- What an accepted save has done.
    set_of_save :
        (conn : K)
        → redis.get_connection p.client s ≡ ok conn
        → save_redis redis p blob s ≡ (after, ok tt)
        → redis.set conn p.key blob s ≡ (after, ok tt)
    unfolding save_redis
    set_of_save conn opened e =
        let f : save_redis redis p blob s ≡ with_backend (redis.set conn p.key blob s) =
          rw (opened, save_redis) in
        save_flushed (redis.set conn p.key blob s) after (sym f ∙ e)

    save_redis-IsStored :
        save_redis redis p blob s ≡ (after, ok tt)
        → (load_redis redis p after ≡ ok (some blob))
          ⊎ ((e : PersistenceError) × (load_redis redis p after ≡ err e))
    unfolding save_redis load_redis
    save_redis-IsStored e = elim (Result-cases (redis.get_connection p.client s)) [
      | inr (x, q) ↦
          let f : save_redis redis p blob s ≡ (s, err (backend x)) = rw (q, save_redis) in
          absurd (cc (f, e))
      | inl (conn, q) ↦ elim (Result-cases (redis.get_connection p.client after)) [
        | inr (x, r) ↦ inr (backend x, rw (r, load_redis))
        | inl (conn', r) ↦ get-IsStored conn conn' q (set_of_save conn q e) r
      ]
    ]

  pub redis-IsStore : IsKeyValue → (p : RedisPersistence C) → IsStore (backend_redis redis p) Never
  redis-IsStore h p = record {
    stored = λ blob s after e. elim (save_redis-IsStored h p blob s after e) [
      | inl f ↦ inl f
      | inr f ↦ inr (inr f)
    ];
  }

module _ {P C S : Type 0} (kafka : KafkaCrate P C S) where
  -- On a topic with one partition, where no delivery fails; silent when a poll times out.
  pub kafka-IsStore :
      (log : S → Text → List Bytes)
      → IsPartition kafka log
      → (p : KafkaPersistence)
      → ((blob : Bytes) (s after : S)
          → save_kafka kafka p blob s ≡ (after, ok tt)
          → log after p.topic ≢ log s p.topic)
      → IsStore
          (backend_kafka kafka p)
          (λ s. (assigned : C) × (kafka.poll assigned p.timeout s ≡ none))
  kafka-IsStore log h p delivers = record {
    stored = λ blob s after e. elim (load_kafka-save_kafka kafka log h p blob s after e) [
      | inl lost ↦ absurd (delivers blob s after e lost)
      | inr (inl f) ↦ inl f
      | inr (inr (inl f)) ↦ inr (inl f)
      | inr (inr (inr (x, f))) ↦ inr (inr (backend x, f))
    ];
  }
