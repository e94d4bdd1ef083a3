-- ===== src/Persistence/Redis.antt =====
-- `RedisPersistence` of crates/logdrain/src/persistence.rs, over a client library as a parameter.
use logdrain.Common.{Option, Text, Result, ok, err, map_err, ◌>>=◌}
use logdrain.Errors.{PersistenceError, backend}
use logdrain.Persistence.{Persistence}
use logdrain.Snapshot.{Bytes}

-- The `redis` crate: a client of a server with the state `S`. Errors are texts.
pub record RedisCrate (C K S : Type 0) : Type 0 where
  pub open_client : Text → Result Text C
  pub get_connection : C → S → Result Text K
  pub set : K → Text → Bytes → S → S × Result Text Unit
  pub get : K → Text → S → Result Text (Option Bytes)

-- `struct RedisPersistence`
pub record RedisPersistence (C : Type 0) : Type 0 where
  pub client : C
  pub key : Text

module _ {C K S : Type 0} (redis : RedisCrate C K S) where
  -- `RedisPersistence::new`
  unfoldable pub new : Text → Text → Result PersistenceError (RedisPersistence C)
  new url key =
      map_err backend (redis.open_client url)
      >>= (λ client. ok (record { client = client; key = key }))

  unfoldable pub save_redis : RedisPersistence C → Bytes → S → S × Result PersistenceError Unit
  save_redis p blob s = elim (redis.get_connection p.client s) [
    | err e ↦ (s, err (backend e))
    | ok conn ↦ let (s', r) = redis.set conn p.key blob s in (s', map_err backend r)
  ]

  unfoldable pub load_redis : RedisPersistence C → S → Result PersistenceError (Option Bytes)
  load_redis p s =
      map_err backend (redis.get_connection p.client s)
      >>= (λ conn. map_err backend (redis.get conn p.key s))

  -- The implementation of the trait.
  abbrev pub backend_redis : RedisPersistence C → Persistence S
  backend_redis p = record { save = save_redis p; load = load_redis p }
