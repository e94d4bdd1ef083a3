-- ===== src/Miner/Concurrent.antt =====
-- `add_inner` of crates/logdrain/src/miner.rs on many threads: the sections that run under one lock,
-- each as one step of a thread. Between two steps of a thread any other thread may run.
pub mod Handles
pub mod Hits
pub mod Spots
pub mod Sections
pub mod Searching
pub mod Creating
pub mod Phases
pub mod Reachable
pub mod Progress
pub mod Conserved
pub mod Alone
pub mod Whole
use logdrain.Common.{
  ℕ, suc, ◌+◌, ◌≡◌, List, [], ◌∷◌, ◌++◌, Option, none, some, Bool, true, false, not, ◌&&◌, Text,
  length, ltb, nat_eq, if◌then◌else◌, ◌==◌,
}
use logdrain.Common.Assoc.{lookup, insert}
use logdrain.Cluster.{ClusterInner, touch, would_generalize, generalize}
use logdrain.Cluster.Time.{SystemTime}
use logdrain.Extern.{Float, RegexEngine}
use logdrain.Miner.Add.{find_match, preprocess}
use logdrain.Miner.Learn.{create_cluster, observe_option, add_member_option, is_none, update_type}
use logdrain.Miner.Matching.{best_match, at_least}
use logdrain.Miner.State.{Miner, next_tick, descent_keys, shard_for}
use logdrain.Miner.Update.{UpdateType, AddResult}
use logdrain.Options.{Options}
use logdrain.Tokenize.{Token}
use logdrain.Tree.{descend_or_create}

-- What a call of `add_inner` works on: the line's tokens and suffix, and the arguments.
pub record Request : Type 0 where
  pub tokens : List Token
  pub suffix : Option Text
  pub member : Option Text
  pub event_ms : Option ℕ

-- Before the first lock: the line is masked, split and tokenized.
abbrev pub request_of :
    {F R : Type 0} → ⦃re : RegexEngine R⦄ → Options F R → Text → Option Text → Option ℕ → Request
request_of o line member event_ms =
    let (tokens, suffix) = preprocess o line in
    record { tokens = tokens; suffix = suffix; member = member; event_ms = event_ms }

-- Where a thread stands in `add_inner`, with the locals that are live there. A handle on a body is
-- the body's id.
pub data Pc : Type 0 where
  entering : Pc  -- before `shard_for`
  searching : Pc  -- before phase 1
  missed : Pc  -- before phase 2
  matched : (id : ℕ) → Pc  -- at the start of `apply_match`
  changing : (id : ℕ) (needs_generalize : Bool) → Pc  -- before the write lock of `apply_match`
  done : (result : AddResult) → Pc

-- The miner, and the bodies that an eviction has taken out of it: a thread may still hold one.
pub record Shared (F R : Type 0) : Type 0 where
  pub miner : Miner F R
  pub dropped : List (ℕ × ClusterInner)

module _ {F R : Type 0} where
  -- What `arc.read()` and `arc.write()` reach.
  unfoldable pub handle : ℕ → Shared F R → Option ClusterInner
  handle id s = elim (lookup id s.miner.clusters_by_id) [
    | some body ↦ some body
    | none ↦ lookup id s.dropped
  ]

  -- A write through the handle.
  unfoldable pub write_body : ℕ → ClusterInner → Shared F R → Shared F R
  write_body id body s = elim (lookup id s.miner.clusters_by_id) [
    | some old ↦ record s {
      miner = record s.miner { clusters_by_id = insert id body s.miner.clusters_by_id };
    }
    | none ↦ record s { dropped = insert id body s.dropped }
  ]

  -- `apply_match` up to its return under the read lock: the hit is counted, and the template
  -- compared.
  unfoldable pub read_section : SystemTime → Request → ℕ → Shared F R → Option (Shared F R × Pc)
  read_section now req id s = elim (handle id s) [
    | none ↦ none
    | some body ↦
        let (tick, ticked) = next_tick s.miner in
        let hit = observe_option req.event_ms (touch now tick body) in
        let needs_generalize = would_generalize hit req.tokens s.miner.options.wildcard in
        some (
          write_body id hit (record s { miner = ticked }),
          (if not needs_generalize && is_none req.member
              then done (record { cluster_id = id; update = UpdateType.none })
              else changing id needs_generalize),
        )
  ]

  -- The rest of `apply_match`, under the body's write lock. Another thread may have changed the
  -- template since it was compared.
  unfoldable pub write_section : Request → ℕ → Bool → Shared F R → Option (Shared F R × Pc)
  write_section req id needs_generalize s = elim (handle id s) [
    | none ↦ none
    | some body ↦
        let (template, changed) =
          if needs_generalize
          then generalize body req.tokens s.miner.options.wildcard
          else (body, false) in
        some (
          write_body id (add_member_option req.member template) s,
          done (record { cluster_id = id; update = update_type changed }),
        )
  ]

  module _ ⦃fl : Float F⦄ where
    -- Phase 1, under the shard's read lock.
    unfoldable pub search_section : Request → Shared F R → Option (Shared F R × Pc)
    search_section req s = elim (lookup (length req.tokens) s.miner.shards) [
      | none ↦ none
      | some shard ↦ elim (find_match s.miner req.tokens shard) [
        | some c ↦ some (s, matched c.id)
        | none ↦ some (s, missed)
      ]
    ]

    -- Phase 2, under the shard's write lock, which `drop(guard)` or the return gives back. The bodies
    -- that were in the miner stay reachable for the threads that hold them.
    unfoldable pub create_section : SystemTime → Request → Shared F R → Option (Shared F R × Pc)
    create_section now req s =
        let m = s.miner in
        let count = length req.tokens in
        let keys = descent_keys m.options req.tokens in
        elim (lookup count m.shards) [
          | none ↦ none
          | some shard ↦ elim (descend_or_create keys m.options.max_clusters_per_leaf shard) [
            | none ↦ none
            | some (root, leaf) ↦
                elim (at_least m.options.sim_threshold
                  (best_match m.clusters_by_id m.options.wildcard req.tokens leaf)) [
                    | some c ↦ some (
                      record s { miner = record m { shards = insert count root m.shards } },
                      matched c.id,
                    )
                    | none ↦
                        let (created, result) =
                          create_cluster now count keys root leaf req.tokens req.suffix req.member
                            req.event_ms m in
                        some (
                          record { miner = created; dropped = m.clusters_by_id ++ s.dropped },
                          done result,
                        )
                  ]
          ]
        ]

    -- The next section of a thread; `none` is a panic. A thread that is done stays so.
    unfoldable pub advance : SystemTime → Request → Pc → Shared F R → Option (Shared F R × Pc)
    advance now req entering s =
        some (record s { miner = (shard_for (length req.tokens) s.miner).1 }, searching)
    advance now req searching s = search_section req s
    advance now req missed s = create_section now req s
    advance now req (matched id) s = read_section now req id s
    advance now req (changing id needs_generalize) s = write_section req id needs_generalize s
    advance now req (done result) s = some (s, done result)

-- The threads by their number, over one miner.
pub record System (F R : Type 0) : Type 0 where
  pub shared : Shared F R
  pub pcs : ℕ → Pc

abbrev pub update_pc : (ℕ → Pc) → ℕ → Pc → ℕ → Pc
update_pc pcs i pc j = if i == j then pc else pcs j

-- All threads at their start.
abbrev pub start : {F R : Type 0} → Miner F R → System F R
start m = record { shared = record { miner = m; dropped = [] }; pcs = λ i. entering }

module _ {F R : Type 0} ⦃fl : Float F⦄ (requests : ℕ → Request) where
  -- Thread `i` runs its next section, at a time that the clock gives.
  pub data Step (s : System F R) : System F R → Type 0 where
    turn :
        (i : ℕ) (now : SystemTime) {after : Shared F R} {pc : Pc}
        → advance now (requests i) (s.pcs i) s.shared ≡ some (after, pc)
        → Step s (record { shared = after; pcs = update_pc s.pcs i pc })

  -- What the threads can reach in a number of steps.
  pub data Reach (m : Miner F R) : ℕ → System F R → Type 0 where
    here : Reach m 0 (start m)
    next : {n : ℕ} {s t : System F R} → Reach m n s → Step s t → Reach m (suc n) t
