-- ===== src/Miner/Concurrent/Hits.antt =====
-- The hits that the bodies of crates/logdrain/src/miner.rs count, over all ids that are out, and which
-- threads have counted theirs.
use logdrain.Common.{
  ℕ, suc, ◌+◌, ◌<◌, ◌≤◌, Option, none, some, ◌≡◌, refl, sym, ◌∙◌, ap, subst, Text, nat_eq, arith,
  u64_values, wrapping_add,
}
use logdrain.Common.Sums.{sum_to, sum_to_eq, sum_to_update, le-sum_to}
use logdrain.Cluster.{ClusterInner, touch, observe_event, add_member}
use logdrain.Cluster.Time.{SystemTime}
use logdrain.Miner.Concurrent.{Pc, Shared, handle, write_body}
use logdrain.Miner.Concurrent.Handles.{
  handle-write_body_self, handle-write_body_ne, write_body_frame,
}
use logdrain.Miner.Learn.{observe_option, add_member_option}

-- Whether a thread has counted its line, as a number.
abbrev pub weight : Pc → ℕ
weight (Pc.changing id needs_generalize) = 1
weight (Pc.done result) = 1
weight _ = 0

abbrev pub size_of : Option ClusterInner → ℕ
size_of none = 0
size_of (some body) = body.size

module _ {F R : Type 0} where
  -- The hits of every body that can be reached, in the miner or by a handle on one it has evicted.
  abbrev pub hits : Shared F R → ℕ
  hits s = sum_to s.miner.counter (λ id. size_of (handle id s))

  pub hits_eq :
      (s t : Shared F R)
      → t.miner.counter ≡ s.miner.counter
      → ((id : ℕ) → handle id t ≡ handle id s)
      → hits t ≡ hits s
  hits_eq s t counter same =
      ap (λ n. sum_to n (λ id. size_of (handle id t))) counter
      ∙ sum_to_eq s.miner.counter (λ id. size_of (handle id t)) (λ id. size_of (handle id s))
          (λ id h. ap size_of (same id))

  pub hits_next :
      (s t : Shared F R) (body : ClusterInner)
      → t.miner.counter ≡ suc s.miner.counter
      → ((id : ℕ) → id ≤ s.miner.counter → handle id t ≡ handle id s)
      → handle (suc s.miner.counter) t ≡ some body
      → hits t ≡ hits s + body.size
  unfolding sum_to
  hits_next s t body counter same new =
      ap (λ n. sum_to n (λ id. size_of (handle id t))) counter
      ∙ ap (λ n. n + size_of (handle (suc s.miner.counter) t))
          (sum_to_eq s.miner.counter (λ id. size_of (handle id t)) (λ id. size_of (handle id s))
            (λ id h. ap size_of (same id h)))
      ∙ ap (λ b. hits s + size_of b) new

  module _ (id : ℕ) (s : Shared F R) (old : ClusterInner) (issued : id ≤ s.miner.counter)
      (there : handle id s ≡ some old) where
    pub size-hits : old.size ≤ hits s
    size-hits =
        let below : size_of (handle id s) ≤ hits s =
          le-sum_to s.miner.counter id (λ i. size_of (handle i s)) issued in
        subst (λ b. size_of b ≤ hits s) there below

    pub hits-write_body :
        (body : ClusterInner) → hits (write_body id body s) + old.size ≡ hits s + body.size
    hits-write_body body =
        let t = write_body id body s in
        let (shards, options, counter) = write_body_frame id s body in
        let moved : sum_to s.miner.counter (λ i. size_of (handle i t)) + size_of (handle id s)
            ≡ hits s + size_of (handle id t) =
          sum_to_update s.miner.counter id (λ i. size_of (handle i t)) (λ i. size_of (handle i s))
            issued (λ i n. ap size_of (handle-write_body_ne id s body i n)) in
        ap (λ n. sum_to n (λ i. size_of (handle i t)) + old.size) counter
        ∙ ap (λ b. sum_to s.miner.counter (λ i. size_of (handle i t)) + size_of b) (sym there)
        ∙ moved
        ∙ ap (λ b. hits s + size_of b) (handle-write_body_self id s body)

  -- A section counts a hit just when its thread comes to have counted its line.
  abbrev pub IsCounted : Shared F R → Pc → Shared F R → Pc → Type 0
  IsCounted s pc t after = hits s + 1 < u64_values → hits t + weight pc ≡ hits s + weight after

pub size-add_member_option :
    (member : Option Text) (body : ClusterInner) → (add_member_option member body).size ≡ body.size
unfolding add_member
size-add_member_option none body = refl
size-add_member_option (some member) body = ground arith

pub size-hit :
    (now : SystemTime) (tick : ℕ) (event_ms : Option ℕ) (body : ClusterInner)
    → (observe_option event_ms (touch now tick body)).size ≡ wrapping_add body.size 1
unfolding touch observe_event
size-hit now tick none body = refl
size-hit now tick (some ms) body = refl
