-- ===== src/Miner/Learn.antt =====
-- The `add` path of crates/logdrain/src/miner.rs. A call takes the clock's reading `now`: it reads
-- the clock once, in `touch` or in `ClusterInner::new`.
pub mod Body
pub mod Evict
use logdrain.Common.{
  ℕ, List, [], ◌∷◌, Option, none, some, Bool, true, false, not, ◌&&◌, Text, length, map, ltb,
  wrapping_add, nat_eq, if◌then◌else◌,
}
use logdrain.Common.Assoc.{lookup, insert, remove}
use logdrain.Cluster
use logdrain.Cluster.{
  ClusterInner, touch, observe_event, recency, would_generalize, generalize, add_member,
}
use logdrain.Cluster.Time.{SystemTime}
use logdrain.Extern.{Float, RegexEngine, as_ref}
use logdrain.Mask.{apply_masks}
use logdrain.Miner.Matching.{Candidate, best_match, at_least}
use logdrain.Miner.State.{Miner, next_tick, descent_keys, shard_for}
use logdrain.Miner.Update.{UpdateType, AddResult}
use logdrain.Options.{Options, active_path_delimiters}
use logdrain.Tokenize.{Token, to_owned, tokenize_with, split_first_line}
use logdrain.Tree.{TreeNode, descend, descend_or_create, set_leaf}
use logdrain.Tree.Leaf
use logdrain.Tree.Leaf.{LeafBucket}

-- `if let Some(ms) = event_ms { body.observe_event(ms) }`, and the same for a member
abbrev pub observe_option : Option ℕ → ClusterInner → ClusterInner
observe_option none c = c
observe_option (some ms) c = observe_event ms c

abbrev pub add_member_option : Option Text → ClusterInner → ClusterInner
add_member_option none c = c
add_member_option (some member) c = add_member member c

abbrev pub is_none : Option Text → Bool
is_none none = true
is_none (some member) = false

-- The body after a match: the hit, the event, then under the write lock the template and the
-- member. With it, whether the template changed.
unfoldable pub match_body :
    SystemTime → ℕ → List Token → Text → Option Text → Option ℕ → ClusterInner → ClusterInner × Bool
match_body now tick tokens wildcard member event_ms body =
    let hit = observe_option event_ms (touch now tick body) in
    let needs_generalize = would_generalize hit tokens wildcard in
    if not needs_generalize && is_none member
    then (hit, false)
    else let (template, changed) =
        if needs_generalize then generalize hit tokens wildcard else (hit, false) in
      (add_member_option member template, changed)

-- `Iterator::min_by_key`: the first of the least
unfoldable pub min_loop : (ℕ → ℕ) → ℕ → List ℕ → ℕ
min_loop key best [] = best
min_loop key best (x ∷ xs) = min_loop key (if ltb (key x) (key best) then x else best) xs

unfoldable pub min_by_key : (ℕ → ℕ) → List ℕ → Option ℕ
min_by_key key [] = none
min_by_key key (x ∷ xs) = some (min_loop key x xs)

unfoldable pub recency_of : List (ℕ × ClusterInner) → ℕ → ℕ
recency_of clusters id = elim (lookup id clusters) [ some body ↦ recency body | none ↦ 0 ]

-- `evict_if_full`: the leaf and the bodies that stay
unfoldable pub evict_if_full :
    LeafBucket → List (ℕ × ClusterInner) → LeafBucket × List (ℕ × ClusterInner)
evict_if_full leaf clusters =
    if not (Leaf.is_full leaf)
    then (leaf, clusters)
    else elim (min_by_key (recency_of clusters) leaf.ids) [
      | some v ↦ (Leaf.remove v leaf, remove v clusters)
      | none ↦ (leaf, clusters)
    ]

abbrev pub update_type : Bool → UpdateType
update_type true = UpdateType.template_changed
update_type false = UpdateType.none

module _ {F R : Type 0} where
  -- `apply_match`: the handle leads to the body under the candidate's id.
  unfoldable pub apply_match :
      SystemTime
      → Candidate F
      → List Token
      → Option Text
      → Option ℕ
      → Miner F R
      → Miner F R × AddResult
  apply_match now c tokens member event_ms m =
      let (tick, ticked) = next_tick m in
      let (body, changed) = match_body now tick tokens m.options.wildcard member event_ms c.body in
      (
        record ticked { clusters_by_id = insert c.id body ticked.clusters_by_id },
        record { cluster_id = c.id; update = update_type changed },
      )

  -- "Genuinely new cluster": `root` is the shard's tree with the path made, `leaf` its leaf.
  unfoldable pub create_cluster :
      SystemTime
      → ℕ
      → List Text
      → TreeNode
      → LeafBucket
      → List Token
      → Option Text
      → Option Text
      → Option ℕ
      → Miner F R
      → Miner F R × AddResult
  create_cluster now count keys root leaf tokens suffix member event_ms m =
      let id = wrapping_add m.counter 1 in
      let (tick, ticked) = next_tick m in
      let inner =
        add_member_option member
          (record (Cluster.new id (map to_owned tokens) now suffix event_ms) {
            last_used = tick;
          }) in
      let (kept, clusters) = evict_if_full leaf (insert id inner m.clusters_by_id) in
      (
        record ticked {
          shards = insert count (set_leaf keys (Leaf.insert id kept) root) m.shards;
          clusters_by_id = clusters;
          counter = id;
        },
        record { cluster_id = id; update = UpdateType.created },
      )
