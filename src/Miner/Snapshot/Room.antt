-- ===== src/Miner/Snapshot/Room.antt =====
-- That `restore` in crates/logdrain/src/miner.rs finds room for every cluster of a snapshot: a leaf of
-- the restored miner is a part of the leaf it was taken from.
use logdrain.Common.{
  ℕ, ◌≤◌, ◌<◌, List, [], ◌∷◌, none, some, ◌≡◌, refl, sym, ◌∙◌, ap, length, length-map, map, count,
  nat_eq, arith, ℕ_discrete, ◌*◌, ◌/◌, ◌%◌, u64_values,
}
use logdrain.Cluster.Time.{SystemTime, since_epoch, before_epoch, unix_ms, time_from_ms}
use logdrain.Common.Assoc.{lookup}
use logdrain.Cluster.{ClusterInner}
use logdrain.Miner.Invariant.{IsWellFormed, IsLeaf, body_keys, template_texts}
use logdrain.Miner.Layout.{key_count, length-text_keys}
use logdrain.Miner.Snapshot.{snapshot_token, restore_token, snapshot_cluster, restore_cluster}
use logdrain.Miner.State.{Miner, text_keys}
use logdrain.Tokenize.{OwnedToken}
use logdrain.Tree.Leaf
use logdrain.Tree.Leaf.{LeafBucket}
use logdrain.Tree.Membership.{count-remove, length-remove}

-- A time as it is stored, in milliseconds: what is below a millisecond is lost, and a time before the
-- epoch becomes the epoch.
abbrev pub whole_ms : SystemTime → SystemTime
whole_ms (since_epoch ns) = since_epoch ((ns / 1000000) % u64_values * 1000000)
whole_ms (before_epoch ns) = since_epoch 0

-- The body that comes back: the recency is forgotten, and what the time of creation loses.
abbrev pub refreshed : ClusterInner → ClusterInner
refreshed b = record b { created_at = whole_ms b.created_at; last_used = 0 }

tokens_restored :
    (tokens : List OwnedToken) → map restore_token (map snapshot_token tokens) ≡ tokens
tokens_restored [] = refl
tokens_restored (t ∷ tokens) = ap (λ rest. t ∷ rest) (tokens_restored tokens)

time_from_ms-unix_ms : (t : SystemTime) → time_from_ms (unix_ms t) ≡ whole_ms t
unfolding time_from_ms unix_ms
time_from_ms-unix_ms (since_epoch ns) = refl
time_from_ms-unix_ms (before_epoch ns) = refl

-- `snapshot` and `restore` keep everything else of a body.
pub restore_cluster-snapshot_cluster :
    (b : ClusterInner) → restore_cluster (snapshot_cluster b) ≡ refreshed b
unfolding snapshot_cluster restore_cluster
restore_cluster-snapshot_cluster b =
    rw (tokens_restored b.tokens, time_from_ms-unix_ms b.created_at)

refreshed-tokens : (b : ClusterInner) → (refreshed b).tokens ≡ b.tokens
refreshed-tokens b = refl

-- A list that holds no more of any id than another, and less of one, is shorter.
pub length-lt_of_count :
    (xs ys : List ℕ) (v : ℕ)
    → ((x : ℕ) → count x xs ≤ count x ys)
    → count v xs < count v ys
    → length xs < length ys
length-lt_of_count [] [] v h lt = absurd (omega (arith, lt))
length-lt_of_count [] (y ∷ ys) v h lt = omega arith
length-lt_of_count (a ∷ xs) ys v h lt =
    let b : LeafBucket = record { ids = ys; cap = 0 } in
    let here : 1 ≤ count a ys = ground (arith, h a) in
    let ih =
      length-lt_of_count xs (Leaf.remove a b).ids v
        (λ x. ground (arith, h x, count-remove x a b here))
        (ground (arith, lt, count-remove v a b here)) in
    omega (arith, ih, length-remove a b here)

-- A body stands under its own id.
pub held_named :
    {F R : Type 0} (m : Miner F R) (id : ℕ) (b : ClusterInner)
    → IsWellFormed m
    → lookup id m.clusters_by_id ≡ some b
    → b.id ≡ id
held_named m id b wf e =
    let h = wf.held id b e in
    let leaf =
      wf.leaves (length b.tokens) (body_keys m.options b) h.leaf
        (length-text_keys m.options (template_texts b)
          ∙ ap (key_count m.options) (length-map (λ (t : OwnedToken). t.text) b.tokens))
        h.there in
    let f = leaf.filed id h.member in let q : f.body ≡ b = cc (f.found, e) in rw q at f.named

module _ {F R : Type 0} (m part : Miner F R) (wf : IsWellFormed m) (well : IsWellFormed part)
    (same : part.options ≡ m.options) where
  -- Every body of the one comes from the other.
  abbrev pub ComesFrom : Type 0
  ComesFrom =
      (id : ℕ) (body : ClusterInner)
      → lookup id part.clusters_by_id ≡ some body
      → (old : ClusterInner) × (lookup id m.clusters_by_id ≡ some old) × (body ≡ refreshed old)

  module _ (comes : ComesFrom) (id : ℕ) (b : ClusterInner)
      (here : lookup id m.clusters_by_id ≡ some b) (new : lookup id part.clusters_by_id ≡ none)
      (leaf : LeafBucket)
      (h : IsLeaf part.options part.clusters_by_id
        (length (refreshed b).tokens)
        (body_keys part.options (refreshed b))
        leaf) where
    -- The leaf of `m` that holds the body.
    abbrev full_leaf : LeafBucket
    full_leaf = (wf.held id b here).leaf

    full_leaf-IsLeaf :
        IsLeaf m.options m.clusters_by_id (length b.tokens) (body_keys m.options b) full_leaf
    full_leaf-IsLeaf =
        wf.leaves (length b.tokens) (body_keys m.options b) full_leaf
          (length-text_keys m.options (template_texts b)
            ∙ ap (key_count m.options) (length-map (λ (t : OwnedToken). t.text) b.tokens))
          (wf.held id b here).there

    same_keys :
        (old : ClusterInner) → body_keys part.options (refreshed old) ≡ body_keys m.options old
    same_keys old =
        ap (λ ts. text_keys part.options (map (λ (t : OwnedToken). t.text) ts))
          (refreshed-tokens old)
        ∙ ap (λ o. text_keys o (template_texts old)) same

    -- Whoever is in the leaf of `part` is in that leaf too.
    is_in_full : (x : ℕ) → 1 ≤ count x leaf.ids → 1 ≤ count x full_leaf.ids
    is_in_full x c =
        let f = h.filed x c in
        let (old, there, e) = comes x f.body f.found in
        let width : length old.tokens ≡ length b.tokens =
          sym (ap length (refreshed-tokens old))
          ∙ sym (ap (λ (q : ClusterInner). length q.tokens) e)
          ∙ f.tokens_width
          ∙ ap length (refreshed-tokens b) in
        let keys : body_keys m.options old ≡ body_keys m.options b =
          sym (same_keys old) ∙ sym (ap (body_keys part.options) e) ∙ f.path ∙ same_keys b in
        let held = wf.held x old there in
        let q : held.leaf ≡ full_leaf =
          let p = rw (width, keys) at held.there in cc (p, (wf.held id b here).there) in
        rw q at held.member

    not_in_part : count id leaf.ids ≡ 0
    not_in_part = elim (ℕ_discrete (count id leaf.ids) 0) [
      | yes p ↦ p
      | no p ↦ let f = h.filed id (omega arith) in absurd (cc (f.found, new))
    ]

    pub has_room : length leaf.ids < part.options.max_clusters_per_leaf
    has_room =
        let fewer : (x : ℕ) → count x leaf.ids ≤ count x full_leaf.ids = λ x.
          elim (ℕ_discrete (count x leaf.ids) 0) [
            | yes p ↦ omega arith
            | no p ↦ omega (arith, h.distinct x, is_in_full x (omega arith))
          ] in
        let shorter =
          length-lt_of_count leaf.ids full_leaf.ids id fewer
            (omega (arith, not_in_part, (wf.held id b here).member)) in
        rw same (omega (arith, shorter, full_leaf-IsLeaf.bounded))
