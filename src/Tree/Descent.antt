-- ===== src/Tree/Descent.antt =====
-- The tree of a shard as a map from key vectors to leaves.
use mathlib.Core.Option
use logdrain.Common.{
  ℕ, List, [], ◌∷◌, none, some, ◌≡◌, refl, ◌≢◌, inl, inr, Text, length, Option-cases, arith,
  list_eq, nat_eq,
}
use logdrain.Tree.Leaf
use logdrain.Tree.Leaf.{LeafBucket}
use logdrain.Tree.{
  TreeNode, new_internal, internal, leaf, Children, get_child, set_child, fresh_node, ensure_child,
  descend, descend_or_create, set_leaf,
}
use logdrain.Tree.Shape.{
  child_or_fresh, get_child-set_child, get_child-ensure_child, get_child-ensure_child_self,
}

-- What a successful round of `descend_or_create` below the root has done.
descend_or_create-eq-some :
    (head : Text) (rest : List Text) (leaf_cap : ℕ) (children : Children) (node' : TreeNode)
    (b : LeafBucket)
    → descend_or_create (head ∷ rest) leaf_cap (internal children) ≡ some (node', b)
    → (below : TreeNode) × (descend_or_create rest leaf_cap
          (child_or_fresh head rest leaf_cap children)
        ≡ some (below, b))
      × (node' ≡ internal (set_child head below (ensure_child head rest leaf_cap children)))
unfolding descend_or_create
descend_or_create-eq-some head rest leaf_cap children node' b e =
    elim (Option-cases
      (descend_or_create rest leaf_cap (child_or_fresh head rest leaf_cap children))) [
        | inl f ↦ cc (
            rw (get_child-ensure_child_self head rest leaf_cap children, descend_or_create, f) at e)
        | inr ((below, b'), f) ↦ (
          below,
          ground (arith, get_child-ensure_child_self head rest leaf_cap children),
          ground (arith, get_child-ensure_child_self head rest leaf_cap children),
        )
      ]

descend-fresh_node_self :
    (keys : List Text) (leaf_cap : ℕ)
    → Option.get_or (descend keys (fresh_node keys leaf_cap)) (Leaf.new leaf_cap)
      ≡ Leaf.new leaf_cap
unfolding descend get_child
descend-fresh_node_self [] leaf_cap = refl
descend-fresh_node_self (k ∷ keys) leaf_cap = refl

descend-fresh_node_ne :
    (keys other : List Text) (leaf_cap : ℕ)
    → length other ≡ length keys
    → keys ≢ other
    → descend other (fresh_node keys leaf_cap) ≡ none
unfolding descend get_child
descend-fresh_node_ne [] [] leaf_cap h n = absurd (n refl)
descend-fresh_node_ne (k ∷ keys) (k' ∷ other) leaf_cap h n = refl
descend-fresh_node_ne [] (k' ∷ other) leaf_cap h n = absurd (omega arith)
descend-fresh_node_ne (k ∷ keys) [] leaf_cap h n = absurd (omega arith)

-- After a `descend_or_create` that does not panic, `descend` along the keys finds the leaf that it
-- returned, which is the one that was there before, or else a new one.
pub descend-descend_or_create_self :
    (keys : List Text) (leaf_cap : ℕ) (node node' : TreeNode) (b : LeafBucket)
    → descend_or_create keys leaf_cap node ≡ some (node', b)
    → (descend keys node' ≡ some b) × (b ≡ Option.get_or (descend keys node) (Leaf.new leaf_cap))
unfolding descend descend_or_create
descend-descend_or_create_self [] leaf_cap (leaf b0) node' b e = ground arith
descend-descend_or_create_self [] leaf_cap (internal children) node' b e = ground arith
descend-descend_or_create_self (head ∷ rest) leaf_cap (leaf b0) node' b e = cc
descend-descend_or_create_self (head ∷ rest) leaf_cap (internal children) node' b e =
    let (below, f, p) = descend_or_create-eq-some head rest leaf_cap children node' b e in
    let ih =
      descend-descend_or_create_self rest leaf_cap (child_or_fresh head rest leaf_cap children)
        below b f in
    ground (
      arith,
      get_child-set_child head head below (ensure_child head rest leaf_cap children),
      descend-fresh_node_self rest leaf_cap,
    )

-- A `descend_or_create` that does not panic leaves every other path of the same length as it was.
pub descend-descend_or_create_ne :
    (keys other : List Text) (leaf_cap : ℕ) (node node' : TreeNode) (b : LeafBucket)
    → length other ≡ length keys
    → keys ≢ other
    → descend_or_create keys leaf_cap node ≡ some (node', b)
    → descend other node' ≡ descend other node
unfolding descend descend_or_create
descend-descend_or_create_ne [] [] leaf_cap node node' b h n e = absurd (n refl)
descend-descend_or_create_ne [] (k' ∷ other) leaf_cap node node' b h n e = absurd (omega arith)
descend-descend_or_create_ne (k ∷ keys) [] leaf_cap node node' b h n e = absurd (omega arith)
descend-descend_or_create_ne (head ∷ rest) (head' ∷ rest') leaf_cap (leaf b0) node' b h n e = cc
descend-descend_or_create_ne (head ∷ rest) (head' ∷ rest') leaf_cap (internal children) node' b h n
      e =
    let (below, f, p) = descend_or_create-eq-some head rest leaf_cap children node' b e in
    ground (
      arith,
      get_child-set_child head head' below (ensure_child head rest leaf_cap children),
      get_child-ensure_child head head' rest leaf_cap children,
      descend-fresh_node_ne rest rest' leaf_cap,
      descend-descend_or_create_ne rest rest' leaf_cap (child_or_fresh head rest leaf_cap children)
          below b,
    )

-- Where a path leads to a leaf, a leaf written at its end is read back.
pub descend-set_leaf_self :
    (keys : List Text) (b old : LeafBucket) (node : TreeNode)
    → descend keys node ≡ some old
    → descend keys (set_leaf keys b node) ≡ some b
unfolding descend set_leaf
descend-set_leaf_self [] b old node e = refl
descend-set_leaf_self (head ∷ rest) b old (leaf b0) e = cc
descend-set_leaf_self (head ∷ rest) b old (internal children) e =
    elim (Option-cases (get_child head children)) [
      | inl f ↦ ground arith
      | inr (node, f) ↦ ground (
        arith,
        get_child-set_child head head (set_leaf rest b node) children,
        descend-set_leaf_self rest b old node,
      )
    ]

-- A leaf written at the end of a path changes no other path of the same length.
pub descend-set_leaf_ne :
    (keys other : List Text) (b : LeafBucket) (node : TreeNode)
    → length other ≡ length keys
    → keys ≢ other
    → descend other (set_leaf keys b node) ≡ descend other node
unfolding descend set_leaf
descend-set_leaf_ne [] [] b node h n = absurd (n refl)
descend-set_leaf_ne [] (k' ∷ other) b node h n = absurd (omega arith)
descend-set_leaf_ne (k ∷ keys) [] b node h n = absurd (omega arith)
descend-set_leaf_ne (head ∷ rest) (head' ∷ rest') b (leaf b0) h n = refl
descend-set_leaf_ne (head ∷ rest) (head' ∷ rest') b (internal children) h n =
    elim (Option-cases (get_child head children)) [
      | inl f ↦ ground arith
      | inr (node, f) ↦ ground (
        arith,
        get_child-set_child head head' (set_leaf rest b node) children,
        descend-set_leaf_ne rest rest' b node,
      )
    ]

-- After a `descend_or_create` that does not panic, `descend` along the keys finds the leaf that it
-- returned, which is the one that was there before or else a new one, and every other path of the same
-- length leads where it led before.
pub descend-descend_or_create :
    (keys other : List Text) (leaf_cap : ℕ) (node node' : TreeNode) (b : LeafBucket)
    → length other ≡ length keys
    → keys ≢ other
    → descend_or_create keys leaf_cap node ≡ some (node', b)
    → (descend keys node' ≡ some b)
      × (b ≡ Option.get_or (descend keys node) (Leaf.new leaf_cap))
      × (descend other node' ≡ descend other node)
descend-descend_or_create keys other leaf_cap node node' b h n e =
    let (found, old) = descend-descend_or_create_self keys leaf_cap node node' b e in
    (found, old, descend-descend_or_create_ne keys other leaf_cap node node' b h n e)

pub descend-new_internal : (keys : List Text) → descend keys new_internal ≡ none
unfolding descend get_child
descend-new_internal [] = refl
descend-new_internal (k ∷ keys) = refl
