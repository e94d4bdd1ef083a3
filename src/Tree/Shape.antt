-- ===== src/Tree/Shape.antt =====
-- Every path of a shard's tree has the length of its keys, so the `unreachable!` arms of
-- crates/logdrain/src/tree.rs are not reached.
use logdrain.Common.{
  ℕ, zero, suc, List, [], ◌∷◌, some, ◌≡◌, refl, inl, inr, Text, length, Option-cases, arith,
  if◌then◌else◌, ◌==◌, list_eq, nat_eq,
}
use mathlib.Core.Option
use logdrain.Tree.Leaf.{LeafBucket}
use logdrain.Tree.{
  TreeNode, new_internal, internal, leaf, Children, nil, child, get_child, set_child, fresh_node,
  ensure_child, descend_or_create, set_leaf,
}

abbrev pub AllChildren : (TreeNode → Type 0) → Children → Type 0
AllChildren P nil = Unit
AllChildren P (child k node rest) = P node × AllChildren P rest

-- All leaves lie at the given depth.
abbrev pub IsShaped : ℕ → TreeNode → Type 0
IsShaped zero (leaf b) = Unit
IsShaped zero (internal children) = ⊥
IsShaped (suc d) (leaf b) = ⊥
IsShaped (suc d) (internal children) = AllChildren (IsShaped d) children

-- A root at depth 0 may still be the empty internal node that a new shard starts with.
abbrev pub IsRoot : ℕ → TreeNode → Type 0
IsRoot zero node = Unit
IsRoot (suc d) node = IsShaped (suc d) node

get_child-AllChildren :
    (P : TreeNode → Type 0) (key : Text) (children : Children) (node : TreeNode)
    → AllChildren P children
    → get_child key children ≡ some node
    → P node
unfolding get_child
get_child-AllChildren P key nil node h e = cc
get_child-AllChildren P key (child k n rest) node h e =
    ground (arith, get_child-AllChildren P key rest node h.1)

set_child-AllChildren :
    (P : TreeNode → Type 0) (key : Text) (node : TreeNode) (children : Children)
    → P node
    → AllChildren P children
    → AllChildren P (set_child key node children)
unfolding set_child
set_child-AllChildren P key node nil p h = (p, tt)
set_child-AllChildren P key node (child k n rest) p h =
    ground (arith, set_child-AllChildren P key node rest)

pub get_child-set_child :
    (key other : Text) (node : TreeNode) (children : Children)
    → get_child other (set_child key node children)
      ≡ (if key == other then some node else get_child other children)
unfolding get_child set_child
get_child-set_child key other node nil = refl
get_child-set_child key other node (child k n rest) =
    ground (arith, get_child-set_child key other node rest)

-- The node under the first key, as `descend_or_create` goes on from it.
abbrev pub child_or_fresh : Text → List Text → ℕ → Children → TreeNode
child_or_fresh head rest leaf_cap children =
    Option.get_or (get_child head children) (fresh_node rest leaf_cap)

pub get_child-ensure_child :
    (head other : Text) (rest : List Text) (leaf_cap : ℕ) (children : Children)
    → get_child other (ensure_child head rest leaf_cap children) ≡ (
        if head == other
        then some (child_or_fresh head rest leaf_cap children)
        else get_child other children)
unfolding ensure_child
get_child-ensure_child head other rest leaf_cap children =
    ground (arith, get_child-set_child head other (fresh_node rest leaf_cap) children)

ensure_child-AllChildren :
    (P : TreeNode → Type 0) (head : Text) (rest : List Text) (leaf_cap : ℕ) (children : Children)
    → P (fresh_node rest leaf_cap)
    → AllChildren P children
    → AllChildren P (ensure_child head rest leaf_cap children)
unfolding ensure_child
ensure_child-AllChildren P head rest leaf_cap children p h =
    ground (arith, set_child-AllChildren P head (fresh_node rest leaf_cap) children p h)

fresh_node-IsShaped :
    (rest : List Text) (leaf_cap : ℕ) → IsShaped (length rest) (fresh_node rest leaf_cap)
fresh_node-IsShaped [] leaf_cap = tt
fresh_node-IsShaped (k ∷ rest) leaf_cap = tt

child_or_fresh-IsShaped :
    (head : Text) (rest : List Text) (leaf_cap : ℕ) (children : Children)
    → AllChildren (IsShaped (length rest)) children
    → IsShaped (length rest) (child_or_fresh head rest leaf_cap children)
child_or_fresh-IsShaped head rest leaf_cap children h =
    elim (Option-cases (get_child head children)) [
      | inl e ↦ rw e (fresh_node-IsShaped rest leaf_cap)
      | inr (node, e) ↦ rw e (get_child-AllChildren (IsShaped (length rest)) head children node h e)
    ]

pub get_child-ensure_child_self :
    (head : Text) (rest : List Text) (leaf_cap : ℕ) (children : Children)
    → get_child head (ensure_child head rest leaf_cap children)
      ≡ some (child_or_fresh head rest leaf_cap children)
get_child-ensure_child_self head rest leaf_cap children =
    ground (arith, get_child-ensure_child head head rest leaf_cap children)

-- On a tree of the keys' depth there is no panic, and the tree keeps its shape.
pub descend_or_create-IsShaped :
    (keys : List Text) (leaf_cap : ℕ) (node : TreeNode)
    → IsShaped (length keys) node
    → (node' : TreeNode) × (b : LeafBucket) × (descend_or_create keys leaf_cap node
        ≡ some (node', b))
      × IsShaped (length keys) node'
unfolding descend_or_create
descend_or_create-IsShaped [] leaf_cap (leaf b) h = (leaf b, b, refl, tt)
descend_or_create-IsShaped [] leaf_cap (internal children) h = absurd h
descend_or_create-IsShaped (head ∷ rest) leaf_cap (leaf b) h = absurd h
descend_or_create-IsShaped (head ∷ rest) leaf_cap (internal children) h =
    let (node', b, e, shaped) =
      descend_or_create-IsShaped rest leaf_cap (child_or_fresh head rest leaf_cap children)
        (child_or_fresh-IsShaped head rest leaf_cap children h) in
    (
      internal (set_child head node' (ensure_child head rest leaf_cap children)),
      b,
      rw (get_child-ensure_child_self head rest leaf_cap children, descend_or_create)
          (rw (e, descend_or_create)),
      set_child-AllChildren (IsShaped (length rest)) head node' _ shaped (
          ensure_child-AllChildren (IsShaped (length rest)) head rest leaf_cap children
            (fresh_node-IsShaped rest leaf_cap) h),
    )

pub set_leaf-IsShaped :
    (keys : List Text) (b : LeafBucket) (node : TreeNode)
    → IsShaped (length keys) node
    → IsShaped (length keys) (set_leaf keys b node)
unfolding set_leaf
set_leaf-IsShaped [] b node h = tt
set_leaf-IsShaped (head ∷ rest) b (leaf old) h = h
set_leaf-IsShaped (head ∷ rest) b (internal children) h =
    elim (Option-cases (get_child head children)) [
      | inl e ↦ rw (e, set_leaf) h
      | inr (node, e) ↦
          rw (e, set_leaf)
            (set_child-AllChildren (IsShaped (length rest)) head (set_leaf rest b node) children
              (set_leaf-IsShaped rest b node
                (get_child-AllChildren (IsShaped (length rest)) head children node h e))
              h)
    ]

-- On the root of a shard, with all leaves as deep as the keys are many or empty and new,
-- `descend_or_create` does not panic, and all leaves of the tree that it gives are that deep.
pub descend_or_create-IsRoot :
    (keys : List Text) (leaf_cap : ℕ) (node : TreeNode)
    → IsRoot (length keys) node
    → (node' : TreeNode) × (b : LeafBucket) × (descend_or_create keys leaf_cap node
        ≡ some (node', b))
      × IsShaped (length keys) node'
unfolding descend_or_create
descend_or_create-IsRoot [] leaf_cap (leaf b) h = (leaf b, b, refl, tt)
descend_or_create-IsRoot [] leaf_cap (internal children) h = (_, _, refl, tt)
descend_or_create-IsRoot (head ∷ rest) leaf_cap node h =
    descend_or_create-IsShaped (head ∷ rest) leaf_cap node h

pub IsRoot-IsShaped : (d : ℕ) (node : TreeNode) → IsShaped d node → IsRoot d node
IsRoot-IsShaped zero node h = tt
IsRoot-IsShaped (suc d) node h = h

pub IsRoot-new_internal : (d : ℕ) → IsRoot d new_internal
IsRoot-new_internal zero = tt
IsRoot-new_internal (suc d) = tt
