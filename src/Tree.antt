-- ===== src/Tree.antt =====
-- The prefix tree of a shard and its leaves, crates/logdrain/src/tree.rs.
pub mod Leaf
pub mod Shape
pub mod Descent
pub mod Membership
use logdrain.Common.{
  ℕ, List, [], ◌∷◌, Option, none, some, Bool, true, false, Text, is_empty, list_eq, nat_eq, ◌==◌,
  if◌then◌else◌,
}
use logdrain.Tree.Leaf
use logdrain.Tree.Leaf.{LeafBucket}

-- `enum TreeNode`: the map of an internal node is the list of its children.
mutual
  pub data TreeNode : Type 0 where
    internal : Children → TreeNode
    leaf : LeafBucket → TreeNode

  pub data Children : Type 0 where
    nil : Children
    child : Text → TreeNode → Children → Children

-- `new_internal`
abbrev pub new_internal : TreeNode
new_internal = internal nil

-- `HashMap::get`
unfoldable pub get_child : Text → Children → Option TreeNode
get_child key nil = none
get_child key (child k node rest) = if k == key then some node else get_child key rest

-- A write through `get_mut`, or `HashMap::insert`.
unfoldable pub set_child : Text → TreeNode → Children → Children
set_child key node nil = child key node nil
set_child key node (child k old rest) =
    if k == key then child k node rest else child k old (set_child key node rest)

-- `descend`
unfoldable pub descend : List Text → TreeNode → Option LeafBucket
descend [] (leaf b) = some b
descend [] (internal children) = none
descend (head ∷ rest) (internal children) = elim (get_child head children) [
  | some node ↦ descend rest node
  | none ↦ none
]
descend (head ∷ rest) (leaf b) = none

unfoldable pub has_child : Text → Children → Bool
unfolding get_child
has_child key children = elim (get_child key children) [ some _ ↦ true | none ↦ false ]

-- The node that `descend_or_create` puts under a new key.
abbrev pub fresh_node : List Text → ℕ → TreeNode
fresh_node rest leaf_cap = if is_empty rest then leaf (Leaf.new leaf_cap) else new_internal

-- `if !children.contains_key(*head) { … insert … }`
unfoldable pub ensure_child : Text → List Text → ℕ → Children → Children
unfolding has_child set_child Leaf.new
ensure_child head rest leaf_cap children =
    if has_child head children then children else set_child head (fresh_node rest leaf_cap) children

-- `descend_or_create`: the tree with the path made, and the leaf to which the returned reference
-- points. `none` is a panic (`unreachable!`, or the `expect`).
unfoldable pub descend_or_create : List Text → ℕ → TreeNode → Option (TreeNode × LeafBucket)
descend_or_create [] leaf_cap (leaf b) = some (leaf b, b)
descend_or_create [] leaf_cap (internal children) =
    some (leaf (Leaf.new leaf_cap), Leaf.new leaf_cap)
descend_or_create (head ∷ rest) leaf_cap (leaf b) = none
descend_or_create (head ∷ rest) leaf_cap (internal children) =
    let present = ensure_child head rest leaf_cap children in
    elim (get_child head present) [
      | none ↦ none
      | some node ↦ elim (descend_or_create rest leaf_cap node) [
        | none ↦ none
        | some (node', b) ↦ some (internal (set_child head node' present), b)
      ]
    ]

-- A write through that reference: the leaf at the end of an existing path is replaced.
unfoldable pub set_leaf : List Text → LeafBucket → TreeNode → TreeNode
set_leaf [] b node = leaf b
set_leaf (head ∷ rest) b (leaf old) = leaf old
set_leaf (head ∷ rest) b (internal children) = elim (get_child head children) [
  | some node ↦ internal (set_child head (set_leaf rest b node) children)
  | none ↦ internal children
]
