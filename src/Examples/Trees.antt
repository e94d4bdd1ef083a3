-- ===== src/Examples/Trees.antt =====
-- The theorems on leaves and prefix trees, applied to concrete trees.
use logdrain.Common.{
  nat_eq, list_eq, List, [], ◌∷◌, some, ◌≡◌, ◌≢◌, refl, Text, codes, length, arith,
}
use mathlib.Core.Option
use logdrain.Examples.Platform.{milli, whole_line}
use logdrain.Tree.{TreeNode, new_internal, descend, descend_or_create}
use logdrain.Tree.Descent.{descend-descend_or_create}
use logdrain.Tree.Leaf
use logdrain.Tree.Leaf.{LeafBucket, remove}
use logdrain.Tree.Shape.{IsShaped, descend_or_create-IsRoot}

abbrev keys : List Text
keys = codes "a" ∷ codes "b" ∷ []

abbrev other_keys : List Text
other_keys = codes "a" ∷ codes "c" ∷ []

keys_ne : keys ≢ other_keys
keys_ne e = ground arith

descend_or_create-IsRoot_example :
    (node' : TreeNode) × (b : LeafBucket) × (descend_or_create keys 3 new_internal
      ≡ some (node', b))
    × IsShaped (length keys) node'
descend_or_create-IsRoot_example = descend_or_create-IsRoot keys 3 new_internal tt

path :
    (node' : TreeNode) × (b : LeafBucket) × (descend_or_create keys 3 new_internal
      ≡ some (node', b))
    × IsShaped (length keys) node'
path = descend_or_create-IsRoot keys 3 new_internal tt

descend-descend_or_create_example :
    (descend keys path.0 ≡ some path.1)
    × (path.1 ≡ Option.get_or (descend keys new_internal) (Leaf.new 3))
    × (descend other_keys path.0 ≡ descend other_keys new_internal)
descend-descend_or_create_example =
    descend-descend_or_create keys other_keys 3 new_internal path.0 path.1 refl keys_ne path.2
