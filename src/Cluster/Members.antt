-- ===== src/Cluster/Members.antt =====
-- The member labels of a cluster, `add_member` of crates/logdrain/src/cluster.rs.
use logdrain.Common.{
  ◌≤◌, List, [], ◌∷◌, ◌≡◌, refl, true, false, Text, contains, count, count-append, list_eq, nat_eq,
  ◌==◌, if◌then◌else◌, arith, Bool-cases, inl, inr,
}
use logdrain.Cluster.{ClusterInner, add_member}

count-contains :
    (label : Text) (members : List Text) → contains members label ≡ false → count label members ≡ 0
count-contains label [] e = refl
count-contains label (m ∷ members) e = ground (arith, count-contains label members)

contains-count :
    (label : Text) (members : List Text) → contains members label ≡ true → 1 ≤ count label members
contains-count label [] e = cc
contains-count label (m ∷ members) e = ground (arith, contains-count label members)

-- The members after a sequence of labels, each added in turn.
abbrev pub add_members : List Text → ClusterInner → ClusterInner
add_members [] c = c
add_members (label ∷ labels) c = add_members labels (add_member label c)

-- No member stands twice.
abbrev pub HasDistinctMembers : ClusterInner → Type 0
HasDistinctMembers c = (label : Text) → count label c.members ≤ 1

count-add_member :
    (label other : Text) (c : ClusterInner)
    → HasDistinctMembers c
    → count other (add_member label c).members
      ≡ (if label == other then 1 else count other c.members)
unfolding add_member
count-add_member label other c h = elim (Bool-cases (contains c.members label)) [
  | inl e ↦ rw (e, add_member) (ground (arith, contains-count label c.members e, h label))
  | inr e ↦
      rw (e, add_member)
        (ground
          (arith, count-append other c.members (label ∷ []), count-contains label c.members e))
]

add_member-HasDistinctMembers :
    (label : Text) (c : ClusterInner)
    → HasDistinctMembers c
    → HasDistinctMembers (add_member label c)
add_member-HasDistinctMembers label c h other =
    ground (arith, count-add_member label other c h, h other)

-- Where no member stands twice, adding labels one after another leaves each of them among the members
-- exactly once, and every other member as often as it was.
pub count-add_members :
    (labels : List Text) (c : ClusterInner) (label : Text)
    → HasDistinctMembers c
    → count label (add_members labels c).members
      ≡ (if contains labels label then 1 else count label c.members)
count-add_members [] c label h = refl
count-add_members (l ∷ labels) c label h = ground (
  arith,
  count-add_members labels (add_member l c) label (add_member-HasDistinctMembers l c h),
  count-add_member l label c h,
)
