-- ===== src/Miner/Snapshot/Entries.antt =====
-- The bodies of a miner as a list of entries, as `snapshot` of crates/logdrain/src/miner.rs goes through them.
use logdrain.Common.{
  ℕ, List, [], ◌∷◌, Option, none, some, ◌≡◌, ◌≢◌, refl, ◌∙◌, nat_eq, arith, All, ℕ_discrete,
}
use logdrain.Common.Assoc.{lookup, insert, lookup-insert_self, lookup-insert_ne}
use logdrain.Cluster.{ClusterInner}
use logdrain.Miner.Snapshot.Room.{refreshed}

abbrev pub Entries : Type 0
Entries = List (ℕ × ClusterInner)

-- No key stands twice: the list is a map.
abbrev pub HaveDistinctKeys : Entries → Type 0
HaveDistinctKeys [] = Unit
HaveDistinctKeys (e ∷ entries) =
    All (λ (d : ℕ × ClusterInner). e.0 ≢ d.0) entries × HaveDistinctKeys entries

lookup_absent :
    (key : ℕ) (entries : Entries)
    → All (λ (d : ℕ × ClusterInner). key ≢ d.0) entries
    → lookup key entries ≡ none
unfolding lookup
lookup_absent key [] h = refl
lookup_absent key (e ∷ entries) h = ground (arith, h.0, lookup_absent key entries h.1)

lookup-cons_ne :
    (key other : ℕ) (body : ClusterInner) (entries : Entries)
    → key ≢ other
    → lookup other ((key, body) ∷ entries) ≡ lookup other entries
unfolding lookup
lookup-cons_ne key other body entries n = ground arith

lookup-cons_self :
    (key : ℕ) (body : ClusterInner) (entries : Entries)
    → lookup key ((key, body) ∷ entries) ≡ some body
unfolding lookup
lookup-cons_self key body entries = ground arith

-- Every entry of a map is what a search for its key finds.
All-IsFound_cons :
    (key : ℕ) (body : ClusterInner) (whole entries : Entries)
    → All (λ (d : ℕ × ClusterInner). key ≢ d.0) entries
    → All (λ (d : ℕ × ClusterInner). lookup d.0 whole ≡ some d.1) entries
    → All (λ (d : ℕ × ClusterInner). lookup d.0 ((key, body) ∷ whole) ≡ some d.1) entries
All-IsFound_cons key body whole [] n f = tt
All-IsFound_cons key body whole (d ∷ entries) n f =
    (lookup-cons_ne key d.0 body whole n.0 ∙ f.0, All-IsFound_cons key body whole entries n.1 f.1)

pub All-IsFound :
    (entries : Entries)
    → HaveDistinctKeys entries
    → All (λ (d : ℕ × ClusterInner). lookup d.0 entries ≡ some d.1) entries
All-IsFound [] h = tt
All-IsFound ((key, body) ∷ entries) h = (
  lookup-cons_self key body entries,
  All-IsFound_cons key body entries entries h.0 (All-IsFound entries h.1),
)

-- What the miner holds after the entries are restored into one that held `other`.
abbrev pub after_restore : Option ClusterInner → Option ClusterInner → Option ClusterInner
after_restore (some body) other = some (refreshed body)
after_restore none other = other

pub All-unused_insert :
    (key : ℕ) (body : ClusterInner) (held entries : Entries)
    → All (λ (d : ℕ × ClusterInner). key ≢ d.0) entries
    → All (λ (d : ℕ × ClusterInner). lookup d.0 held ≡ none) entries
    → All (λ (d : ℕ × ClusterInner). lookup d.0 (insert key body held) ≡ none) entries
All-unused_insert key body held [] n u = tt
All-unused_insert key body held (d ∷ entries) n u =
    (lookup-insert_ne key d.0 body held n.0 ∙ u.0, All-unused_insert key body held entries n.1 u.1)

pub after_restore-cons :
    (key : ℕ) (body : ClusterInner) (entries held : Entries) (id : ℕ)
    → All (λ (d : ℕ × ClusterInner). key ≢ d.0) entries
    → after_restore (lookup id entries) (lookup id (insert key (refreshed body) held))
      ≡ after_restore (lookup id ((key, body) ∷ entries)) (lookup id held)
after_restore-cons key body entries held id n = elim (ℕ_discrete key id) [
  | yes p ↦ rw (← p) (
      rw (lookup_absent key entries n, lookup-cons_self key body entries)
        (lookup-insert_self key (refreshed body) held))
  | no p ↦
      rw (lookup-cons_ne key id body entries p, lookup-insert_ne key id (refreshed body) held p)
]
