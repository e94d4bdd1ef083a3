-- ===== src/Cli/Prepare.antt =====
-- `prepare` of crates/logdrain-cli/src/format.rs: the clusters that are shown, in their order.
use logdrain.Common.{
  ℕ, ◌+◌, List, [], ◌∷◌, ◌≡◌, refl, Bool, true, false, not, ◌&&◌, ◌||◌, Text, ltb, leb, nat_eq,
  ◌==◌, if◌then◌else◌, arith, ◌<◌, ◌≤◌, ◌⊎◌, inl, inr, dec_lt, ℕ_discrete,
}
use logdrain.Cluster.{Cluster}
use logdrain.Cluster.Rates.{lines_per_minute}
use logdrain.Extern.{Float}

-- `enum Sort`
pub data Sort : Type 0 where
  size template id rate : Sort

-- `retain`
unfoldable pub retain : ℕ → List Cluster → List Cluster
retain min_size [] = []
retain min_size (c ∷ clusters) =
    let rest = retain min_size clusters in if leb min_size c.size then c ∷ rest else rest

-- `str::cmp`: UTF-8 orders as the code points do.
unfoldable pub text_less : Text → Text → Bool
text_less s [] = false
text_less [] (d ∷ t) = true
text_less (c ∷ s) (d ∷ t) = ltb c d || (c == d && text_less s t)

-- Whether the comparison of `prepare` answers `Less`. Rates that cannot be compared count as equal.
module _ {F : Type 0} (fl : Float F) where
  unfoldable pub less : Sort → Cluster → Cluster → Bool
  unfolding text_less lines_per_minute
  less Sort.size a b = ltb b.size a.size || (b.size == a.size && ltb a.id b.id)
  less Sort.template a b = text_less a.template b.template
  less Sort.id a b = ltb a.id b.id
  less Sort.rate a b =
      fl.flt (lines_per_minute ⦃fl = fl⦄ b) (lines_per_minute ⦃fl = fl⦄ a)
      || (not (fl.flt (lines_per_minute ⦃fl = fl⦄ a) (lines_per_minute ⦃fl = fl⦄ b))
          && ltb a.id b.id)

-- `sort_by`, a stable sort: an item goes behind those that are less than it.
unfoldable pub place : (Cluster → Cluster → Bool) → Cluster → List Cluster → List Cluster
place lt c [] = c ∷ []
place lt c (d ∷ clusters) =
    let rest = place lt c clusters in if lt d c then d ∷ rest else c ∷ d ∷ clusters

unfoldable pub sort_by : (Cluster → Cluster → Bool) → List Cluster → List Cluster
sort_by lt [] = []
sort_by lt (c ∷ clusters) = place lt c (sort_by lt clusters)

unfoldable pub prepare : {F : Type 0} → Float F → List Cluster → ℕ → Sort → List Cluster
prepare fl clusters min_size sort = sort_by (less fl sort) (retain min_size clusters)

-- How many of the clusters have an id, and at least a size.
abbrev pub count_id : ℕ → List Cluster → ℕ
count_id i [] = 0
count_id i (c ∷ clusters) = (if c.id == i then 1 else 0) + count_id i clusters

abbrev pub count_shown : ℕ → ℕ → List Cluster → ℕ
count_shown min_size i [] = 0
count_shown min_size i (c ∷ clusters) =
    (if leb min_size c.size && c.id == i then 1 else 0) + count_shown min_size i clusters

count_id-place :
    (lt : Cluster → Cluster → Bool) (i : ℕ) (c : Cluster) (clusters : List Cluster)
    → count_id i (place lt c clusters) ≡ count_id i (c ∷ clusters)
unfolding place
count_id-place lt i c [] = refl
count_id-place lt i c (d ∷ clusters) = ground (arith, count_id-place lt i c clusters)

count_id-sort_by :
    (lt : Cluster → Cluster → Bool) (i : ℕ) (clusters : List Cluster)
    → count_id i (sort_by lt clusters) ≡ count_id i clusters
unfolding sort_by
count_id-sort_by lt i [] = refl
count_id-sort_by lt i (c ∷ clusters) =
    ground (arith, count_id-place lt i c (sort_by lt clusters), count_id-sort_by lt i clusters)

count_id-retain :
    (min_size i : ℕ) (clusters : List Cluster)
    → count_id i (retain min_size clusters) ≡ count_shown min_size i clusters
unfolding retain
count_id-retain min_size i [] = refl
count_id-retain min_size i (c ∷ clusters) = ground (arith, count_id-retain min_size i clusters)

-- No cluster is less than the one before it.
abbrev IsSorted : (Cluster → Cluster → Bool) → List Cluster → Type 0
IsSorted lt [] = Unit
IsSorted lt (c ∷ []) = Unit
IsSorted lt (c ∷ d ∷ clusters) = (lt d c ≡ false) × IsSorted lt (d ∷ clusters)

module _ (lt : Cluster → Cluster → Bool)
    (asym : (a b : Cluster) → lt a b ≡ true → lt b a ≡ false) where
  place-IsSorted :
      (c : Cluster) (clusters : List Cluster)
      → IsSorted lt clusters
      → IsSorted lt (place lt c clusters)
  unfolding place
  place-IsSorted c [] h = tt
  place-IsSorted c (d ∷ []) h = ground (arith, asym d c)
  place-IsSorted c (d ∷ e ∷ clusters) h =
      ground (arith, place-IsSorted c (e ∷ clusters) h.1, asym d c)

  sort_by-IsSorted : (clusters : List Cluster) → IsSorted lt (sort_by lt clusters)
  unfolding sort_by
  sort_by-IsSorted [] = tt
  sort_by-IsSorted (c ∷ clusters) =
      place-IsSorted c (sort_by lt clusters) (sort_by-IsSorted clusters)

less_asym :
    {F : Type 0} (fl : Float F) (a b : Cluster)
    → less fl Sort.size a b ≡ true
    → less fl Sort.size b a ≡ false
unfolding less
less_asym fl a b h = ground arith

-- Every cluster is larger than the next one, or of its size with an id that is not greater.
abbrev pub AreLargestFirst : List Cluster → Type 0
AreLargestFirst [] = Unit
AreLargestFirst (c ∷ []) = Unit
AreLargestFirst (c ∷ d ∷ clusters) =
    ((d.size < c.size) ⊎ ((d.size ≡ c.size) × (c.id ≤ d.id))) × AreLargestFirst (d ∷ clusters)

less_order :
    {F : Type 0} (fl : Float F) (c d : Cluster)
    → less fl Sort.size d c ≡ false
    → (d.size < c.size) ⊎ ((d.size ≡ c.size) × (c.id ≤ d.id))
unfolding less
less_order fl c d h = elim (dec_lt d.size c.size) [
  | yes p ↦ inl p
  | no p ↦ elim (ℕ_discrete d.size c.size) [
    | yes q ↦ inr (q, ground arith)
    | no q ↦ absurd (ground arith)
  ]
]

IsSorted-AreLargestFirst :
    {F : Type 0} (fl : Float F) (clusters : List Cluster)
    → IsSorted (less fl Sort.size) clusters
    → AreLargestFirst clusters
IsSorted-AreLargestFirst fl [] h = tt
IsSorted-AreLargestFirst fl (c ∷ []) h = tt
IsSorted-AreLargestFirst fl (c ∷ d ∷ clusters) h =
    (less_order fl c d h.0, IsSorted-AreLargestFirst fl (d ∷ clusters) h.1)

-- Sorted by size, the clusters come largest first, and those of one size by their ids; and each id
-- stands as often as among the clusters of at least the wanted size.
pub prepare-AreLargestFirst :
    {F : Type 0} (fl : Float F) (clusters : List Cluster) (min_size i : ℕ)
    → AreLargestFirst (prepare fl clusters min_size Sort.size)
      × (count_id i (prepare fl clusters min_size Sort.size) ≡ count_shown min_size i clusters)
unfolding prepare
prepare-AreLargestFirst fl clusters min_size i = (
  IsSorted-AreLargestFirst fl (sort_by (less fl Sort.size) (retain min_size clusters))
      (sort_by-IsSorted (less fl Sort.size) (less_asym fl) (retain min_size clusters)),
  ground (
    arith,
    count_id-sort_by (less fl Sort.size) i (retain min_size clusters),
    count_id-retain min_size i clusters,
  ),
)
