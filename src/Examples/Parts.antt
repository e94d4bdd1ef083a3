-- ===== src/Examples/Parts.antt =====
-- The theorems on the components, applied to concrete inputs.
use logdrain.Common.{
  contains, ℕ, nat_eq, list_eq, ◌+◌, ◌<◌, ◌≤◌, List, [], ◌∷◌, none, some, ◌≡◌, ◌↔◌, ◌⊎◌, refl, true,
  false, Text, codes, length, count, u64_values, arith, All, ok, if◌then◌else◌, ℕ_discrete,
}
use mathlib.Core.List.{foldl}
use logdrain.Cluster
use logdrain.Cluster.{
  ClusterInner, would_generalize, generalize, render_template, event_unset, to_public,
}
use logdrain.Cluster.Generalize.{Covers, Generalizes, would_generalize-changed, generalize-Covers}
use logdrain.Cluster.Members.{HasDistinctMembers, add_members, count-add_members}
use logdrain.Cluster.Time.{since_epoch, time_from_ms}
use logdrain.Cluster.Window.{observe_all, minimum, maximum, to_public-observe_all}
use logdrain.Examples.Platform.{milli, whole_line, whole_line-IsReplacing}
use logdrain.Extern.{as_ref}
use logdrain.Mask.{Mask, apply_masks}
use logdrain.Mask.Laws.{replaced, apply_masks-foldl}
use logdrain.Miner.Learn.{evict_if_full, match_body}
use logdrain.Miner.Learn.Body.{Matched, match_body-Matched}
use logdrain.Miner.Learn.Evict.{IsVictim, evict_if_full_cases}
use logdrain.Options.{default, builder, build_options, prefix_len, in_unit}
use logdrain.Options.Build.{build_options-ok, prefix_len-build_options}
use logdrain.Tokenize.{Token, OwnedToken, tokenize_with, split_first_line}
use logdrain.Tokenize.Clean.{IsClean, tokenize_with-IsClean}
use logdrain.Tokenize.FirstLine.{rejoin, split_first_line-rejoin}
use logdrain.Tree.Leaf.{LeafBucket}

abbrev plain : Text → Token
plain text = record { text = text; leading_delim = none; trailing_delim = none }

abbrev owned_plain : Text → OwnedToken
owned_plain text = record { text = text; leading_delim = none; trailing_delim = none }

abbrev wildcard : Text
wildcard = codes "<*>"

-- "user 42 in", then "user 99 in"
abbrev template : List OwnedToken
template = owned_plain (codes "user") ∷ owned_plain (codes "42") ∷ owned_plain (codes "in") ∷ []

abbrev line_tokens : List Token
line_tokens = plain (codes "user") ∷ plain (codes "99") ∷ plain (codes "in") ∷ []

abbrev body : ClusterInner
body = Cluster.new 1 template (since_epoch 0) none none

body_tokens : body.tokens ≡ template
unfolding Cluster.new
body_tokens = refl

would_generalize-changed_example :
    (would_generalize body line_tokens wildcard ≡ (generalize body line_tokens wildcard).1)
    × ((generalize body line_tokens wildcard).0 ≡ (
        if would_generalize body line_tokens wildcard
        then (generalize body line_tokens wildcard).0
        else body))
would_generalize-changed_example = would_generalize-changed wildcard body line_tokens

generalize-Covers_example :
    Covers wildcard (generalize body line_tokens wildcard).0.tokens line_tokens
    × Generalizes wildcard body.tokens (generalize body line_tokens wildcard).0.tokens
    × ((other : List OwnedToken)
        → Generalizes wildcard body.tokens other
        → Covers wildcard other line_tokens
        → Generalizes wildcard (generalize body line_tokens wildcard).0.tokens other)
    × (would_generalize (generalize body line_tokens wildcard).0 line_tokens wildcard ≡ false)
generalize-Covers_example = generalize-Covers wildcard body line_tokens (rw body_tokens refl)

match_body-Matched_example :
    Matched
      (since_epoch 9)
      4
      line_tokens
      wildcard
      (some (codes "host"))
      (some 7)
      body
      (match_body (since_epoch 9) 4 line_tokens wildcard (some (codes "host")) (some 7) body)
match_body-Matched_example =
    match_body-Matched (since_epoch 9) 4 line_tokens wildcard (some (codes "host")) (some 7) body

to_public-observe_all_example :
    ((to_public (
        observe_all
          (3 ∷ 9 ∷ [])
          (Cluster.new 1 template (since_epoch 0) none (some 5)))).event_first
      ≡ some (time_from_ms (minimum 5 (3 ∷ 9 ∷ []))))
    × ((to_public (
          observe_all
            (3 ∷ 9 ∷ [])
            (Cluster.new 1 template (since_epoch 0) none (some 5)))).event_last
        ≡ some (time_from_ms (maximum 5 (3 ∷ 9 ∷ []))))
    × ((to_public (
          observe_all
            (5 ∷ 3 ∷ 9 ∷ [])
            (Cluster.new 1 template (since_epoch 0) none none))).event_first
        ≡ some (time_from_ms (minimum 5 (3 ∷ 9 ∷ []))))
    × ((to_public (
          observe_all
            (5 ∷ 3 ∷ 9 ∷ [])
            (Cluster.new 1 template (since_epoch 0) none none))).event_last
        ≡ some (time_from_ms (maximum 5 (3 ∷ 9 ∷ []))))
    × ((to_public (Cluster.new 1 template (since_epoch 0) none none)).event_first ≡ none)
    × ((to_public (Cluster.new 1 template (since_epoch 0) none none)).event_last ≡ none)
to_public-observe_all_example =
    to_public-observe_all 1 template (since_epoch 0) none 5 (3 ∷ 9 ∷ []) (omega arith)

abbrev full_leaf : LeafBucket
full_leaf = record { cap = 2; ids = 1 ∷ 2 ∷ [] }

abbrev bodies : List (ℕ × ClusterInner)
bodies = (1, record body { last_used = 8 }) ∷ (2, record body { id = 2; last_used = 3 }) ∷ []

evict_if_full_cases_example :
    ((length full_leaf.ids < full_leaf.cap)
      × (evict_if_full full_leaf bodies ≡ (full_leaf, bodies)))
    ⊎ ((v : ℕ) × IsVictim full_leaf bodies v)
evict_if_full_cases_example = evict_if_full_cases full_leaf bodies (omega arith)

abbrev mask : Mask Text
mask = record { pattern = codes "secret"; placeholder = codes "<S>" }

apply_masks-foldl_example :
    as_ref (apply_masks (codes "secret") (mask ∷ mask ∷ []))
    ≡ foldl replaced (codes "secret") (mask ∷ mask ∷ [])
apply_masks-foldl_example =
    apply_masks-foldl whole_line-IsReplacing (codes "secret") (mask ∷ mask ∷ [])

build_options-ok_example : (build_options (builder {F = ℕ} {R = Text}) ≡ ok default) ↔ (
    (builder.opts ≡ default {F = ℕ} {R = Text})
    × (2 ≤ (default {F = ℕ} {R = Text}).depth)
    × (in_unit (default {F = ℕ} {R = Text}).sim_threshold ≡ true)
    × (1 ≤ (default {F = ℕ} {R = Text}).max_clusters_per_leaf))
build_options-ok_example = build_options-ok builder default

built : build_options (builder {F = ℕ} {R = Text}) ≡ ok default
unfolding build_options builder default ℕ_discrete
built = refl

default_depth : (default {F = ℕ} {R = Text}).depth < u64_values
unfolding default
default_depth = omega arith

prefix_len-build_options_example :
    prefix_len (default {F = ℕ} {R = Text}) + 2 ≡ (default {F = ℕ} {R = Text}).depth
prefix_len-build_options_example = prefix_len-build_options builder default built default_depth

tokenize_with-IsClean_example :
    All (IsClean (codes "/")) (tokenize_with (codes "GET /api//v1 / x") (codes "/"))
tokenize_with-IsClean_example = tokenize_with-IsClean (codes "/") (codes "GET /api//v1 / x")

plain_members : HasDistinctMembers body
unfolding Cluster.new
plain_members label = omega arith

count-add_members_example :
    count (codes "host") (add_members (codes "host" ∷ codes "db" ∷ codes "host" ∷ []) body).members
    ≡ (if contains (codes "host" ∷ codes "db" ∷ codes "host" ∷ []) (codes "host")
        then 1
        else count (codes "host") body.members)
count-add_members_example =
    count-add_members (codes "host" ∷ codes "db" ∷ codes "host" ∷ []) body (codes "host")
      plain_members

split_first_line-rejoin_example :
    (contains (split_first_line (codes "GET /x\nat a\nat b")).0 10 ≡ false)
    × (rejoin (split_first_line (codes "GET /x\nat a\nat b")) ≡ codes "GET /x\nat a\nat b")
split_first_line-rejoin_example = split_first_line-rejoin (codes "GET /x\nat a\nat b")
