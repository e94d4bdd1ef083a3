-- ===== src/Cluster/Window.antt =====
-- The window of event times that a cluster of crates/logdrain/src/cluster.rs keeps.
use logdrain.Common.{
  ℕ, ◌≤◌, ◌<◌, List, [], ◌∷◌, Option, none, some, ◌≡◌, refl, ◌∙◌, ap, Text, min, max, nat_eq, arith,
}
use logdrain.Cluster.{ClusterInner, event_unset, new, observe_event, to_public}
use logdrain.Cluster.Time.{SystemTime, time_from_ms}
use logdrain.Tokenize.{OwnedToken}

-- A body after a sequence of observed events.
abbrev pub observe_all : List ℕ → ClusterInner → ClusterInner
observe_all [] c = c
observe_all (ms ∷ events) c = observe_all events (observe_event ms c)

-- The least and the greatest of a number and a list.
abbrev pub minimum : ℕ → List ℕ → ℕ
minimum a [] = a
minimum a (b ∷ xs) = minimum (min a b) xs

abbrev pub maximum : ℕ → List ℕ → ℕ
maximum a [] = a
maximum a (b ∷ xs) = maximum (max a b) xs

observe_all-minimum :
    (events : List ℕ) (c : ClusterInner)
    → ((observe_all events c).event_first_ms ≡ minimum c.event_first_ms events)
      × ((observe_all events c).event_last_ms ≡ maximum c.event_last_ms events)
unfolding observe_event
observe_all-minimum [] c = (refl, refl)
observe_all-minimum (ms ∷ events) c = observe_all-minimum events (observe_event ms c)

minimum_le : (a : ℕ) (xs : List ℕ) → minimum a xs ≤ a
minimum_le a [] = omega arith
minimum_le a (b ∷ xs) = omega (arith, minimum_le (min a b) xs)

to_public_window :
    (c : ClusterInner) (low high : ℕ)
    → c.event_first_ms ≡ low
    → c.event_last_ms ≡ high
    → low < event_unset
    → ((to_public c).event_first ≡ some (time_from_ms low))
      × ((to_public c).event_last ≡ some (time_from_ms high))
unfolding to_public
to_public_window c low high e f h = ground arith

-- A cluster reports the least and the greatest of all event times that it has seen, the first of them
-- being below the sentinel: whether it was made with that time and then hit by events, or made without
-- one and hit by that event first. A cluster that has seen none reports none.
pub to_public-observe_all :
    (id : ℕ) (tokens : List OwnedToken) (now : SystemTime) (suffix : Option Text) (ms : ℕ)
    (events : List ℕ)
    → ms < event_unset
    → let c = to_public (observe_all events (new id tokens now suffix (some ms))) in
      let late = to_public (observe_all (ms ∷ events) (new id tokens now suffix none)) in
      (c.event_first ≡ some (time_from_ms (minimum ms events)))
      × (c.event_last ≡ some (time_from_ms (maximum ms events)))
      × (late.event_first ≡ some (time_from_ms (minimum ms events)))
      × (late.event_last ≡ some (time_from_ms (maximum ms events)))
      × ((to_public (new id tokens now suffix none)).event_first ≡ none)
      × ((to_public (new id tokens now suffix none)).event_last ≡ none)
unfolding to_public new observe_event
to_public-observe_all id tokens now suffix ms events h =
    let (low, high) = observe_all-minimum events (new id tokens now suffix (some ms)) in
    let (late_low, late_high) =
      observe_all-minimum events (observe_event ms (new id tokens now suffix none)) in
    let first : min event_unset ms ≡ ms = omega (arith, h) in
    let last : max 0 ms ≡ ms = omega arith in
    let below : minimum ms events < event_unset = omega (arith, h, minimum_le ms events) in
    let (a, b) =
      to_public_window (observe_all events (new id tokens now suffix (some ms))) _ _ low high
        below in
    let (c, d) =
      to_public_window (observe_all (ms ∷ events) (new id tokens now suffix none)) _ _
        (late_low ∙ ap (λ x. minimum x events) first) (late_high ∙ ap (λ x. maximum x events) last)
        below in
    (a, b, c, d, ground arith, ground arith)
