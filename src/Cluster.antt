-- ===== src/Cluster.antt =====
-- Cluster bodies and their public snapshots, crates/logdrain/src/cluster.rs. A `SystemTime` is its
-- distance from the Unix epoch in nanoseconds. The atomics are fields: `fetch_add` wraps.
pub mod Time
pub mod Generalize
pub mod Window
pub mod Rates
pub mod Members
pub mod Render
pub mod Reread
use logdrain.Common.{
  ℕ, ◌+◌, List, [], ◌∷◌, ◌++◌, Option, none, some, Bool, true, false, not, ◌&&◌, ◌||◌, Text, min,
  max, u64_max, wrapping_add, any, nat_eq, list_eq, ◌==◌, if◌then◌else◌,
}
use logdrain.Cluster.Time.{SystemTime, unix_ms, time_from_ms}
use logdrain.Tokenize.{Token, OwnedToken}

-- `struct ClusterInner`
pub record ClusterInner : Type 0 where
  pub id : ℕ
  pub tokens : List OwnedToken
  pub size : ℕ
  pub created_at : SystemTime
  pub updated_at_ms : ℕ
  pub last_used : ℕ
  pub event_first_ms : ℕ
  pub event_last_ms : ℕ
  pub suffix : Option Text
  pub members : List Text

-- `EVENT_UNSET`
abbrev pub event_unset : ℕ
event_unset = u64_max

-- `ClusterInner::new`
unfoldable pub new : ℕ → List OwnedToken → SystemTime → Option Text → Option ℕ → ClusterInner
unfolding unix_ms
new id tokens now suffix event_ms = record {
  id = id;
  tokens = tokens;
  size = 1;
  created_at = now;
  updated_at_ms = unix_ms now;
  last_used = 0;
  event_first_ms = elim event_ms [ some ms ↦ ms | none ↦ event_unset ];
  event_last_ms = elim event_ms [ some ms ↦ ms | none ↦ 0 ];
  suffix = suffix;
  members = [];
}

-- `touch`, with the clock read as `now`
unfoldable pub touch : SystemTime → ℕ → ClusterInner → ClusterInner
unfolding unix_ms
touch now tick c = record c {
  size = wrapping_add c.size 1;
  updated_at_ms = unix_ms now;
  last_used = tick;
}

-- `observe_event`: `fetch_min` and `fetch_max`
unfoldable pub observe_event : ℕ → ClusterInner → ClusterInner
observe_event ms c = record c {
  event_first_ms = min c.event_first_ms ms;
  event_last_ms = max c.event_last_ms ms;
}

unfoldable pub recency : ClusterInner → ℕ
recency c = c.last_used

-- `any` over `zip`
unfoldable pub any_differs : Text → List OwnedToken → List Token → Bool
any_differs wildcard [] incoming = false
any_differs wildcard (stored ∷ tokens) [] = false
any_differs wildcard (stored ∷ tokens) (tok ∷ incoming) =
    (not (stored.text == wildcard) && not (stored.text == tok.text))
    || any_differs wildcard tokens incoming

unfoldable pub would_generalize : ClusterInner → List Token → Text → Bool
unfolding any_differs
would_generalize c incoming wildcard = any_differs wildcard c.tokens incoming

-- The loop of `generalize` over `zip`: the new tokens and whether one changed. The delimiters of a
-- replaced token stay.
unfoldable pub generalize_tokens : Text → List OwnedToken → List Token → List OwnedToken × Bool
generalize_tokens wildcard [] incoming = ([], false)
generalize_tokens wildcard (stored ∷ tokens) [] = (stored ∷ tokens, false)
generalize_tokens wildcard (stored ∷ tokens) (tok ∷ incoming) =
    let (rest, changed) = generalize_tokens wildcard tokens incoming in
    if stored.text == wildcard
    then (stored ∷ rest, changed)
    else if not (stored.text == tok.text)
    then (record stored { text = wildcard } ∷ rest, true)
    else (stored ∷ rest, changed)

unfoldable pub generalize : ClusterInner → List Token → Text → ClusterInner × Bool
unfolding generalize_tokens
generalize c incoming wildcard =
    let (tokens, changed) = generalize_tokens wildcard c.tokens incoming in
    (record c { tokens = tokens }, changed)

unfoldable pub add_member : Text → ClusterInner → ClusterInner
add_member member c =
    if not (any (λ m. m == member) c.members)
    then record c { members = c.members ++ member ∷ [] }
    else c

-- `if let Some(c) = … { s.push(c) }`
abbrev pub push_option : Option ℕ → Text
push_option none = []
push_option (some c) = c ∷ []

-- What the loop pushes between two tokens: the delimiter after the last one, or a space.
abbrev pub separator : Option ℕ → ℕ
separator (some c) = c
separator none = b' '

abbrev pub own_leading : Option ℕ → OwnedToken → Text
own_leading none t = push_option t.leading_delim
own_leading (some c) t = []

-- The rounds `i > 0` of the loop, and what follows it.
unfoldable pub render_rest : Option ℕ → List OwnedToken → Text
render_rest prev_trailing [] = push_option prev_trailing
render_rest prev_trailing (t ∷ tokens) =
    (separator prev_trailing ∷ own_leading prev_trailing t)
    ++ (t.text ++ render_rest t.trailing_delim tokens)

-- The whole loop: the first round pushes no separator.
unfoldable pub render_tokens : List OwnedToken → Text
unfolding render_rest
render_tokens [] = []
render_tokens (t ∷ tokens) = own_leading none t ++ (t.text ++ render_rest t.trailing_delim tokens)

unfoldable pub render_template : ClusterInner → Text
unfolding render_tokens
render_template c = render_tokens c.tokens

-- `struct Cluster`
pub record Cluster : Type 0 where
  pub id : ℕ
  pub template : Text
  pub tokens : List OwnedToken
  pub size : ℕ
  pub created_at : SystemTime
  pub updated_at : SystemTime
  pub event_first : Option SystemTime
  pub event_last : Option SystemTime
  pub suffix : Option Text
  pub members : List Text

-- `to_public`
unfoldable pub to_public : ClusterInner → Cluster
unfolding render_template time_from_ms
to_public c =
    let unset = c.event_first_ms == event_unset in
    record {
      id = c.id;
      template = render_template c;
      tokens = c.tokens;
      size = c.size;
      created_at = c.created_at;
      updated_at = time_from_ms c.updated_at_ms;
      event_first = if unset then none else some (time_from_ms c.event_first_ms);
      event_last = if unset then none else some (time_from_ms c.event_last_ms);
      suffix = c.suffix;
      members = c.members;
    }
