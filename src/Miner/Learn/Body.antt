-- ===== src/Miner/Learn/Body.antt =====
-- What a match does to the body, along all branches of `apply_match` of crates/logdrain/src/miner.rs.
use logdrain.Common.{
  [], ◌∷◌, ◌++◌, min, max, contains, if◌then◌else◌, list_eq, ℕ, List, Option, none, some, ◌≡◌, Bool,
  Text, nat_eq, arith, wrapping_add,
}
use logdrain.Cluster.{
  ClusterInner, touch, observe_event, would_generalize, generalize, add_member, any_differs,
  generalize_tokens,
}
use logdrain.Cluster.Generalize.{any_differs-generalize_tokens, generalize_tokens-eq_self}
use logdrain.Cluster.Time.{SystemTime, unix_ms}
use logdrain.Miner.Learn.{match_body}
use logdrain.Tokenize.{Token}

module _ (now : SystemTime) (tick : ℕ) (tokens : List Token) (wildcard : Text) where
  -- The earliest and the latest event, where one may come.
  abbrev pub earliest : Option ℕ → ℕ → ℕ
  earliest none first = first
  earliest (some ms) first = min first ms

  abbrev pub latest : Option ℕ → ℕ → ℕ
  latest none last = last
  latest (some ms) last = max last ms

  -- The members with one more, if it is given and not among them.
  abbrev pub joined : Option Text → List Text → List Text
  joined none members = members
  joined (some member) members = if contains members member then members else members ++ member ∷ []

  -- The body after a match, and the flag, against the body before.
  pub record Matched (member : Option Text) (event_ms : Option ℕ) (body : ClusterInner)
      (result : ClusterInner × Bool) : Type 0 where
    pub id : result.0.id ≡ body.id
    pub suffix : result.0.suffix ≡ body.suffix
    pub created_at : result.0.created_at ≡ body.created_at
    pub size : result.0.size ≡ wrapping_add body.size 1
    pub last_used : result.0.last_used ≡ tick
    pub updated_at_ms : result.0.updated_at_ms ≡ unix_ms now
    pub event_first : result.0.event_first_ms ≡ earliest event_ms body.event_first_ms
    pub event_last : result.0.event_last_ms ≡ latest event_ms body.event_last_ms
    pub members : result.0.members ≡ joined member body.members
    pub template : result.0.tokens ≡ (generalize_tokens wildcard body.tokens tokens).0
    pub changed : result.1 ≡ any_differs wildcard body.tokens tokens

  -- Whether or not a match comes with a member and with an event time, and whether or not the template
  -- changes, the body keeps its id, suffix and time of creation, its size is one more (wrapping), its
  -- recency is the tick and its time of update the clock's; its earliest and latest event take in the
  -- event time, if there is one; its members are joined by the member, if there is one that is new; its
  -- template is the generalized one, and the flag tells whether a position of it differs from the line.
  pub match_body-Matched :
      (member : Option Text) (event_ms : Option ℕ) (body : ClusterInner)
      → Matched member event_ms body (match_body now tick tokens wildcard member event_ms body)
  unfolding match_body touch observe_event would_generalize generalize add_member
  match_body-Matched none none body = ground (
    arith,
    any_differs-generalize_tokens wildcard body.tokens tokens,
    generalize_tokens-eq_self wildcard body.tokens tokens,
  )
  match_body-Matched none (some ms) body = ground (
    arith,
    any_differs-generalize_tokens wildcard body.tokens tokens,
    generalize_tokens-eq_self wildcard body.tokens tokens,
  )
  match_body-Matched (some member) none body = ground (
    arith,
    any_differs-generalize_tokens wildcard body.tokens tokens,
    generalize_tokens-eq_self wildcard body.tokens tokens,
  )
  match_body-Matched (some member) (some ms) body = ground (
    arith,
    any_differs-generalize_tokens wildcard body.tokens tokens,
    generalize_tokens-eq_self wildcard body.tokens tokens,
  )
