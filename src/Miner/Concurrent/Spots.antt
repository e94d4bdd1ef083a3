-- ===== src/Miner/Concurrent/Spots.antt =====
-- What a section of `apply_match` in crates/logdrain/src/miner.rs does to the place of a body in the
-- trees: nothing.
use logdrain.Common.{
  ℕ, List, Option, none, some, Bool, true, false, ◌≡◌, refl, sym, ◌∙◌, ap, Text, length, map,
  nat_eq, arith, if◌then◌else◌,
}
use logdrain.Cluster.{ClusterInner, touch, observe_event, generalize, add_member}
use logdrain.Cluster.Generalize.{length-generalize_tokens}
use logdrain.Cluster.Time.{SystemTime}
use logdrain.Miner.Concurrent.Handles.{SameSpot}
use logdrain.Miner.Invariant.{body_keys}
use logdrain.Miner.Invariant.Keys.{text_keys-generalize_tokens}
use logdrain.Miner.Learn.{observe_option, add_member_option}
use logdrain.Miner.State.{descent_keys, text_keys}
use logdrain.Options.{Options}
use logdrain.Tokenize.{Token, OwnedToken}

module _ {F R : Type 0} where
  -- `observe_option` and `touch` keep the spot, and so do `generalize` on a line of the same keys and
  -- the new member.
  pub hit-SameSpot :
      (o : Options F R) (now : SystemTime) (tick : ℕ) (event_ms : Option ℕ) (body : ClusterInner)
      → SameSpot o body (observe_option event_ms (touch now tick body))
  unfolding touch observe_event
  hit-SameSpot o now tick none body = record { id = refl; width = refl; keys = refl }
  hit-SameSpot o now tick (some ms) body = record { id = refl; width = refl; keys = refl }

  -- The spot is a matter of the id and the tokens.
  SameSpot_tokens :
      (o : Options F R) (old body after : ClusterInner)
      → SameSpot o old body
      → after.id ≡ body.id
      → after.tokens ≡ body.tokens
      → SameSpot o old after
  SameSpot_tokens o old body after h id tokens = record {
    id = id ∙ h.id;
    width = ap length tokens ∙ h.width;
    keys = ap (λ ts. text_keys o (map (λ (t : OwnedToken). t.text) ts)) tokens ∙ h.keys;
  }

  pub add_member_option-SameSpot :
      (o : Options F R) (member : Option Text) (old body : ClusterInner)
      → SameSpot o old body
      → SameSpot o old (add_member_option member body)
  unfolding add_member
  add_member_option-SameSpot o none old body h = h
  add_member_option-SameSpot o (some member) old body h =
      SameSpot_tokens o old body (add_member member body) h (ground arith) (ground arith)

  generalize-SameSpot :
      (o : Options F R) (tokens : List Token) (body : ClusterInner)
      → length body.tokens ≡ length tokens
      → body_keys o body ≡ descent_keys o tokens
      → SameSpot o body (generalize body tokens o.wildcard).0
  unfolding generalize
  generalize-SameSpot o tokens body width keys = record {
    id = refl;
    width = length-generalize_tokens o.wildcard body.tokens tokens;
    keys = text_keys-generalize_tokens o body.tokens tokens width keys ∙ sym keys;
  }

  -- The template that `write_section` leaves.
  abbrev pub template_of : Options F R → List Token → Bool → ClusterInner → ClusterInner × Bool
  template_of o tokens needs_generalize body =
      if needs_generalize then generalize body tokens o.wildcard else (body, false)

  pub template_of-SameSpot :
      (o : Options F R) (tokens : List Token) (needs_generalize : Bool) (body : ClusterInner)
      → length body.tokens ≡ length tokens
      → body_keys o body ≡ descent_keys o tokens
      → SameSpot o body (template_of o tokens needs_generalize body).0
  template_of-SameSpot o tokens true body width keys = generalize-SameSpot o tokens body width keys
  template_of-SameSpot o tokens false body width keys = record {
    id = refl;
    width = refl;
    keys = refl;
  }

  pub size-template_of :
      (o : Options F R) (tokens : List Token) (needs_generalize : Bool) (body : ClusterInner)
      → (template_of o tokens needs_generalize body).0.size ≡ body.size
  unfolding generalize
  size-template_of o tokens true body = refl
  size-template_of o tokens false body = refl
