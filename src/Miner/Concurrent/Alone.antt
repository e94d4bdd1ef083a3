-- ===== src/Miner/Concurrent/Alone.antt =====
-- A thread of crates/logdrain/src/miner.rs that no other thread interrupts does what `add_inner` does in
-- one piece.
use logdrain.Common.{
  ℕ, zero, suc, List, [], ◌∷◌, Option, none, some, Bool, true, false, not, ◌&&◌, ◌≡◌, refl, ◌∙◌,
  nat_eq, arith, inl, inr, Bool-cases, wrapping_add,
}
use logdrain.Common.Assoc.{lookup, insert, lookup-insert_self}
use logdrain.Cluster.{ClusterInner, touch, would_generalize}
use logdrain.Cluster.Time.{SystemTime}
use logdrain.Extern.{Float}
use logdrain.Miner.Concurrent.{Request, Pc, Shared, read_section, write_section, advance}
use logdrain.Miner.Concurrent.Handles.{handle-some, write_body-some}
use logdrain.Miner.Concurrent.Sections.{after_read}
use logdrain.Miner.Concurrent.Spots.{template_of}
use logdrain.Miner.Learn.{
  apply_match, match_body, observe_option, add_member_option, is_none, update_type,
}
use logdrain.Miner.Matching.{Candidate}
use logdrain.Miner.State.{next_tick}
use logdrain.Miner.Update.{AddResult}

insert-insert :
    (id : ℕ) (old body : ClusterInner) (entries : List (ℕ × ClusterInner))
    → insert id body (insert id old entries) ≡ insert id body entries
unfolding insert
insert-insert id old body [] = ground arith
insert-insert id old body (entry ∷ entries) = ground (arith, insert-insert id old body entries)

module _ {F R : Type 0} ⦃fl : Float F⦄ where
  -- A thread's next sections, run without another thread in between, by one reading of the clock.
  unfoldable pub run_alone : ℕ → SystemTime → Request → Pc → Shared F R → Option (Shared F R × Pc)
  run_alone zero now req pc s = some (s, pc)
  run_alone (suc n) now req pc s = elim (advance now req pc s) [
    | none ↦ none
    | some (t, after) ↦ run_alone n now req after t
  ]

  pub run_alone-suc :
      (n : ℕ) (now : SystemTime) (req : Request) (pc : Pc) (s t : Shared F R) (after : Pc)
      → advance now req pc s ≡ some (t, after)
      → run_alone (suc n) now req pc s ≡ run_alone n now req after t
  unfolding run_alone
  run_alone-suc n now req pc s t after e = rw (e, run_alone)

  pub run_alone-done :
      (n : ℕ) (now : SystemTime) (req : Request) (r : AddResult) (s : Shared F R)
      → run_alone n now req (Pc.done r) s ≡ some (s, Pc.done r)
  unfolding run_alone advance
  run_alone-done zero now req r s = refl
  run_alone-done (suc n) now req r s = run_alone-done n now req r s

module _ {F R : Type 0} where
  module _ (now : SystemTime) (req : Request) (c : Candidate F) (s : Shared F R)
      (there : lookup c.id s.miner.clusters_by_id ≡ some c.body) where
    abbrev ticked : Shared F R
    ticked = record s { miner = record s.miner { tick = wrapping_add s.miner.tick 1 } }

    abbrev hit : ClusterInner
    hit = observe_option req.event_ms (touch now s.miner.tick c.body)

    abbrev needs : Bool
    needs = would_generalize hit req.tokens s.miner.options.wildcard

    abbrev counted : Shared F R
    counted = record ticked {
      miner = record ticked.miner { clusters_by_id = insert c.id hit s.miner.clusters_by_id };
    }

    abbrev pub whole : Shared F R × AddResult
    whole =
        let (m, r) = apply_match now c req.tokens req.member req.event_ms s.miner in
        (record s { miner = m }, r)

    read_alone : read_section now req c.id s ≡ some (counted, after_read req c.id needs)
    unfolding read_section next_tick
    read_alone =
        rw (handle-some c.id s there, read_section) (rw (write_body-some c.id ticked hit there))

    abbrev template : ClusterInner × Bool
    template = template_of s.miner.options req.tokens needs hit

    abbrev changed : Shared F R
    changed = record counted {
      miner = record counted.miner {
        clusters_by_id =
            insert c.id (add_member_option req.member template.0) s.miner.clusters_by_id;
      };
    }

    abbrev answer : Bool → AddResult
    answer flag = record { cluster_id = c.id; update = update_type flag }

    write_alone : write_section req c.id needs counted ≡ some (changed, Pc.done (answer template.1))
    unfolding write_section
    write_alone =
        let e = lookup-insert_self c.id hit s.miner.clusters_by_id in
        let body = add_member_option req.member template.0 in
        rw (handle-some c.id counted e, write_section)
          (rw (
            write_body-some c.id counted body e,
            insert-insert c.id hit body s.miner.clusters_by_id,
          ))

    abbrev matched_body : ClusterInner × Bool
    matched_body =
        match_body now s.miner.tick req.tokens s.miner.options.wildcard req.member req.event_ms
          c.body

    match_body_quiet : (not needs && is_none req.member) ≡ true → matched_body ≡ (hit, false)
    unfolding match_body
    match_body_quiet e = rw e

    match_body_busy :
        (not needs && is_none req.member) ≡ false
        → matched_body ≡ (add_member_option req.member template.0, template.1)
    unfolding match_body
    match_body_busy e = rw e

    -- Both sections of `apply_match` in a row are `apply_match`.
    pub matched_alone :
        ⦃fl : Float F⦄ (n : ℕ)
        → run_alone (suc (suc n)) now req (Pc.matched c.id) s ≡ some (whole.0, Pc.done whole.1)
    unfolding advance apply_match next_tick
    matched_alone n = elim (Bool-cases (not needs && is_none req.member)) [
      | inl quiet ↦
          let p : after_read req c.id needs ≡ Pc.done (answer false) = rw quiet in
          run_alone-suc (suc n) now req (Pc.matched c.id) s counted (Pc.done (answer false))
            (rw p at read_alone)
          ∙ run_alone-done (suc n) now req (answer false) counted
          ∙ rw (match_body_quiet quiet)
      | inr busy ↦
          let p : after_read req c.id needs ≡ Pc.changing c.id needs = rw busy in
          run_alone-suc (suc n) now req (Pc.matched c.id) s counted (Pc.changing c.id needs)
            (rw p at read_alone)
          ∙ run_alone-suc n now req (Pc.changing c.id needs) counted changed
              (Pc.done (answer template.1)) write_alone
          ∙ run_alone-done n now req (answer template.1) changed
          ∙ rw (match_body_busy busy)
    ]
