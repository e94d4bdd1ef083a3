-- ===== src/Mask/Laws.antt =====
-- What the mask pipeline computes.
use mathlib.Core.List.{foldl}
use logdrain.Common.{List, [], ◌∷◌, ◌≡◌, refl, sym, ◌⊎◌, inl, inr, Text}
use logdrain.Extern.{Cow, borrowed, owned, as_ref, RegexEngine, IsReplacing}
use logdrain.Mask.{Mask, apply_mask, apply_loop, apply_masks}

Cow-cases : (c : Cow) → ((t : Text) × (c ≡ borrowed t)) ⊎ ((t : Text) × (c ≡ owned t))
Cow-cases (borrowed t) = inl (t, refl)
Cow-cases (owned t) = inr (t, refl)

module _ {R : Type 0} ⦃re : RegexEngine R⦄ where
  -- the text after one mask
  abbrev pub replaced : Text → Mask R → Text
  replaced s m = as_ref (re.replace_all m.pattern s m.placeholder)

  module _ (h : IsReplacing re) where
    as_ref-apply_mask :
        (m : Mask R) (cur : Cow) → as_ref (apply_mask m cur) ≡ replaced (as_ref cur) m
    unfolding apply_mask
    as_ref-apply_mask m cur =
        elim (Cow-cases (re.replace_all m.pattern (as_ref cur) m.placeholder)) [
          | inl (t, e) ↦ rw (e, apply_mask) (sym (h.borrowed_haystack _ _ _ t e))
          | inr (t, e) ↦ rw (e, apply_mask)
        ]

    apply_loop-foldl :
        (masks : List (Mask R)) (cur : Cow)
        → as_ref (apply_loop masks cur) ≡ foldl replaced (as_ref cur) masks
    unfolding apply_loop
    apply_loop-foldl [] cur = refl
    apply_loop-foldl (m ∷ masks) cur =
        rw (apply_loop-foldl masks (apply_mask m cur), as_ref-apply_mask m cur)

    -- With a `replace_all` that returns the haystack when it borrows, the masked line is the line after
    -- each mask in turn, left to right.
    pub apply_masks-foldl :
        (line : Text) (masks : List (Mask R))
        → as_ref (apply_masks line masks) ≡ foldl replaced line masks
    unfolding apply_masks
    apply_masks-foldl line masks = apply_loop-foldl masks (borrowed line)
