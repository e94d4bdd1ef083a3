-- ===== src/Mask.antt =====
-- The mask pipeline of crates/logdrain/src/mask.rs.
pub mod Laws
pub mod Builtin
use logdrain.Common.{List, [], ◌∷◌, Text, map_err, Result, ◌>>=◌, ok}
use logdrain.Errors.{LogdrainError, regex_compile}
use logdrain.Extern.{Cow, borrowed, owned, as_ref, RegexEngine}

-- `struct Mask`, over the type of compiled patterns.
pub record Mask (R : Type 0) : Type 0 where
  pub pattern : R
  pub placeholder : Text

module _ {R : Type 0} ⦃re : RegexEngine R⦄ where
  -- `Mask::new`
  unfoldable pub new : Text → Text → Result LogdrainError (Mask R)
  new pattern placeholder = do
    compiled ← map_err regex_compile (re.compile pattern)
    ok (record { pattern = compiled; placeholder = placeholder })

  -- one round of the loop: the text is replaced only by an owned result
  unfoldable pub apply_mask : Mask R → Cow → Cow
  apply_mask m cur = elim (re.replace_all m.pattern (as_ref cur) m.placeholder) [
    | owned s ↦ owned s
    | borrowed _ ↦ cur
  ]

  unfoldable pub apply_loop : List (Mask R) → Cow → Cow
  unfolding apply_mask
  apply_loop [] cur = cur
  apply_loop (m ∷ masks) cur = apply_loop masks (apply_mask m cur)

  -- `apply_masks`
  unfoldable pub apply_masks : Text → List (Mask R) → Cow
  unfolding apply_loop
  apply_masks line masks = apply_loop masks (borrowed line)
