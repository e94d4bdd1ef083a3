-- ===== src/Mask/Builtin.antt =====
-- `builtin_masks` of crates/logdrain/src/mask.rs. `none` is a panic, at a pattern that does not compile.
use logdrain.Common.{Option, none, some, Text, codes, ok, err}
use logdrain.Extern.{RegexEngine}
use logdrain.Mask.{Mask, new}

module _ {R : Type 0} ⦃re : RegexEngine R⦄ where
  unfoldable pub mask : Text → Text → Option (Mask R)
  mask pattern placeholder = elim (new pattern placeholder) [ ok m ↦ some m | err e ↦ none ]

  unfoldable pub uuid : Option (Mask R)
  uuid =
      mask
        (codes "\\b[0-9a-fA-F]{8}-[0-9a-fA-F]{4}-[0-9a-fA-F]{4}-[0-9a-fA-F]{4}-[0-9a-fA-F]{12}\\b")
        (codes "<uuid>")

  unfoldable pub hex32 : Option (Mask R)
  hex32 = mask (codes "\\b[0-9a-fA-F]{32}\\b") (codes "<hex32>")

  unfoldable pub email : Option (Mask R)
  email = mask (codes "\\b[A-Za-z0-9._%+-]+@[A-Za-z0-9.-]+\\.[A-Za-z]{2,}\\b") (codes "<email>")

  unfoldable pub ipv4 : Option (Mask R)
  ipv4 = mask (codes "\\b(?:\\d{1,3}\\.){3}\\d{1,3}\\b") (codes "<ipv4>")

  unfoldable pub jwt : Option (Mask R)
  jwt = mask (codes "\\beyJ[A-Za-z0-9_-]+\\.[A-Za-z0-9_-]+\\.[A-Za-z0-9_-]+\\b") (codes "<jwt>")
