-- ===== src/Graphics/Laws.antt =====
-- The palette of 256 colours.
use stitch_pty.Prelude.{ℕ, ◌<◌, ◌≡◌, refl, some, length, get_elem?, get_elem?-lt, arith, Text}
use stitch_pty.Graphics.{fg_bg_256}

-- The palette has an entry for each byte.
pub length-fg_bg_256 : length fg_bg_256 ≡ 256
unfolding fg_bg_256
length-fg_bg_256 = refl

-- An index below 256 is in range.
pub fg_bg_256-lt : (i : ℕ) → i < 256 → (c : Text) × (get_elem? fg_bg_256 i ≡ some c)
fg_bg_256-lt i h = get_elem?-lt fg_bg_256 i (omega (arith, length-fg_bg_256))
