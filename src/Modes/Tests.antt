-- ===== src/Modes/Tests.antt =====
-- The theorems on the modes at concrete modes.
use stitch_pty.Prelude.{true, false, ◌≡◌, ◌⊎◌}
use stitch_pty.Modes.{
  new_modes, irm, lnm, decawm, has_public, has_private, set_public, clear_public, set_private,
  clear_private,
}
use stitch_pty.Modes.Laws.{
  has_private-set_private, has_private-clear_private, has_public-set_public,
  has_public-clear_public,
}

has_private-set_private_example : has_private (set_private new_modes 2004) 2004 ≡ true
has_private-set_private_example = has_private-set_private new_modes 2004 2004

has_private-clear_private_example : has_private (clear_private new_modes decawm) decawm ≡ false
has_private-clear_private_example = has_private-clear_private new_modes decawm decawm

has_public-set_public_example :
    (has_public (set_public new_modes irm) irm ≡ true)
    × ((set_public new_modes irm).private_modes ≡ new_modes.private_modes)
    × ((set_public new_modes irm).extended ≡ new_modes.extended)
    × ((irm ≡ irm) ⊎ (irm ≡ lnm) ⊎ (set_public new_modes irm ≡ new_modes))
has_public-set_public_example = has_public-set_public new_modes irm irm

has_public-clear_public_example : has_public (clear_public new_modes lnm) lnm ≡ false
has_public-clear_public_example = has_public-clear_public new_modes lnm lnm
