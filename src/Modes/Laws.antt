-- ===== src/Modes/Laws.antt =====
-- Setting and clearing a mode, as seen by the queries.
use stitch_pty.Prelude.{ℕ, true, false, ◌==◌, ◌≡◌, ◌⊎◌, ◌||◌, ◌&&◌, if◌then◌else◌, arith}
use stitch_pty.Prelude.Sets.{contains-insert, contains-remove}
use stitch_pty.Modes.{
  Modes, irm, lnm, has_public, has_private, set_public, clear_public, set_private, clear_private,
}

-- A private mode, whichever it is, is on after it is set; every other one is as before.
pub has_private-set_private :
    (m : Modes) (mode other : ℕ)
    → has_private (set_private m mode) other ≡ (if other == mode then true else has_private m other)
unfolding has_private set_private
has_private-set_private m mode other = ground (arith, contains-insert mode other m.extended)

-- A private mode, whichever it is, is off after it is cleared; every other one is as before.
pub has_private-clear_private :
    (m : Modes) (mode other : ℕ)
    → has_private (clear_private m mode) other
      ≡ (if other == mode then false else has_private m other)
unfolding has_private clear_private
has_private-clear_private m mode other = ground (arith, contains-remove mode other m.extended)

-- Only `IRM` and `LNM` are public modes: setting one turns it on, and leaves the other one as before.
-- It changes no private mode, and setting any other number changes nothing.
pub has_public-set_public :
    (m : Modes) (mode other : ℕ)
    → (has_public (set_public m mode) other
        ≡ (if (mode == irm || mode == lnm) && other == mode then true else has_public m other))
      × ((set_public m mode).private_modes ≡ m.private_modes)
      × ((set_public m mode).extended ≡ m.extended)
      × ((mode ≡ irm) ⊎ (mode ≡ lnm) ⊎ (set_public m mode ≡ m))
unfolding has_public set_public
has_public-set_public m mode other = (ground arith, ground arith, ground arith, ground arith)

-- Clearing a public mode turns it off, and leaves the other as before.
pub has_public-clear_public :
    (m : Modes) (mode other : ℕ)
    → has_public (clear_public m mode) other ≡ (if other == mode then false else has_public m other)
unfolding has_public clear_public
has_public-clear_public m mode other = ground arith
