-- ===== src/Screen/Fits/Aligning.antt =====
-- `alignment_display` of src/terminal/screen.rs, on a screen of the right shape.
use stitch_pty.Prelude.{ℕ, zero, suc, ◌+◌, ◌≤◌, arith, codes}
use stitch_pty.Prelude.{Holds, holds, Holds-bind}
use stitch_pty.Screen.State.{Screen, mark_dirty}
use stitch_pty.Screen.Scroll.{page_of, with_page}
use stitch_pty.Screen.Erase.{align_rows, alignment_display}
use stitch_pty.Screen.Grid.Pages.{fill_rows-Shows}
use stitch_pty.Screen.Fits.{Fits, with_page-Fits, move_to-Fits, mark_dirty-Fits}

align_rows-Fits :
    {lines columns : ℕ} (n y : ℕ) (s : Screen)
    → Fits lines columns s
    → y + n ≤ lines
    → Holds (Fits lines columns) (align_rows n y s)
unfolding align_rows
align_rows-Fits zero y s f h = holds f
align_rows-Fits (suc n) y s f h =
    Holds-bind
      (fill_rows-Shows 1 y s.columns (record (s.default_char) { text = codes "E" }) (page_of s)
        f.page f.columns_eq (omega arith))
      (λ p r.
        align_rows-Fits n (y + 1) (mark_dirty (with_page s p) y)
          (mark_dirty-Fits y (with_page-Fits p f r.0)) (omega arith))

pub alignment_display-Fits :
    {lines columns : ℕ} {s : Screen}
    → Fits lines columns s
    → Holds (Fits lines columns) (alignment_display s)
unfolding alignment_display
alignment_display-Fits {s} f =
    Holds-bind (align_rows-Fits s.lines 0 s f (omega (arith, f.lines_eq)))
      (λ s1 f1. holds (move_to-Fits 0 0 f1 (omega arith) f1.lines_pos))
