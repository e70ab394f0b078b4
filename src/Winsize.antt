-- ===== src/Winsize.antt =====
-- The size of a window, src/winsize.rs. Its fields are u16.
mod Tests
use stitch_pty.Prelude.{ℕ, Bool, ◌==◌, ◌&&◌, ◌++◌, Text, codes}
use stitch_pty.Prelude.Ints.{ℤ, to_i16}
use stitch_pty.Screen.Reports.{decimal}

pub record Winsize : Type 0 where
  pub rows : ℕ
  pub cols : ℕ
  pub xpixel : ℕ
  pub ypixel : ℕ

-- `Winsize::new`.
unfoldable pub new_winsize : ℕ → ℕ → ℕ → ℕ → Winsize
new_winsize rows cols xpixel ypixel = record {
  rows = rows;
  cols = cols;
  xpixel = xpixel;
  ypixel = ypixel;
}

-- `Winsize::__repr__`.
unfoldable pub repr : Winsize → Text
repr w =
    codes "Winsize(rows="
    ++ decimal w.rows
    ++ codes ", cols="
    ++ decimal w.cols
    ++ codes ", xpixel="
    ++ decimal w.xpixel
    ++ codes ", ypixel="
    ++ decimal w.ypixel
    ++ codes ")"

-- `Winsize::__eq__`.
unfoldable pub equal_size : Winsize → Winsize → Bool
equal_size w other =
    w.rows == other.rows
    && w.cols == other.cols
    && w.xpixel == other.xpixel
    && w.ypixel == other.ypixel

-- The `X` and `Y` of the COORD that `From<Winsize>` makes.
unfoldable pub to_coord : Winsize → ℤ × ℤ
to_coord w = (to_i16 w.cols, to_i16 w.rows)
