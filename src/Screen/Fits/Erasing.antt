-- ===== src/Screen/Fits/Erasing.antt =====
-- `erase_characters`, `delete_characters` and `insert_characters` of src/terminal/screen.rs: the cells
-- afterwards.
use stitch_pty.Prelude.{
  ℕ, ◌+◌, ◌-◌, min, max, ◌≡◌, refl, ◌&&◌, ◌==◌, ltb, leb, if◌then◌else◌, Option, some, arith,
}
use stitch_pty.Prelude.{Holds, holds, Holds-bind, Holds-map, Bool-cases, inl, inr}
use stitch_pty.Screen.State.{Char, Rows, Screen, erase_cell}
use stitch_pty.Screen.Erase.{with_rows, erase_characters, delete_characters, insert_characters}
use stitch_pty.Screen.Grid.{read_cell, push_cells}
use stitch_pty.Screen.Grid.Cells.{
  IsGrid, Shows, painted, fill_cells-Shows, pull_cells-Shows, push_cells-Shows,
}
use stitch_pty.Screen.Fits.{Fits, with_page-Fits, mark_dirty-Fits}

-- A screen of the right shape whose cells are those of `view`.
pub record Looks (lines columns : ℕ) (s : Screen) (view : ℕ → ℕ → Option Char) (s' : Screen)
    : Type 0 where
  pub fits : Fits lines columns s'
  pub cells : (j i : ℕ) → read_cell s'.buffer j i ≡ view j i
  pub same_cursor : s'.cursor ≡ s.cursor
  pub same_mode : s'.mode ≡ s.mode

module _ {lines columns : ℕ} {s : Screen} (f : Fits lines columns s) where
  pub with_rows-Fits :
      (rows : Rows) → IsGrid lines columns rows → Fits lines columns (with_rows s rows)
  with_rows-Fits rows g =
      with_page-Fits (record { rows = rows; flags = s.wrapped }) f
        (record { grid = g; count = f.page.count })

  -- On a screen of the right shape `erase_characters` never panics: it blanks `count` cells from
  -- the cursor, at least one, at most to the margin, and changes no other cell nor the cursor.
  pub erase_characters-Looks :
      (count : ℕ)
      → Holds
          (Looks lines columns s (
            painted
              (λ j i.
                j == s.cursor.y
                && leb s.cursor.x i
                && ltb i (min (s.cursor.x + max count 1) s.columns))
              (erase_cell s)
              s.buffer))
          (erase_characters s count)
  unfolding erase_characters
  erase_characters-Looks count =
      Holds-bind
        (fill_cells-Shows (erase_cell s) (min (s.cursor.x + max count 1) s.columns - s.cursor.x)
          s.cursor.y s.cursor.x s.buffer f.page.grid f.cursor_y
          (omega (arith, f.cursor_x, f.columns_eq)))
        (λ rows w. holds (record {
          fits = mark_dirty-Fits s.cursor.y (with_rows-Fits rows w.grid);
          cells = λ j i. ground (arith, w.cells j i, f.cursor_x, f.columns_eq);
          same_cursor = refl;
          same_mode = refl;
        }))

  -- On a screen of the right shape `delete_characters` never panics: it moves the rest of the
  -- cursor's row to the left over the deleted cells, leaves blanks at its end, and changes no
  -- other row nor the cursor.
  pub delete_characters-Looks :
      (count : ℕ)
      → Holds
          (Looks lines columns s (λ j i.
            let n = min (s.cursor.x + max count 1) s.columns - s.cursor.x in
            if j == s.cursor.y && leb s.cursor.x i && ltb i columns
            then (if ltb (i + n) columns
                then read_cell s.buffer s.cursor.y (i + n)
                else some (erase_cell s))
            else read_cell s.buffer j i))
          (delete_characters s count)
  unfolding delete_characters
  delete_characters-Looks count =
      let n = min (s.cursor.x + max count 1) s.columns - s.cursor.x in
      Holds-bind
        (pull_cells-Shows (s.columns - n - s.cursor.x) s.cursor.y s.cursor.x n s.buffer f.page.grid
          f.cursor_y (omega (arith, f.cursor_x, f.columns_eq)))
        (λ b1 r.
          Holds-bind
            (fill_cells-Shows (erase_cell s) n s.cursor.y (s.columns - n) b1 r.grid f.cursor_y
              (omega (arith, f.cursor_x, f.columns_eq)))
            (λ b2 w. holds (record {
              fits = mark_dirty-Fits s.cursor.y (with_rows-Fits b2 w.grid);
              cells = λ j i. ground (arith, w.cells j i, r.cells j i, f.cursor_x, f.columns_eq);
              same_cursor = refl;
              same_mode = refl;
            })))

  -- On a screen of the right shape `insert_characters` never panics: it moves the rest of the
  -- cursor's row to the right, drops what leaves the screen, blanks the gap, and changes no other
  -- row nor the cursor.
  pub insert_characters-Looks :
      (count : ℕ)
      → Holds
          (Looks lines columns s (λ j i.
            if j == s.cursor.y && leb s.cursor.x i && ltb i columns
            then (if ltb i (s.cursor.x + max count 1)
                then some (erase_cell s)
                else read_cell s.buffer s.cursor.y (i - max count 1))
            else read_cell s.buffer j i))
          (insert_characters s count)
  unfolding insert_characters
  insert_characters-Looks count =
      let n = max count 1 in
      Holds-bind (shifted n) (λ b1 r.
        Holds-bind
          (fill_cells-Shows (erase_cell s) (min (s.cursor.x + n) s.columns - s.cursor.x) s.cursor.y
            s.cursor.x b1 r.grid f.cursor_y (omega (arith, f.cursor_x, f.columns_eq)))
          (λ b2 w. holds (record {
            fits = mark_dirty-Fits s.cursor.y (with_rows-Fits b2 w.grid);
            cells = λ j i. ground (arith, w.cells j i, r.cells j i, f.cursor_x, f.columns_eq);
            same_cursor = refl;
            same_mode = refl;
          })))
    where
      -- The loop runs only where the moved cells stay on the screen.
      shifted :
          (n : ℕ)
          → Holds
              (Shows lines columns (λ j i.
                if j == s.cursor.y && leb (s.cursor.x + n) i && ltb i columns
                then read_cell s.buffer s.cursor.y (i - n)
                else read_cell s.buffer j i))
              (push_cells (s.columns - n - s.cursor.x) s.cursor.y s.cursor.x n s.buffer)
      shifted n = elim (Bool-cases (leb (s.cursor.x + n) columns)) [
        | inl room ↦
            Holds-map
              (push_cells-Shows (s.columns - n - s.cursor.x) s.cursor.y s.cursor.x n s.buffer
                f.page.grid f.cursor_y (ground (arith, f.columns_eq)))
              (λ b r. record {
                grid = r.grid;
                cells = λ j i. ground (arith, r.cells j i, f.columns_eq);
              })
        | inr full ↦
            let none_left : s.columns - n - s.cursor.x ≡ 0 = ground (arith, f.columns_eq) in
            rw none_left (
              unfold push_cells in
              holds (record { grid = f.page.grid; cells = λ j i. ground arith }))
      ]
