-- ===== src/Screen/Erase.antt =====
-- Erasing, inserting and deleting characters of src/terminal/screen.rs.
use stitch_pty.Prelude.{
  ℕ, zero, suc, ◌+◌, ◌-◌, min, max, false, ◌||◌, ◌==◌, if◌then◌else◌, Option, some, set?, ◌>>=◌,
  codes,
}
use stitch_pty.Screen.State.{Char, Rows, Screen, erase_cell, scroll_region, move_to, mark_dirty}
use stitch_pty.Screen.Grid.{fill_cells, pull_cells, push_cells, fill_rows}
use stitch_pty.Screen.Scroll.{page_of, with_page}

abbrev pub with_rows : Screen → Rows → Screen
with_rows s rows = record s { buffer = rows }

unfoldable pub erase_characters : Screen → ℕ → Option Screen
erase_characters s count = do
  let x = s.cursor.x
  let end = min (x + max count 1) s.columns
  rows ← fill_cells (end - x) s.cursor.y x (erase_cell s) s.buffer
  some (mark_dirty (with_rows s rows) s.cursor.y)

unfoldable pub delete_characters : Screen → ℕ → Option Screen
delete_characters s count = do
  let x = s.cursor.x
  let y = s.cursor.y
  let end = min (x + max count 1) s.columns
  rows ← pull_cells (s.columns - (end - x) - x) y x (end - x) s.buffer
  rows' ← fill_cells (end - x) y (s.columns - (end - x)) (erase_cell s) rows
  some (mark_dirty (with_rows s rows') y)

unfoldable pub insert_characters : Screen → ℕ → Option Screen
insert_characters s count = do
  let n = max count 1
  let x = s.cursor.x
  let y = s.cursor.y
  rows ← push_cells (s.columns - n - x) y x n s.buffer
  rows' ← fill_cells (min (x + n) s.columns - x) y x (erase_cell s) rows
  some (mark_dirty (with_rows s rows') y)

-- Clears the wrap flag of the cursor's row.
abbrev pub unwrap_row : Screen → Option Screen
unwrap_row s = do flags ← set? s.wrapped s.cursor.y false; some (record s { wrapped = flags })

-- `n` cells of the cursor's row, from column `x`.
unfoldable pub erase_columns : Screen → ℕ → ℕ → Option Screen
erase_columns s n x = do
  rows ← fill_cells n s.cursor.y x (erase_cell s) s.buffer
  some (with_rows s rows)

-- The `match mode` of `erase_in_line`.
unfoldable pub erase_line_part : Screen → ℕ → Option Screen
unfolding erase_columns
erase_line_part s mode =
    if mode == 0
    then erase_columns s (s.columns - s.cursor.x) s.cursor.x
    else if mode == 1
    then erase_columns s (min s.cursor.x (s.columns - 1) + 1) 0
    else erase_columns s s.columns 0 >>= unwrap_row

unfoldable pub erase_in_line : Screen → ℕ → Option Screen
unfolding erase_line_part
erase_in_line s mode = do
  s1 ← erase_line_part s mode
  let s2 = mark_dirty s1 s1.cursor.y
  some (if mode == 0 then move_to s2 (min s2.cursor.x (s2.columns - 1)) s2.cursor.y else s2)

-- `for y in y..y + n` of `erase_in_display`: whole rows.
unfoldable pub erase_rows : ℕ → ℕ → Char → Screen → Option Screen
erase_rows zero y c s = some s
erase_rows (suc n) y c s = do
  p ← fill_rows 1 y s.columns c (page_of s)
  erase_rows n (y + 1) c (mark_dirty (with_page s p) y)

-- Mode 0 of `erase_in_display`: from the cursor to the end of the region.
unfoldable pub erase_below : Screen → Option Screen
unfolding erase_rows
erase_below s = do
  let y = s.cursor.y
  let c = erase_cell s
  rows ← fill_cells (s.columns - s.cursor.x) y s.cursor.x c s.buffer
  erase_rows ((scroll_region s).1 - y) (y + 1) c (mark_dirty (with_rows s rows) y)

-- Mode 1 of `erase_in_display`: from the head of the region to the cursor.
unfoldable pub erase_above : Screen → Option Screen
unfolding erase_rows
erase_above s = do
  let y = s.cursor.y
  let c = erase_cell s
  let top = (scroll_region s).0
  s1 ← erase_rows (y - top) top c s
  rows ← fill_cells (min s.cursor.x (s.columns - 1) + 1) y 0 c s1.buffer
  some (mark_dirty (with_rows s1 rows) y)

-- Modes 2 and 3 of `erase_in_display`: the whole region.
unfoldable pub erase_region : Screen → Option Screen
unfolding erase_rows
erase_region s =
    let (top, bottom) = scroll_region s in erase_rows (bottom + 1 - top) top (erase_cell s) s

unfoldable pub erase_in_display : Screen → ℕ → Option Screen
unfolding erase_below erase_above erase_region
erase_in_display s mode =
    if mode == 0
    then erase_below s
    else if mode == 1
    then erase_above s
    else if mode == 2 || mode == 3
    then erase_region s
    else some s

-- The rows of `alignment_display`, with the rounds left.
unfoldable pub align_rows : ℕ → ℕ → Screen → Option Screen
align_rows zero y s = some s
align_rows (suc n) y s = do
  p ← fill_rows 1 y s.columns (record (s.default_char) { text = codes "E" }) (page_of s)
  align_rows n (y + 1) (mark_dirty (with_page s p) y)

unfoldable pub alignment_display : Screen → Option Screen
unfolding align_rows
alignment_display s = do s1 ← align_rows s.lines 0 s; some (move_to s1 0 0)
