-- ===== src/Screen/Scroll.antt =====
-- Scrolling, line feeds, and the insertion and deletion of lines of src/terminal/screen.rs.
use stitch_pty.Prelude.{
  ℕ, zero, suc, ◌+◌, ◌-◌, min, max, Bool, true, false, not, ◌&&◌, ◌||◌, ltb, if◌then◌else◌, Option,
  none, some, [], ◌∷◌, ◌++◌, get_elem?, ◌>>=◌,
}
use stitch_pty.Screen.State.{
  Row, Margins, Screen, full_row, erase_cell, scroll_region, move_to, mark_dirty,
}
use stitch_pty.Modes.{lnm, has_public}
use stitch_pty.Screen.Grid.{Page, write_row, raise_rows, spread_rows, lower_rows}

abbrev pub page_of : Screen → Page
page_of s = record { rows = s.buffer; flags = s.wrapped }

abbrev pub with_page : Screen → Page → Screen
with_page s p = record s { buffer = p.rows; wrapped = p.flags }

-- The push onto `scrolled_off` and `scrolled_off_wrapped` at the head of a round of `scroll_up`.
unfoldable pub capture_row : Bool → ℕ → Screen → Option Screen
capture_row false top s = some s
capture_row true top s = do
  row ← get_elem? s.buffer top
  flag ← get_elem? s.wrapped top
  some (record s {
    scrolled_off = s.scrolled_off ++ row ∷ [];
    scrolled_off_wrapped = s.scrolled_off_wrapped ++ flag ∷ [];
  })

-- One round of `scroll_up`.
unfoldable pub scroll_up_round : Bool → ℕ → ℕ → Row → Screen → Option Screen
unfolding capture_row
scroll_up_round to_history top bottom default_line s = do
  s1 ← capture_row to_history top s
  p ← raise_rows (bottom - top) top default_line (page_of s1)
  p' ← write_row p bottom default_line false
  some (mark_dirty (with_page s1 p') bottom)

unfoldable pub scroll_up_rounds : ℕ → Bool → ℕ → ℕ → Row → Screen → Option Screen
unfolding scroll_up_round
scroll_up_rounds zero to_history top bottom default_line s = some s
scroll_up_rounds (suc n) to_history top bottom default_line s = do
  s1 ← scroll_up_round to_history top bottom default_line s
  scroll_up_rounds n to_history top bottom default_line s1

abbrev pub no_margins : Option Margins → Bool
no_margins none = true
no_margins (some m) = false

unfoldable pub scroll_up : Screen → ℕ → Option Screen
unfolding scroll_up_rounds
scroll_up s rows =
    let (top, bottom) = scroll_region s in
    let to_history = no_margins s.margins && not s.alt_screen in
    scroll_up_rounds (min rows (bottom - top + 1)) to_history top bottom
      (full_row s.columns (erase_cell s)) s

-- One round of `scroll_down`.
unfoldable pub scroll_down_round : ℕ → ℕ → Row → Screen → Option Screen
scroll_down_round top bottom default_line s = do
  p ← spread_rows (bottom - top) top default_line (page_of s)
  p' ← write_row p top default_line false
  some (mark_dirty (with_page s p') top)

unfoldable pub scroll_down_rounds : ℕ → ℕ → ℕ → Row → Screen → Option Screen
unfolding scroll_down_round
scroll_down_rounds zero top bottom default_line s = some s
scroll_down_rounds (suc n) top bottom default_line s = do
  s1 ← scroll_down_round top bottom default_line s
  scroll_down_rounds n top bottom default_line s1

unfoldable pub scroll_down : Screen → ℕ → Option Screen
unfolding scroll_down_rounds
scroll_down s rows =
    let (top, bottom) = scroll_region s in
    scroll_down_rounds (min rows (bottom - top + 1)) top bottom (full_row s.columns (erase_cell s))
      s

unfoldable pub linefeed : Screen → Option Screen
linefeed s = do
  s1 ←
      if ltb s.cursor.y (scroll_region s).1
      then some (move_to s s.cursor.x (s.cursor.y + 1))
      else scroll_up s 1
  some (if has_public s1.mode lnm then move_to s1 0 s1.cursor.y else s1)

unfoldable pub index : Screen → Option Screen
index s =
    if ltb s.cursor.y (scroll_region s).1
    then some (move_to s 0 (s.cursor.y + 1))
    else scroll_up s 1

unfoldable pub reverse_index : Screen → Option Screen
reverse_index s =
    if ltb (scroll_region s).0 s.cursor.y
    then some (move_to s 0 (s.cursor.y - 1))
    else scroll_down s 1

-- The rounds of `insert_lines`, at the cursor's row `y`.
unfoldable pub insert_lines_rounds : ℕ → ℕ → ℕ → Row → Screen → Option Screen
insert_lines_rounds zero y bottom default_line s = some s
insert_lines_rounds (suc n) y bottom default_line s = do
  p ← lower_rows (bottom - y) y (page_of s)
  p' ← write_row p y default_line false
  insert_lines_rounds n y bottom default_line (mark_dirty (with_page s p') y)

-- Outside the scroll region `insert_lines` and `delete_lines` do nothing.
abbrev pub outside_region : Screen → Bool
outside_region s = ltb s.cursor.y (scroll_region s).0 || ltb (scroll_region s).1 s.cursor.y

unfoldable pub insert_lines : Screen → ℕ → Option Screen
unfolding insert_lines_rounds
insert_lines s count =
    let bottom = (scroll_region s).1 in
    let y = s.cursor.y in
    if outside_region s then some s else do
      s1 ←
          insert_lines_rounds (min (max count 1) (bottom - y)) y bottom
            (full_row s.columns (erase_cell s)) s
      some (move_to s1 0 s1.cursor.y)

-- The rounds of `delete_lines`, at the cursor's row `y`.
unfoldable pub delete_lines_rounds : ℕ → ℕ → ℕ → Row → Screen → Option Screen
delete_lines_rounds zero y bottom default_line s = some s
delete_lines_rounds (suc n) y bottom default_line s = do
  p ← raise_rows (bottom - y) y default_line (page_of s)
  p' ← write_row p bottom default_line false
  delete_lines_rounds n y bottom default_line (mark_dirty (with_page s p') y)

unfoldable pub delete_lines : Screen → ℕ → Option Screen
unfolding delete_lines_rounds
delete_lines s count =
    let bottom = (scroll_region s).1 in
    let y = s.cursor.y in
    if outside_region s then some s else do
      s1 ←
          delete_lines_rounds (min (max count 1) (bottom - y)) y bottom
            (full_row s.columns (erase_cell s)) s
      some (move_to s1 0 s1.cursor.y)
