-- ===== src/History/Scroll.antt =====
-- Scrolling into and out of the history, in src/terminal/history.rs.
use stitch_pty.Prelude.{
  ℕ, zero, suc, ◌+◌, ◌-◌, min, Bool, false, ltb, if◌then◌else◌, Option, none, some, unwrap_or,
  ◌>>=◌, get_elem?,
}
use stitch_pty.Screen.State.{Row, Screen, full_row, scroll_region, move_to, mark_dirty}
use stitch_pty.Screen.Grid.{Page, write_row, copy_row}
use stitch_pty.Screen.Scroll.{page_of, with_page}
use stitch_pty.History.{HistoryScreen, push_history, pop_history}

abbrev pub with_inner : HistoryScreen → Screen → HistoryScreen
with_inner h s = record h { inner = s }

-- `vec![self.inner.default_char.clone(); self.inner.columns]`.
abbrev pub blank_line : Screen → Row
blank_line s = full_row s.columns s.default_char

-- `for y in y..y + n`, each row a copy of the one below.
unfoldable pub pull_rows : ℕ → ℕ → Page → Option Page
pull_rows zero y p = some p
pull_rows (suc n) y p = do p' ← copy_row p y (y + 1); pull_rows n (y + 1) p'

-- `for y in y + 1..=y + n`, upwards, each row a copy of the one above.
unfoldable pub smear_rows : ℕ → ℕ → Page → Option Page
smear_rows zero y p = some p
smear_rows (suc n) y p = do p' ← copy_row p (y + 1) y; smear_rows n (y + 1) p'

-- The push at the head of a round.
unfoldable pub keep_row : Option Row → HistoryScreen → ℕ → Option HistoryScreen
keep_row none h top = some h
keep_row (some line) h top = push_history h line (unwrap_or (get_elem? h.inner.wrapped top) false)

unfoldable pub keep_top : HistoryScreen → ℕ → Option HistoryScreen
keep_top h top = keep_row (get_elem? h.inner.buffer top) h top

unfoldable pub roll_up : HistoryScreen → ℕ → ℕ → Option HistoryScreen
roll_up h top bottom = do
  h1 ← keep_top h top
  p ← pull_rows (bottom - top) top (page_of h1.inner)
  p' ← write_row p bottom (blank_line h1.inner) false
  some (with_inner h1 (mark_dirty (with_page h1.inner p') bottom))

unfoldable pub roll_up_rounds : ℕ → ℕ → ℕ → HistoryScreen → Option HistoryScreen
roll_up_rounds zero top bottom h = some h
roll_up_rounds (suc n) top bottom h = do h' ← roll_up h top bottom; roll_up_rounds n top bottom h'

unfoldable pub scroll_up_with_history : HistoryScreen → ℕ → Option HistoryScreen
scroll_up_with_history h rows =
    let (top, bottom) = scroll_region h.inner in
    roll_up_rounds (min rows (bottom - top + 1)) top bottom h

-- The row that comes back, or a blank one.
abbrev pub popped_row : Screen → Option (Row × Bool) → Row × Bool
popped_row s none = (blank_line s, false)
popped_row s (some back) = back

unfoldable pub roll_down : HistoryScreen → ℕ → ℕ → Option HistoryScreen
roll_down h top bottom = do
  p ← smear_rows (bottom - top) top (page_of h.inner)
  let (h1, popped) = pop_history h
  let (row, flag) = popped_row h.inner popped
  p' ← write_row p top row flag
  some (with_inner h1 (mark_dirty (with_page h.inner p') top))

unfoldable pub roll_down_rounds : ℕ → ℕ → ℕ → HistoryScreen → Option HistoryScreen
roll_down_rounds zero top bottom h = some h
roll_down_rounds (suc n) top bottom h = do
  h' ← roll_down h top bottom
  roll_down_rounds n top bottom h'

unfoldable pub scroll_down_with_history : HistoryScreen → ℕ → Option HistoryScreen
scroll_down_with_history h rows =
    let (top, bottom) = scroll_region h.inner in
    roll_down_rounds (min rows (h.inner.lines - top)) top bottom h

-- `HistoryScreen::index`.
unfoldable pub index_with_history : HistoryScreen → Option HistoryScreen
index_with_history h =
    if ltb h.inner.cursor.y (scroll_region h.inner).1
    then some (with_inner h (move_to h.inner 0 (h.inner.cursor.y + 1)))
    else scroll_up_with_history h 1

-- `HistoryScreen::reverse_index`.
unfoldable pub reverse_index_with_history : HistoryScreen → Option HistoryScreen
reverse_index_with_history h =
    if ltb (scroll_region h.inner).0 h.inner.cursor.y
    then some (with_inner h (move_to h.inner 0 (h.inner.cursor.y - 1)))
    else scroll_down_with_history h 1
