-- ===== src/History.antt =====
-- The screen with scrollback of src/terminal/history.rs: its state and the history's rows. A `drain`
-- or an index out of range is a panic, `none`. The counter `scrollback_grew` is a number without
-- bound, in place of its 64 bits.
pub mod Scroll
pub mod Flatten
pub mod Split
pub mod Reflow
pub mod Stream
pub mod Bounds
pub mod Widths
pub mod Fit
pub mod Resizing
pub mod RoundTrip
pub mod Joining
pub mod Rolls
mod Tests
use stitch_pty.Prelude.{
  ℕ, zero, suc, ◌+◌, ◌-◌, ◌*◌, ◌^◌, min, max, Bool, true, false, ◌&&◌, ltb, leb, if◌then◌else◌,
  Option, none, some, unwrap_or, ◌>>=◌, List, [], ◌∷◌, ◌++◌, length, get_elem?, take, drop, last_or,
  all_but_last, map, Text,
}
use stitch_pty.Screen.State.{
  Char, Row, Rows, Screen, is_blank, new, CursorStyle, default_style, block, underline, beam,
}

pub record HistoryScreen : Type 0 where
  pub inner : Screen
  pub history : Rows
  pub history_wrapped : List Bool
  pub scrollback_lines : ℕ
  pub scrollback_grew : ℕ

-- `HistoryScreen::new`.
abbrev pub new_history : ℕ → ℕ → ℕ → HistoryScreen
new_history columns lines scrollback_lines = record {
  inner = new columns lines;
  history = [];
  history_wrapped = [];
  scrollback_lines = scrollback_lines;
  scrollback_grew = 0;
}

abbrev bit : Bool → ℕ → ℕ
bit true n = 2 ^ n
bit false n = 0

-- `pack_cell`: the bits are different, so that `|=` adds them.
unfoldable pub pack_cell : Char → Text × Text × Text × ℕ
pack_cell c = (
  c.text,
  c.fg,
  c.bg,
  bit c.bold 0
      + bit c.dim 1
      + bit c.italics 2
      + bit c.underscore 3
      + bit c.blink 4
      + bit c.reverse 5
      + bit c.hidden 6
      + bit c.strikethrough 7,
)

abbrev pub is_nil : Row → Bool
is_nil [] = true
is_nil (c ∷ row) = false

-- `trim_trailing_blanks`: a blank goes if nothing is left behind it.
unfoldable pub trim_trailing_blanks : Row → Row
trim_trailing_blanks [] = []
trim_trailing_blanks (c ∷ cells) =
    let rest = trim_trailing_blanks cells in if is_blank c && is_nil rest then [] else c ∷ rest

-- `v.drain(..n)`.
unfoldable pub drain {ℓ} : {A : Type ℓ} → ℕ → List A → Option (List A)
drain n xs = if leb n (length xs) then some (drop n xs) else none

unfoldable pub trim_history : HistoryScreen → Option HistoryScreen
trim_history h =
    let excess = length h.history - h.scrollback_lines in
    if ltb 0 h.scrollback_lines && ltb h.scrollback_lines (length h.history)
    then drain excess h.history >>= (λ rows.
      drain excess h.history_wrapped
      >>= (λ flags. some (record h { history = rows; history_wrapped = flags })))
    else some h

unfoldable pub set_scrollback_lines : HistoryScreen → ℕ → Option HistoryScreen
set_scrollback_lines h lines = trim_history (record h { scrollback_lines = lines })

unfoldable pub push_history : HistoryScreen → Row → Bool → Option HistoryScreen
push_history h line wrapped = trim_history (record h {
  history = h.history ++ line ∷ [];
  history_wrapped = h.history_wrapped ++ wrapped ∷ [];
  scrollback_grew = h.scrollback_grew + 1;
})

unfoldable pub pop_from : Rows → HistoryScreen → HistoryScreen × Option (Row × Bool)
pop_from [] h = (h, none)
pop_from (row ∷ rows) h = (
  record h {
    history = all_but_last (row ∷ rows);
    history_wrapped = all_but_last h.history_wrapped;
  },
  some (last_or rows row, last_or h.history_wrapped false),
)

-- The row popped with its flag, and what is left.
unfoldable pub pop_history : HistoryScreen → HistoryScreen × Option (Row × Bool)
pop_history h = pop_from h.history h

unfoldable pub clear_history : HistoryScreen → HistoryScreen
clear_history h = record h { history = []; history_wrapped = [] }

-- `total_lines`.
unfoldable pub total_lines : HistoryScreen → ℕ
total_lines h = length h.history + h.inner.lines

unfoldable pub absolute_cursor : HistoryScreen → ℕ × ℕ
absolute_cursor h = (h.inner.cursor.x, length h.history + h.inner.cursor.y)

unfoldable pub styled_viewport : HistoryScreen → List (List (Text × Text × Text × ℕ))
styled_viewport h = map (map pack_cell) (h.history ++ h.inner.buffer)

-- The loop of `styled_range` with the rounds left, at row `i`.
unfoldable pub styled_rows : HistoryScreen → ℕ → ℕ → Option (List (List (Text × Text × Text × ℕ)))
styled_rows h zero i = some []
styled_rows h (suc n) i = do
  row ←
      if ltb i (length h.history)
      then get_elem? h.history i
      else get_elem? h.inner.buffer (i - length h.history)
  out ← styled_rows h n (i + 1)
  some (map pack_cell row ∷ out)

abbrev pub usize_max : ℕ
usize_max = 2 ^ 64 - 1

unfoldable pub styled_range : HistoryScreen → ℕ → ℕ → Option (List (List (Text × Text × Text × ℕ)))
styled_range h start count =
    let end = min (min (start + count) usize_max) (total_lines h) in
    styled_rows h (end - start) start

-- `cursor_shape`, with the names of the shapes.
unfoldable pub cursor_shape : HistoryScreen → CursorStyle
cursor_shape h = elim h.inner.cursor_style [
  | underline ↦ underline
  | beam ↦ beam
  | block ↦ block
  | default_style ↦ block
]
