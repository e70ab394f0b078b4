-- ===== src/History/Split.antt =====
-- The third step of `reflow` of src/terminal/history.rs: logical lines split into rows.
use stitch_pty.Prelude.{
  ℕ, ◌+◌, ◌-◌, Bool, true, false, ◌&&◌, ◌||◌, not, ◌==◌, ltb, leb, if◌then◌else◌, Option, List, [],
  ◌∷◌, ◌++◌, length, replicate, map, codes,
}
use stitch_pty.Screen.State.{Char, Row, Rows, blank}
use stitch_pty.History.{is_nil}
use stitch_pty.History.Flatten.{LogicalLine, width_of}

-- `flush`: the row padded with blanks.
unfoldable pub flush : ℕ → Row → Row
flush columns row = row ++ replicate (columns - length row) blank

-- The continuation cell of a wide glyph.
abbrev pub continuation : Char → Char
continuation cell = record cell { text = codes " " }

-- The rows written of a line, and the row being filled.
pub record Filling : Type 0 where
  pub rows : Rows
  pub row : Row

unfoldable pub flush_row : ℕ → Filling → Filling
flush_row columns f = record { rows = f.rows ++ flush columns f.row ∷ []; row = [] }

-- `if row.len() + need > columns`: a gap before a wide glyph, and a flush.
unfoldable pub make_room : ℕ → ℕ → Filling → Filling
make_room columns need f =
    if ltb columns (length f.row + need)
    then flush_row columns (record f {
      row = if need == 2 && length f.row + 1 == columns then f.row ++ blank ∷ [] else f.row;
    })
    else f

-- The glyph, and its continuation if there is room.
unfoldable pub place : ℕ → Bool → Char → Row → Row
place columns wide cell row =
    if wide && ltb (length row + 1) columns
    then row ++ cell ∷ continuation cell ∷ []
    else row ++ cell ∷ []

unfoldable pub flush_full : ℕ → Filling → Filling
flush_full columns f = if length f.row == columns then flush_row columns f else f

module _ (char_width : ℕ → Option ℕ) (columns : ℕ) where
  unfoldable pub put_cell : Filling → Char → Filling
  put_cell f cell =
      let wide = leb 2 (width_of char_width cell) in
      let g = make_room columns (if wide then 2 else 1) f in
      flush_full columns (record g { row = place columns wide cell g.row })

  unfoldable pub put_cells : Filling → Row → Filling
  put_cells f [] = f
  put_cells f (cell ∷ cells) = put_cells (put_cell f cell) cells

  abbrev pub nothing_written : Rows → Bool
  nothing_written [] = true
  nothing_written (row ∷ rows) = false

  -- `if !row.is_empty() || rows.len() == first`.
  unfoldable pub finish : Filling → Rows
  finish f =
      if not (is_nil f.row) || nothing_written f.rows then (flush_row columns f).rows else f.rows

  -- The rows of one line.
  unfoldable pub split_line : Row → Rows
  split_line cells = finish (put_cells (record { rows = []; row = [] }) cells)

  -- `rows[first].1 = false`: the first row of a line starts it, the others are wrapped.
  unfoldable pub mark_rows : Rows → List (Row × Bool)
  mark_rows [] = []
  mark_rows (row ∷ rows) = (row, false) ∷ map (λ r. (r, true)) rows

  -- The rows of all lines.
  unfoldable pub split_lines : List LogicalLine → List (Row × Bool)
  split_lines [] = []
  split_lines (line ∷ lines) = mark_rows (split_line line.cells) ++ split_lines lines

  -- `line_spans`: of each line the first row and the number of cells.
  unfoldable pub line_spans : ℕ → List LogicalLine → List (ℕ × ℕ)
  line_spans first [] = []
  line_spans first (line ∷ lines) =
      (first, length line.cells) ∷ line_spans (first + length (split_line line.cells)) lines
