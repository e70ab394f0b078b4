-- ===== src/History/Widths.antt =====
-- The rows that `reflow` of src/terminal/history.rs writes: their width.
use stitch_pty.Prelude.{
  ℕ, ◌+◌, ◌-◌, ◌<◌, ◌≤◌, ◌≡◌, refl, Bool, true, ◌&&◌, ◌||◌, not, ◌==◌, ltb, leb, if◌then◌else◌,
  Option, List, [], ◌∷◌, ◌++◌, length, replicate, map, arith, Bool-cases, inl, inr, length-append,
  length-replicate, All, All-append,
}
use stitch_pty.Screen.State.{Char, Row, Rows, blank}
use stitch_pty.History.{is_nil}
use stitch_pty.History.Flatten.{LogicalLine, width_of}
use stitch_pty.History.Split.{
  flush, continuation, Filling, flush_row, make_room, place, flush_full, put_cell, put_cells,
  nothing_written, finish, split_line, mark_rows, split_lines, line_spans,
}

abbrev pub IsWide : ℕ → Row → Type 0
IsWide columns row = length row ≡ columns

abbrev pub IsFlagged : ℕ → Row × Bool → Type 0
IsFlagged columns p = length p.0 ≡ columns

length-flush : (columns : ℕ) (row : Row) → length row ≤ columns → IsWide columns (flush columns row)
unfolding flush
length-flush columns row h = omega (
  arith,
  length-append row (replicate (columns - length row) blank),
  length-replicate (columns - length row) blank,
)

module _ {columns : ℕ} (positive : 0 < columns) where
  pub record IsFilled (f : Filling) : Type 0 where
    pub wide : All (IsWide columns) f.rows
    pub room : length f.row < columns

  flush_row-IsFilled :
      (f : Filling)
      → All (IsWide columns) f.rows
      → length f.row ≤ columns
      → IsFilled (flush_row columns f)
  unfolding flush_row
  flush_row-IsFilled f w h = record {
    wide = All-append (IsWide columns) f.rows _ w (length-flush columns f.row h, tt);
    room = positive;
  }

  make_room-IsFilled : (need : ℕ) {f : Filling} → IsFilled f → IsFilled (make_room columns need f)
  unfolding make_room
  make_room-IsFilled need {f} i = elim (Bool-cases (ltb columns (length f.row + need))) [
    | inl over ↦ rw over (flush_row-IsFilled _ i.wide (gap (need == 2) i.room))
    | inr fits ↦ rw fits i
  ]
    where
      gap :
          (b : Bool)
          → length f.row < columns
          → length (if b && length f.row + 1 == columns then f.row ++ blank ∷ [] else f.row)
            ≤ columns
      gap b h = ground (arith, length-append f.row (blank ∷ []))

  flush_full-IsFilled :
      (f : Filling)
      → All (IsWide columns) f.rows
      → length f.row ≤ columns
      → IsFilled (flush_full columns f)
  unfolding flush_full
  flush_full-IsFilled f w h = elim (Bool-cases (length f.row == columns)) [
    | inl full ↦ rw full (flush_row-IsFilled f w h)
    | inr less ↦ rw less (record { wide = w; room = ground arith })
  ]

  length-place :
      (b : Bool) (cell : Char) (row : Row)
      → length row < columns
      → length (place columns b cell row) ≤ columns
  unfolding place
  length-place b cell row h =
      ground
        (arith, length-append row (cell ∷ continuation cell ∷ []), length-append row (cell ∷ []))

  module _ (char_width : ℕ → Option ℕ) where
    pub put_cell-IsFilled :
        {f : Filling} (cell : Char) → IsFilled f → IsFilled (put_cell char_width columns f cell)
    unfolding put_cell
    put_cell-IsFilled cell i =
        let g = make_room-IsFilled (if leb 2 (width_of char_width cell) then 2 else 1) i in
        flush_full-IsFilled _ g.wide (length-place (leb 2 (width_of char_width cell)) cell _ g.room)

    pub put_cells-IsFilled :
        (cells : Row) (f : Filling) → IsFilled f → IsFilled (put_cells char_width columns f cells)
    unfolding put_cells
    put_cells-IsFilled [] f i = i
    put_cells-IsFilled (cell ∷ cells) f i = put_cells-IsFilled cells _ (put_cell-IsFilled cell i)

    finish-IsWide : (f : Filling) → IsFilled f → All (IsWide columns) (finish char_width columns f)
    unfolding finish
    finish-IsWide f i =
        elim (Bool-cases (not (is_nil f.row) || nothing_written char_width columns f.rows)) [
          | inl more ↦ rw more ((flush_row-IsFilled f i.wide (omega (arith, i.room))).wide)
          | inr done ↦ rw done i.wide
        ]

    split_line-IsWide : (cells : Row) → All (IsWide columns) (split_line char_width columns cells)
    unfolding split_line
    split_line-IsWide cells =
        finish-IsWide _ (put_cells-IsFilled cells _ (record { wide = tt; room = positive }))

    mark_rows-IsFlagged :
        (rows : Rows)
        → All (IsWide columns) rows
        → All (IsFlagged columns) (mark_rows char_width columns rows)
    unfolding mark_rows
    mark_rows-IsFlagged [] w = tt
    mark_rows-IsFlagged (row ∷ rows) w = (w.0, wrapped rows w.1)
      where
        wrapped :
            (rows : Rows)
            → All (IsWide columns) rows
            → All (IsFlagged columns) (map (λ r. (r, true)) rows)
        wrapped [] w = tt
        wrapped (row ∷ rows) w = (w.0, wrapped rows w.1)

    -- Every row is as wide as the screen.
    pub split_lines-IsFlagged :
        (lines : List LogicalLine) → All (IsFlagged columns) (split_lines char_width columns lines)
    unfolding split_lines
    split_lines-IsFlagged [] = tt
    split_lines-IsFlagged (line ∷ lines) =
        All-append (IsFlagged columns) _ _ (mark_rows-IsFlagged _ (split_line-IsWide line.cells))
          (split_lines-IsFlagged lines)

pub length-line_spans :
    (char_width : ℕ → Option ℕ) (columns first : ℕ) (lines : List LogicalLine)
    → length (line_spans char_width columns first lines) ≡ length lines
unfolding line_spans
length-line_spans char_width columns first [] = refl
length-line_spans char_width columns first (line ∷ lines) = omega (
  arith,
  length-line_spans char_width columns (first + length (split_line char_width columns line.cells))
      lines,
)
