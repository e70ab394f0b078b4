-- ===== src/History/Joining.antt =====
-- The two halves of `reflow` in src/terminal/history.rs: the rows of lines joined again.
use stitch_pty.Prelude.{
  ℕ, suc, ◌+◌, ◌<◌, ◌≡◌, refl, sym, ap, ◌∙◌, Bool, true, false, ◌&&◌, ltb, Option, List, [], ◌∷◌,
  ◌++◌, length, map, arith, append_assoc, append-nil, All, All-append, All-replicate,
}
use stitch_pty.Screen.State.{Row, Rows, blank}
use stitch_pty.History.{trim_trailing_blanks}
use stitch_pty.History.Flatten.{LogicalLine, flatten_rows}
use stitch_pty.History.Split.{split_line, mark_rows, split_lines}
use stitch_pty.History.RoundTrip.{
  joined, IsNarrow, flatten_cells-narrow, split_line-joined, split_line-pos, trim-append,
}

-- The text of logical lines.
abbrev pub cells_of : List LogicalLine → List Row
cells_of [] = []
cells_of (line ∷ lines) = line.cells ∷ cells_of lines

abbrev wrapped_rows : Rows → List (Row × Bool)
wrapped_rows rows = map (λ r. (r, true)) rows

-- A line of narrow cells that does not end in a blank.
pub record IsPlain (char_width : ℕ → Option ℕ) (line : LogicalLine) : Type 0 where
  pub narrow : All (IsNarrow char_width) line.cells
  pub trimmed : trim_trailing_blanks line.cells ≡ line.cells

module _ {ℓ κ} {A : Type ℓ} (P : A → Type κ) where
  All-split : (xs ys : List A) → All P (xs ++ ys) → All P xs × All P ys
  All-split [] ys h = (tt, h)
  All-split (x ∷ xs) ys h = let rest = All-split xs ys h.1 in ((h.0, rest.0), rest.1)

module _ (char_width : ℕ → Option ℕ) where
  -- Rows that are wrapped continue the line.
  flatten_rows-wrapped :
      (rows : Rows) (r : ℕ) (cur : Row) (start : ℕ) (rest : List (Row × Bool))
      → All (IsNarrow char_width) (joined rows)
      → flatten_rows char_width r false cur start (wrapped_rows rows ++ rest)
        ≡ flatten_rows char_width (r + length rows) false (cur ++ joined rows) start rest
  unfolding flatten_rows
  flatten_rows-wrapped [] r cur start rest n =
      ap (λ k. flatten_rows char_width k false cur start rest) {x = r} {y = r + 0} (omega arith)
      ∙ ap (λ xs. flatten_rows char_width (r + 0) false xs start rest) (sym (append-nil cur))
  flatten_rows-wrapped (row ∷ rows) r cur start rest n =
      let same : (ltb 0 r && false) ≡ false = ground arith in
      let narrow = All-split (IsNarrow char_width) row (joined rows) n in
      rw same (
        rw (flatten_cells-narrow char_width cur row narrow.0) (
          flatten_rows-wrapped rows (r + 1) (cur ++ row) start rest narrow.1
          ∙ ap (λ k. flatten_rows char_width k false ((cur ++ row) ++ joined rows) start rest)
              {x = r + 1 + length rows} {y = r + suc (length rows)} (omega arith)
          ∙ ap (λ xs. flatten_rows char_width (r + suc (length rows)) false xs start rest)
              (append_assoc cur row (joined rows))))

  -- The first row of a line that is not the first ends the line before.
  flatten_rows-line :
      (row : Row) (rows : Rows) (r : ℕ) (cur : Row) (start : ℕ) (rest : List (Row × Bool))
      → 0 < r
      → All (IsNarrow char_width) (row ++ joined rows)
      → flatten_rows char_width r false cur start ((row, false) ∷ wrapped_rows rows ++ rest)
        ≡ record { cells = trim_trailing_blanks cur; start_row = start }
          ∷ flatten_rows char_width (r + 1 + length rows) false (row ++ joined rows) r rest
  unfolding flatten_rows
  flatten_rows-line row rows r cur start rest h n =
      let fresh : (ltb 0 r && true) ≡ true = ground arith in
      let narrow = All-split (IsNarrow char_width) row (joined rows) n in
      rw fresh (
        rw (flatten_cells-narrow char_width [] row narrow.0) (
          ap (λ lines. record { cells = trim_trailing_blanks cur; start_row = start } ∷ lines)
            (flatten_rows-wrapped rows (r + 1) row r rest narrow.1)))

  flatten_rows-first :
      (row : Row) (rows : Rows) (rest : List (Row × Bool))
      → All (IsNarrow char_width) (row ++ joined rows)
      → flatten_rows char_width 0 false [] 0 ((row, false) ∷ wrapped_rows rows ++ rest)
        ≡ flatten_rows char_width (1 + length rows) false (row ++ joined rows) 0 rest
  unfolding flatten_rows
  flatten_rows-first row rows rest n =
      let narrow = All-split (IsNarrow char_width) row (joined rows) n in
      rw (flatten_cells-narrow char_width [] row narrow.0)
        (flatten_rows-wrapped rows 1 row 0 rest narrow.1)

  module _ (columns : ℕ) (positive : 0 < columns) (blank_narrow : IsNarrow char_width blank) where
    -- The cells of the rows of a line, and what is left of them when the line ends.
    line_rows :
        (line : LogicalLine)
        → IsPlain char_width line
        → let rows = split_line char_width columns line.cells in
          All (IsNarrow char_width) (joined rows)
          × (trim_trailing_blanks (joined rows) ≡ line.cells)
    line_rows line p =
        let padded = split_line-joined char_width columns positive line.cells p.narrow in
        (
          rw padded.1 (
              All-append (IsNarrow char_width) line.cells _ p.narrow
                (All-replicate (IsNarrow char_width) padded.0 blank blank_narrow)),
          ap trim_trailing_blanks padded.1 ∙ trim-append line.cells padded.0 ∙ p.trimmed,
        )

    rows-ends :
        (rows : Rows) (r : ℕ) (cur : Row) (start : ℕ) (rest : List (Row × Bool))
        → 0 < length rows
        → 0 < r
        → All (IsNarrow char_width) (joined rows)
        → (k : ℕ) × (0 < k)
          × (cells_of (
                flatten_rows char_width r false cur start
                  (mark_rows char_width columns rows ++ rest))
              ≡ trim_trailing_blanks cur
                ∷ cells_of (flatten_rows char_width k false (joined rows) r rest))
    unfolding mark_rows
    rows-ends [] r cur start rest h pos n = absurd (omega arith)
    rows-ends (row ∷ rows) r cur start rest h pos n = (
      r + 1 + length rows,
      omega arith,
      ap cells_of (flatten_rows-line row rows r cur start rest pos n),
    )

    rows-begin :
        (rows : Rows) (rest : List (Row × Bool))
        → 0 < length rows
        → All (IsNarrow char_width) (joined rows)
        → (k : ℕ) × (0 < k)
          × (flatten_rows char_width 0 false [] 0 (mark_rows char_width columns rows ++ rest)
              ≡ flatten_rows char_width k false (joined rows) 0 rest)
    unfolding mark_rows
    rows-begin [] rest h n = absurd (omega arith)
    rows-begin (row ∷ rows) rest h n =
        (1 + length rows, omega arith, flatten_rows-first row rows rest n)

    flatten_rows-lines :
        (lines : List LogicalLine) (r : ℕ) (cur : Row) (start : ℕ)
        → 0 < r
        → All (IsPlain char_width) lines
        → cells_of
            (flatten_rows char_width r false cur start (split_lines char_width columns lines))
          ≡ trim_trailing_blanks cur ∷ cells_of lines
    unfolding flatten_rows split_lines
    flatten_rows-lines [] r cur start h p = refl
    flatten_rows-lines (line ∷ lines) r cur start h p =
        let rows = split_line char_width columns line.cells in
        let l = line_rows line p.0 in
        let ends =
          rows-ends rows r cur start (split_lines char_width columns lines)
            (split_line-pos char_width columns positive line.cells) h l.0 in
        ends.2
        ∙ ap (λ ls. trim_trailing_blanks cur ∷ ls)
            (flatten_rows-lines lines ends.0 (joined rows) r ends.1 p.1)
        ∙ ap (λ c. trim_trailing_blanks cur ∷ c ∷ cells_of lines) l.1

    -- Lines of narrow cells that do not end in a blank, of which some may be empty, split into rows of
    -- a positive width and joined again, have the same cells.
    pub flatten_rows-split_lines :
        (line : LogicalLine) (lines : List LogicalLine)
        → All (IsPlain char_width) (line ∷ lines)
        → cells_of
            (flatten_rows char_width 0 false [] 0 (split_lines char_width columns (line ∷ lines)))
          ≡ cells_of (line ∷ lines)
    unfolding split_lines
    flatten_rows-split_lines line lines p =
        let rows = split_line char_width columns line.cells in
        let l = line_rows line p.0 in
        let begins =
          rows-begin rows (split_lines char_width columns lines)
            (split_line-pos char_width columns positive line.cells) l.0 in
        ap cells_of begins.2
        ∙ flatten_rows-lines lines begins.0 (joined rows) 0 begins.1 p.1
        ∙ ap (λ c. c ∷ cells_of lines) l.1
