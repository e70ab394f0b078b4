-- ===== src/History/Flatten.antt =====
-- The first step of `reflow` of src/terminal/history.rs: rows joined into logical lines.
use stitch_pty.Prelude.{
  if◌then◌else◌, ℕ, ◌+◌, Bool, true, false, not, ◌&&◌, ltb, leb, Option, unwrap_or, List, [], ◌∷◌,
  ◌++◌, codes, equal,
}
use stitch_pty.Screen.State.{Char, Row, Rows}
use stitch_pty.History.{trim_trailing_blanks}

pub record LogicalLine : Type 0 where
  pub cells : Row
  pub start_row : ℕ

-- Each row with its flag; `flags.get(i).copied().unwrap_or(false)`.
unfoldable pub with_flags : Rows → List Bool → List (Row × Bool)
with_flags [] flags = []
with_flags (row ∷ rows) [] = (row, false) ∷ with_flags rows []
with_flags (row ∷ rows) (w ∷ flags) = (row, w) ∷ with_flags rows flags

-- The blank that follows a wide glyph.
abbrev pub is_space : Char → Bool
is_space c = equal c.text (codes " ")

module _ (char_width : ℕ → Option ℕ) where
  -- `Char::width`.
  unfoldable pub width_of : Char → ℕ
  width_of c = elim c.text [ [] ↦ 0 | ch ∷ rest ↦ unwrap_or (char_width ch) 1 ]

  -- The loop over the cells of a row, from `skip_next_blank` and `cur`.
  unfoldable pub flatten_cells : Bool → Row → Row → Bool × Row
  flatten_cells skip cur [] = (skip, cur)
  flatten_cells skip cur (cell ∷ row) = elim (skip && is_space cell) [
    | true ↦ flatten_cells false cur row
    | false ↦ flatten_cells (leb 2 (width_of cell)) (cur ++ cell ∷ []) row
  ]

  -- The loop over the rows from row `r`, with the line `cur` that started at row `start`.
  unfoldable pub flatten_rows : ℕ → Bool → Row → ℕ → List (Row × Bool) → List LogicalLine
  flatten_rows r skip cur start [] =
      record { cells = trim_trailing_blanks cur; start_row = start } ∷ []
  flatten_rows r skip cur start ((row, wrapped) ∷ rows) =
      let fresh = ltb 0 r && not wrapped in
      let (skip', cur') = flatten_cells skip (if fresh then [] else cur) row in
      let rest = flatten_rows (r + 1) skip' cur' (if fresh then r else start) rows in
      let line : LogicalLine = record { cells = trim_trailing_blanks cur; start_row = start } in
      if fresh then line ∷ rest else rest
