-- ===== src/Screen/Fits/Moves.antt =====
-- The cursor, the tab stops and the margins of src/terminal/screen.rs, on a screen of the right shape.
use stitch_pty.Prelude.{
  ℕ, zero, suc, ◌+◌, ◌-◌, ◌<◌, ◌≤◌, max, false, Option, unwrap_or, List, [], ◌∷◌, length, arith,
}
use stitch_pty.Prelude.{length-replicate, Bool-cases, inl, inr}
use stitch_pty.Screen.State.{SavedCursor, Screen}
use stitch_pty.Prelude.Sets.{NatSet}
use stitch_pty.Screen.Cursor.{
  set_margins, cursor_position, cursor_to_line, cursor_to_column, cursor_up, cursor_down,
  cursor_forward, cursor_back, carriage_return, backspace, next_stop, tab, set_tab_stop,
  clear_tab_stop, save_cursor, restore_from, restore_cursor,
}
use stitch_pty.Modes.{decom, has_private}
use stitch_pty.Screen.Fits.{Fits, move_to-Fits, scroll_region_bounds}

module _ {lines columns : ℕ} {s : Screen} (f : Fits lines columns s) where
  open f use {lines_eq, columns_eq, lines_pos, columns_pos, cursor_x, cursor_y}

  -- A cursor position keeps the shape, whatever the row and the column, under DECOM too.
  pub cursor_position-Fits : (row col : ℕ) → Fits lines columns (cursor_position s row col)
  unfolding cursor_position
  cursor_position-Fits row col =
      let b = scroll_region_bounds f in
      elim (Bool-cases (has_private s.mode decom)) [
        | inl on ↦ rw on (move_to-Fits _ _ f (omega (arith, columns_eq)) (omega arith))
        | inr off ↦
            rw off (move_to-Fits _ _ f (omega (arith, columns_eq)) (omega (arith, lines_eq)))
      ]

  pub cursor_to_line-Fits : (row : ℕ) → Fits lines columns (cursor_to_line s row)
  unfolding cursor_to_line
  cursor_to_line-Fits row = cursor_position-Fits row (s.cursor.x + 1)

  pub cursor_to_column-Fits : (col : ℕ) → Fits lines columns (cursor_to_column s col)
  unfolding cursor_to_column
  cursor_to_column-Fits col = cursor_position-Fits (s.cursor.y + 1) col

  pub cursor_up-Fits : (rows : ℕ) → Fits lines columns (cursor_up s rows)
  unfolding cursor_up
  cursor_up-Fits rows = let b = scroll_region_bounds f in move_to-Fits _ _ f cursor_x (omega arith)

  pub cursor_down-Fits : (rows : ℕ) → Fits lines columns (cursor_down s rows)
  unfolding cursor_down
  cursor_down-Fits rows =
      let b = scroll_region_bounds f in move_to-Fits _ _ f cursor_x (omega arith)

  pub cursor_forward-Fits : (cols : ℕ) → Fits lines columns (cursor_forward s cols)
  unfolding cursor_forward
  cursor_forward-Fits cols = move_to-Fits _ _ f (omega (arith, columns_eq)) cursor_y

  pub cursor_back-Fits : (cols : ℕ) → Fits lines columns (cursor_back s cols)
  unfolding cursor_back
  cursor_back-Fits cols = move_to-Fits _ _ f (omega arith) cursor_y

  pub carriage_return-Fits : Fits lines columns (carriage_return s)
  unfolding carriage_return
  carriage_return-Fits = move_to-Fits _ _ f (omega arith) cursor_y

  pub backspace-Fits : Fits lines columns (backspace s)
  unfolding backspace
  backspace-Fits = move_to-Fits _ _ f (omega arith) cursor_y

  next_stop-lt :
      (n next : ℕ) (stops : NatSet) (d : ℕ)
      → d < columns
      → next + n ≤ max columns next
      → unwrap_or (next_stop n next stops) d < columns
  unfolding next_stop
  next_stop-lt zero next stops d p h = omega arith
  next_stop-lt (suc n) next stops d p h = ground (arith, next_stop-lt n (next + 1) stops d p)

  pub tab-Fits : Fits lines columns (tab s)
  unfolding tab
  tab-Fits =
      let found =
        next_stop-lt (s.columns - (s.cursor.x + 1)) (s.cursor.x + 1) s.tabstops (s.columns - 1)
          (omega (arith, columns_eq)) (omega (arith, columns_eq)) in
      move_to-Fits _ _ f (omega (arith, found)) cursor_y

  -- A change of fields that the shape does not name.
  pub set_tab_stop-Fits : Fits lines columns (set_tab_stop s)
  unfolding set_tab_stop
  set_tab_stop-Fits = assumption f

  pub clear_tab_stop-Fits : (mode : ℕ) → Fits lines columns (clear_tab_stop s mode)
  unfolding clear_tab_stop
  clear_tab_stop-Fits mode = ground arith

  pub save_cursor-Fits : Fits lines columns (save_cursor s)
  unfolding save_cursor
  save_cursor-Fits = ground arith

  restore_from-Fits : (stack : List SavedCursor) → Fits lines columns (restore_from s stack)
  unfolding restore_from
  restore_from-Fits [] = move_to-Fits 0 0 f (omega arith) lines_pos
  restore_from-Fits (saved ∷ rest) = let b = scroll_region_bounds f in ground arith

  -- Restoring the cursor keeps the shape, whatever stands on the cursor's stack: saved places off
  -- the present screen included.
  pub restore_cursor-Fits : Fits lines columns (restore_cursor s)
  unfolding restore_cursor
  restore_cursor-Fits = restore_from-Fits s.cursor.stack

  -- Setting the margins keeps the shape, whatever the two numbers: margins off the screen or in the
  -- wrong order are not taken.
  pub set_margins-Fits : (top bottom : Option ℕ) → Fits lines columns (set_margins s top bottom)
  unfolding set_margins
  set_margins-Fits top bottom = ground (arith, length-replicate (length s.wrapped) false)
