-- ===== src/Screen/Draw.antt =====
-- Printing of src/terminal/screen.rs. `char_width` is `UnicodeWidthChar::width` of the crate
-- unicode-width: `none` for a control character.
use stitch_pty.Prelude.{
  ℕ, ◌+◌, ◌-◌, min, true, not, ◌&&◌, ◌==◌, ltb, leb, if◌then◌else◌, Option, some, unwrap_or, [],
  ◌∷◌, ◌++◌, set?, ◌>>=◌, Text,
}
use stitch_pty.Screen.State.{Screen, erase_cell, scroll_region, move_to, mark_dirty}
use stitch_pty.Modes.{irm, decawm, has_public, has_private}
use stitch_pty.Screen.Grid.{read_cell, write_cell}
use stitch_pty.Screen.Scroll.{scroll_up}
use stitch_pty.Screen.Erase.{with_rows, insert_characters}

-- `self.wrapped[y] = true`.
abbrev pub wrap_row : Screen → ℕ → Option Screen
wrap_row s y = do flags ← set? s.wrapped y true; some (record s { wrapped = flags })

-- To the start of the next row, which is a continuation; on the last row, to its start.
unfoldable pub wrap_next : Screen → Option Screen
wrap_next s =
    if ltb s.cursor.y (s.lines - 1)
    then wrap_row (move_to s 0 (s.cursor.y + 1)) (s.cursor.y + 1)
    else some (move_to s 0 s.cursor.y)

-- `self.buffer[y][x].data.push(ch)`.
unfoldable pub append_glyph : Screen → ℕ → ℕ → ℕ → Option Screen
append_glyph s y x ch = do
  cell ← read_cell s.buffer y x
  rows ← write_cell s.buffer y x (record cell { text = cell.text ++ ch ∷ [] })
  some (with_rows s rows)

-- A combining character goes to the cell before the cursor.
unfoldable pub combine : Screen → ℕ → Option Screen
combine s ch =
    if ltb 0 s.cursor.x && ltb s.cursor.y s.lines
    then append_glyph s s.cursor.y (s.cursor.x - 1) ch
    else some s

-- The scrolling branch of the wrap.
unfoldable pub scroll_wrap : Screen → Option Screen
scroll_wrap s = do s1 ← scroll_up (move_to s 0 s.cursor.y) 1; wrap_row s1 (scroll_region s1).1

-- The block `if self.cursor.x >= self.columns` of `draw_char`.
unfoldable pub auto_wrap : Screen → Option Screen
auto_wrap s =
    if ltb s.cursor.x s.columns
    then some s
    else if has_private s.mode decawm
    then if ltb s.cursor.y (s.lines - 1)
      then wrap_next s
      else if ltb s.cursor.y (scroll_region s).1
      then scroll_wrap s
      else some (move_to s 0 s.cursor.y)
    else if s.cursor.x == s.columns
    then some (move_to s 0 (if ltb s.cursor.y (s.lines - 1) then s.cursor.y + 1 else s.cursor.y))
    else some (move_to s 0 s.cursor.y)

-- The write of the glyph, and of the blank behind a wide one.
unfoldable pub write_glyph : Screen → ℕ → ℕ → Option Screen
write_glyph s ch width = do
  let x = s.cursor.x
  let y = s.cursor.y
  rows ← write_cell s.buffer y x (record (s.cursor.attrs) { text = ch ∷ [] })
  rows' ←
      if leb 2 width && ltb (x + 1) s.columns
      then write_cell rows y (x + 1) (erase_cell s)
      else some rows
  some (mark_dirty (with_rows s rows') y)

unfoldable pub put_glyph : Screen → ℕ → ℕ → Option Screen
put_glyph s ch width =
    if ltb s.cursor.x s.columns && ltb s.cursor.y s.lines then write_glyph s ch width else some s

-- The end of `draw_char`: a glyph of width 1 moves the cursor; a wide one does not.
unfoldable pub advance_cursor : Screen → ℕ → Screen
advance_cursor s width =
    let x =
      if width == 1
      then s.cursor.x + 1
      else if leb s.columns s.cursor.x
      then s.columns
      else s.cursor.x in
    let x' = if not (has_private s.mode decawm) && width == 1 then min x (s.columns - 1) else x in
    move_to s x' s.cursor.y

module _ (char_width : ℕ → Option ℕ) where
  unfoldable pub draw_char : Screen → ℕ → Option Screen
  draw_char s ch =
      let width = unwrap_or (char_width ch) 1 in
      if width == 0 then combine s ch else do
        s1 ← if leb 2 width && leb s.columns s.cursor.x then wrap_next s else some s
        s2 ← auto_wrap s1
        s3 ← if has_public s2.mode irm && width == 1 then insert_characters s2 1 else some s2
        s4 ← put_glyph s3 ch width
        some (advance_cursor s4 width)

  unfoldable pub draw : Screen → Text → Option Screen
  unfolding draw_char
  draw s [] = some s
  draw s (ch ∷ rest) = do s1 ← draw_char s ch; draw s1 rest
