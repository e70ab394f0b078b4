-- ===== src/Screen/Conform.antt =====
-- The resize and the reset of src/terminal/screen.rs.
use stitch_pty.Prelude.{
  ℕ, zero, suc, ◌-◌, min, max, Bool, true, false, ◌&&◌, ◌==◌, if◌then◌else◌, Option, none, some,
  unwrap_or, List, [], ◌∷◌, ◌++◌, length, take, replicate,
}
use stitch_pty.Screen.State.{
  Char, Row, Rows, default_cursor, default_style, Screen, full_row, init_tabstops, mark_all_dirty,
  move_to,
}
use stitch_pty.Modes.{new_modes}
use stitch_pty.Charsets.{ascii}
use stitch_pty.Prelude.{map}

-- A row cut or padded to `columns` cells.
unfoldable pub conform_row : ℕ → Char → Row → Row
conform_row columns default line =
    let row = take columns line in row ++ replicate (columns - length row) default

unfoldable pub conform_buffer : Rows → ℕ → ℕ → Char → Rows
unfolding conform_row
conform_buffer buf lines columns default =
    let out = take lines (map (conform_row columns default) buf) in
    out ++ replicate (lines - length out) (full_row columns default)

unfoldable pub conform_wrapped : List Bool → ℕ → List Bool
conform_wrapped flags lines =
    let out = take lines flags in out ++ replicate (lines - length out) false

-- The rows paired with `flags` that continues with `false` for ever: the flags of `n` rows.
unfoldable pub pad_flags : ℕ → List Bool → List Bool
pad_flags zero flags = []
pad_flags (suc n) [] = false ∷ pad_flags n []
pad_flags (suc n) (w ∷ flags) = w ∷ pad_flags n flags

-- The parked primary buffer follows a resize.
unfoldable pub conform_saved : Option Rows → Screen → Screen
conform_saved none s = s
conform_saved (some saved) s = record s {
  saved_wrapped = some (conform_wrapped (unwrap_or s.saved_wrapped []) s.lines);
  saved_buffer = some (conform_buffer saved s.lines s.columns s.default_char);
}

-- `resize` to a new size.
unfoldable pub resize_to : Screen → ℕ → ℕ → Screen
resize_to s lines columns =
    let s1 : Screen = record s {
      buffer = conform_buffer s.buffer lines columns s.default_char;
      wrapped = conform_wrapped (pad_flags (length s.buffer) s.wrapped) lines;
      lines = lines;
      columns = columns;
      margins = none;
      dirty = [];
    } in
    let s2 = mark_all_dirty (init_tabstops s1) in
    conform_saved s2.saved_buffer
      (move_to s2 (min s2.cursor.x (s2.columns - 1)) (min s2.cursor.y (s2.lines - 1)))

unfoldable pub resize : Screen → ℕ → ℕ → Screen
resize s lines columns =
    let rows = max lines 1 in
    let cols = max columns 1 in
    if s.lines == rows && s.columns == cols then s else resize_to s rows cols

-- The cells of a row, or of the buffer, all set to `c`.
unfoldable pub fill_row : Char → Row → Row
fill_row c line = map (λ _. c) line

-- The loop of `reset` over the rows zipped with their flags: rows without a flag stay.
unfoldable pub clear_rows : Char → Rows → List Bool → Rows
unfolding fill_row
clear_rows c [] flags = []
clear_rows c (line ∷ rows) [] = line ∷ rows
clear_rows c (line ∷ rows) (w ∷ flags) = fill_row c line ∷ clear_rows c rows flags

-- The flags of the same loop: flags without a row stay.
unfoldable pub clear_flags : Rows → List Bool → List Bool
clear_flags rows [] = []
clear_flags [] (w ∷ flags) = w ∷ flags
clear_flags (line ∷ rows) (w ∷ flags) = false ∷ clear_flags rows flags

unfoldable pub reset : Screen → Screen
reset s = mark_all_dirty (
    init_tabstops (record s {
      mode = new_modes;
      margins = none;
      cursor = default_cursor;
      g0_charset = ascii;
      g1_charset = ascii;
      charset = ascii;
      charset_index = 0;
      events = [];
      icon_name = [];
      title = [];
      bell_pending = false;
      cursor_style = default_style;
      cursor_blink = true;
      keyboard_mode = 0;
      keyboard_mode_stack = [];
      scrolled_off = [];
      scrolled_off_wrapped = [];
      alt_screen = false;
      saved_buffer = none;
      saved_wrapped = none;
      alt_saved_cursor = none;
      dirty = [];
      buffer = clear_rows s.default_char s.buffer s.wrapped;
      wrapped = clear_flags s.buffer s.wrapped;
    }))
