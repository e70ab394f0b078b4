-- ===== src/Screen/Cursor.antt =====
-- Cursor movement, tab stops, margins and the cursor stack of src/terminal/screen.rs.
use stitch_pty.Prelude.{
  ℕ, zero, suc, ◌+◌, ◌-◌, min, max, false, ◌&&◌, ◌==◌, ltb, if◌then◌else◌, Option, none, some,
  unwrap_or, List, [], ◌∷◌, length, replicate,
}
use stitch_pty.Screen.State.{SavedCursor, Screen, scroll_region, move_to}
use stitch_pty.Prelude.Sets.{NatSet, contains, insert, remove}
use stitch_pty.Modes.{decom, has_private}

-- `set_margins`; `false` for every wrap flag.
unfoldable pub set_margins : Screen → Option ℕ → Option ℕ → Screen
set_margins s top bottom =
    let t = unwrap_or top 1 - 1 in
    let b = unwrap_or bottom s.lines - 1 in
    if ltb t b && ltb b s.lines
    then record s {
      margins = some (record { top = t; bottom = b });
      wrapped = replicate (length s.wrapped) false;
    }
    else s

unfoldable pub clear_margins : Screen → Screen
clear_margins s = record s { margins = none; wrapped = replicate (length s.wrapped) false }

unfoldable pub cursor_position : Screen → ℕ → ℕ → Screen
cursor_position s row col =
    let (top, bottom) = scroll_region s in
    let r = if row == 0 then 1 else row in
    let c = if col == 0 then 1 else col in
    if has_private s.mode decom
    then move_to s (min (c - 1) (s.columns - 1)) (min (r - 1 + top) bottom)
    else move_to s (min (c - 1) (s.columns - 1)) (min (r - 1) (s.lines - 1))

unfoldable pub cursor_to_line : Screen → ℕ → Screen
unfolding cursor_position
cursor_to_line s row = cursor_position s row (s.cursor.x + 1)

unfoldable pub cursor_to_column : Screen → ℕ → Screen
unfolding cursor_position
cursor_to_column s col = cursor_position s (s.cursor.y + 1) col

unfoldable pub cursor_up : Screen → ℕ → Screen
cursor_up s rows = move_to s s.cursor.x (max (s.cursor.y - rows) (scroll_region s).0)

unfoldable pub cursor_down : Screen → ℕ → Screen
cursor_down s rows = move_to s s.cursor.x (min (s.cursor.y + rows) (scroll_region s).1)

unfoldable pub cursor_forward : Screen → ℕ → Screen
cursor_forward s cols = move_to s (min (s.cursor.x + cols) (s.columns - 1)) s.cursor.y

unfoldable pub cursor_back : Screen → ℕ → Screen
cursor_back s cols = move_to s (s.cursor.x - cols) s.cursor.y

unfoldable pub carriage_return : Screen → Screen
carriage_return s = move_to s 0 s.cursor.y

unfoldable pub backspace : Screen → Screen
backspace s = move_to s (s.cursor.x - 1) s.cursor.y

-- The loop `while next < columns` of `tab`, with the rounds left.
unfoldable pub next_stop : ℕ → ℕ → NatSet → Option ℕ
next_stop zero next stops = none
next_stop (suc n) next stops =
    let rest = next_stop n (next + 1) stops in if contains stops next then some next else rest

unfoldable pub tab : Screen → Screen
unfolding next_stop
tab s =
    let next = s.cursor.x + 1 in
    move_to s (unwrap_or (next_stop (s.columns - next) next s.tabstops) (s.columns - 1)) s.cursor.y

unfoldable pub set_tab_stop : Screen → Screen
set_tab_stop s = record s { tabstops = insert s.cursor.x s.tabstops }

unfoldable pub clear_tab_stop : Screen → ℕ → Screen
clear_tab_stop s mode =
    if mode == 0
    then record s { tabstops = remove s.cursor.x s.tabstops }
    else if mode == 3
    then record s { tabstops = [] }
    else s

unfoldable pub save_cursor : Screen → Screen
save_cursor s =
    let saved : SavedCursor = record {
      x = s.cursor.x;
      y = s.cursor.y;
      attrs = s.cursor.attrs;
      mode = s.mode;
    } in
    record s { cursor = record (s.cursor) { stack = saved ∷ s.cursor.stack } }

-- The body of `restore_cursor`, on the cursor's stack.
unfoldable pub restore_from : Screen → List SavedCursor → Screen
restore_from s [] = move_to s 0 0
restore_from s (saved ∷ rest) =
    let (top, bottom) = scroll_region s in
    record s {
      cursor = record (s.cursor) {
        x = min saved.x (s.columns - 1);
        y = min (max saved.y top) bottom;
        attrs = saved.attrs;
        stack = rest;
      };
      mode = saved.mode;
    }

unfoldable pub restore_cursor : Screen → Screen
unfolding restore_from
restore_cursor s = restore_from s s.cursor.stack
