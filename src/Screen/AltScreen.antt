-- ===== src/Screen/AltScreen.antt =====
-- The alternate screen of src/terminal/screen.rs.
use stitch_pty.Prelude.{
  ◌-◌, min, Bool, true, false, if◌then◌else◌, Option, none, some, unwrap_or, [], replicate,
}
use stitch_pty.Screen.State.{Rows, alt_screen_switched, Screen, full_rows, mark_all_dirty, move_to}
use stitch_pty.Screen.Events.{push_event}
use stitch_pty.Screen.Conform.{conform_buffer, conform_wrapped}

-- A blank screen, with the primary one parked.
unfoldable pub parked : Screen → Bool → Screen
parked s save = record s {
  alt_saved_cursor = if save then some s.cursor else s.alt_saved_cursor;
  saved_buffer = some s.buffer;
  buffer = full_rows s.lines s.columns s.default_char;
  saved_wrapped = some s.wrapped;
  wrapped = replicate s.lines false;
  alt_screen = true;
}

unfoldable pub enter_alt_screen : Screen → Bool → Screen
enter_alt_screen s save =
    if s.alt_screen
    then s
    else mark_all_dirty (push_event (parked s save) (alt_screen_switched true))

-- The primary buffer comes back, at the present size.
unfoldable pub unpark : Option Rows → Screen → Screen
unpark none s = s
unpark (some buf) s = record s {
  saved_buffer = none;
  saved_wrapped = none;
  buffer = conform_buffer buf s.lines s.columns s.default_char;
  wrapped = conform_wrapped (unwrap_or s.saved_wrapped []) s.lines;
}

-- `exit_alt_screen` with the alternate screen in force.
unfoldable pub leave_alt_screen : Screen → Bool → Screen
leave_alt_screen s restore =
    let s1 = unpark s.saved_buffer s in
    let cursor = if restore then unwrap_or s1.alt_saved_cursor s1.cursor else s1.cursor in
    let s2 : Screen = record s1 { alt_screen = false; alt_saved_cursor = none; cursor = cursor } in
    mark_all_dirty (
      push_event (move_to s2 (min s2.cursor.x (s2.columns - 1)) (min s2.cursor.y (s2.lines - 1)))
        (alt_screen_switched false))

unfoldable pub exit_alt_screen : Screen → Bool → Screen
exit_alt_screen s restore = if s.alt_screen then leave_alt_screen s restore else s
