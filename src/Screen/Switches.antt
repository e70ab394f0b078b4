-- ===== src/Screen/Switches.antt =====
-- Setting and resetting modes in src/terminal/screen.rs.
use stitch_pty.Prelude.{ℕ, Bool, true, false, ◌||◌, ◌==◌, if◌then◌else◌, none, []}
use stitch_pty.Screen.State.{Char, default_cursor, Screen, init_tabstops, mark_all_dirty, move_to}
use stitch_pty.Modes.{
  deccolm, decom, decawm, dectcem, decscnm, alt_screen_1049, alt_screen_1047, alt_screen_47,
  set_public, clear_public, set_private, clear_private,
}
use stitch_pty.Prelude.{map}
use stitch_pty.Screen.Conform.{fill_row}
use stitch_pty.Screen.AltScreen.{enter_alt_screen, exit_alt_screen}

unfoldable pub clear_buffer : Screen → Screen
clear_buffer s =
    mark_all_dirty (record s { buffer = map (fill_row s.default_char) s.buffer; dirty = [] })

abbrev pub with_reverse : Bool → Char → Char
with_reverse reverse c = record c { reverse = reverse }

unfoldable pub apply_reverse_to_buffer : Screen → Bool → Screen
apply_reverse_to_buffer s reverse = record s { buffer = map (map (with_reverse reverse)) s.buffer }

-- `self.mode.set_private(mode)` and its fellows.
abbrev pub turn_on : Screen → ℕ → Screen
turn_on s mode = record s { mode = set_private s.mode mode }

abbrev pub turn_off : Screen → ℕ → Screen
turn_off s mode = record s { mode = clear_private s.mode mode }

-- The arm `DECCOLM` of `set_private_mode`: only `columns` changes, not the length of the rows.
unfoldable pub widen : Screen → Screen
widen s =
    let s1 = clear_buffer (record s { columns = 132 }) in
    init_tabstops (turn_on (record s1 { margins = none; cursor = default_cursor }) deccolm)

-- The arm `DECCOLM` of `reset_private_mode`.
unfoldable pub narrow : Screen → Screen
narrow s =
    let s1 : Screen = record s { columns = 80; margins = none; cursor = default_cursor } in
    init_tabstops (turn_off s1 deccolm)

abbrev pub with_reverse_video : Screen → Bool → Screen
with_reverse_video s b =
    apply_reverse_to_buffer (record s { default_char = record (s.default_char) { reverse = b } }) b

abbrev pub with_hidden : Screen → Bool → Screen
with_hidden s b = record s { cursor = record (s.cursor) { hidden = b } }

unfoldable pub set_private_mode : Screen → ℕ → Screen
set_private_mode s mode =
    if mode == deccolm
    then widen s
    else if mode == decom
    then move_to (turn_on s mode) 0 0
    else if mode == decscnm
    then with_reverse_video (turn_on s mode) true
    else if mode == dectcem
    then with_hidden (turn_on s mode) false
    else if mode == decawm
    then turn_on s mode
    else if mode == alt_screen_47 || mode == alt_screen_1047
    then turn_on (enter_alt_screen s false) mode
    else if mode == alt_screen_1049
    then turn_on (enter_alt_screen s true) mode
    else turn_on s mode

unfoldable pub reset_private_mode : Screen → ℕ → Screen
reset_private_mode s mode =
    if mode == deccolm
    then narrow s
    else if mode == decom
    then turn_off s mode
    else if mode == decscnm
    then with_reverse_video (turn_off s mode) false
    else if mode == dectcem
    then with_hidden (turn_off s mode) true
    else if mode == decawm
    then turn_off s mode
    else if mode == alt_screen_47 || mode == alt_screen_1047
    then turn_off (exit_alt_screen s false) mode
    else if mode == alt_screen_1049
    then turn_off (exit_alt_screen s true) mode
    else turn_off s mode

unfoldable pub set_mode : Screen → ℕ → Bool → Screen
set_mode s mode true = set_private_mode s mode
set_mode s mode false = record s { mode = set_public s.mode mode }

unfoldable pub reset_mode : Screen → ℕ → Bool → Screen
reset_mode s mode true = reset_private_mode s mode
reset_mode s mode false = record s { mode = clear_public s.mode mode }
