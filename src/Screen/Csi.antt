-- ===== src/Screen/Csi.antt =====
-- `csi_dispatch` of src/terminal/screen.rs. A `char` is its code point.
use stitch_pty.Prelude.{
  ℕ, Bool, ◌&&◌, ◌||◌, ◌==◌, leb, if◌then◌else◌, Option, some, unwrap_or, List, [], ◌∷◌, length,
  get_elem?, Text, codes, equal,
}
use stitch_pty.Screen.State.{KeyboardApplyBehavior, replace, union, difference, Screen}
use stitch_pty.Screen.Cursor.{
  set_margins, cursor_position, cursor_to_line, cursor_to_column, cursor_up, cursor_down,
  cursor_forward, cursor_back, carriage_return, clear_tab_stop, save_cursor, restore_cursor,
}
use stitch_pty.Screen.Scroll.{scroll_up, scroll_down, insert_lines, delete_lines}
use stitch_pty.Screen.Erase.{
  erase_characters, delete_characters, insert_characters, erase_in_line, erase_in_display,
  alignment_display,
}
use stitch_pty.Screen.Sgr.{select_graphic_rendition}
use stitch_pty.Screen.Switches.{set_mode, reset_mode}
use stitch_pty.Screen.Reports.{
  report_device_status, identify_terminal_primary, set_cursor_style, set_keyboard_mode,
  push_keyboard_mode, pop_keyboard_modes, report_keyboard_mode,
}

-- `params.get(i).copied().unwrap_or(d)`.
abbrev pub param : List ℕ → ℕ → ℕ → ℕ
param params i d = unwrap_or (get_elem? params i) d

-- `for &mode in params { self.set_mode(mode, private) }`.
unfoldable pub set_modes : List ℕ → Bool → Screen → Screen
set_modes [] private s = s
set_modes (mode ∷ modes) private s = set_modes modes private (set_mode s mode private)

unfoldable pub reset_modes : List ℕ → Bool → Screen → Screen
reset_modes [] private s = s
reset_modes (mode ∷ modes) private s = reset_modes modes private (reset_mode s mode private)

-- The behaviour of `CSI = u`, by its third parameter.
unfoldable pub behavior_of : ℕ → KeyboardApplyBehavior
behavior_of n = if n == 3 then difference else if n == 2 then union else replace

-- The arms `'u'`.
unfoldable pub dispatch_u : Screen → List ℕ → Text → Screen
dispatch_u s params intermediates =
    if equal intermediates (codes "?")
    then report_keyboard_mode s
    else if equal intermediates (codes ">")
    then push_keyboard_mode s (param params 0 0)
    else if equal intermediates (codes "<")
    then pop_keyboard_modes s (param params 0 1)
    else if equal intermediates [] && leb 2 (length params) && param params 1 1 == 0
    then set_keyboard_mode s (param params 0 0) (behavior_of (param params 2 0))
    else restore_cursor s

unfoldable pub csi_dispatch : Screen → List ℕ → Text → ℕ → Option Screen
csi_dispatch s params intermediates action =
    let first = param params 0 1 in
    let mode = param params 0 0 in
    let private = equal intermediates (codes "?") in
    if action == b'A'
    then some (cursor_up s first)
    else if action == b'B' || action == b'e'
    then some (cursor_down s first)
    else if action == b'C' || action == b'a'
    then some (cursor_forward s first)
    else if action == b'D'
    then some (cursor_back s first)
    else if action == b'E'
    then some (carriage_return (cursor_down s first))
    else if action == b'F'
    then some (carriage_return (cursor_up s first))
    else if action == b'G'
    then some (cursor_to_column s first)
    else if action == b'H' || action == b'f'
    then some (cursor_position s first (param params 1 1))
    else if action == b'd'
    then some (cursor_to_line s first)
    else if action == b'J'
    then erase_in_display s mode
    else if action == b'K'
    then erase_in_line s mode
    else if action == b'X'
    then erase_characters s first
    else if action == b'P'
    then delete_characters s first
    else if action == b'@'
    then insert_characters s first
    else if action == b'L'
    then insert_lines s first
    else if action == b'M'
    then delete_lines s first
    else if action == b'S'
    then scroll_up s first
    else if action == b'T'
    then scroll_down s first
    else if action == b'm'
    then select_graphic_rendition s params
    else if action == b'h'
    then some (set_modes params private s)
    else if action == b'l'
    then some (reset_modes params private s)
    else if action == b'r'
    then some (cursor_position (set_margins s (get_elem? params 0) (get_elem? params 1)) 1 1)
    else if action == b's'
    then some (save_cursor s)
    else if action == b'u'
    then some (dispatch_u s params intermediates)
    else if action == b'g'
    then some (clear_tab_stop s mode)
    else if action == b'n'
    then report_device_status s mode
    else if action == b'8'
    then alignment_display s
    else if action == b'c'
    then some (identify_terminal_primary s)
    else if action == b'q' && equal intermediates (codes " ")
    then some (set_cursor_style s mode)
    else some s
