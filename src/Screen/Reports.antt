-- ===== src/Screen/Reports.antt =====
-- Reports, the cursor style, the keyboard modes and the charsets of src/terminal/screen.rs.
pub mod Keyboard
use stitch_pty.Prelude.{
  ℕ, zero, suc, ◌+◌, ◌-◌, ◌/◌, ◌%◌, min, ◌||◌, ◌==◌, ltb, if◌then◌else◌, Option, none, some,
  unwrap_or, List, [], ◌∷◌, ◌++◌, length, get_elem?, Text, codes,
}
use stitch_pty.Screen.State.{
  default_style, block, underline, beam, KeyboardApplyBehavior, replace, union, difference, Screen,
  scroll_region,
}
use stitch_pty.Modes.{decom, has_private}
use stitch_pty.Charsets.{CharsetRef, from_designation}
use Prim.Native.Nat.{bit_and, bit_or, bit_xor}

-- `{}` of a number, with the digits left; 20 are enough for a 64-bit number.
unfoldable pub digits : ℕ → ℕ → Text
digits zero n = []
digits (suc k) n =
    let rest = digits k (n / 10) in
    if ltb n 10 then (b'0' + n) ∷ [] else rest ++ (b'0' + n % 10) ∷ []

unfoldable pub decimal : ℕ → Text
unfolding digits
decimal n = digits 20 n

-- `(self.write_process_input)(&response)`.
abbrev pub respond : Screen → Text → Screen
respond s response = record s { responses = s.responses ++ response ∷ [] }

-- The control character `ESC`.
abbrev pub esc : ℕ
esc = 0x1b

unfoldable pub report_device_attributes : Screen → Screen
report_device_attributes s = respond s (esc ∷ codes "[?6c")

unfoldable pub identify_terminal_primary : Screen → Screen
identify_terminal_primary s = respond s (esc ∷ codes "[?6c")

-- The text of a cursor position report.
unfoldable pub position_report : ℕ → ℕ → Text
unfolding decimal
position_report row col = (esc ∷ codes "[") ++ decimal row ++ codes ";" ++ decimal col ++ codes "R"

-- A cursor above the region is a subtraction below 0, a panic.
unfoldable pub report_device_status : Screen → ℕ → Option Screen
report_device_status s param =
    if param == 5
    then some (respond s (esc ∷ codes "[0n"))
    else if param == 6
    then if has_private s.mode decom
      then if ltb s.cursor.y (scroll_region s).0
        then none
        else some
            (respond s (position_report (s.cursor.y - (scroll_region s).0 + 1) (s.cursor.x + 1)))
      else some (respond s (position_report (s.cursor.y + 1) (s.cursor.x + 1)))
    else some s

unfoldable pub set_cursor_style : Screen → ℕ → Screen
set_cursor_style s style_id =
    let style =
      if style_id == 0
      then default_style
      else if style_id == 1 || style_id == 2
      then block
      else if style_id == 3 || style_id == 4
      then underline
      else if style_id == 5 || style_id == 6
      then beam
      else default_style in
    record s {
      cursor_style = style;
      cursor_blink = style_id == 0 || style_id == 1 || style_id == 3 || style_id == 5;
    }

-- The keyboard modes are 16-bit words.
unfoldable pub set_keyboard_mode : Screen → ℕ → KeyboardApplyBehavior → Screen
set_keyboard_mode s mode replace = record s { keyboard_mode = mode }
set_keyboard_mode s mode union = record s { keyboard_mode = bit_or s.keyboard_mode mode }
set_keyboard_mode s mode difference = record s {
  keyboard_mode = bit_and s.keyboard_mode (bit_xor mode 0xffff);
}

-- The head of the stack is its top.
unfoldable pub push_keyboard_mode : Screen → ℕ → Screen
push_keyboard_mode s mode = record s { keyboard_mode_stack = mode ∷ s.keyboard_mode_stack }

-- The loop of `pop_keyboard_modes`, on the stack: the mode and the stack after `n` pops.
unfoldable pub pop_modes : ℕ → ℕ → List ℕ → ℕ × List ℕ
pop_modes zero mode stack = (mode, stack)
pop_modes (suc n) mode [] = (mode, [])
pop_modes (suc n) mode (m ∷ stack) = pop_modes n m stack

unfoldable pub pop_keyboard_modes : Screen → ℕ → Screen
pop_keyboard_modes s count =
    let r =
      pop_modes (min count (length s.keyboard_mode_stack)) s.keyboard_mode s.keyboard_mode_stack in
    record s { keyboard_mode = r.0; keyboard_mode_stack = r.1 }

unfoldable pub report_keyboard_mode : Screen → Screen
report_keyboard_mode s = respond s ((esc ∷ codes "[") ++ decimal s.keyboard_mode ++ codes ";1;0 u")

-- `if let Some(cs) = charset` of `define_charset`.
unfoldable pub designate : Screen → Option CharsetRef → ℕ → Screen
designate s none target = s
designate s (some cs) target =
    if target == b'('
    then record s { g0_charset = cs; charset = cs }
    else if target == b')'
    then record s { g1_charset = cs }
    else s

unfoldable pub define_charset : Screen → Text → ℕ → Screen
define_charset s designator target =
    designate s (from_designation (unwrap_or (get_elem? designator 0) b'B')) target

unfoldable pub shift_in : Screen → Screen
shift_in s = record s { charset = s.g0_charset }

unfoldable pub shift_out : Screen → Screen
shift_out s = record s { charset = s.g1_charset }
