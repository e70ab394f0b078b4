-- ===== src/Screen/Tests.antt =====
-- The theorems on the screen at concrete screens, and runs of its operations.
use stitch_pty.Prelude.{
  ◌++◌, ℕ, ◌+◌, ◌-◌, ◌&&◌, ◌==◌, ◌≡◌, refl, ltb, leb, not, true, false, if◌then◌else◌, Option, some,
  none, List, [], ◌∷◌, ◌<◌, ◌≤◌, get_elem?, arith, Text, codes, Holds,
}
use stitch_pty.Screen.State.{
  Char, blank, Row, Rows, Screen, mark_all_dirty, init_tabstops, bell, cwd_changed, title_changed,
  default_cursor, full_row, full_rows, move_to, new,
}
use stitch_pty.Modes.{new_modes, decscnm, has_private}
use stitch_pty.Screen.Switches.{set_private_mode, apply_reverse_to_buffer}
use stitch_pty.Prelude.{replicate}
use stitch_pty.Screen.Grid.{read_cell}
use stitch_pty.Screen.Grid.Cells.{IsGrid, painted}
use stitch_pty.Screen.Scroll.{scroll_up, scroll_down, insert_lines, delete_lines}
use stitch_pty.Screen.Erase.{
  with_rows, erase_characters, delete_characters, insert_characters, erase_in_line,
  erase_in_display,
}
use stitch_pty.Screen.Draw.{auto_wrap, draw_char, draw}
use stitch_pty.Screen.Sgr.{renditions, select_graphic_rendition}
use stitch_pty.Screen.Conform.{resize, reset}
use stitch_pty.Screen.AltScreen.{enter_alt_screen, exit_alt_screen}
use stitch_pty.Screen.Csi.{csi_dispatch}
use stitch_pty.Screen.Events.{max_events, push_event, has_bell, ring_bell, take_bell, take_events}
use stitch_pty.Screen.Events.Log.{
  IsLogged, latest, push_event-IsLogged, ring_bell-IsLogged, take_events-once,
}
use stitch_pty.Screen.Fits.{Fits, move_to-Fits}
use stitch_pty.Screen.Fits.Scrolls.{UpBy, scroll_up-UpBy}
use stitch_pty.Screen.Fits.Lines.{
  Shifts, down_row, down_flag, scroll_down-Shifts, insert_lines-Shifts, delete_lines-Shifts,
}
use stitch_pty.Screen.Fits.Erasing.{
  Looks, with_rows-Fits, erase_characters-Looks, delete_characters-Looks, insert_characters-Looks,
}
use stitch_pty.Screen.Fits.Wiping.{Wipes, line_area, erase_in_line-Wipes}
use stitch_pty.Screen.Fits.Clearing.{display_area, display_rows, erase_in_display-Wipes}
use stitch_pty.Screen.Fits.Wrapping.{Wrapped, auto_wrap-Wrapped}
use stitch_pty.Screen.Fits.Drawing.{draw-Fits}
use stitch_pty.Screen.Fits.Typing.{Typed, draw_char-Typed}
use stitch_pty.Screen.Fits.Sizes.{new-Fits, resize-Fits, reset-blank}
use stitch_pty.Screen.Fits.Parked.{exit_alt_screen-enter_alt_screen}
use stitch_pty.Screen.Fits.Rest.{select_graphic_rendition-Fits, renditions-enough}
use stitch_pty.Screen.Reports.{pop_keyboard_modes}
use stitch_pty.Screen.Reports.Keyboard.{pop_keyboard_modes-drop}
use stitch_pty.Screen.Fits.Dispatch.{csi_dispatch-Fits}

abbrev cell : ℕ → Char
cell ch = record blank { text = ch ∷ [] }

abbrev cells : Text → Row
cells [] = []
cells (ch ∷ rest) = cell ch ∷ cells rest

-- Three rows of five letters.
abbrev letters : Rows
letters = cells (codes "abcde") ∷ cells (codes "fghij") ∷ cells (codes "klmno") ∷ []

letters-IsGrid : IsGrid 3 5 letters
letters-IsGrid = record { height = refl; width = (refl, (refl, (refl, tt))) }

-- The letters with the cursor at column `x` and row `y`.
abbrev sample : ℕ → ℕ → Screen
sample x y = move_to (with_rows (new 5 3) letters) x y

sample-Fits : (x y : ℕ) → x ≤ 5 → y < 3 → Fits 3 5 (sample x y)
sample-Fits x y hx hy =
    move_to-Fits x y (with_rows-Fits (new-Fits 5 3) letters letters-IsGrid) hx hy

middle-Fits : Fits 3 5 (sample 2 1)
middle-Fits = sample-Fits 2 1 (omega arith) (omega arith)

-- The cursor waits at the end of the last row.
corner-Fits : Fits 3 5 (sample 5 2)
corner-Fits = sample-Fits 5 2 (omega arith) (omega arith)

abbrev narrow_width : ℕ → Option ℕ
narrow_width ch = some 1

csi_dispatch-Fits_example : Holds (Fits 3 5) (csi_dispatch (sample 2 1) (2 ∷ []) [] b'L')
unfolding stitch_pty.Prelude.equal
csi_dispatch-Fits_example = csi_dispatch-Fits (2 ∷ []) [] b'L' middle-Fits refl refl

draw-Fits_example : Holds (Fits 3 5) (draw narrow_width (sample 5 2) (codes "xyz"))
draw-Fits_example = draw-Fits narrow_width (codes "xyz") corner-Fits

draw_char-Typed_example :
    Holds (Typed 3 5 2 0 (cell b'x') (sample 5 2)) (draw_char narrow_width (sample 5 2) b'x')
unfolding stitch_pty.Modes.has_public new
draw_char-Typed_example = draw_char-Typed corner-Fits narrow_width b'x' refl refl

auto_wrap-Wrapped_example : Holds (Wrapped 3 5 true (sample 5 2)) (auto_wrap (sample 5 2))
unfolding stitch_pty.Modes.has_private new
auto_wrap-Wrapped_example = auto_wrap-Wrapped corner-Fits refl

scroll_up-UpBy_example :
    Holds (UpBy 3 5 2 true 0 2 (full_row 5 blank) (sample 2 1)) (scroll_up (sample 2 1) 2)
unfolding new
scroll_up-UpBy_example = scroll_up-UpBy (sample 2 1) 2 middle-Fits

scroll_down-Shifts_example :
    Holds
      (Shifts 3 5 (down_row 0 2 (full_row 5 blank) (sample 2 1)) (down_flag 0 2 (sample 2 1)))
      (scroll_down (sample 2 1) 1)
unfolding new
scroll_down-Shifts_example = scroll_down-Shifts (sample 2 1) middle-Fits

insert_lines-Shifts_example :
    Holds
      (Shifts 3 5
        (λ j.
          if leb 1 j && leb j 2
          then (if ltb j 2 then some (full_row 5 blank) else get_elem? letters (j - 1))
          else get_elem? letters j)
        (λ j.
          if leb 1 j && leb j 2
          then (if ltb j 2 then some false else get_elem? (replicate 3 false) (j - 1))
          else get_elem? (replicate 3 false) j))
      (insert_lines (sample 2 1) 1)
unfolding new
insert_lines-Shifts_example = insert_lines-Shifts (sample 2 1) middle-Fits 1 refl

delete_lines-Shifts_example :
    Holds
      (Shifts 3 5
        (λ j.
          if leb 1 j && leb j 2
          then (if leb (j + 1) 2 then get_elem? letters (j + 1) else some (full_row 5 blank))
          else get_elem? letters j)
        (λ j.
          if leb 1 j && leb j 2
          then (if leb (j + 1) 2 then get_elem? (replicate 3 false) (j + 1) else some false)
          else get_elem? (replicate 3 false) j))
      (delete_lines (sample 2 1) 1)
unfolding new
delete_lines-Shifts_example = delete_lines-Shifts (sample 2 1) middle-Fits 1 refl

erase_in_display-Wipes_example :
    Holds
      (Wipes 3 5 (display_area 1 (sample 2 1)) (display_rows 1 (sample 2 1)) blank (sample 2 1))
      (erase_in_display (sample 2 1) 1)
unfolding new
erase_in_display-Wipes_example = erase_in_display-Wipes middle-Fits 1

erase_in_line-Wipes_example :
    Holds
      (Wipes 3 5
        (λ j i. j == 2 && line_area 1 (sample 5 2) i)
        (λ j. leb 2 1 && j == 2)
        blank
        (sample 5 2))
      (erase_in_line (sample 5 2) 1)
unfolding new
erase_in_line-Wipes_example = erase_in_line-Wipes corner-Fits 1

erase_characters-Looks_example :
    Holds
      (Looks 3 5 (sample 2 1) (painted (λ j i. j == 1 && leb 2 i && ltb i 4) blank letters))
      (erase_characters (sample 2 1) 2)
unfolding new
erase_characters-Looks_example = erase_characters-Looks middle-Fits 2

delete_characters-Looks_example :
    Holds
      (Looks 3 5 (sample 2 1) (λ j i.
        if j == 1 && leb 2 i && ltb i 5
        then (if ltb (i + 2) 5 then read_cell letters 1 (i + 2) else some blank)
        else read_cell letters j i))
      (delete_characters (sample 2 1) 2)
unfolding new
delete_characters-Looks_example = delete_characters-Looks middle-Fits 2

insert_characters-Looks_example :
    Holds
      (Looks 3 5 (sample 2 1) (λ j i.
        if j == 1 && leb 2 i && ltb i 5
        then (if ltb i 4 then some blank else read_cell letters 1 (i - 2))
        else read_cell letters j i))
      (insert_characters (sample 2 1) 2)
unfolding new
insert_characters-Looks_example = insert_characters-Looks middle-Fits 2

resize-Fits_example : Fits 1 7 (resize (sample 2 1) 0 7)
resize-Fits_example = resize-Fits 0 7 middle-Fits

reset-blank_example :
    let r = reset (sample 2 1) in
    Fits 3 5 r
    × (r.buffer ≡ full_rows 3 5 blank)
    × (r.wrapped ≡ replicate 3 false)
    × (r.cursor ≡ default_cursor)
    × (r.mode ≡ new_modes)
    × (r.margins ≡ none)
    × (r.alt_screen ≡ false)
    × (r.events ≡ [])
    × (r.scrolled_off ≡ [])
    × (r.default_char ≡ blank)
unfolding new
reset-blank_example = reset-blank middle-Fits

-- Set to the reverse screen and reset, the mode is off and the default cell still reversed.
reversed_still :
    (has_private (reset (set_private_mode (sample 2 1) decscnm)).mode decscnm ≡ false)
    × ((reset (set_private_mode (sample 2 1) decscnm)).default_char.reverse ≡ true)
unfolding reset set_private_mode has_private new mark_all_dirty init_tabstops
    apply_reverse_to_buffer
reversed_still = (refl, refl)

exit_alt_screen-enter_alt_screen_example :
    let t = enter_alt_screen (sample 2 1) true in
    let r = exit_alt_screen t true in
    (t.buffer ≡ full_rows 3 5 blank)
    × (r.buffer ≡ letters)
    × (r.wrapped ≡ replicate 3 false)
    × (r.alt_screen ≡ false)
    × (r.cursor ≡ (sample 2 1).cursor)
unfolding new
exit_alt_screen-enter_alt_screen_example = exit_alt_screen-enter_alt_screen middle-Fits refl

abbrev colours : List ℕ
colours = 1 ∷ 38 ∷ 5 ∷ 196 ∷ 48 ∷ 2 ∷ 1 ∷ 2 ∷ 3 ∷ []

select_graphic_rendition-Fits_example :
    Holds (Fits 3 5) (select_graphic_rendition (sample 2 1) colours)
select_graphic_rendition-Fits_example = select_graphic_rendition-Fits colours middle-Fits

renditions-enough_example :
    renditions 20 (sample 2 1) colours ≡ select_graphic_rendition (sample 2 1) colours
renditions-enough_example = renditions-enough 20 (sample 2 1) colours (omega arith)

quiet-IsLogged : IsLogged (new 5 3)
unfolding new
quiet-IsLogged = record { bounded = omega arith; pending = λ h. absurd (no h) }
  where
    no : has_bell [] ≡ true → ⊥
    no h = unfold has_bell in cc

push_event-IsLogged_example :
    IsLogged (push_event (new 5 3) (title_changed (codes "t")))
    × ((push_event (new 5 3) (title_changed (codes "t"))).events
        ≡ latest max_events ([] ++ title_changed (codes "t") ∷ []))
    × ((push_event (new 5 3) (title_changed (codes "t"))).bell_pending ≡ false)
unfolding new
push_event-IsLogged_example = push_event-IsLogged (title_changed (codes "t")) quiet-IsLogged silent
  where
    silent : false ≡ true → false ≡ true
    silent h = h

take_events-once_example :
    let s = ring_bell (new 5 3) in
    let r = take_events s in
    (r.1 ≡ s.events)
    × IsLogged r.0
    × ((take_events r.0).1 ≡ [])
    × ((take_bell r.0).1 ≡ (s.bell_pending && not (has_bell s.events)))
take_events-once_example = take_events-once (ring_bell-IsLogged quiet-IsLogged)

-- A log with a bell that is full, and the title that takes the bell's place.
abbrev overrun : Screen
overrun =
    push_event
      (record (new 5 3) { bell_pending = true; events = bell ∷ replicate 1023 (cwd_changed []) })
      (title_changed [])

-- The bell is not in the log, and is told all the same behind it.
bell_dropped :
    (has_bell (take_events overrun).1 ≡ false) × ((take_bell (take_events overrun).0).1 ≡ true)
unfolding take_events take_bell has_bell push_event new
bell_dropped = (refl, refl)

-- Mode 1 in force, with 2 and 3 on the stack.
abbrev keyed : Screen
keyed = record (sample 2 1) { keyboard_mode = 1; keyboard_mode_stack = 2 ∷ 3 ∷ [] }

pop_keyboard_modes-drop_example :
    let r = pop_keyboard_modes keyed 2 in
    (some 3 ≡ some r.keyboard_mode) × (r.keyboard_mode_stack ≡ [])
pop_keyboard_modes-drop_example = pop_keyboard_modes-drop keyed 2
