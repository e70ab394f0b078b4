-- ===== src/Screen/Events.antt =====
-- The event log, the bell and the dirty rows of src/terminal/screen.rs; `max_events` is of
-- src/terminal/events.rs.
pub mod Log
use stitch_pty.Prelude.{
  ℕ, zero, suc, ◌+◌, ◌-◌, ◌*◌, ◌/◌, ◌%◌, ◌<◌, ◌≤◌, min, max, ◌≡◌, ◌≢◌, refl, sym, ◌∙◌, ap, Bool,
  true, false, not, ◌&&◌, ◌||◌, ◌==◌, ltb, leb, within, if◌then◌else◌, Option, none, some,
  unwrap_or, List, [], ◌∷◌, ◌++◌, length, get_elem?, get_or, set, set?, take, drop, replicate,
  ◌>>=◌, arith, Text, codes, equal,
}
use stitch_pty.Screen.State.{
  Char, blank, Row, Rows, Cursor, SavedCursor, default_cursor, Margins, CursorStyle, default_style,
  block, underline, beam, KeyboardApplyBehavior, replace, union, difference, TermEvent, bell,
  title_changed, icon_changed, cwd_changed, alt_screen_switched, scrollback_grew, Screen, full_row,
  full_rows, init_tabstops, mark_all_dirty, erase_cell, region_of, scroll_region, move_to,
  mark_dirty,
}
use stitch_pty.Prelude.Sets.{NatSet, contains, insert, remove}

abbrev pub max_events : ℕ
max_events = 1024

-- `push_event`: a full log drops its oldest entry.
unfoldable pub push_event : Screen → TermEvent → Screen
push_event s event = record s {
  events = (if leb max_events (length s.events) then drop 1 s.events else s.events) ++ event ∷ [];
}

unfoldable pub set_icon_name : Screen → Text → Screen
unfolding push_event
set_icon_name s name = push_event (record s { icon_name = name }) (icon_changed name)

unfoldable pub set_title : Screen → Text → Screen
unfolding push_event
set_title s title = push_event (record s { title = title }) (title_changed title)

unfoldable pub set_cwd : Screen → Text → Screen
unfolding push_event
set_cwd s cwd = push_event (record s { cwd = some cwd }) (cwd_changed cwd)

unfoldable pub ring_bell : Screen → Screen
unfolding push_event
ring_bell s = push_event (record s { bell_pending = true }) bell

abbrev pub is_bell : TermEvent → Bool
is_bell e = elim e [ bell ↦ true | _ ↦ false ]

-- `retain` of the events that are no bell.
unfoldable pub without_bells : List TermEvent → List TermEvent
without_bells [] = []
without_bells (e ∷ es) = let rest = without_bells es in if is_bell e then rest else e ∷ rest

unfoldable pub has_bell : List TermEvent → Bool
has_bell [] = false
has_bell (e ∷ es) = is_bell e || has_bell es

unfoldable pub take_bell : Screen → Screen × Bool
unfolding without_bells
take_bell s =
    if s.bell_pending
    then (record s { bell_pending = false; events = without_bells s.events }, true)
    else (s, false)

unfoldable pub take_events : Screen → Screen × List TermEvent
unfolding has_bell
take_events s = (
  record s { events = []; bell_pending = if has_bell s.events then false else s.bell_pending },
  s.events,
)

unfoldable pub take_dirty_rows : Screen → Screen × List ℕ
take_dirty_rows s = (record s { dirty = [] }, s.dirty)
