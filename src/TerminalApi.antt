-- ===== src/TerminalApi.antt =====
-- The terminal of src/terminal_api.rs: a screen with history and a parser, behind the methods that
-- Python calls. `feed` uses the screen's own parser, so that the terminal's stays as it was made.
mod Tests
use stitch_pty.Prelude.{
  ℕ, ◌++◌, Bool, true, false, Option, none, some, ◌>>=◌, List, [], ◌∷◌, map, length, Text, codes,
}
use stitch_pty.Modes.{has_private, decckm, dectcem, bracketed_paste, mouse_protocol, sgr_mouse}
use stitch_pty.AnsiParser.{Parser, new_parser}
use stitch_pty.Screen.State.{
  Screen, TermEvent, bell, title_changed, icon_changed, cwd_changed, alt_screen_switched,
  scrollback_grew,
}
use stitch_pty.Screen.Reports.{decimal}
use stitch_pty.Screen.Events.{take_bell, take_dirty_rows}
use stitch_pty.History.{HistoryScreen, new_history, set_scrollback_lines}
use stitch_pty.History.Scroll.{with_inner}
use stitch_pty.History.Reflow.{resize_with_history}
use stitch_pty.History.Stream.{feed_history, take_all_events, reset_history}

pub record TerminalState : Type 0 where
  pub screen : HistoryScreen
  pub parser : Parser

-- `TerminalState::new`.
unfoldable pub new_terminal : ℕ → ℕ → ℕ → TerminalState
new_terminal columns lines scrollback_lines = record {
  screen = new_history columns lines scrollback_lines;
  parser = new_parser;
}

-- `self.screen` behind a call that changes it.
abbrev pub with_screen : TerminalState → HistoryScreen → TerminalState
with_screen t h = record t { screen = h }

-- `TerminalState::feed`.
unfoldable pub feed_terminal : (ℕ → Option ℕ) → TerminalState → List ℕ → Option TerminalState
feed_terminal char_width t bytes =
    feed_history char_width t.screen bytes >>= (λ h. some (with_screen t h))

-- `TerminalState::resize`.
unfoldable pub resize_terminal : (ℕ → Option ℕ) → TerminalState → ℕ → ℕ → Option TerminalState
resize_terminal char_width t lines columns =
    resize_with_history char_width t.screen lines columns >>= (λ h. some (with_screen t h))

-- `TerminalState::reset`.
unfoldable pub reset_terminal : TerminalState → TerminalState
reset_terminal t = record { screen = reset_history t.screen; parser = new_parser }

-- `TerminalState::set_scrollback_lines`.
unfoldable pub set_terminal_lines : TerminalState → ℕ → Option TerminalState
set_terminal_lines t lines = set_scrollback_lines t.screen lines >>= (λ h. some (with_screen t h))

-- `TerminalState::take_dirty_rows`.
unfoldable pub take_terminal_rows : TerminalState → TerminalState × List ℕ
take_terminal_rows t =
    let (s, rows) = take_dirty_rows t.screen.inner in (with_screen t (with_inner t.screen s), rows)

-- `TerminalState::take_bell`.
unfoldable pub take_terminal_bell : TerminalState → TerminalState × Bool
take_terminal_bell t =
    let (s, rang) = take_bell t.screen.inner in (with_screen t (with_inner t.screen s), rang)

-- `TermEvent::tag`.
unfoldable pub tag : TermEvent → Text
tag bell = codes "bell"
tag (title_changed t) = codes "title"
tag (icon_changed t) = codes "icon"
tag (cwd_changed t) = codes "cwd"
tag (alt_screen_switched entered) = codes "altscreen"
tag (scrollback_grew n) = codes "scrollback_grew"

-- The objects of Python that go with a tag.
pub data Payload : Type 0 where
  nothing : Payload
  text : Text → Payload
  truth : Bool → Payload
  number : ℕ → Payload

unfoldable pub payload : TermEvent → Payload
payload bell = nothing
payload (title_changed t) = text t
payload (icon_changed t) = text t
payload (cwd_changed t) = text t
payload (alt_screen_switched entered) = truth entered
payload (scrollback_grew n) = number n

abbrev pub tagged : TermEvent → Text × Payload
tagged event = (tag event, payload event)

-- `TerminalState::poll_events`.
unfoldable pub poll_events : TerminalState → TerminalState × List (Text × Payload)
poll_events t = let (h, events) = take_all_events t.screen in (with_screen t h, map tagged events)

-- The flags of the modes that a front end reads.
unfoldable pub app_cursor : TerminalState → Bool
app_cursor t = has_private t.screen.inner.mode decckm

unfoldable pub cursor_visible : TerminalState → Bool
cursor_visible t = has_private t.screen.inner.mode dectcem

unfoldable pub bracketed_paste_on : TerminalState → Bool
bracketed_paste_on t = has_private t.screen.inner.mode bracketed_paste

unfoldable pub sgr_mouse_on : TerminalState → Bool
sgr_mouse_on t = sgr_mouse t.screen.inner.mode

unfoldable pub mouse_proto : TerminalState → ℕ
mouse_proto t = mouse_protocol t.screen.inner.mode

-- `TerminalState::__repr__`.
unfoldable pub repr_terminal : TerminalState → Text
repr_terminal t =
    codes "TerminalState("
    ++ decimal t.screen.inner.columns
    ++ codes "x"
    ++ decimal t.screen.inner.lines
    ++ codes ", scrollback="
    ++ decimal (length t.screen.history)
    ++ codes ")"
