-- ===== src/History/Stream.antt =====
-- Bytes fed to a screen with history, and what is taken of it, in src/terminal/history.rs.
use stitch_pty.Prelude.{ℕ, ltb, Option, ◌>>=◌, if◌then◌else◌, List, [], ◌∷◌, ◌++◌}
use stitch_pty.AnsiParser.{new_parser}
use stitch_pty.Screen.State.{TermEvent, scrollback_grew}
use stitch_pty.Screen.Conform.{reset}
use stitch_pty.Screen.Events.{take_events}
use stitch_pty.Performer.{feed}
use stitch_pty.History.{HistoryScreen, clear_history}
use stitch_pty.History.Scroll.{with_inner}
use stitch_pty.History.Reflow.{drain_scrolled_off}

-- `HistoryScreen::feed`, with a new parser for each call.
unfoldable pub feed_history : (ℕ → Option ℕ) → HistoryScreen → List ℕ → Option HistoryScreen
feed_history char_width h bytes = do
  (q, s) ← feed char_width new_parser h.inner bytes
  drain_scrolled_off (with_inner h s)

-- `HistoryScreen::take_events`: the summary is the last.
unfoldable pub take_all_events : HistoryScreen → HistoryScreen × List TermEvent
take_all_events h =
    let (s, events) = take_events h.inner in
    (
      record h { inner = s; scrollback_grew = 0 },
      if ltb 0 h.scrollback_grew then events ++ scrollback_grew h.scrollback_grew ∷ [] else events,
    )

-- `HistoryScreen::reset`.
unfoldable pub reset_history : HistoryScreen → HistoryScreen
reset_history h = clear_history (with_inner h (reset h.inner))
