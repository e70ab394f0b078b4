-- ===== src/History/Tests.antt =====
-- The theorems on the history at a small screen that has scrolled.
use stitch_pty.Prelude.{
  ℕ, refl, true, false, [], ◌∷◌, max, some, Option, arith, codes, replicate, Holds,
}
use stitch_pty.Prelude.{◌≡◌, List, ◌<◌, All, equal}
use stitch_pty.History.Scroll.{
  scroll_up_with_history, scroll_down_with_history, index_with_history, reverse_index_with_history,
}
use stitch_pty.History.Rolls.{scroll_with_history-Holding}
use stitch_pty.History.{trim_trailing_blanks}
use stitch_pty.History.Flatten.{LogicalLine, width_of, flatten_rows}
use stitch_pty.History.Split.{split_lines}
use stitch_pty.History.RoundTrip.{IsNarrow}
use stitch_pty.History.Joining.{IsPlain, cells_of, flatten_rows-split_lines}
use stitch_pty.Screen.State.{is_blank, Row, blank, new}
use stitch_pty.Screen.Fits.Sizes.{new-Fits}
use stitch_pty.History.{HistoryScreen, new_history}
use stitch_pty.History.Reflow.{drain_scrolled_off, resize_with_history}
use stitch_pty.History.Bounds.{IsHistory, Drained, drain_scrolled_off-Drained}
use stitch_pty.History.Fit.{Holding}
use stitch_pty.History.Resizing.{resize_with_history-Holding}

abbrev row_x : Row
row_x = replicate 4 (record blank { text = codes "x" })

-- A history of two rows at most, of which one is there.
abbrev scrolled : HistoryScreen
scrolled = record (new_history 4 3 2) { history = row_x ∷ []; history_wrapped = false ∷ [] }

scrolled-IsHistory : IsHistory scrolled
scrolled-IsHistory = record { parallel = refl; capped = λ h. omega arith }

-- Two rows have scrolled off.
abbrev pending : HistoryScreen
pending = record scrolled {
  inner = record (new 4 3) {
    scrolled_off = row_x ∷ row_x ∷ [];
    scrolled_off_wrapped = true ∷ false ∷ [];
  };
}

pending-IsHistory : IsHistory pending
pending-IsHistory = record { parallel = refl; capped = λ h. omega arith }

drain_scrolled_off-Drained_example : Holds (Drained pending) (drain_scrolled_off pending)
drain_scrolled_off-Drained_example = drain_scrolled_off-Drained pending pending-IsHistory

scrolled-Holding : Holding 3 4 scrolled
scrolled-Holding = record { fits = new-Fits 4 3; bounded = scrolled-IsHistory; wide = (refl, tt) }

abbrev one_wide : ℕ → Option ℕ
one_wide c = some 1

resize_with_history-Holding_example :
    Holds (Holding (max 2 1) (max 7 1)) (resize_with_history one_wide scrolled 2 7)
resize_with_history-Holding_example =
    resize_with_history-Holding one_wide scrolled 2 7 scrolled-Holding

-- A line of two letters, an empty line and one letter.
abbrev letters : Row → LogicalLine
letters cells = record { cells = cells; start_row = 0 }

abbrev first_line : LogicalLine
first_line = letters (
    record blank { text = codes "a" }
    ∷ record blank { text = codes "b" }
    ∷ record blank { text = codes "c" }
    ∷ [])

abbrev more_lines : List LogicalLine
more_lines = letters [] ∷ letters (record blank { text = codes "d" } ∷ []) ∷ []

two_columns : 0 < 2
two_columns = omega arith

blank_narrow : IsNarrow one_wide blank
unfolding width_of
blank_narrow = omega arith

lines-IsPlain : All (IsPlain one_wide) (first_line ∷ more_lines)
unfolding width_of trim_trailing_blanks is_blank equal
lines-IsPlain = (
  record { narrow = (omega arith, (omega arith, (omega arith, tt))); trimmed = refl },
  (
    record { narrow = tt; trimmed = refl },
    (record { narrow = (omega arith, tt); trimmed = refl }, tt),
  ),
)

flatten_rows-split_lines_example :
    cells_of (flatten_rows one_wide 0 false [] 0 (split_lines one_wide 2 (first_line ∷ more_lines)))
    ≡ cells_of (first_line ∷ more_lines)
flatten_rows-split_lines_example =
    flatten_rows-split_lines one_wide 2 two_columns blank_narrow first_line more_lines lines-IsPlain

scroll_with_history-Holding_example :
    Holds (Holding 3 4) (scroll_up_with_history scrolled 2)
    × Holds (Holding 3 4) (scroll_down_with_history scrolled 2)
    × Holds (Holding 3 4) (index_with_history scrolled)
    × Holds (Holding 3 4) (reverse_index_with_history scrolled)
scroll_with_history-Holding_example = scroll_with_history-Holding scrolled 2 scrolled-Holding
