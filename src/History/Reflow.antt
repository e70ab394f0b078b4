-- ===== src/History/Reflow.antt =====
-- `reflow` and `resize` of src/terminal/history.rs.
use stitch_pty.Prelude.{
  ℕ, zero, suc, ◌+◌, ◌-◌, ◌*◌, ◌/◌, ◌%◌, min, max, Bool, false, not, ◌&&◌, ◌==◌, ltb, leb,
  if◌then◌else◌, Option, none, some, unwrap_or, ◌>>=◌, List, [], ◌∷◌, ◌++◌, length, get_elem?, take,
  drop, replicate, map, all_but_last,
}
use stitch_pty.Screen.State.{
  Row, Rows, blank, Screen, full_row, init_tabstops, mark_all_dirty, move_to,
}
use stitch_pty.Screen.Conform.{resize, conform_row}
use stitch_pty.History.{HistoryScreen, trim_history, push_history, usize_max}
use stitch_pty.History.Scroll.{with_inner}
use stitch_pty.History.Flatten.{LogicalLine, with_flags, flatten_rows}
use stitch_pty.History.Split.{split_lines, line_spans}

-- The loop that pushes rows with their flags.
unfoldable pub push_rows : HistoryScreen → List (Row × Bool) → Option HistoryScreen
push_rows h [] = some h
push_rows h ((row, wrapped) ∷ rows) = do h' ← push_history h row wrapped; push_rows h' rows

-- `mem::take` of the rows that scrolled off, and their push: without one nothing is taken.
unfoldable pub drain_rows : Rows → HistoryScreen → Option HistoryScreen
drain_rows [] h = some h
drain_rows (row ∷ rows) h =
    push_rows (with_inner h (record (h.inner) { scrolled_off = []; scrolled_off_wrapped = [] }))
      (with_flags (row ∷ rows) h.inner.scrolled_off_wrapped)

unfoldable pub drain_scrolled_off : HistoryScreen → Option HistoryScreen
drain_scrolled_off h = drain_rows h.inner.scrolled_off h

-- The loop that finds the logical line of row `row`: the last that starts there or before.
unfoldable pub anchor_of : ℕ → ℕ → ℕ → List LogicalLine → ℕ
anchor_of row i anchor [] = anchor
anchor_of row i anchor (line ∷ lines) =
    let further = anchor_of row (i + 1) i lines in
    if leb line.start_row row then further else anchor

-- `flat`: the offset of the cursor from the start of its logical line, with saturation.
abbrev pub flat_offset : ℕ → ℕ → ℕ → ℕ → ℕ
flat_offset row start old_columns x =
    min (min ((row - start) * old_columns) usize_max + min x (old_columns - 1)) usize_max

-- The rows with a flag, cut from the front; what is left starts with a hard break.
unfoldable pub unwrap_first : List (Row × Bool) → List (Row × Bool)
unwrap_first [] = []
unwrap_first ((row, wrapped) ∷ rows) = (row, false) ∷ rows

unfoldable pub overflow_of : ℕ → ℕ → ℕ → ℕ
overflow_of cap lines total =
    if ltb 0 cap && ltb (cap + lines) total then total - (cap + lines) else 0

unfoldable pub cut_front : ℕ → List (Row × Bool) → List (Row × Bool)
cut_front overflow rows = if ltb 0 overflow then unwrap_first (drop overflow rows) else rows

abbrev pub row_of : Row × Bool → Row
row_of p = p.0

abbrev pub flag_of : Row × Bool → Bool
flag_of p = p.1

-- Blank rows at the bottom, up to `lines`.
unfoldable pub pad_rows : ℕ → ℕ → Rows → Rows
pad_rows lines columns rows = rows ++ replicate (lines - length rows) (full_row columns blank)

unfoldable pub pad_wrapped : ℕ → List Bool → List Bool
pad_wrapped lines flags = flags ++ replicate (lines - length flags) false

-- The screen of the last rows.
unfoldable pub repack : Screen → ℕ → ℕ → List (Row × Bool) → Screen
repack s lines columns visible =
    mark_all_dirty
      (record (init_tabstops (record s {
        buffer = pad_rows lines columns (map row_of visible);
        wrapped = pad_wrapped lines (map flag_of visible);
        lines = lines;
        columns = columns;
        margins = none;
      })) { dirty = [] })

-- The steps 4 and 5 on the rows `rows`, of which `old_hist` were the history's.
unfoldable pub refill : HistoryScreen → ℕ → ℕ → List (Row × Bool) → Option HistoryScreen
refill h lines columns rows =
    let vis_start = length rows - lines in
    let old_hist = length h.history in
    trim_history (record h {
      history = map row_of (take vis_start rows);
      history_wrapped = map flag_of (take vis_start rows);
    })
    >>= (λ h1. some (record h1 {
      inner = repack h1.inner lines columns (drop vis_start rows);
      scrollback_grew = h1.scrollback_grew + (length h1.history - old_hist);
    }))

-- The step 6, from the first row and the number of cells of the cursor's logical line.
unfoldable pub restore_anchor : HistoryScreen → ℕ → ℕ → ℕ → ℕ → ℕ → ℕ × ℕ → HistoryScreen
restore_anchor h lines columns overflow vis_start flat (first, len) =
    let offset = min flat (len - 1) in
    let row = first + offset / columns in
    let trimmed = ltb row overflow in
    let new_row = if trimmed then 0 else row - overflow in
    let new_col = if trimmed then 0 else offset % columns in
    with_inner h
      (move_to h.inner (min new_col (columns - 1)) (min (new_row - vis_start) (lines - 1)))

module _ (char_width : ℕ → Option ℕ) where
  -- The logical lines of the history and the buffer.
  unfoldable pub logical_lines : HistoryScreen → List LogicalLine
  logical_lines h =
      flatten_rows char_width 0 false [] 0
        (with_flags h.history h.history_wrapped ++ with_flags h.inner.buffer h.inner.wrapped)

  -- The steps 3 to 6.
  unfoldable pub repack_lines :
      HistoryScreen → ℕ → ℕ → List LogicalLine → ℕ → ℕ → Option HistoryScreen
  repack_lines h lines columns logical anchor flat = do
    let all_rows = split_lines char_width columns logical
    let overflow = overflow_of h.scrollback_lines lines (length all_rows)
    let rows = cut_front overflow all_rows
    h1 ← refill h lines columns rows
    span ← get_elem? (line_spans char_width columns 0 logical) anchor
    some (restore_anchor h1 lines columns overflow (length rows - lines) flat span)

  unfoldable pub reflow : HistoryScreen → ℕ → ℕ → Option HistoryScreen
  reflow h0 lines columns = do
    let old_columns = max h0.inner.columns 1
    h ← drain_scrolled_off h0
    let logical = logical_lines h
    let row = length h.history + h.inner.cursor.y
    let anchor = anchor_of row 0 0 logical
    line ← get_elem? logical anchor
    repack_lines h lines columns logical anchor
        (flat_offset row line.start_row old_columns h.inner.cursor.x)

-- The path of the alternate screen: the history's rows are cut or padded.
unfoldable pub resize_alternate : HistoryScreen → ℕ → ℕ → HistoryScreen
resize_alternate h lines columns =
    let s = resize h.inner lines columns in
    record h {
      inner = s;
      history =
          if columns == h.inner.columns
          then h.history
          else map (conform_row columns s.default_char) h.history;
    }

-- `for _ in 0..n { buffer.pop(); wrapped.pop() }`.
unfoldable pub pop_rows : ℕ → Screen → Screen
pop_rows zero s = s
pop_rows (suc n) s =
    pop_rows n (record s { buffer = all_but_last s.buffer; wrapped = all_but_last s.wrapped })

-- A round of the loop that takes rows off the top.
unfoldable pub shed_row : Rows → HistoryScreen → Option HistoryScreen
shed_row [] h = some h
shed_row (line ∷ rows) h =
    push_history
      (with_inner h (record (h.inner) { buffer = rows; wrapped = drop 1 h.inner.wrapped })) line
      (unwrap_or (get_elem? h.inner.wrapped 0) false)

-- The rows that the cursor's row forces off the top.
unfoldable pub shed_rows : ℕ → HistoryScreen → Option HistoryScreen
shed_rows zero h = some h
shed_rows (suc n) h = shed_row h.inner.buffer h >>= shed_rows n

-- The path of a change of the number of rows.
unfoldable pub resize_rows : HistoryScreen → ℕ → ℕ → Option HistoryScreen
resize_rows h lines columns =
    let s = h.inner in
    let excess = s.lines - lines in
    let from_bottom = min excess (s.lines - (s.cursor.y + 1)) in
    let from_top = excess - from_bottom in
    (if ltb lines s.lines
      then shed_rows from_top (with_inner h (pop_rows from_bottom s)) >>= (λ h1.
        some (with_inner h1 (move_to h1.inner h1.inner.cursor.x (h1.inner.cursor.y - from_top))))
      else some h)
    >>= (λ h2. some (with_inner h2 (resize h2.inner lines columns)))

module _ (char_width : ℕ → Option ℕ) where
  -- `HistoryScreen::resize`.
  unfoldable pub resize_with_history : HistoryScreen → ℕ → ℕ → Option HistoryScreen
  resize_with_history h lines0 columns0 =
      let lines = max lines0 1 in
      let columns = max columns0 1 in
      if h.inner.alt_screen
      then some (resize_alternate h lines columns)
      else if not (columns == h.inner.columns)
      then reflow char_width h lines columns
      else resize_rows h lines columns
