-- ===== src/History/Fit.antt =====
-- The shape of a screen with history, of src/terminal/history.rs, and the steps of `reflow`.
use stitch_pty.Prelude.{
  if◌then◌else◌, ℕ, ◌+◌, ◌-◌, ◌<◌, ◌≤◌, ◌≡◌, refl, sym, ap, ◌∙◌, Bool, true, false, not, ◌&&◌, ltb,
  leb, Option, List, [], ◌∷◌, length, take, drop, replicate, map, arith, Bool-cases, inl, inr,
  length-append, length-replicate, length-map, length-drop, get_elem?-lt,
}
use stitch_pty.Prelude.{
  Holds, holds, Holds-bind, All, All-append, All-take, All-drop, All-replicate,
}
use stitch_pty.Screen.State.{
  Row, Rows, blank, Screen, full_row, init_tabstops, mark_all_dirty, move_to,
}
use stitch_pty.Screen.Fits.{Fits}
use stitch_pty.History.{HistoryScreen}
use stitch_pty.History.Flatten.{LogicalLine, with_flags, flatten_rows}
use stitch_pty.History.Split.{split_lines, line_spans}
use stitch_pty.History.Reflow.{
  anchor_of, unwrap_first, overflow_of, cut_front, row_of, flag_of, pad_rows, pad_wrapped, repack,
  refill, restore_anchor, logical_lines, repack_lines, reflow,
}
use stitch_pty.History.Bounds.{
  latest, Keeps, trim_history-Keeps, IsHistory, Keeps-IsHistory, drain_scrolled_off-Drained,
}
use stitch_pty.History.Widths.{IsWide, IsFlagged, split_lines-IsFlagged, length-line_spans}

-- A screen of the right shape with a history within its cap, of rows as wide as the screen.
pub record Holding (lines columns : ℕ) (h : HistoryScreen) : Type 0 where
  pub fits : Fits lines columns h.inner
  pub bounded : IsHistory h
  pub wide : All (IsWide columns) h.history

module _ (columns : ℕ) where
  pub IsWide-IsFlagged :
      (rows : Rows) (flags : List Bool)
      → All (IsWide columns) rows
      → All (IsFlagged columns) (with_flags rows flags)
  unfolding with_flags
  IsWide-IsFlagged [] flags w = tt
  IsWide-IsFlagged (row ∷ rows) [] w = (w.0, IsWide-IsFlagged rows [] w.1)
  IsWide-IsFlagged (row ∷ rows) (f ∷ flags) w = (w.0, IsWide-IsFlagged rows flags w.1)

  IsFlagged-IsWide :
      (rows : Rows) (flags : List Bool)
      → All (IsFlagged columns) (with_flags rows flags)
      → All (IsWide columns) rows
  unfolding with_flags
  IsFlagged-IsWide [] flags w = tt
  IsFlagged-IsWide (row ∷ rows) [] w = (w.0, IsFlagged-IsWide rows [] w.1)
  IsFlagged-IsWide (row ∷ rows) (f ∷ flags) w = (w.0, IsFlagged-IsWide rows flags w.1)

  latest-IsFlagged :
      (cap : ℕ) (xs : List (Row × Bool))
      → All (IsFlagged columns) xs
      → All (IsFlagged columns) (latest cap xs)
  unfolding latest
  latest-IsFlagged cap xs w = elim (Bool-cases (ltb 0 cap)) [
    | inl y ↦ rw y (All-drop (IsFlagged columns) (length xs - cap) xs w)
    | inr n ↦ rw n w
  ]

  -- What is kept of wide rows is wide.
  pub Keeps-IsWide :
      {old h : HistoryScreen} {rows : List (Row × Bool)}
      → Keeps old rows h
      → All (IsFlagged columns) rows
      → All (IsWide columns) h.history
  Keeps-IsWide {old} {h} {rows} k w =
      IsFlagged-IsWide h.history h.history_wrapped
        (rw k.kept (latest-IsFlagged old.scrollback_lines rows w))

  map-IsWide :
      (xs : List (Row × Bool)) → All (IsFlagged columns) xs → All (IsWide columns) (map row_of xs)
  map-IsWide [] w = tt
  map-IsWide (x ∷ xs) w = (w.0, map-IsWide xs w.1)

  cut_front-IsFlagged :
      (n : ℕ) (xs : List (Row × Bool))
      → All (IsFlagged columns) xs
      → All (IsFlagged columns) (cut_front n xs)
  unfolding cut_front unwrap_first
  cut_front-IsFlagged n xs w = elim (Bool-cases (ltb 0 n)) [
    | inl y ↦ rw y (first (drop n xs) (All-drop (IsFlagged columns) n xs w))
    | inr z ↦ rw z w
  ]
    where
      first :
          (ys : List (Row × Bool))
          → All (IsFlagged columns) ys
          → All (IsFlagged columns) (unwrap_first ys)
      first [] w = tt
      first (y ∷ ys) w = w

  -- The screen of the last rows, with the cursor on it.
  repack-Fits :
      (s : Screen) (lines : ℕ) (visible : List (Row × Bool)) (x y : ℕ)
      → 0 < columns
      → x < columns
      → y < lines
      → length visible ≤ lines
      → All (IsFlagged columns) visible
      → length s.scrolled_off ≡ length s.scrolled_off_wrapped
      → Fits lines columns (move_to (repack s lines columns visible) x y)
  unfolding repack pad_rows pad_wrapped mark_all_dirty init_tabstops
  repack-Fits s lines visible x y hc hx hy h w e = record {
    lines_eq = refl;
    columns_eq = refl;
    lines_pos = omega arith;
    columns_pos = hc;
    page = record {
      grid = record {
        height = omega (
          arith,
          length-append (map row_of visible)
              (replicate (lines - length (map row_of visible)) (full_row columns blank)),
          length-map visible row_of,
          length-replicate (lines - length (map row_of visible)) (full_row columns blank),
        );
        width =
            All-append _ (map row_of visible) _ (map-IsWide visible w)
              (All-replicate _ _ (full_row columns blank) (length-replicate columns blank));
      };
      count = omega (
        arith,
        length-append (map flag_of visible)
            (replicate (lines - length (map flag_of visible)) false),
        length-map visible flag_of,
        length-replicate (lines - length (map flag_of visible)) false,
      );
    };
    region = tt;
    cursor_x = omega arith;
    cursor_y = hy;
    captured = e;
  }

with_flags-map : (xs : List (Row × Bool)) → with_flags (map row_of xs) (map flag_of xs) ≡ xs
unfolding with_flags
with_flags-map [] = refl
with_flags-map (x ∷ xs) = ap (λ ys. x ∷ ys) (with_flags-map xs)

anchor_of-lt :
    (row i anchor n : ℕ) (lines : List LogicalLine)
    → anchor < n
    → i + length lines ≤ n
    → anchor_of row i anchor lines < n
unfolding anchor_of
anchor_of-lt row i anchor n [] h k = h
anchor_of-lt row i anchor n (line ∷ lines) h k = elim (Bool-cases (leb line.start_row row)) [
  | inl y ↦ rw y (anchor_of-lt row (i + 1) i n lines (omega arith) (omega arith))
  | inr z ↦ rw z h
]

flatten_rows-pos :
    (char_width : ℕ → Option ℕ) (rows : List (Row × Bool)) (r : ℕ) (skip : Bool) (cur : Row)
    (start : ℕ)
    → 0 < length (flatten_rows char_width r skip cur start rows)
unfolding flatten_rows
flatten_rows-pos char_width [] r skip cur start = omega arith
flatten_rows-pos char_width ((row, wrapped) ∷ rows) r skip cur start =
    either (ltb 0 r && not wrapped) _ _ (flatten_rows-pos char_width rows (r + 1) _ _ _)
  where
    either :
        (b : Bool) (line : LogicalLine) (lines : List LogicalLine)
        → 0 < length lines
        → 0 < length (if b then line ∷ lines else lines)
    either true line lines h = omega arith
    either false line lines h = h

refill-Holds :
    (h : HistoryScreen) (lines columns : ℕ) (rows : List (Row × Bool))
    → length h.inner.scrolled_off ≡ length h.inner.scrolled_off_wrapped
    → 0 < lines
    → 0 < columns
    → All (IsFlagged columns) rows
    → Holds
        (λ h'.
          IsHistory h'
          × All (IsWide columns) h'.history
          × (h'.inner ≡ repack h.inner lines columns (drop (length rows - lines) rows)))
        (refill h lines columns rows)
unfolding refill
refill-Holds h lines columns rows e hl hc w =
    let front = take (length rows - lines) rows in
    Holds-bind
      (trim_history-Keeps
        (record h { history = map row_of front; history_wrapped = map flag_of front })
        (length-map front row_of ∙ sym (length-map front flag_of)))
      (λ h1 k.
        let b = Keeps-IsHistory k in
        holds (
          record { parallel = b.parallel; capped = b.capped },
          Keeps-IsWide columns k (
              rw (with_flags-map front)
                (All-take (IsFlagged columns) (length rows - lines) rows w)),
          ap (λ s. repack s lines columns (drop (length rows - lines) rows)) k.same_inner,
        ))

module _ (char_width : ℕ → Option ℕ) where
  repack_lines-Holding :
      (h : HistoryScreen) (lines columns : ℕ) (logical : List LogicalLine) (anchor flat : ℕ)
      → length h.inner.scrolled_off ≡ length h.inner.scrolled_off_wrapped
      → 0 < lines
      → 0 < columns
      → anchor < length logical
      → Holds (Holding lines columns) (repack_lines char_width h lines columns logical anchor flat)
  unfolding repack_lines restore_anchor
  repack_lines-Holding h lines columns logical anchor flat e hl hc ha =
      let all_rows = split_lines char_width columns logical in
      let rows = cut_front (overflow_of h.scrollback_lines lines (length all_rows)) all_rows in
      let w =
        cut_front-IsFlagged columns (overflow_of h.scrollback_lines lines (length all_rows))
          all_rows (split_lines-IsFlagged hc char_width logical) in
      let span =
        get_elem?-lt (line_spans char_width columns 0 logical) anchor
          (omega (arith, length-line_spans char_width columns 0 logical)) in
      Holds-bind (refill-Holds h lines columns rows e hl hc w) (λ h1 (b, wide, same). rw span.1 (
        holds (record {
          fits = rw same (
              repack-Fits columns h.inner lines (drop (length rows - lines) rows) _ _ hc
                (omega arith) (omega arith) (omega (arith, length-drop (length rows - lines) rows))
                (All-drop (IsFlagged columns) (length rows - lines) rows w) e);
          bounded = record { parallel = b.parallel; capped = b.capped };
          wide = wide;
        })))

  -- Reflow never panics, whatever the widths of the glyphs.
  pub reflow-Holding :
      {l c : ℕ} (h : HistoryScreen) (lines columns : ℕ)
      → Holding l c h
      → 0 < lines
      → 0 < columns
      → Holds (Holding lines columns) (reflow char_width h lines columns)
  unfolding reflow
  reflow-Holding h0 lines columns g hl hc =
      Holds-bind (drain_scrolled_off-Drained h0 g.bounded) (λ h d.
        let logical = logical_lines char_width h in
        let some_line : 0 < length logical =
          unfold logical_lines in flatten_rows-pos char_width _ 0 false [] 0 in
        let row = length h.history + h.inner.cursor.y in
        let inside = anchor_of-lt row 0 0 (length logical) logical some_line (omega arith) in
        let line = get_elem?-lt logical (anchor_of row 0 0 logical) inside in
        rw line.1 (
          repack_lines-Holding h lines columns logical (anchor_of row 0 0 logical) _
            (d.captured g.fits.captured) hl hc inside))
