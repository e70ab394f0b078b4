-- ===== src/History/Resizing.antt =====
-- `resize` of src/terminal/history.rs, from one shape to another.
use stitch_pty.Prelude.{
  ℕ, zero, suc, ◌+◌, ◌-◌, ◌<◌, min, max, ◌≡◌, sym, ap, ◌∙◌, false, not, ◌&&◌, ◌==◌, ltb, Option,
  some, ◌>>=◌, [], ◌∷◌, length, map, all_but_last, arith, Bool-cases, inl, inr, length-map,
}
use stitch_pty.Prelude.{Holds, holds, Holds-bind, Holds-map, Holds-if, All, All-append}
use stitch_pty.Screen.State.{Char, Rows, Screen, move_to}
use stitch_pty.Screen.Conform.{conform_row, resize}
use stitch_pty.Screen.Fits.{Fits}
use stitch_pty.Screen.Fits.Sizes.{resize-Fits, resize_to-Fits, length-conform_row}
use stitch_pty.History.{HistoryScreen}
use stitch_pty.History.Scroll.{with_inner}
use stitch_pty.History.Reflow.{
  resize_alternate, pop_rows, shed_row, shed_rows, resize_rows, resize_with_history,
}
use stitch_pty.History.Bounds.{lines_of, push_history-Keeps, IsHistory, Keeps-IsHistory}
use stitch_pty.History.Widths.{IsWide, IsFlagged}
use stitch_pty.History.Fit.{Holding, IsWide-IsFlagged, Keeps-IsWide, reflow-Holding}

Fits-size : {l l' c c' : ℕ} {s : Screen} → l ≡ l' → c ≡ c' → Fits l c s → Fits l' c' s
Fits-size {s = s} e e' f = rw⁻¹ (e, e') f

All-conformed :
    (columns : ℕ) (c : Char) (rows : Rows) → All (IsWide columns) (map (conform_row columns c) rows)
All-conformed columns c [] = tt
All-conformed columns c (row ∷ rows) =
    (length-conform_row columns c row, All-conformed columns c rows)

resize_alternate-Holding :
    {l c : ℕ} (h : HistoryScreen) (lines columns : ℕ)
    → Holding l c h
    → 0 < lines
    → 0 < columns
    → Holding lines columns (resize_alternate h lines columns)
unfolding resize_alternate
resize_alternate-Holding {l} {c} h lines columns g hl hc =
    elim (Bool-cases (columns == h.inner.columns)) [
      | inl same ↦
          let e : c ≡ columns = ground (arith, g.fits.columns_eq) in
          rw same (record {
            fits = fits;
            bounded = record { parallel = g.bounded.parallel; capped = g.bounded.capped };
            wide = rw⁻¹ e g.wide;
          })
      | inr other ↦
          let size =
            length-map h.history
              (conform_row columns (resize h.inner lines columns).default_char) in
          rw other (record {
            fits = fits;
            bounded = record {
              parallel = size ∙ g.bounded.parallel;
              capped = λ pos. omega (arith, size, g.bounded.capped pos);
            };
            wide = All-conformed columns (resize h.inner lines columns).default_char h.history;
          })
    ]
  where
    fits : Fits lines columns (resize h.inner lines columns)
    fits = Fits-size (omega arith) (omega arith) (resize-Fits lines columns g.fits)

-- A screen that lost rows, with the history that took them.
record Shrinks (lines columns : ℕ) (h : HistoryScreen) : Type 0 where
  bounded : IsHistory h
  wide : All (IsWide columns) h.history
  rows : All (IsWide columns) h.inner.buffer
  captured : length h.inner.scrolled_off ≡ length h.inner.scrolled_off_wrapped
  lines_eq : h.inner.lines ≡ lines
  columns_eq : h.inner.columns ≡ columns

pub All-all_but_last :
    (columns : ℕ) (rows : Rows)
    → All (IsWide columns) rows
    → All (IsWide columns) (all_but_last rows)
All-all_but_last columns [] w = tt
All-all_but_last columns (x ∷ []) w = tt
All-all_but_last columns (x ∷ y ∷ rows) w = (w.0, All-all_but_last columns (y ∷ rows) w.1)

module _ {lines columns : ℕ} where
  pop_rows-Shrinks :
      (n : ℕ) (h : HistoryScreen)
      → Shrinks lines columns h
      → Shrinks lines columns (with_inner h (pop_rows n h.inner))
  unfolding pop_rows
  pop_rows-Shrinks zero h s = s
  pop_rows-Shrinks (suc n) h s =
      pop_rows-Shrinks n
        (with_inner h (record (h.inner) {
          buffer = all_but_last h.inner.buffer;
          wrapped = all_but_last h.inner.wrapped;
        }))
        (record {
          bounded = record { parallel = s.bounded.parallel; capped = s.bounded.capped };
          wide = s.wide;
          rows = All-all_but_last columns h.inner.buffer s.rows;
          captured = s.captured;
          lines_eq = s.lines_eq;
          columns_eq = s.columns_eq;
        })

  shed_row-Shrinks :
      (rows : Rows) (h : HistoryScreen)
      → Shrinks lines columns h
      → All (IsWide columns) rows
      → Holds (Shrinks lines columns) (shed_row rows h)
  unfolding shed_row
  shed_row-Shrinks [] h s w = holds s
  shed_row-Shrinks (line ∷ rows) h s w =
      Holds-map (push_history-Keeps _ line _ s.bounded.parallel) (λ h' k.
        let b = Keeps-IsHistory k in
        record {
          bounded = b;
          wide = Keeps-IsWide columns k (
              All-append (IsFlagged columns) (lines_of h) _
                (IsWide-IsFlagged columns h.history h.history_wrapped s.wide) (w.0, tt));
          rows = rw k.same_inner w.1;
          captured =
              ap (λ t. length t.scrolled_off) k.same_inner
              ∙ s.captured
              ∙ sym (ap (λ t. length t.scrolled_off_wrapped) k.same_inner);
          lines_eq = ap (λ t. t.lines) k.same_inner ∙ s.lines_eq;
          columns_eq = ap (λ t. t.columns) k.same_inner ∙ s.columns_eq;
        })

  shed_rows-Shrinks :
      (n : ℕ) (h : HistoryScreen)
      → Shrinks lines columns h
      → Holds (Shrinks lines columns) (shed_rows n h)
  unfolding shed_rows
  shed_rows-Shrinks zero h s = holds s
  shed_rows-Shrinks (suc n) h s =
      Holds-bind (shed_row-Shrinks h.inner.buffer h s s.rows) (λ h' t. shed_rows-Shrinks n h' t)

-- The rows that are left, cut or padded to the new number of rows.
resize-Shrinks :
    {l columns : ℕ} (lines x y : ℕ) (h : HistoryScreen)
    → Shrinks l columns h
    → lines < l
    → 0 < lines
    → 0 < columns
    → Fits lines columns (resize (move_to h.inner x y) lines columns)
unfolding resize
resize-Shrinks {l} {columns} lines x y h s less hl hc =
    let other : (h.inner.lines == max lines 1 && h.inner.columns == max columns 1) ≡ false =
      ground (arith, s.lines_eq) in
    rw other (
      Fits-size (omega arith) (omega arith) (
        resize_to-Fits (move_to h.inner x y) (max lines 1) (max columns 1) (omega arith)
          (omega arith) s.captured))

-- A change of the number of rows has what it needs.
abbrev Resizes : ℕ → ℕ → HistoryScreen → Type 0
Resizes lines columns h = Holding lines columns (with_inner h (resize h.inner lines columns))

shrink-Resizes :
    {l columns : ℕ} (from_top lines : ℕ) (h : HistoryScreen)
    → Shrinks l columns h
    → lines < l
    → 0 < lines
    → 0 < columns
    → Holds (Resizes lines columns) (
        shed_rows from_top h >>= (λ h1.
          some (with_inner h1 (move_to h1.inner h1.inner.cursor.x (h1.inner.cursor.y - from_top)))))
shrink-Resizes from_top lines h s less hl hc = Holds-bind (shed_rows-Shrinks from_top h s) (λ h1 t.
    holds (record {
      fits = resize-Shrinks lines h1.inner.cursor.x (h1.inner.cursor.y - from_top) h1 t less hl hc;
      bounded = record { parallel = t.bounded.parallel; capped = t.bounded.capped };
      wide = t.wide;
    }))

Holding-Shrinks : {l columns : ℕ} {h : HistoryScreen} → Holding l columns h → Shrinks l columns h
Holding-Shrinks g = record {
  bounded = g.bounded;
  wide = g.wide;
  rows = g.fits.page.grid.width;
  captured = g.fits.captured;
  lines_eq = g.fits.lines_eq;
  columns_eq = g.fits.columns_eq;
}

resize_rows-Holding :
    {l columns : ℕ} (h : HistoryScreen) (lines : ℕ)
    → Holding l columns h
    → 0 < lines
    → Holds (Holding lines columns) (resize_rows h lines columns)
unfolding resize_rows
resize_rows-Holding {l} {columns} h lines g hl =
    let s = h.inner in
    let from_bottom = min (s.lines - lines) (s.lines - (s.cursor.y + 1)) in
    elim (Bool-cases (ltb lines s.lines)) [
      | inl less ↦
          let small : lines < l = ground (arith, g.fits.lines_eq) in
          rw less (
            Holds-bind
              (shrink-Resizes (s.lines - lines - from_bottom) lines _
                (pop_rows-Shrinks from_bottom h (Holding-Shrinks g)) small hl g.fits.columns_pos)
              (λ h2 k. holds k))
      | inr more ↦ rw more (
          holds (record {
            fits =
                Fits-size (omega arith) (omega (arith, g.fits.columns_pos))
                  (resize-Fits lines columns g.fits);
            bounded = record { parallel = g.bounded.parallel; capped = g.bounded.capped };
            wide = g.wide;
          }))
    ]

Holding-width : {l c c' : ℕ} {h : HistoryScreen} → c ≡ c' → Holding l c h → Holding l c' h
Holding-width {h = h} e g = rw⁻¹ e g

-- From any size to any new size, 0 included, on the primary screen or the alternate one, with any
-- history and glyphs of any width, a resize never panics. It leaves a screen of the new size, with
-- at least one row and one column, and a history within its cap, every row of which has exactly as
-- many cells as the screen has columns, and a flag.
pub resize_with_history-Holding :
    {l c : ℕ} (char_width : ℕ → Option ℕ) (h : HistoryScreen) (lines columns : ℕ)
    → Holding l c h
    → Holds (Holding (max lines 1) (max columns 1)) (resize_with_history char_width h lines columns)
unfolding resize_with_history
resize_with_history-Holding {l} {c} char_width h lines0 columns0 g =
    let lines = max lines0 1 in
    let columns = max columns0 1 in
    Holds-if h.inner.alt_screen
      (holds (resize_alternate-Holding h lines columns g (omega arith) (omega arith)))
      (elim (Bool-cases (not (columns == h.inner.columns))) [
        | inl wider ↦
            rw wider (reflow-Holding char_width h lines columns g (omega arith) (omega arith))
        | inr same ↦ rw same (same_width columns (ground (arith, g.fits.columns_eq)))
      ])
  where
    same_width :
        (columns : ℕ)
        → c ≡ columns
        → Holds (Holding (max lines0 1) columns) (resize_rows h (max lines0 1) columns)
    same_width columns e =
        resize_rows-Holding {l = l} h (max lines0 1) (Holding-width e g) (omega arith)
