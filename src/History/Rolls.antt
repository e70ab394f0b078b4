-- ===== src/History/Rolls.antt =====
-- Scrolling into and out of the history, of src/terminal/history.rs: the shape that it keeps.
use stitch_pty.Prelude.{
  ℕ, zero, suc, ◌+◌, ◌-◌, ◌<◌, ◌≤◌, ◌≡◌, refl, ap, ◌∙◌, Bool, false, ltb, if◌then◌else◌, Option,
  none, some, [], ◌∷◌, length, get_elem?, last_or, arith, length-all_but_last, length-replicate,
}
use stitch_pty.Prelude.{
  Holds, holds, Holds-bind, Holds-map, Holds-if, Bool-cases, inl, inr, All, All-append,
  All-get_elem?,
}
use stitch_pty.Screen.State.{Row, Rows, Screen, scroll_region, move_to, mark_dirty}
use stitch_pty.Screen.Grid.{Page}
use stitch_pty.Screen.Grid.Pages.{IsPage, write_row-Has, copy_row-Has}
use stitch_pty.Screen.Scroll.{page_of, with_page}
use stitch_pty.Screen.Fits.{
  Fits, with_page-Fits, mark_dirty-Fits, move_to-Fits, scroll_region_bounds,
}
use stitch_pty.History.{HistoryScreen, push_history, pop_from, pop_history}
use stitch_pty.History.Scroll.{
  with_inner, blank_line, pull_rows, smear_rows, keep_row, keep_top, roll_up, roll_up_rounds,
  scroll_up_with_history, popped_row, roll_down, roll_down_rounds, scroll_down_with_history,
  index_with_history, reverse_index_with_history,
}
use stitch_pty.History.Bounds.{lines_of, push_history-Keeps, IsHistory, Keeps-IsHistory}
use stitch_pty.History.Widths.{IsWide, IsFlagged}
use stitch_pty.History.Fit.{Holding, IsWide-IsFlagged, Keeps-IsWide}
use stitch_pty.History.Resizing.{All-all_but_last}

module _ {lines columns : ℕ} where
  pull_rows-IsPage :
      (n y : ℕ) (p : Page)
      → IsPage lines columns p
      → y + n < lines
      → Holds (IsPage lines columns) (pull_rows n y p)
  unfolding pull_rows
  pull_rows-IsPage zero y p v h = holds v
  pull_rows-IsPage (suc n) y p v h =
      Holds-bind (copy_row-Has p y (y + 1) v (omega arith) (omega arith))
        (λ p' w. pull_rows-IsPage n (y + 1) p' w.page (omega arith))

  smear_rows-IsPage :
      (n y : ℕ) (p : Page)
      → IsPage lines columns p
      → y + n < lines
      → Holds (IsPage lines columns) (smear_rows n y p)
  unfolding smear_rows
  smear_rows-IsPage zero y p v h = holds v
  smear_rows-IsPage (suc n) y p v h =
      Holds-bind (copy_row-Has p (y + 1) y v (omega arith) (omega arith))
        (λ p' w. smear_rows-IsPage n (y + 1) p' w.page (omega arith))

  -- A push of one of the screen's rows.
  push_history-Holding :
      (h : HistoryScreen) (line : Row) (wrapped : Bool)
      → Holding lines columns h
      → length line ≡ columns
      → Holds (Holding lines columns) (push_history h line wrapped)
  push_history-Holding h line wrapped g w =
      Holds-map (push_history-Keeps h line wrapped g.bounded.parallel) (λ h' k. record {
        fits = rw k.same_inner g.fits;
        bounded = Keeps-IsHistory k;
        wide = Keeps-IsWide columns k (
            All-append (IsFlagged columns) (lines_of h) _
              (IsWide-IsFlagged columns h.history h.history_wrapped g.wide) (w, tt));
      })

  keep_top-Holding :
      (h : HistoryScreen) (top : ℕ)
      → Holding lines columns h
      → Holds (Holding lines columns) (keep_top h top)
  unfolding keep_top keep_row
  keep_top-Holding h top g = keeps (get_elem? h.inner.buffer top) refl
    where
      keeps :
          (line : Option Row)
          → get_elem? h.inner.buffer top ≡ line
          → Holds (Holding lines columns) (keep_row line h top)
      keeps none e = holds g
      keeps (some line) e =
          push_history-Holding h line _ g
            (All-get_elem? (IsWide columns) h.inner.buffer top line g.fits.page.grid.width e)

  length-blank_line : (s : Screen) → Fits lines columns s → length (blank_line s) ≡ columns
  length-blank_line s f = length-replicate s.columns s.default_char ∙ f.columns_eq

  with_page-Holding :
      (h : HistoryScreen) (p : Page) (y : ℕ)
      → Holding lines columns h
      → IsPage lines columns p
      → Holding lines columns (with_inner h (mark_dirty (with_page h.inner p) y))
  with_page-Holding h p y g v = record {
    fits = mark_dirty-Fits y (with_page-Fits p g.fits v);
    bounded = record { parallel = g.bounded.parallel; capped = g.bounded.capped };
    wide = g.wide;
  }

  roll_up-Holding :
      (h : HistoryScreen) (top bottom : ℕ)
      → Holding lines columns h
      → top ≤ bottom
      → bottom < lines
      → Holds (Holding lines columns) (roll_up h top bottom)
  unfolding roll_up
  roll_up-Holding h top bottom g a b = Holds-bind (keep_top-Holding h top g) (λ h1 g1.
      Holds-bind (pull_rows-IsPage (bottom - top) top (page_of h1.inner) g1.fits.page (omega arith))
        (λ p v.
          Holds-bind
            (write_row-Has p bottom (blank_line h1.inner) false v b
              (length-blank_line h1.inner g1.fits))
            (λ p' w. holds (with_page-Holding h1 p' bottom g1 w.page))))

  roll_up_rounds-Holding :
      (n top bottom : ℕ) (h : HistoryScreen)
      → Holding lines columns h
      → top ≤ bottom
      → bottom < lines
      → Holds (Holding lines columns) (roll_up_rounds n top bottom h)
  unfolding roll_up_rounds
  roll_up_rounds-Holding zero top bottom h g a b = holds g
  roll_up_rounds-Holding (suc n) top bottom h g a b =
      Holds-bind (roll_up-Holding h top bottom g a b)
        (λ h' k. roll_up_rounds-Holding n top bottom h' k a b)

  pub scroll_up_with_history-Holding :
      (h : HistoryScreen) (rows : ℕ)
      → Holding lines columns h
      → Holds (Holding lines columns) (scroll_up_with_history h rows)
  unfolding scroll_up_with_history
  scroll_up_with_history-Holding h rows g =
      let region = scroll_region_bounds g.fits in roll_up_rounds-Holding _ _ _ h g region.0 region.1

-- What a pop leaves, and the row that comes back.
record Pops (columns : ℕ) (s : Screen) (popped : HistoryScreen × Option (Row × Bool)) : Type 0 where
  bounded : IsHistory (popped.0)
  wide : All (IsWide columns) (popped.0).history
  row : length (popped_row s popped.1).0 ≡ columns

last-IsWide :
    (columns : ℕ) (row : Row) (rows : Rows)
    → All (IsWide columns) (row ∷ rows)
    → length (last_or rows row) ≡ columns
last-IsWide columns row [] w = w.0
last-IsWide columns row (next ∷ rows) w = last-IsWide columns next rows w.1

pop_from-Pops :
    {lines columns : ℕ} (rows : Rows) (h : HistoryScreen)
    → Holding lines columns h
    → h.history ≡ rows
    → All (IsWide columns) rows
    → Pops columns h.inner (pop_from rows h)
unfolding pop_from
pop_from-Pops [] h g e w = record {
  bounded = g.bounded;
  wide = g.wide;
  row = length-blank_line h.inner g.fits;
}
pop_from-Pops {columns = columns} (row ∷ rows) h g e w =
    let size = ap length e in
    let left = length-all_but_last (row ∷ rows) in
    let flags = length-all_but_last h.history_wrapped in
    record {
      bounded = record {
        parallel = omega (arith, g.bounded.parallel);
        capped = λ pos. omega (arith, g.bounded.capped pos);
      };
      wide = All-all_but_last columns (row ∷ rows) w;
      row = last-IsWide columns row rows w;
    }

module _ {lines columns : ℕ} where
  roll_down-Holding :
      (h : HistoryScreen) (top bottom : ℕ)
      → Holding lines columns h
      → top ≤ bottom
      → bottom < lines
      → Holds (Holding lines columns) (roll_down h top bottom)
  unfolding roll_down pop_history
  roll_down-Holding h top bottom g a b =
      let pop = pop_from-Pops h.history h g refl g.wide in
      Holds-bind (smear_rows-IsPage (bottom - top) top (page_of h.inner) g.fits.page (omega arith))
        (λ p v. Holds-bind (write_row-Has p top _ _ v (omega arith) pop.row) (λ p' w.
          holds (record {
            fits = mark_dirty-Fits top (with_page-Fits p' g.fits w.page);
            bounded = record { parallel = pop.bounded.parallel; capped = pop.bounded.capped };
            wide = pop.wide;
          })))

  roll_down_rounds-Holding :
      (n top bottom : ℕ) (h : HistoryScreen)
      → Holding lines columns h
      → top ≤ bottom
      → bottom < lines
      → Holds (Holding lines columns) (roll_down_rounds n top bottom h)
  unfolding roll_down_rounds
  roll_down_rounds-Holding zero top bottom h g a b = holds g
  roll_down_rounds-Holding (suc n) top bottom h g a b =
      Holds-bind (roll_down-Holding h top bottom g a b)
        (λ h' k. roll_down_rounds-Holding n top bottom h' k a b)

  scroll_down_with_history-Holding :
      (h : HistoryScreen) (rows : ℕ)
      → Holding lines columns h
      → Holds (Holding lines columns) (scroll_down_with_history h rows)
  unfolding scroll_down_with_history
  scroll_down_with_history-Holding h rows g =
      let region = scroll_region_bounds g.fits in
      roll_down_rounds-Holding _ _ _ h g region.0 region.1

  moved-Holding :
      (h : HistoryScreen) (y : ℕ)
      → Holding lines columns h
      → y < lines
      → Holding lines columns (with_inner h (move_to h.inner 0 y))
  moved-Holding h y g k = record {
    fits = move_to-Fits 0 y g.fits (omega arith) k;
    bounded = record { parallel = g.bounded.parallel; capped = g.bounded.capped };
    wide = g.wide;
  }

  -- Scrolling any number of rows up or down, and an index or a reverse index, never panic on a
  -- screen with its history. They keep the size of the screen, and the history within its cap and as
  -- wide as the screen, whatever the margins and whether the history has rows to give back.
  pub scroll_with_history-Holding :
      (h : HistoryScreen) (rows : ℕ)
      → Holding lines columns h
      → Holds (Holding lines columns) (scroll_up_with_history h rows)
        × Holds (Holding lines columns) (scroll_down_with_history h rows)
        × Holds (Holding lines columns) (index_with_history h)
        × Holds (Holding lines columns) (reverse_index_with_history h)
  unfolding index_with_history reverse_index_with_history
  scroll_with_history-Holding h rows g = (
    scroll_up_with_history-Holding h rows g,
    scroll_down_with_history-Holding h rows g,
    indexes (scroll_region h.inner).1 (scroll_region_bounds g.fits).1,
    Holds-if (ltb (scroll_region h.inner).0 h.inner.cursor.y)
        (holds (moved-Holding h _ g (omega (arith, g.fits.cursor_y))))
        (scroll_down_with_history-Holding h 1 g),
  )
    where
      indexes :
          (bottom : ℕ)
          → bottom < lines
          → Holds (Holding lines columns) (
              if ltb h.inner.cursor.y bottom
              then some (with_inner h (move_to h.inner 0 (h.inner.cursor.y + 1)))
              else scroll_up_with_history h 1)
      indexes bottom k = elim (Bool-cases (ltb h.inner.cursor.y bottom)) [
        | inl room ↦ rw room (holds (moved-Holding h _ g (ground arith)))
        | inr full ↦ rw full (scroll_up_with_history-Holding h 1 g)
      ]
