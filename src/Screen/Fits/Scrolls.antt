-- ===== src/Screen/Fits/Scrolls.antt =====
-- `scroll_up` of src/terminal/screen.rs: the rows and the captured rows afterwards.
use stitch_pty.Prelude.{
  ℕ, zero, suc, ◌+◌, ◌-◌, ◌<◌, ◌≤◌, min, ◌≡◌, refl, ◌∙◌, Bool, true, false, not, ◌&&◌, ◌==◌, ltb,
  leb, if◌then◌else◌, some, [], ◌∷◌, length, get_elem?, arith,
}
use stitch_pty.Prelude.{
  Holds, holds, Holds-bind, Holds-map, length-append, length-replicate, get_elem?-lt,
  get_elem?-push,
}
use stitch_pty.Screen.State.{Row, Screen, full_row, erase_cell, scroll_region}
use stitch_pty.Screen.Scroll.{
  page_of, capture_row, scroll_up_round, scroll_up_rounds, no_margins, scroll_up,
}
use stitch_pty.Screen.Grid.Pages.{write_row-Has, raise_rows-Has}
use stitch_pty.Screen.Fits.{Fits, with_page-Fits, mark_dirty-Fits, scroll_region_bounds}

-- `s'` is `s` with the rows of the region moved up by `n`, blank rows in their place, and, where
-- `captures` holds, the rows that left the region appended to `scrolled_off`.
pub record UpBy (lines columns n : ℕ) (captures : Bool) (top bottom : ℕ) (spare : Row)
    (s s' : Screen) : Type 0 where
  pub fits : Fits lines columns s'
  pub rows :
      (j : ℕ)
      → get_elem? s'.buffer j ≡ (
          if leb top j && leb j bottom
          then (if leb (j + n) bottom then get_elem? s.buffer (j + n) else some spare)
          else get_elem? s.buffer j)
  pub flags :
      (j : ℕ)
      → get_elem? s'.wrapped j ≡ (
          if leb top j && leb j bottom
          then (if leb (j + n) bottom then get_elem? s.wrapped (j + n) else some false)
          else get_elem? s.wrapped j)
  pub captured :
      (k : ℕ)
      → get_elem? s'.scrolled_off k ≡ (
          if captures && leb (length s.scrolled_off) k && ltb k (length s.scrolled_off + n)
          then get_elem? s.buffer (top + (k - length s.scrolled_off))
          else get_elem? s.scrolled_off k)
  pub count : length s'.scrolled_off ≡ length s.scrolled_off + (if captures then n else 0)
  pub same_cursor : s'.cursor ≡ s.cursor
  pub same_margins : s'.margins ≡ s.margins

-- The part of a round before the rows move.
record Captured (lines columns : ℕ) (captures : Bool) (top : ℕ) (s s' : Screen) : Type 0 where
  fits : Fits lines columns s'
  same_rows : s'.buffer ≡ s.buffer
  same_flags : s'.wrapped ≡ s.wrapped
  off :
      (k : ℕ)
      → get_elem? s'.scrolled_off k ≡ (
          if captures && k == length s.scrolled_off
          then get_elem? s.buffer top
          else get_elem? s.scrolled_off k)
  count : length s'.scrolled_off ≡ length s.scrolled_off + (if captures then 1 else 0)
  same_cursor : s'.cursor ≡ s.cursor
  same_margins : s'.margins ≡ s.margins

capture_row-Captured :
    {lines columns : ℕ} (captures : Bool) (top : ℕ) (s : Screen)
    → top < lines
    → Fits lines columns s
    → Holds (Captured lines columns captures top s) (capture_row captures top s)
unfolding capture_row
capture_row-Captured false top s h f = holds (record {
  fits = f;
  same_rows = refl;
  same_flags = refl;
  off = λ k. refl;
  count = omega arith;
  same_cursor = refl;
  same_margins = refl;
})
capture_row-Captured true top s h f =
    let (row, e) = get_elem?-lt s.buffer top (omega (arith, f.page.grid.height)) in
    let (flag, e') = get_elem?-lt s.wrapped top (omega (arith, f.page.count)) in
    rw (e, e')
      (holds (record {
        fits = record {
          lines_eq = f.lines_eq;
          columns_eq = f.columns_eq;
          lines_pos = f.lines_pos;
          columns_pos = f.columns_pos;
          page = f.page;
          region = f.region;
          cursor_x = f.cursor_x;
          cursor_y = f.cursor_y;
          captured = omega (
            arith,
            f.captured,
            length-append s.scrolled_off (row ∷ []),
            length-append s.scrolled_off_wrapped (flag ∷ []),
          );
        };
        same_rows = refl;
        same_flags = refl;
        off = λ k. get_elem?-push s.scrolled_off row k ∙ rw e;
        count = length-append s.scrolled_off (row ∷ []);
        same_cursor = refl;
        same_margins = refl;
      }))

module _ {lines columns : ℕ} (captures : Bool) (top bottom : ℕ) (spare : Row)
    (inside : bottom < lines) (ordered : top ≤ bottom) (wide : length spare ≡ columns) where
  scroll_up_round-UpBy :
      (s : Screen)
      → Fits lines columns s
      → Holds
          (UpBy lines columns 1 captures top bottom spare s)
          (scroll_up_round captures top bottom spare s)
  unfolding scroll_up_round
  scroll_up_round-UpBy s f =
      Holds-bind (capture_row-Captured captures top s (omega arith) f) (λ s1 c.
        Holds-bind
          (raise_rows-Has (bottom - top) top spare (page_of s1) c.fits.page (omega arith) wide)
          (λ p1 r. Holds-bind (write_row-Has p1 bottom spare false r.page inside wide) (λ p2 w.
            holds (record {
              fits = mark_dirty-Fits bottom (with_page-Fits p2 c.fits w.page);
              rows = λ j. ground (arith, w.rows j, r.rows j, c.same_rows);
              flags = λ j. ground (arith, w.flags j, r.flags j, c.same_flags);
              captured = λ k. ground (arith, c.off k);
              count = c.count;
              same_cursor = c.same_cursor;
              same_margins = c.same_margins;
            }))))

  pub scroll_up_rounds-UpBy :
      (n : ℕ) (s : Screen)
      → n ≤ bottom - top + 1
      → Fits lines columns s
      → Holds
          (UpBy lines columns n captures top bottom spare s)
          (scroll_up_rounds n captures top bottom spare s)
  unfolding scroll_up_rounds
  scroll_up_rounds-UpBy zero s h f = holds (record {
    fits = f;
    rows = λ j. ground arith;
    flags = λ j. ground arith;
    captured = λ k. ground arith;
    count = ground arith;
    same_cursor = refl;
    same_margins = refl;
  })
  scroll_up_rounds-UpBy (suc n) s h f = Holds-bind (scroll_up_round-UpBy s f) (λ s1 o.
      Holds-map (scroll_up_rounds-UpBy n s1 (omega arith) o.fits) (λ s2 r. record {
        fits = r.fits;
        rows = λ j. ground (arith, r.rows j, o.rows j, o.rows (j + n));
        flags = λ j. ground (arith, r.flags j, o.flags j, o.flags (j + n));
        captured = λ k. ground (
          arith,
          r.captured k,
          o.captured k,
          o.count,
          o.rows (top + (k - length s1.scrolled_off)),
        );
        count = ground (arith, r.count, o.count);
        same_cursor = r.same_cursor ∙ o.same_cursor;
        same_margins = r.same_margins ∙ o.same_margins;
      }))

-- `scroll_up` never panics on a screen of the right shape. It moves the rows of the scroll region
-- up by `rows`, or by the height of the region if that is less, with blank rows in the current
-- colours in their place; the rows outside stay; and the rows that left are captured for the
-- history exactly when no margins are set and the primary screen is shown.
pub scroll_up-UpBy :
    {lines columns : ℕ} (s : Screen) (rows : ℕ)
    → Fits lines columns s
    → Holds
        (UpBy lines columns
          (min rows ((scroll_region s).1 - (scroll_region s).0 + 1))
          (no_margins s.margins && not s.alt_screen)
          (scroll_region s).0
          (scroll_region s).1
          (full_row s.columns (erase_cell s))
          s)
        (scroll_up s rows)
unfolding scroll_up
scroll_up-UpBy s rows f =
    let b = scroll_region_bounds f in
    scroll_up_rounds-UpBy _ _ _ _ b.1 b.0 (length-replicate s.columns (erase_cell s) ∙ f.columns_eq)
      _ s (omega arith) f

module _ {lines columns : ℕ} {s : Screen} (f : Fits lines columns s) where
  pub scroll_up-Fits : (rows : ℕ) → Holds (Fits lines columns) (scroll_up s rows)
  scroll_up-Fits rows = Holds-map (scroll_up-UpBy s rows f) (λ s' u. u.fits)
