-- ===== src/Screen/Fits/Lines.antt =====
-- `scroll_down`, `insert_lines` and `delete_lines` of src/terminal/screen.rs: the rows afterwards.
use stitch_pty.Prelude.{
  ℕ, zero, suc, ◌+◌, ◌-◌, ◌<◌, ◌≤◌, min, max, ◌≡◌, ◌∙◌, Bool, false, ◌&&◌, ◌==◌, ltb, leb,
  if◌then◌else◌, Option, some, length, get_elem?, arith,
}
use stitch_pty.Prelude.{Holds, holds, Holds-bind, Holds-map, length-replicate, Bool-cases, inl, inr}
use stitch_pty.Screen.State.{Row, Screen, full_row, erase_cell, scroll_region, mark_dirty}
use stitch_pty.Screen.Scroll.{
  page_of, with_page, scroll_down_round, scroll_down_rounds, scroll_down, insert_lines_rounds,
  outside_region, insert_lines, delete_lines_rounds, delete_lines,
}
use stitch_pty.Screen.Grid.Pages.{write_row-Has, raise_rows-Has, lower_rows-Has, spread_rows-Has}
use stitch_pty.Screen.Fits.{
  Fits, with_page-Fits, move_to-Fits, mark_dirty-Fits, scroll_region_bounds,
}

-- A screen whose rows and wrap flags are those of the two views.
pub record Shifts (lines columns : ℕ) (row : ℕ → Option Row) (flag : ℕ → Option Bool) (s' : Screen)
    : Type 0 where
  pub fits : Fits lines columns s'
  pub rows : (j : ℕ) → get_elem? s'.buffer j ≡ row j
  pub flags : (j : ℕ) → get_elem? s'.wrapped j ≡ flag j

-- The rows and flags that one round of `scroll_down` leaves.
abbrev pub down_row : ℕ → ℕ → Row → Screen → ℕ → Option Row
down_row top bottom spare s j =
    if j == top
    then some spare
    else if leb top j && ltb j bottom
    then some spare
    else if j == bottom
    then get_elem? s.buffer top
    else get_elem? s.buffer j

abbrev pub down_flag : ℕ → ℕ → Screen → ℕ → Option Bool
down_flag top bottom s j =
    if j == top
    then some false
    else if leb top j && leb j bottom
    then get_elem? s.wrapped top
    else get_elem? s.wrapped j

module _ {lines columns : ℕ} (top bottom : ℕ) (spare : Row) (inside : bottom < lines)
    (ordered : top ≤ bottom) (wide : length spare ≡ columns) where
  scroll_down_round-Shifts :
      (s : Screen)
      → Fits lines columns s
      → Holds
          (Shifts lines columns (down_row top bottom spare s) (down_flag top bottom s))
          (scroll_down_round top bottom spare s)
  unfolding scroll_down_round
  scroll_down_round-Shifts s f =
      Holds-bind (spread_rows-Has (bottom - top) top spare (page_of s) f.page (omega arith) wide)
        (λ p1 r. Holds-bind (write_row-Has p1 top spare false r.page (omega arith) wide) (λ p2 w.
          holds (record {
            fits = mark_dirty-Fits top (with_page-Fits p2 f w.page);
            rows = λ j. ground (arith, w.rows j, r.rows j);
            flags = λ j. ground (arith, w.flags j, r.flags j);
          })))

  scroll_down_rounds-Fits :
      (n : ℕ) (s : Screen)
      → Fits lines columns s
      → Holds (Fits lines columns) (scroll_down_rounds n top bottom spare s)
  unfolding scroll_down_rounds
  scroll_down_rounds-Fits zero s f = holds f
  scroll_down_rounds-Fits (suc n) s f =
      Holds-bind (scroll_down_round-Shifts s f) (λ s1 o. scroll_down_rounds-Fits n s1 o.fits)

  scroll_down_once :
      (s : Screen)
      → Fits lines columns s
      → Holds
          (Shifts lines columns (down_row top bottom spare s) (down_flag top bottom s))
          (scroll_down_rounds 1 top bottom spare s)
  unfolding scroll_down_rounds
  scroll_down_once s f = Holds-bind (scroll_down_round-Shifts s f) (λ s1 o. holds o)

module _ {lines columns : ℕ} (y bottom : ℕ) (spare : Row) (inside : bottom < lines)
    (wide : length spare ≡ columns) where
  pub insert_lines_rounds-Shifts :
      (n : ℕ) (s : Screen)
      → y + n ≤ bottom
      → Fits lines columns s
      → Holds
          (Shifts lines columns
            (λ j.
              if leb y j && leb j bottom
              then (if ltb j (y + n) then some spare else get_elem? s.buffer (j - n))
              else get_elem? s.buffer j)
            (λ j.
              if leb y j && leb j bottom
              then (if ltb j (y + n) then some false else get_elem? s.wrapped (j - n))
              else get_elem? s.wrapped j))
          (insert_lines_rounds n y bottom spare s)
  unfolding insert_lines_rounds
  insert_lines_rounds-Shifts zero s h f =
      holds (record { fits = f; rows = λ j. ground arith; flags = λ j. ground arith })
  insert_lines_rounds-Shifts (suc n) s h f =
      Holds-bind (lower_rows-Has (bottom - y) y (page_of s) f.page (omega arith)) (λ p1 r.
        Holds-bind (write_row-Has p1 y spare false r.page (omega arith) wide) (λ p2 w.
          Holds-map
            (insert_lines_rounds-Shifts n (mark_dirty (with_page s p2) y) (omega arith)
              (mark_dirty-Fits y (with_page-Fits p2 f w.page)))
            (λ s2 t. record {
              fits = t.fits;
              rows =
                  λ j. ground (arith, t.rows j, w.rows (j - n), r.rows (j - n), w.rows j, r.rows j);
              flags = λ j.
                  ground (arith, t.flags j, w.flags (j - n), r.flags (j - n), w.flags j, r.flags j);
            })))

  pub delete_lines_rounds-Shifts :
      (n : ℕ) (s : Screen)
      → y + n ≤ bottom
      → Fits lines columns s
      → Holds
          (Shifts lines columns
            (λ j.
              if leb y j && leb j bottom
              then (if leb (j + n) bottom then get_elem? s.buffer (j + n) else some spare)
              else get_elem? s.buffer j)
            (λ j.
              if leb y j && leb j bottom
              then (if leb (j + n) bottom then get_elem? s.wrapped (j + n) else some false)
              else get_elem? s.wrapped j))
          (delete_lines_rounds n y bottom spare s)
  unfolding delete_lines_rounds
  delete_lines_rounds-Shifts zero s h f =
      holds (record { fits = f; rows = λ j. ground arith; flags = λ j. ground arith })
  delete_lines_rounds-Shifts (suc n) s h f =
      Holds-bind (raise_rows-Has (bottom - y) y spare (page_of s) f.page (omega arith) wide)
        (λ p1 r. Holds-bind (write_row-Has p1 bottom spare false r.page inside wide) (λ p2 w.
          Holds-map
            (delete_lines_rounds-Shifts n (mark_dirty (with_page s p2) y) (omega arith)
              (mark_dirty-Fits y (with_page-Fits p2 f w.page)))
            (λ s2 t. record {
              fits = t.fits;
              rows =
                  λ j. ground (arith, t.rows j, w.rows (j + n), r.rows (j + n), w.rows j, r.rows j);
              flags = λ j.
                  ground (arith, t.flags j, w.flags (j + n), r.flags (j + n), w.flags j, r.flags j);
            })))

module _ {lines columns : ℕ} (s : Screen) (f : Fits lines columns s) where
  spare_wide : length (full_row s.columns (erase_cell s)) ≡ columns
  spare_wide = length-replicate s.columns (erase_cell s) ∙ f.columns_eq

  pub scroll_down-Fits : (rows : ℕ) → Holds (Fits lines columns) (scroll_down s rows)
  unfolding scroll_down
  scroll_down-Fits rows =
      let b = scroll_region_bounds f in scroll_down_rounds-Fits _ _ _ b.1 b.0 spare_wide _ s f

  -- `scroll_down` by one row never panics on a screen of the right shape. The row at the head of
  -- the region ends up in its last row, and every row above that one is blank: the rows between
  -- are lost, where scrolling by one should have moved each row down by one.
  pub scroll_down-Shifts :
      Holds
        (Shifts lines columns
          (down_row (scroll_region s).0 (scroll_region s).1 (full_row s.columns (erase_cell s)) s)
          (down_flag (scroll_region s).0 (scroll_region s).1 s))
        (scroll_down s 1)
  unfolding scroll_down
  scroll_down-Shifts =
      let b = scroll_region_bounds f in
      let one : min 1 ((scroll_region s).1 - (scroll_region s).0 + 1) ≡ 1 = omega arith in
      rw one (scroll_down_once _ _ _ b.1 b.0 spare_wide s f)

  -- The number of lines that `insert_lines` and `delete_lines` move.
  abbrev pub moved_lines : ℕ → ℕ
  moved_lines count = min (max count 1) ((scroll_region s).1 - s.cursor.y)

  -- `insert_lines` with the cursor in the scroll region never panics on a screen of the right
  -- shape: the rows from the cursor's down to the end of the region move down, blank rows in the
  -- current colours stand in their place, and all other rows stay. The rows moved are `count`, or
  -- 1 for 0, but at most the distance to the last row of the region.
  pub insert_lines-Shifts :
      (count : ℕ)
      → outside_region s ≡ false
      → Holds
          (Shifts lines columns
            (λ j.
              if leb s.cursor.y j && leb j (scroll_region s).1
              then (if ltb j (s.cursor.y + moved_lines count)
                  then some (full_row s.columns (erase_cell s))
                  else get_elem? s.buffer (j - moved_lines count))
              else get_elem? s.buffer j)
            (λ j.
              if leb s.cursor.y j && leb j (scroll_region s).1
              then (if ltb j (s.cursor.y + moved_lines count)
                  then some false
                  else get_elem? s.wrapped (j - moved_lines count))
              else get_elem? s.wrapped j))
          (insert_lines s count)
  unfolding insert_lines
  insert_lines-Shifts count h =
      let b = scroll_region_bounds f in
      let y_in : s.cursor.y ≤ (scroll_region s).1 = ground arith in
      rw h (
        Holds-bind
          (insert_lines_rounds-Shifts _ _ _ b.1 spare_wide (moved_lines count) s (omega arith) f)
          (λ s1 t. holds (record {
            fits = move_to-Fits 0 s1.cursor.y t.fits (omega arith) t.fits.cursor_y;
            rows = t.rows;
            flags = t.flags;
          })))

  -- `delete_lines` with the cursor in the scroll region never panics on a screen of the right
  -- shape: the rows below move up to the cursor's row, blank rows in the current colours stand at
  -- the end of the region, and all other rows stay. The number is as for `insert_lines`.
  pub delete_lines-Shifts :
      (count : ℕ)
      → outside_region s ≡ false
      → Holds
          (Shifts lines columns
            (λ j.
              if leb s.cursor.y j && leb j (scroll_region s).1
              then (if leb (j + moved_lines count) (scroll_region s).1
                  then get_elem? s.buffer (j + moved_lines count)
                  else some (full_row s.columns (erase_cell s)))
              else get_elem? s.buffer j)
            (λ j.
              if leb s.cursor.y j && leb j (scroll_region s).1
              then (if leb (j + moved_lines count) (scroll_region s).1
                  then get_elem? s.wrapped (j + moved_lines count)
                  else some false)
              else get_elem? s.wrapped j))
          (delete_lines s count)
  unfolding delete_lines
  delete_lines-Shifts count h =
      let b = scroll_region_bounds f in
      let y_in : s.cursor.y ≤ (scroll_region s).1 = ground arith in
      rw h (
        Holds-bind
          (delete_lines_rounds-Shifts _ _ _ b.1 spare_wide (moved_lines count) s (omega arith) f)
          (λ s1 t. holds (record {
            fits = move_to-Fits 0 s1.cursor.y t.fits (omega arith) t.fits.cursor_y;
            rows = t.rows;
            flags = t.flags;
          })))

  pub insert_lines-Fits : (count : ℕ) → Holds (Fits lines columns) (insert_lines s count)
  insert_lines-Fits count = elim (Bool-cases (outside_region s)) [
    | inl out ↦ unfold insert_lines in rw out (holds f)
    | inr here ↦ Holds-map (insert_lines-Shifts count here) (λ s' t. t.fits)
  ]

  pub delete_lines-Fits : (count : ℕ) → Holds (Fits lines columns) (delete_lines s count)
  delete_lines-Fits count = elim (Bool-cases (outside_region s)) [
    | inl out ↦ unfold delete_lines in rw out (holds f)
    | inr here ↦ Holds-map (delete_lines-Shifts count here) (λ s' t. t.fits)
  ]
