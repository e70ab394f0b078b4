-- ===== src/Screen/Fits/Clearing.antt =====
-- Erasing in the display, of src/terminal/screen.rs: the cells and the wrap flags afterwards.
use stitch_pty.Prelude.{
  ℕ, zero, suc, ◌+◌, ◌-◌, ◌≤◌, min, refl, Bool, ◌&&◌, ◌||◌, ◌==◌, ltb, leb, if◌then◌else◌, arith,
}
use stitch_pty.Prelude.{Holds, holds, Holds-bind, Holds-map, Bool-cases, inl, inr}
use stitch_pty.Screen.State.{Char, Screen, erase_cell, scroll_region, mark_dirty}
use stitch_pty.Screen.Grid.Cells.{fill_cells-Shows}
use stitch_pty.Screen.Grid.Pages.{fill_rows-Shows}
use stitch_pty.Screen.Scroll.{page_of, with_page}
use stitch_pty.Screen.Erase.{
  with_rows, erase_rows, erase_below, erase_above, erase_region, erase_in_display,
}
use stitch_pty.Screen.Fits.{Fits, with_page-Fits, mark_dirty-Fits, scroll_region_bounds}
use stitch_pty.Screen.Fits.Erasing.{with_rows-Fits}
use stitch_pty.Screen.Fits.Wiping.{Wipes}

-- Whole rows, one after the other.
erase_rows-Wipes :
    {lines columns : ℕ} (c : Char) (n y : ℕ) (s : Screen)
    → Fits lines columns s
    → y + n ≤ lines
    → Holds
        (Wipes lines columns
          (λ j i. leb y j && ltb j (y + n) && ltb i columns)
          (λ j. leb y j && ltb j (y + n))
          c
          s)
        (erase_rows n y c s)
unfolding erase_rows
erase_rows-Wipes c zero y s f h =
    holds
      (record { fits = f; cells = λ j i. ground arith; flags = λ j. ground arith; same_row = refl })
erase_rows-Wipes c (suc n) y s f h =
    Holds-bind (fill_rows-Shows 1 y s.columns c (page_of s) f.page f.columns_eq (omega arith))
      (λ p r.
        Holds-map
          (erase_rows-Wipes c n (y + 1) (mark_dirty (with_page s p) y)
            (mark_dirty-Fits y (with_page-Fits p f r.0)) (omega arith))
          (λ s1 w. record {
            fits = w.fits;
            cells = λ j i. ground (arith, w.cells j i, r.1 j i);
            flags = λ j. ground (arith, w.flags j, r.2 j);
            same_row = w.same_row;
          }))

-- The cells that `erase_in_display` erases, and the rows among them that it erases as a whole.
abbrev pub display_area : ℕ → Screen → ℕ → ℕ → Bool
display_area mode s j i =
    let (top, bottom) = scroll_region s in
    if mode == 0
    then j == s.cursor.y && leb s.cursor.x i && ltb i s.columns
      || ltb s.cursor.y j && leb j bottom && ltb i s.columns
    else if mode == 1
    then j == s.cursor.y && leb i (min s.cursor.x (s.columns - 1))
      || leb top j && ltb j s.cursor.y && ltb i s.columns
    else ltb mode 4 && leb top j && leb j bottom && ltb i s.columns

abbrev pub display_rows : ℕ → Screen → ℕ → Bool
display_rows mode s j =
    let (top, bottom) = scroll_region s in
    if mode == 0
    then ltb s.cursor.y j && leb j bottom
    else if mode == 1
    then leb top j && ltb j s.cursor.y
    else ltb mode 4 && leb top j && leb j bottom

module _ {lines columns : ℕ} {s : Screen} (f : Fits lines columns s) where
  erase_region-Wipes :
      Holds
        (Wipes lines columns
          (λ j i. leb (scroll_region s).0 j && leb j (scroll_region s).1 && ltb i s.columns)
          (λ j. leb (scroll_region s).0 j && leb j (scroll_region s).1)
          (erase_cell s)
          s)
        (erase_region s)
  unfolding erase_region
  erase_region-Wipes =
      let b = scroll_region_bounds f in
      Holds-map
        (erase_rows-Wipes (erase_cell s) ((scroll_region s).1 + 1 - (scroll_region s).0)
          (scroll_region s).0 s f (omega (arith, b.0, b.1)))
        (λ s1 r. record {
          fits = r.fits;
          cells = λ j i. ground (arith, r.cells j i, f.columns_eq, b.0);
          flags = λ j. ground (arith, r.flags j, b.0);
          same_row = r.same_row;
        })

  erase_below-Wipes :
      Holds
        (Wipes lines columns (display_area 0 s) (display_rows 0 s) (erase_cell s) s)
        (erase_below s)
  unfolding erase_below
  erase_below-Wipes =
      let b = scroll_region_bounds f in
      Holds-bind
        (fill_cells-Shows (erase_cell s) (s.columns - s.cursor.x) s.cursor.y s.cursor.x s.buffer
          f.page.grid f.cursor_y (omega (arith, f.cursor_x, f.columns_eq)))
        (λ rows w.
          Holds-map
            (erase_rows-Wipes (erase_cell s) ((scroll_region s).1 - s.cursor.y) (s.cursor.y + 1)
              (mark_dirty (with_rows s rows) s.cursor.y)
              (mark_dirty-Fits s.cursor.y (with_rows-Fits f rows w.grid))
              (omega (arith, b.1, f.cursor_y)))
            (λ s1 r. record {
              fits = r.fits;
              cells = λ j i. ground (arith, r.cells j i, w.cells j i, f.cursor_x, f.columns_eq);
              flags = λ j. ground (arith, r.flags j);
              same_row = r.same_row;
            }))

  erase_above-Wipes :
      Holds
        (Wipes lines columns (display_area 1 s) (display_rows 1 s) (erase_cell s) s)
        (erase_above s)
  unfolding erase_above
  erase_above-Wipes =
      let b = scroll_region_bounds f in
      let y = s.cursor.y in
      Holds-bind
        (erase_rows-Wipes (erase_cell s) (y - (scroll_region s).0) (scroll_region s).0 s f
          (omega (arith, b.0, b.1, f.cursor_y)))
        (λ s1 r.
          Holds-bind
            (fill_cells-Shows (erase_cell s) (min s.cursor.x (s.columns - 1) + 1) y 0 s1.buffer
              r.fits.page.grid f.cursor_y (omega (arith, f.columns_pos, f.columns_eq)))
            (λ rows w. holds (record {
              fits = mark_dirty-Fits y (with_rows-Fits r.fits rows w.grid);
              cells = λ j i. ground (arith, r.cells j i, w.cells j i, f.columns_eq);
              flags = λ j. ground (arith, r.flags j);
              same_row = r.same_row;
            })))

  -- `erase_in_display` never panics on a screen of the right shape. Mode 0 erases from the cursor
  -- to the end of the scroll region, mode 1 from the head of the region to the cursor, modes 2 and
  -- 3 the region, and any other mode nothing; no other cell changes, and exactly the rows erased
  -- as whole rows get their wrap flag cleared.
  pub erase_in_display-Wipes :
      (mode : ℕ)
      → Holds
          (Wipes lines columns (display_area mode s) (display_rows mode s) (erase_cell s) s)
          (erase_in_display s mode)
  unfolding erase_in_display
  erase_in_display-Wipes mode = elim (Bool-cases (mode == 0)) [
    | inl is0 ↦ rw is0 (
        Holds-map erase_below-Wipes (λ s1 r. record {
          fits = r.fits;
          cells = λ j i. ground (arith, r.cells j i);
          flags = λ j. ground (arith, r.flags j);
          same_row = r.same_row;
        }))
    | inr not0 ↦ elim (Bool-cases (mode == 1)) [
      | inl is1 ↦
          rw (not0, is1)
            (Holds-map erase_above-Wipes (λ s1 r. record {
              fits = r.fits;
              cells = λ j i. ground (arith, r.cells j i);
              flags = λ j. ground (arith, r.flags j);
              same_row = r.same_row;
            }))
      | inr not1 ↦ elim (Bool-cases (mode == 2 || mode == 3)) [
        | inl whole ↦
            rw (not0, not1, whole)
              (Holds-map erase_region-Wipes (λ s1 r. record {
                fits = r.fits;
                cells = λ j i. ground (arith, r.cells j i);
                flags = λ j. ground (arith, r.flags j);
                same_row = r.same_row;
              }))
        | inr other ↦
            rw (not0, not1, other)
              (holds (record {
                fits = f;
                cells = λ j i. ground arith;
                flags = λ j. ground arith;
                same_row = refl;
              }))
      ]
    ]
  ]

  pub erase_in_display-Fits : (mode : ℕ) → Holds (Fits lines columns) (erase_in_display s mode)
  erase_in_display-Fits mode = Holds-map (erase_in_display-Wipes mode) (λ s' w. w.fits)
