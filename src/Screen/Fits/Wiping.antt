-- ===== src/Screen/Fits/Wiping.antt =====
-- Erasing in the line, of src/terminal/screen.rs: the cells and the wrap flag afterwards.
use stitch_pty.Prelude.{
  ℕ, ◌+◌, ◌-◌, ◌<◌, ◌≤◌, min, ◌≡◌, refl, ◌∙◌, Bool, false, ◌&&◌, ◌==◌, ltb, leb, if◌then◌else◌,
  some, length, get_elem?, arith,
}
use stitch_pty.Prelude.{
  Holds, holds, Holds-bind, Holds-map, length-set, get_elem?-set, set?-lt, Bool-cases, inl, inr,
}
use stitch_pty.Screen.State.{Char, Screen, erase_cell, move_to, mark_dirty}
use stitch_pty.Screen.Erase.{unwrap_row, erase_columns, erase_line_part, erase_in_line}
use stitch_pty.Screen.Grid.{read_cell}
use stitch_pty.Screen.Grid.Cells.{painted, fill_cells-Shows}
use stitch_pty.Screen.Fits.{Fits, move_to-Fits, mark_dirty-Fits}
use stitch_pty.Screen.Fits.Erasing.{with_rows-Fits}

-- `s'` is `s` with `c` at the cells of `area` and the wrap flags of the rows in `hard` cleared.
pub record Wipes (lines columns : ℕ) (area : ℕ → ℕ → Bool) (hard : ℕ → Bool) (c : Char)
    (s s' : Screen) : Type 0 where
  pub fits : Fits lines columns s'
  pub cells : (j i : ℕ) → read_cell s'.buffer j i ≡ painted area c s.buffer j i
  pub flags :
      (j : ℕ) → get_elem? s'.wrapped j ≡ (if hard j then some false else get_elem? s.wrapped j)
  pub same_row : s'.cursor.y ≡ s.cursor.y

-- The columns that `erase_in_line` erases.
abbrev pub line_area : ℕ → Screen → ℕ → Bool
line_area mode s i =
    if mode == 0
    then leb s.cursor.x i && ltb i s.columns
    else if mode == 1
    then leb i (min s.cursor.x (s.columns - 1))
    else ltb i s.columns

module _ {lines columns : ℕ} {s : Screen} (f : Fits lines columns s) where
  pub erase_columns-Wipes :
      (n x : ℕ)
      → x + n ≤ columns
      → Holds
          (Wipes lines columns
            (λ j i. j == s.cursor.y && leb x i && ltb i (x + n))
            (λ j. false)
            (erase_cell s)
            s)
          (erase_columns s n x)
  unfolding erase_columns
  erase_columns-Wipes n x h =
      Holds-bind (fill_cells-Shows (erase_cell s) n s.cursor.y x s.buffer f.page.grid f.cursor_y h)
        (λ b w. holds (record {
          fits = with_rows-Fits f b w.grid;
          cells = w.cells;
          flags = λ j. refl;
          same_row = refl;
        }))

  unwrap_row-Wipes :
      (c : Char)
      → Holds (Wipes lines columns (λ j i. false) (λ j. j == s.cursor.y) c s) (unwrap_row s)
  unwrap_row-Wipes c =
      let here : s.cursor.y < length s.wrapped = omega (arith, f.page.count, f.cursor_y) in
      rw (set?-lt s.wrapped s.cursor.y false here) (
        holds (record {
          fits = record {
            lines_eq = f.lines_eq;
            columns_eq = f.columns_eq;
            lines_pos = f.lines_pos;
            columns_pos = f.columns_pos;
            page = record {
              grid = f.page.grid;
              count = length-set s.wrapped s.cursor.y false ∙ f.page.count;
            };
            region = f.region;
            cursor_x = f.cursor_x;
            cursor_y = f.cursor_y;
            captured = f.captured;
          };
          cells = λ j i. refl;
          flags = λ j. get_elem?-set s.wrapped s.cursor.y j false here;
          same_row = refl;
        }))

module _ {lines columns : ℕ} {s : Screen} (f : Fits lines columns s) where
  erase_line_part-Wipes :
      (mode : ℕ)
      → Holds
          (Wipes lines columns
            (λ j i. j == s.cursor.y && line_area mode s i)
            (λ j. leb 2 mode && j == s.cursor.y)
            (erase_cell s)
            s)
          (erase_line_part s mode)
  unfolding erase_line_part
  erase_line_part-Wipes mode = elim (Bool-cases (mode == 0)) [
    | inl is0 ↦ rw is0 (
        Holds-map
          (erase_columns-Wipes f (s.columns - s.cursor.x) s.cursor.x
            (omega (arith, f.cursor_x, f.columns_eq)))
          (λ s1 w. record {
            fits = w.fits;
            cells = λ j i. ground (arith, w.cells j i, f.cursor_x, f.columns_eq);
            flags = λ j. ground (arith, w.flags j);
            same_row = w.same_row;
          }))
    | inr not0 ↦ elim (Bool-cases (mode == 1)) [
      | inl is1 ↦
          rw (not0, is1)
            (Holds-map
              (erase_columns-Wipes f (min s.cursor.x (s.columns - 1) + 1) 0
                (omega (arith, f.columns_pos, f.columns_eq)))
              (λ s1 w. record {
                fits = w.fits;
                cells = λ j i. ground (arith, w.cells j i);
                flags = λ j. ground (arith, w.flags j);
                same_row = w.same_row;
              }))
      | inr not1 ↦
          rw (not0, not1)
            (Holds-bind {f = unwrap_row}
              (erase_columns-Wipes f s.columns 0 (omega (arith, f.columns_eq)))
              (λ s1 w. Holds-map (unwrap_row-Wipes w.fits (erase_cell s)) (λ s2 u. record {
                fits = u.fits;
                cells = λ j i. ground (arith, w.cells j i, u.cells j i);
                flags = λ j. ground (arith, w.flags j, u.flags j, w.same_row);
                same_row = u.same_row ∙ w.same_row;
              })))
    ]
  ]

  -- `erase_in_line` never panics on a screen of the right shape, with the cursor waiting at the
  -- margin too. It puts the current blank at the cells of its area of the cursor's row (from the
  -- cursor, up to the cursor, or all of the row for any other mode) and at no other cell. It
  -- clears the wrap flag of that row in a mode above 1; in the modes 0 and 1 the flag stays, also
  -- where they erase the whole row. The cursor stays in its row.
  pub erase_in_line-Wipes :
      (mode : ℕ)
      → Holds
          (Wipes lines columns
            (λ j i. j == s.cursor.y && line_area mode s i)
            (λ j. leb 2 mode && j == s.cursor.y)
            (erase_cell s)
            s)
          (erase_in_line s mode)
  unfolding erase_in_line
  erase_in_line-Wipes mode = Holds-bind (erase_line_part-Wipes mode) (λ s1 w. holds (last s1 w))
    where
      last :
          (s1 : Screen)
          → Wipes lines columns
              (λ j i. j == s.cursor.y && line_area mode s i)
              (λ j. leb 2 mode && j == s.cursor.y)
              (erase_cell s)
              s
              s1
          → Wipes lines columns
              (λ j i. j == s.cursor.y && line_area mode s i)
              (λ j. leb 2 mode && j == s.cursor.y)
              (erase_cell s)
              s
              (let s2 = mark_dirty s1 s1.cursor.y in
                if mode == 0 then move_to s2 (min s2.cursor.x (s2.columns - 1)) s2.cursor.y else s2)
      last s1 w =
          let d = mark_dirty-Fits s1.cursor.y w.fits in
          elim (Bool-cases (mode == 0)) [
            | inl rest ↦ rw rest (record {
              fits = move_to-Fits _ _ d (omega (arith, w.fits.cursor_x)) w.fits.cursor_y;
              cells = rw rest at w.cells;
              flags = w.flags;
              same_row = w.same_row;
            })
            | inr other ↦ rw other (record {
              fits = d;
              cells = rw other at w.cells;
              flags = w.flags;
              same_row = w.same_row;
            })
          ]

module _ {lines columns : ℕ} {s : Screen} (f : Fits lines columns s) where
  pub erase_in_line-Fits : (mode : ℕ) → Holds (Fits lines columns) (erase_in_line s mode)
  erase_in_line-Fits mode = Holds-map (erase_in_line-Wipes f mode) (λ s' w. w.fits)
