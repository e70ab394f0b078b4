-- ===== src/Screen/Grid/Pages.antt =====
-- The loops over rows and their wrap flags in src/terminal/screen.rs, as later reads see them.
use stitch_pty.Prelude.{
  ℕ, zero, suc, ◌+◌, ◌-◌, ◌<◌, ◌≤◌, ◌≡◌, ◌∙◌, Bool, false, ◌&&◌, ◌==◌, ltb, leb, if◌then◌else◌,
  Option, some, length, get_elem?, set, arith, Holds, holds, Holds-bind, Holds-map, length-set,
  get_elem?-lt, get_elem?-set, set?-lt,
}
use stitch_pty.Screen.State.{Char, Row}
use stitch_pty.Screen.Grid.{
  Page, read_cell, write_row, move_row, raise_rows, spread_rows, copy_row, lower_rows, fill_rows,
}
use stitch_pty.Screen.Grid.Cells.{IsGrid, IsGrid-row, IsGrid-set, painted, fill_cells-Shows}

-- A grid with a flag for each row.
pub record IsPage (lines columns : ℕ) (p : Page) : Type 0 where
  pub grid : IsGrid lines columns p.rows
  pub count : length p.flags ≡ lines

-- A page whose rows and flags are those of the two views.
pub record Has (lines columns : ℕ) (row : ℕ → Option Row) (flag : ℕ → Option Bool) (p : Page)
    : Type 0 where
  pub page : IsPage lines columns p
  pub rows : (j : ℕ) → get_elem? p.rows j ≡ row j
  pub flags : (j : ℕ) → get_elem? p.flags j ≡ flag j

module _ {lines columns : ℕ} where
  pub write_row-Has :
      (p : Page) (y : ℕ) (row : Row) (flag : Bool)
      → IsPage lines columns p
      → y < lines
      → length row ≡ columns
      → Holds
          (Has lines columns
            (λ j. if j == y then some row else get_elem? p.rows j)
            (λ j. if j == y then some flag else get_elem? p.flags j))
          (write_row p y row flag)
  unfolding write_row
  write_row-Has p y row flag v h w =
      let in_rows : y < length p.rows = omega (arith, v.grid.height) in
      let in_flags : y < length p.flags = omega (arith, v.count) in
      rw (set?-lt p.rows y row in_rows, set?-lt p.flags y flag in_flags)
        (holds (record {
          page = record {
            grid = IsGrid-set v.grid y row w;
            count = length-set p.flags y flag ∙ v.count;
          };
          rows = λ j. get_elem?-set p.rows y j row in_rows;
          flags = λ j. get_elem?-set p.flags y j flag in_flags;
        }))

  pub copy_row-Has :
      (p : Page) (to from : ℕ)
      → IsPage lines columns p
      → to < lines
      → from < lines
      → Holds
          (Has lines columns
            (λ j. if j == to then get_elem? p.rows from else get_elem? p.rows j)
            (λ j. if j == to then get_elem? p.flags from else get_elem? p.flags j))
          (copy_row p to from)
  unfolding copy_row
  copy_row-Has p to from v ht hf =
      let (row, e, w) = IsGrid-row v.grid from hf in
      let (flag, f) = get_elem?-lt p.flags from (omega (arith, v.count)) in
      rw (e, f) (write_row-Has p to row flag v ht w)

  move_row-Has :
      (p : Page) (to from : ℕ) (spare : Row)
      → IsPage lines columns p
      → to < lines
      → from < lines
      → length spare ≡ columns
      → Holds
          (Has lines columns
            (λ j.
              if j == to
              then get_elem? p.rows from
              else if j == from
              then some spare
              else get_elem? p.rows j)
            (λ j. if j == to then get_elem? p.flags from else get_elem? p.flags j))
          (move_row p to from spare)
  unfolding move_row
  move_row-Has p to from spare v ht hf ws =
      let (row, e, w) = IsGrid-row v.grid from hf in
      let (flag, f) = get_elem?-lt p.flags from (omega (arith, v.count)) in
      let in_rows : from < length p.rows = omega (arith, v.grid.height) in
      let p1 : Page = record { rows = set p.rows from spare; flags = p.flags } in
      let v1 : IsPage lines columns p1 = record {
        grid = IsGrid-set v.grid from spare ws;
        count = v.count;
      } in
      rw (e, f, set?-lt p.rows from spare in_rows)
        (Holds-map (write_row-Has p1 to row flag v1 ht w) (λ p2 r. record {
          page = r.page;
          rows = λ j. ground (arith, r.rows j, get_elem?-set p.rows from j spare in_rows);
          flags = r.flags;
        }))

  -- The rows `y..y + n` take the rows below them, and the last one taken is left `spare`.
  pub raise_rows-Has :
      (n y : ℕ) (spare : Row) (p : Page)
      → IsPage lines columns p
      → y + n < lines
      → length spare ≡ columns
      → Holds
          (Has lines columns
            (λ j.
              if leb y j && ltb j (y + n)
              then get_elem? p.rows (j + 1)
              else if j == y + n && ltb 0 n
              then some spare
              else get_elem? p.rows j)
            (λ j.
              if leb y j && ltb j (y + n) then get_elem? p.flags (j + 1) else get_elem? p.flags j))
          (raise_rows n y spare p)
  unfolding raise_rows
  raise_rows-Has zero y spare p v h w =
      holds (record { page = v; rows = λ j. ground arith; flags = λ j. ground arith })
  raise_rows-Has (suc n) y spare p v h w =
      Holds-bind (move_row-Has p y (y + 1) spare v (omega arith) (omega arith) w) (λ p1 m.
        Holds-map (raise_rows-Has n (y + 1) spare p1 m.page (omega arith) w) (λ p2 r. record {
          page = r.page;
          rows = λ j. ground (arith, r.rows j, m.rows j, m.rows (j + 1));
          flags = λ j. ground (arith, r.flags j, m.flags j, m.flags (j + 1));
        }))

  -- The rows below `y`, up to `y + n`, take the rows above them.
  pub lower_rows-Has :
      (n y : ℕ) (p : Page)
      → IsPage lines columns p
      → y + n < lines
      → Holds
          (Has lines columns
            (λ j. if ltb y j && leb j (y + n) then get_elem? p.rows (j - 1) else get_elem? p.rows j)
            (λ j.
              if ltb y j && leb j (y + n) then get_elem? p.flags (j - 1) else get_elem? p.flags j))
          (lower_rows n y p)
  unfolding lower_rows
  lower_rows-Has zero y p v h =
      holds (record { page = v; rows = λ j. ground arith; flags = λ j. ground arith })
  lower_rows-Has (suc n) y p v h =
      Holds-bind (copy_row-Has p (y + n + 1) (y + n) v (omega arith) (omega arith)) (λ p1 m.
        Holds-map (lower_rows-Has n y p1 m.page (omega arith)) (λ p2 r. record {
          page = r.page;
          rows = λ j. ground (arith, r.rows j, m.rows j, m.rows (j - 1));
          flags = λ j. ground (arith, r.flags j, m.flags j, m.flags (j - 1));
        }))

  -- The ascending loop carries the row `y` down to `y + n`, and leaves `spare` in every row that
  -- it passes; the flag of row `y` is copied to all of them.
  pub spread_rows-Has :
      (n y : ℕ) (spare : Row) (p : Page)
      → IsPage lines columns p
      → y + n < lines
      → length spare ≡ columns
      → Holds
          (Has lines columns
            (λ j.
              if leb y j && ltb j (y + n)
              then some spare
              else if j == y + n
              then get_elem? p.rows y
              else get_elem? p.rows j)
            (λ j. if leb y j && leb j (y + n) then get_elem? p.flags y else get_elem? p.flags j))
          (spread_rows n y spare p)
  unfolding spread_rows
  spread_rows-Has zero y spare p v h w =
      holds (record { page = v; rows = λ j. ground arith; flags = λ j. ground arith })
  spread_rows-Has (suc n) y spare p v h w =
      Holds-bind (move_row-Has p (y + 1) y spare v (omega arith) (omega arith) w) (λ p1 m.
        Holds-map (spread_rows-Has n (y + 1) spare p1 m.page (omega arith) w) (λ p2 r. record {
          page = r.page;
          rows = λ j. ground (arith, r.rows j, m.rows j, m.rows (y + 1));
          flags = λ j. ground (arith, r.flags j, m.flags j, m.flags (y + 1));
        }))

  -- Whole rows are painted, and their flags cleared.
  pub fill_rows-Shows :
      (n y w : ℕ) (c : Char) (p : Page)
      → IsPage lines columns p
      → w ≡ columns
      → y + n ≤ lines
      → Holds
          (λ p'.
            IsPage lines columns p'
            × ((j i : ℕ)
                → read_cell p'.rows j i
                  ≡ painted (λ j i. leb y j && ltb j (y + n) && ltb i columns) c p.rows j i)
            × ((j : ℕ)
                → get_elem? p'.flags j
                  ≡ (if leb y j && ltb j (y + n) then some false else get_elem? p.flags j)))
          (fill_rows n y w c p)
  unfolding fill_rows
  fill_rows-Shows zero y w c p v e h = holds (v, λ j i. ground arith, λ j. ground arith)
  fill_rows-Shows (suc n) y w c p v e h =
      Holds-bind (fill_cells-Shows c w y 0 p.rows v.grid (omega arith) (omega arith)) (λ b1 q.
        let in_flags : y < length p.flags = omega (arith, v.count) in
        let p1 : Page = record { rows = b1; flags = set p.flags y false } in
        let v1 : IsPage lines columns p1 = record {
          grid = q.grid;
          count = length-set p.flags y false ∙ v.count;
        } in
        rw (set?-lt p.flags y false in_flags) (
          Holds-map (fill_rows-Shows n (y + 1) w c p1 v1 e (omega arith)) (λ p2 r. (
            r.0,
            λ j i. ground (arith, r.1 j i, q.cells j i),
            λ j. ground (arith, r.2 j, get_elem?-set p.flags y j false in_flags),
          ))))
