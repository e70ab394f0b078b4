-- ===== src/Screen/Grid/Cells.antt =====
-- The loops over cells in src/terminal/screen.rs, as later reads see them.
use stitch_pty.Prelude.{
  ℕ, zero, suc, ◌+◌, ◌-◌, ◌<◌, ◌≤◌, ◌≡◌, ◌∙◌, Bool, ◌&&◌, ◌==◌, ltb, leb, if◌then◌else◌, Option,
  some, length, get_elem?, set, arith, Holds, holds, Holds-bind, Holds-map, All, All-set,
  All-get_elem?, length-set, get_elem?-lt, get_elem?-set, set?-lt, Bool-cases, inl, inr, ==→≡,
}
use stitch_pty.Screen.State.{Char, Row, Rows}
use stitch_pty.Screen.Grid.{read_cell, write_cell, fill_cells, copy_cell, pull_cells, push_cells}

-- `lines` rows of `columns` cells each.
pub record IsGrid (lines columns : ℕ) (b : Rows) : Type 0 where
  pub height : length b ≡ lines
  pub width : All (λ row. length row ≡ columns) b

module _ {lines columns : ℕ} {b : Rows} (g : IsGrid lines columns b) where
  pub IsGrid-row :
      (y : ℕ) → y < lines → (row : Row) × (get_elem? b y ≡ some row) × (length row ≡ columns)
  IsGrid-row y h =
      let (row, e) = get_elem?-lt b y (omega (arith, g.height)) in
      (row, e, All-get_elem? _ b y row g.width e)

  pub IsGrid-set : (y : ℕ) (row : Row) → length row ≡ columns → IsGrid lines columns (set b y row)
  IsGrid-set y row e = record {
    height = length-set b y row ∙ g.height;
    width = All-set _ b y row g.width e;
  }

-- A grid whose cells are those of `view`.
pub record Shows (lines columns : ℕ) (view : ℕ → ℕ → Option Char) (b : Rows) : Type 0 where
  pub grid : IsGrid lines columns b
  pub cells : (j i : ℕ) → read_cell b j i ≡ view j i

-- The view of `b` with `c` at the cells of `area`.
abbrev pub painted : (ℕ → ℕ → Bool) → Char → Rows → ℕ → ℕ → Option Char
painted area c b j i = if area j i then some c else read_cell b j i

read_cell-set :
    (b : Rows) (y x : ℕ) (row : Row) (c : Char)
    → y < length b
    → x < length row
    → get_elem? b y ≡ some row
    → (j i : ℕ)
    → read_cell (set b y (set row x c)) j i ≡ (if j == y && i == x then some c else read_cell b j i)
unfolding read_cell
read_cell-set b y x row c hy hx e j i = elim (Bool-cases (j == y)) [
  | inl same ↦
      let at_y : get_elem? b j ≡ some row = rw (==→≡ j y same) e in
      rw (get_elem?-set b y j (set row x c) hy, same, at_y) (get_elem?-set row x i c hx)
  | inr other ↦ rw (get_elem?-set b y j (set row x c) hy, other)
]

module _ {lines columns : ℕ} where
  pub write_cell-Shows :
      (c : Char) (b : Rows) (y x : ℕ)
      → IsGrid lines columns b
      → y < lines
      → x < columns
      → Holds (Shows lines columns (painted (λ j i. j == y && i == x) c b)) (write_cell b y x c)
  unfolding write_cell
  write_cell-Shows c b y x g hy hx =
      let (row, e, w) = IsGrid-row g y hy in
      let in_b : y < length b = omega (arith, g.height) in
      let in_row : x < length row = omega arith in
      rw (e, set?-lt row x c in_row, set?-lt b y (set row x c) in_b)
        (holds (record {
          grid = IsGrid-set g y (set row x c) (length-set row x c ∙ w);
          cells = read_cell-set b y x row c in_b in_row e;
        }))

  -- A loop over columns paints the columns that it runs through, and no other cell.
  pub fill_cells-Shows :
      (c : Char) (n y x : ℕ) (b : Rows)
      → IsGrid lines columns b
      → y < lines
      → x + n ≤ columns
      → Holds
          (Shows lines columns (painted (λ j i. j == y && leb x i && ltb i (x + n)) c b))
          (fill_cells n y x c b)
  unfolding fill_cells
  fill_cells-Shows c zero y x b g hy hx = holds (record { grid = g; cells = λ j i. ground arith })
  fill_cells-Shows c (suc n) y x b g hy hx =
      Holds-bind (write_cell-Shows c b y x g hy (omega arith)) (λ b1 w.
        Holds-map (fill_cells-Shows c n y (x + 1) b1 w.grid hy (omega arith)) (λ b2 rest. record {
          grid = rest.grid;
          cells = λ j i. ground (arith, rest.cells j i, w.cells j i);
        }))

  pub read_cell-lt :
      (b : Rows) (y x : ℕ)
      → IsGrid lines columns b
      → y < lines
      → x < columns
      → (c : Char) × (read_cell b y x ≡ some c)
  unfolding read_cell
  read_cell-lt b y x g hy hx =
      let (row, e, w) = IsGrid-row g y hy in rw e (get_elem?-lt row x (omega arith))

  copy_cell-Shows :
      (b : Rows) (y to from : ℕ)
      → IsGrid lines columns b
      → y < lines
      → to < columns
      → from < columns
      → Holds
          (Shows lines columns
            (λ j i. if j == y && i == to then read_cell b y from else read_cell b j i))
          (copy_cell b y to from)
  unfolding copy_cell
  copy_cell-Shows b y to from g hy ht hf =
      let (c, e) = read_cell-lt b y from g hy hf in rw e (write_cell-Shows c b y to g hy ht)

  -- The deleting loop moves cells to the left by `step`.
  pub pull_cells-Shows :
      (n y x step : ℕ) (b : Rows)
      → IsGrid lines columns b
      → y < lines
      → x + n + step ≤ columns
      → Holds
          (Shows lines columns (λ j i.
            if j == y && leb x i && ltb i (x + n)
            then read_cell b y (i + step)
            else read_cell b j i))
          (pull_cells n y x step b)
  unfolding pull_cells
  pull_cells-Shows zero y x step b g hy hx =
      holds (record { grid = g; cells = λ j i. ground arith })
  pull_cells-Shows (suc n) y x step b g hy hx =
      Holds-bind (copy_cell-Shows b y x (x + step) g hy (omega arith) (omega arith)) (λ b1 w.
        Holds-map (pull_cells-Shows n y (x + 1) step b1 w.grid hy (omega arith)) (λ b2 rest.
          record {
            grid = rest.grid;
            cells = λ j i. ground (arith, rest.cells j i, w.cells j i, w.cells y (i + step));
          }))

  -- The inserting loop, from the right, moves cells to the right by `step`.
  pub push_cells-Shows :
      (n y x step : ℕ) (b : Rows)
      → IsGrid lines columns b
      → y < lines
      → x + n + step ≤ columns
      → Holds
          (Shows lines columns (λ j i.
            if j == y && leb (x + step) i && ltb i (x + n + step)
            then read_cell b y (i - step)
            else read_cell b j i))
          (push_cells n y x step b)
  unfolding push_cells
  push_cells-Shows zero y x step b g hy hx =
      holds (record { grid = g; cells = λ j i. ground arith })
  push_cells-Shows (suc n) y x step b g hy hx =
      Holds-bind (copy_cell-Shows b y (x + n + step) (x + n) g hy (omega arith) (omega arith))
        (λ b1 w. Holds-map (push_cells-Shows n y x step b1 w.grid hy (omega arith)) (λ b2 rest.
          record {
            grid = rest.grid;
            cells = λ j i. ground (arith, rest.cells j i, w.cells j i, w.cells y (i - step));
          }))
