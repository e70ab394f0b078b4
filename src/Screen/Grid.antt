-- ===== src/Screen/Grid.antt =====
-- The buffer as a grid: writes of one cell, and the loops that fill cells and move rows. An index
-- out of range panics.

pub mod Cells
pub mod Pages
use stitch_pty.Prelude.{
  ℕ, zero, suc, ◌+◌, ◌-◌, Bool, false, Option, none, some, List, get_elem?, set?, ◌>>=◌,
}
use stitch_pty.Screen.State.{Char, Row, Rows}

-- `self.buffer[y][x]`.
unfoldable pub read_cell : Rows → ℕ → ℕ → Option Char
read_cell b y x = do row ← get_elem? b y; get_elem? row x

-- `self.buffer[y][x] = c`.
unfoldable pub write_cell : Rows → ℕ → ℕ → Char → Option Rows
write_cell b y x c = do row ← get_elem? b y; row' ← set? row x c; set? b y row'

-- `for i in x..x + n { self.buffer[y][i] = c }`.
unfoldable pub fill_cells : ℕ → ℕ → ℕ → Char → Rows → Option Rows
fill_cells zero y x c b = some b
fill_cells (suc n) y x c b = do b' ← write_cell b y x c; fill_cells n y (x + 1) c b'

-- `self.buffer[y][to] = self.buffer[y][from].clone()`.
unfoldable pub copy_cell : Rows → ℕ → ℕ → ℕ → Option Rows
copy_cell b y to from = do c ← read_cell b y from; write_cell b y to c

-- `for i in x..x + n`, each cell from `step` columns further right.
unfoldable pub pull_cells : ℕ → ℕ → ℕ → ℕ → Rows → Option Rows
pull_cells zero y x step b = some b
pull_cells (suc n) y x step b = do b' ← copy_cell b y x (x + step); pull_cells n y (x + 1) step b'

-- `for i in (x..x + n).rev()`, each cell to `step` columns further right.
unfoldable pub push_cells : ℕ → ℕ → ℕ → ℕ → Rows → Option Rows
push_cells zero y x step b = some b
push_cells (suc n) y x step b = do
  b' ← copy_cell b y (x + n + step) (x + n)
  push_cells n y x step b'

-- Rows move with their wrap flags.
pub record Page : Type 0 where
  pub rows : Rows
  pub flags : List Bool

-- `self.buffer[y] = row; self.wrapped[y] = flag`.
unfoldable pub write_row : Page → ℕ → Row → Bool → Option Page
write_row p y row flag = do
  rows ← set? p.rows y row
  flags ← set? p.flags y flag
  some (record { rows = rows; flags = flags })

-- `self.buffer[to] = mem::replace(&mut self.buffer[from], spare); self.wrapped[to] = self.wrapped[from]`.
unfoldable pub move_row : Page → ℕ → ℕ → Row → Option Page
unfolding write_row
move_row p to from spare = do
  row ← get_elem? p.rows from
  rows ← set? p.rows from spare
  flag ← get_elem? p.flags from
  write_row (record { rows = rows; flags = p.flags }) to row flag

-- `for y in y..y + n`, each row from the one below.
unfoldable pub raise_rows : ℕ → ℕ → Row → Page → Option Page
raise_rows zero y spare p = some p
raise_rows (suc n) y spare p = do p' ← move_row p y (y + 1) spare; raise_rows n (y + 1) spare p'

-- `for y in y + 1..=y + n`, upwards, each row from the one above, as `scroll_down` runs it.
unfoldable pub spread_rows : ℕ → ℕ → Row → Page → Option Page
spread_rows zero y spare p = some p
spread_rows (suc n) y spare p = do p' ← move_row p (y + 1) y spare; spread_rows n (y + 1) spare p'

-- `self.buffer[to] = self.buffer[from].clone(); self.wrapped[to] = self.wrapped[from]`.
unfoldable pub copy_row : Page → ℕ → ℕ → Option Page
unfolding write_row
copy_row p to from = do
  row ← get_elem? p.rows from
  flag ← get_elem? p.flags from
  write_row p to row flag

-- `for y in (y + 1..=y + n).rev()`, each row from the one above.
unfoldable pub lower_rows : ℕ → ℕ → Page → Option Page
lower_rows zero y p = some p
lower_rows (suc n) y p = do p' ← copy_row p (y + n + 1) (y + n); lower_rows n y p'

-- `for x in 0..columns` of one row, for each of the `n` rows from `y`, with the row's wrap flag
-- cleared.
unfoldable pub fill_rows : ℕ → ℕ → ℕ → Char → Page → Option Page
unfolding fill_cells
fill_rows zero y columns c p = some p
fill_rows (suc n) y columns c p = do
  rows ← fill_cells columns y 0 c p.rows
  flags ← set? p.flags y false
  fill_rows n (y + 1) columns c (record { rows = rows; flags = flags })
