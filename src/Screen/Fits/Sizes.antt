-- ===== src/Screen/Fits/Sizes.antt =====
-- A new screen, the resize and the reset of src/terminal/screen.rs.
use stitch_pty.Prelude.{
  ℕ, zero, suc, ◌-◌, ◌<◌, min, max, ◌≡◌, refl, sym, ◌∙◌, ap, Bool, false, ◌&&◌, ◌==◌, Option, none,
  some, List, [], ◌∷◌, length, take, replicate, arith,
}
use stitch_pty.Prelude.{
  All, All-append, All-replicate, All-take, length-append, length-take, length-replicate,
  Bool-cases, inl, inr,
}
use stitch_pty.Screen.State.{
  Char, blank, Row, Rows, default_cursor, Screen, full_row, full_rows, init_tabstops,
  mark_all_dirty, move_to,
}
use stitch_pty.Modes.{new_modes}
use stitch_pty.Screen.Conform.{
  conform_row, conform_buffer, conform_wrapped, pad_flags, conform_saved, resize_to, resize,
  fill_row, clear_rows, clear_flags, reset,
}
use stitch_pty.Screen.Grid.Cells.{IsGrid}
use stitch_pty.Screen.Fits.{Fits}
use stitch_pty.Prelude.{map, length-map, max}
use stitch_pty.Screen.State.{new}

pub full_rows-IsGrid :
    (lines columns : ℕ) (c : Char) → IsGrid lines columns (full_rows lines columns c)
full_rows-IsGrid lines columns c = record {
  height = length-replicate lines (full_row columns c);
  width = All-replicate _ lines (full_row columns c) (length-replicate columns c);
}

pub length-conform_row :
    (columns : ℕ) (c : Char) (line : Row) → length (conform_row columns c line) ≡ columns
unfolding conform_row
length-conform_row columns c line =
    let kept = length-take columns line in
    let row = take columns line in
    let padded = length-append row (replicate (columns - length row) c) in
    let rest = length-replicate (columns - length row) c in omega (arith, kept, padded, rest)

All-conform_row :
    (columns : ℕ) (c : Char) (rows : Rows)
    → All (λ row. length row ≡ columns) (map (conform_row columns c) rows)
All-conform_row columns c [] = tt
All-conform_row columns c (line ∷ rows) =
    (length-conform_row columns c line, All-conform_row columns c rows)

-- Whatever buffer it is given, `conform_buffer` makes one of the size it is given.
pub conform_buffer-IsGrid :
    (buf : Rows) (lines columns : ℕ) (c : Char)
    → IsGrid lines columns (conform_buffer buf lines columns c)
unfolding conform_buffer
conform_buffer-IsGrid buf lines columns c =
    let rows = map (conform_row columns c) buf in
    let out = take lines rows in
    let pad = replicate (lines - length out) (full_row columns c) in
    record {
      height =
          let kept = length-take lines rows in
          let both = length-append out pad in
          let rest = length-replicate (lines - length out) (full_row columns c) in
          omega (arith, kept, both, rest);
      width =
          All-append _ out pad (All-take _ lines rows (All-conform_row columns c buf))
            (All-replicate _ _ (full_row columns c) (length-replicate columns c));
    }

pub length-conform_wrapped :
    (flags : List Bool) (lines : ℕ) → length (conform_wrapped flags lines) ≡ lines
unfolding conform_wrapped
length-conform_wrapped flags lines =
    let out = take lines flags in
    let kept = length-take lines flags in
    let both = length-append out (replicate (lines - length out) false) in
    let rest = length-replicate (lines - length out) false in omega (arith, kept, both, rest)

module _ (columns : ℕ) (f : Row → Row) (same : (row : Row) → length (f row) ≡ length row) where
  All-map_rows :
      (b : Rows) → All (λ row. length row ≡ columns) b → All (λ row. length row ≡ columns) (map f b)
  All-map_rows [] h = tt
  All-map_rows (row ∷ b) h = (same row ∙ h.0, All-map_rows b h.1)

  pub map-IsGrid : {lines : ℕ} {b : Rows} → IsGrid lines columns b → IsGrid lines columns (map f b)
  map-IsGrid {b = b} g = record {
    height = length-map b f ∙ g.height;
    width = All-map_rows b g.width;
  }

pub length-fill_row : (c : Char) (row : Row) → length (fill_row c row) ≡ length row
unfolding fill_row
length-fill_row c row = length-map row (λ _. c)

-- Marking rows dirty and setting the tab stops leave the shape.
pub marked-Fits :
    {lines columns : ℕ} {s : Screen} → Fits lines columns s → Fits lines columns (mark_all_dirty s)
unfolding mark_all_dirty
marked-Fits f = ground arith

pub init_tabstops-Fits :
    {lines columns : ℕ} {s : Screen} → Fits lines columns s → Fits lines columns (init_tabstops s)
unfolding init_tabstops
init_tabstops-Fits f = ground arith

-- A new screen has the shape asked for, with at least one row and one column.
pub new-Fits : (columns lines : ℕ) → Fits (max lines 1) (max columns 1) (new columns lines)
unfolding new
new-Fits columns lines = record {
  lines_eq = refl;
  columns_eq = refl;
  lines_pos = omega arith;
  columns_pos = omega arith;
  page = record {
    grid = full_rows-IsGrid (max lines 1) (max columns 1) blank;
    count = length-replicate (max lines 1) false;
  };
  region = tt;
  cursor_x = omega arith;
  cursor_y = omega arith;
  captured = refl;
}

conform_saved-Fits :
    {lines columns : ℕ} {s : Screen} (saved : Option Rows)
    → Fits lines columns s
    → Fits lines columns (conform_saved saved s)
unfolding conform_saved
conform_saved-Fits none f = f
conform_saved-Fits (some b) f = ground arith

resized-Fits :
    (s : Screen) (lines columns : ℕ) (rows : Rows) (flags : List Bool)
    → 0 < lines
    → 0 < columns
    → length s.scrolled_off ≡ length s.scrolled_off_wrapped
    → IsGrid lines columns rows
    → length flags ≡ lines
    → Fits lines columns (
        move_to
          (mark_all_dirty (
            init_tabstops (record s {
              buffer = rows;
              wrapped = flags;
              lines = lines;
              columns = columns;
              margins = none;
              dirty = [];
            })))
          (min s.cursor.x (columns - 1))
          (min s.cursor.y (lines - 1)))
unfolding mark_all_dirty init_tabstops
resized-Fits s lines columns rows flags hl hc e g w = record {
  lines_eq = refl;
  columns_eq = refl;
  lines_pos = hl;
  columns_pos = hc;
  page = record { grid = g; count = w };
  region = tt;
  cursor_x = omega arith;
  cursor_y = omega arith;
  captured = e;
}

pub resize_to-Fits :
    (s : Screen) (lines columns : ℕ)
    → 0 < lines
    → 0 < columns
    → length s.scrolled_off ≡ length s.scrolled_off_wrapped
    → Fits lines columns (resize_to s lines columns)
unfolding resize_to mark_all_dirty init_tabstops
resize_to-Fits s lines columns hl hc e = conform_saved-Fits _ (
    unfold mark_all_dirty init_tabstops in
    resized-Fits s lines columns (conform_buffer s.buffer lines columns s.default_char) _ hl hc e
      (conform_buffer-IsGrid s.buffer lines columns s.default_char)
      (length-conform_wrapped (pad_flags (length s.buffer) s.wrapped) lines))

-- From any size and any new size, 0 included, a resize leaves a screen of the new size, with at
-- least one row and one column.
pub resize-Fits :
    {old_lines old_columns : ℕ} {s : Screen} (lines columns : ℕ)
    → Fits old_lines old_columns s
    → Fits (max lines 1) (max columns 1) (resize s lines columns)
unfolding resize
resize-Fits {s = s} lines columns f =
    elim (Bool-cases (s.lines == max lines 1 && s.columns == max columns 1)) [
      | inl same ↦ rw same (
          let el : s.lines ≡ max lines 1 = ground arith in
          let ec : s.columns ≡ max columns 1 = ground arith in
          subst_size (sym f.lines_eq ∙ el) (sym f.columns_eq ∙ ec) f)
      | inr other ↦
          rw other
            (resize_to-Fits s (max lines 1) (max columns 1) (omega arith) (omega arith) f.captured)
    ]
  where
    subst_size : {l l' c c' : ℕ} {t : Screen} → l ≡ l' → c ≡ c' → Fits l c t → Fits l' c' t
    subst_size {t = t} e e' g = rw⁻¹ (e, e') g

fill_row-full : (n : ℕ) (c : Char) (row : Row) → length row ≡ n → fill_row c row ≡ replicate n c
unfolding fill_row
fill_row-full zero c [] e = refl
fill_row-full zero c (x ∷ row) e = absurd (omega arith)
fill_row-full (suc n) c [] e = absurd (omega arith)
fill_row-full (suc n) c (x ∷ row) e = ap (λ r. c ∷ r) (fill_row-full n c row (omega arith))

-- With a flag for each row, every row is cleared and every flag.
clear_rows-full :
    (columns : ℕ) (c : Char) (rows : Rows) (flags : List Bool)
    → length flags ≡ length rows
    → All (λ row. length row ≡ columns) rows
    → clear_rows c rows flags ≡ full_rows (length rows) columns c
unfolding clear_rows
clear_rows-full columns c [] flags e h = refl
clear_rows-full columns c (row ∷ rows) [] e h = absurd (omega arith)
clear_rows-full columns c (row ∷ rows) (w ∷ flags) e h =
    rw (fill_row-full columns c row h.0, clear_rows-full columns c rows flags (omega arith) h.1)

clear_flags-full :
    (rows : Rows) (flags : List Bool)
    → length flags ≡ length rows
    → clear_flags rows flags ≡ replicate (length rows) false
unfolding clear_flags
clear_flags-full [] [] e = refl
clear_flags-full [] (w ∷ flags) e = absurd (omega arith)
clear_flags-full (row ∷ rows) [] e = absurd (omega arith)
clear_flags-full (row ∷ rows) (w ∷ flags) e =
    ap (λ r. false ∷ r) (clear_flags-full rows flags (omega arith))

-- After a reset the screen has the size that it had, every row is full of its default cell, which a
-- reset keeps as it is, and no row continues another. The cursor and the modes are those of a new
-- screen, there are no margins, the primary screen is shown, and no event or row is pending.
pub reset-blank :
    {lines columns : ℕ} {s : Screen}
    → Fits lines columns s
    → let r = reset s in
      Fits lines columns r
      × (r.buffer ≡ full_rows lines columns s.default_char)
      × (r.wrapped ≡ replicate lines false)
      × (r.cursor ≡ default_cursor)
      × (r.mode ≡ new_modes)
      × (r.margins ≡ none)
      × (r.alt_screen ≡ false)
      × (r.events ≡ [])
      × (r.scrolled_off ≡ [])
      × (r.default_char ≡ s.default_char)
unfolding reset mark_all_dirty init_tabstops
reset-blank {lines} {columns} {s} f =
    let even : length s.wrapped ≡ length s.buffer = f.page.count ∙ sym f.page.grid.height in
    let rows : clear_rows s.default_char s.buffer s.wrapped
        ≡ full_rows lines columns s.default_char =
      clear_rows-full columns s.default_char s.buffer s.wrapped even f.page.grid.width
      ∙ ap (λ n. full_rows n columns s.default_char) f.page.grid.height in
    let flags : clear_flags s.buffer s.wrapped ≡ replicate lines false =
      clear_flags-full s.buffer s.wrapped even ∙ ap (λ n. replicate n false) f.page.grid.height in
    (
      record {
        lines_eq = f.lines_eq;
        columns_eq = f.columns_eq;
        lines_pos = f.lines_pos;
        columns_pos = f.columns_pos;
        page = record {
          grid = rw rows (full_rows-IsGrid lines columns s.default_char);
          count = ap length flags ∙ length-replicate lines false;
        };
        region = tt;
        cursor_x = omega arith;
        cursor_y = f.lines_pos;
        captured = refl;
      },
      rows,
      flags,
      refl,
      refl,
      refl,
      refl,
      refl,
      refl,
      refl,
    )
