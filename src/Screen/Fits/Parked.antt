-- ===== src/Screen/Fits/Parked.antt =====
-- Entering and leaving the alternate screen, in src/terminal/screen.rs.
use stitch_pty.Prelude.{
  ℕ, zero, suc, ◌-◌, min, ◌≡◌, refl, sym, ◌∙◌, ap, Bool, true, false, if◌then◌else◌, Option, none,
  some, unwrap_or, List, [], ◌∷◌, ◌++◌, length, take, replicate, arith,
}
use stitch_pty.Prelude.{All, length-take, length-replicate}
use stitch_pty.Screen.State.{
  Char, Rows, Cursor, TermEvent, alt_screen_switched, Screen, full_row, full_rows, mark_all_dirty,
  move_to,
}
use stitch_pty.Screen.Conform.{conform_row, conform_buffer, conform_wrapped}
use stitch_pty.Screen.AltScreen.{
  parked, enter_alt_screen, unpark, leave_alt_screen, exit_alt_screen,
}
use stitch_pty.Screen.Events.{push_event}
use stitch_pty.Screen.Grid.Cells.{IsGrid}
use stitch_pty.Screen.Fits.{Fits, Fits-if}
use stitch_pty.Screen.Fits.Sizes.{
  conform_buffer-IsGrid, length-conform_wrapped, full_rows-IsGrid, marked-Fits,
}
use stitch_pty.Prelude.{map}

take-all {ℓ} : {A : Type ℓ} (n : ℕ) (xs : List A) → length xs ≡ n → take n xs ≡ xs
take-all zero [] e = refl
take-all zero (x ∷ xs) e = absurd (omega arith)
take-all (suc n) [] e = refl
take-all (suc n) (x ∷ xs) e = ap (λ ys. x ∷ ys) (take-all n xs (omega arith))

replicate-0 {ℓ} : {A : Type ℓ} (n : ℕ) (a : A) → n ≡ 0 → replicate n a ≡ []
replicate-0 zero a e = refl
replicate-0 (suc n) a e = absurd (omega arith)

append-[] {ℓ} : {A : Type ℓ} (xs ys : List A) → ys ≡ [] → xs ++ ys ≡ xs
append-[] [] ys e = e
append-[] (x ∷ xs) ys e = ap (λ zs. x ∷ zs) (append-[] xs ys e)

-- A list of `n` elements cut and padded to `n` is that list.
cut_and_pad {ℓ} :
    {A : Type ℓ} (n : ℕ) (xs : List A) (a : A)
    → length xs ≡ n
    → take n xs ++ replicate (n - length (take n xs)) a ≡ xs
cut_and_pad n xs a e =
    let kept = length-take n xs in
    append-[] (take n xs) _ (replicate-0 _ a (omega (arith, kept))) ∙ take-all n xs e

conform_rows_id :
    (columns : ℕ) (c : Char) (b : Rows)
    → All (λ row. length row ≡ columns) b
    → map (conform_row columns c) b ≡ b
unfolding conform_row
conform_rows_id columns c [] h = refl
conform_rows_id columns c (row ∷ b) h =
    rw (cut_and_pad columns row c h.0, conform_rows_id columns c b h.1)

conform_buffer_id :
    {lines columns : ℕ} (c : Char) (b : Rows)
    → IsGrid lines columns b
    → conform_buffer b lines columns c ≡ b
unfolding conform_buffer
conform_buffer_id {lines} {columns} c b g =
    rw (conform_rows_id columns c b g.width) (cut_and_pad lines b (full_row columns c) g.height)

conform_wrapped_id :
    {lines : ℕ} (flags : List Bool) → length flags ≡ lines → conform_wrapped flags lines ≡ flags
unfolding conform_wrapped
conform_wrapped_id {lines} flags e = cut_and_pad lines flags false e

pub push_event-Fits :
    {lines columns : ℕ} {s : Screen} (event : TermEvent)
    → Fits lines columns s
    → Fits lines columns (push_event s event)
unfolding push_event
push_event-Fits event f = ground arith

module _ {lines columns : ℕ} {s : Screen} (f : Fits lines columns s) where
  parked-Fits : (save : Bool) → Fits lines columns (parked s save)
  unfolding parked
  parked-Fits save = record {
    lines_eq = f.lines_eq;
    columns_eq = f.columns_eq;
    lines_pos = f.lines_pos;
    columns_pos = f.columns_pos;
    page = record {
      grid =
          let g = full_rows-IsGrid s.lines s.columns s.default_char in
          record { height = g.height ∙ f.lines_eq; width = rw (sym f.columns_eq) g.width };
      count = length-replicate s.lines false ∙ f.lines_eq;
    };
    region = f.region;
    cursor_x = f.cursor_x;
    cursor_y = f.cursor_y;
    captured = f.captured;
  }

  pub enter_alt_screen-Fits : (save : Bool) → Fits lines columns (enter_alt_screen s save)
  unfolding enter_alt_screen
  enter_alt_screen-Fits save = Fits-if _ f (marked-Fits (push_event-Fits _ (parked-Fits save)))

  unpark-Fits : (saved : Option Rows) → Fits lines columns (unpark saved s)
  unfolding unpark
  unpark-Fits none = f
  unpark-Fits (some b) = record {
    lines_eq = f.lines_eq;
    columns_eq = f.columns_eq;
    lines_pos = f.lines_pos;
    columns_pos = f.columns_pos;
    page = record {
      grid =
          let g = conform_buffer-IsGrid b s.lines s.columns s.default_char in
          record { height = g.height ∙ f.lines_eq; width = rw (sym f.columns_eq) g.width };
      count = length-conform_wrapped (unwrap_or s.saved_wrapped []) s.lines ∙ f.lines_eq;
    };
    region = f.region;
    cursor_x = f.cursor_x;
    cursor_y = f.cursor_y;
    captured = f.captured;
  }

  with_cursor-Fits :
      (c : Cursor)
      → Fits lines columns (
          move_to
            (record s { alt_screen = false; alt_saved_cursor = none; cursor = c })
            (min c.x (s.columns - 1))
            (min c.y (s.lines - 1)))
  with_cursor-Fits c = record {
    lines_eq = f.lines_eq;
    columns_eq = f.columns_eq;
    lines_pos = f.lines_pos;
    columns_pos = f.columns_pos;
    page = f.page;
    region = f.region;
    cursor_x = omega (arith, f.columns_eq);
    cursor_y = omega (arith, f.lines_eq, f.lines_pos);
    captured = f.captured;
  }

module _ {lines columns : ℕ} {s : Screen} (f : Fits lines columns s) where
  leave_alt_screen-Fits : (restore : Bool) → Fits lines columns (leave_alt_screen s restore)
  unfolding leave_alt_screen
  leave_alt_screen-Fits restore =
      marked-Fits (push_event-Fits _ (with_cursor-Fits (unpark-Fits f s.saved_buffer) _))

  -- Leaving the alternate screen keeps the shape, whatever was parked.
  pub exit_alt_screen-Fits : (restore : Bool) → Fits lines columns (exit_alt_screen s restore)
  unfolding exit_alt_screen
  exit_alt_screen-Fits restore = Fits-if _ (leave_alt_screen-Fits restore) f

  back :
      let t = mark_all_dirty (push_event (parked s true) (alt_screen_switched true)) in
      let r = exit_alt_screen t true in
      (t.buffer ≡ full_rows lines columns s.default_char)
      × (r.buffer ≡ s.buffer)
      × (r.wrapped ≡ s.wrapped)
      × (r.alt_screen ≡ false)
      × (r.cursor ≡ record (s.cursor) { x = min s.cursor.x (columns - 1) })
  unfolding exit_alt_screen leave_alt_screen unpark push_event mark_all_dirty parked
  back =
      let blanks : full_rows s.lines s.columns s.default_char
          ≡ full_rows lines columns s.default_char =
        ap (λ l. full_rows l s.columns s.default_char) f.lines_eq
        ∙ ap (λ c. full_rows lines c s.default_char) f.columns_eq in
      let rows : conform_buffer s.buffer s.lines s.columns s.default_char ≡ s.buffer =
        ap (λ l. conform_buffer s.buffer l s.columns s.default_char) f.lines_eq
        ∙ ap (λ c. conform_buffer s.buffer lines c s.default_char) f.columns_eq
        ∙ conform_buffer_id s.default_char s.buffer f.page.grid in
      let flags : conform_wrapped s.wrapped s.lines ≡ s.wrapped =
        ap (conform_wrapped s.wrapped) f.lines_eq ∙ conform_wrapped_id s.wrapped f.page.count in
      let column : min s.cursor.x (s.columns - 1) ≡ min s.cursor.x (columns - 1) =
        ap (λ c. min s.cursor.x (c - 1)) f.columns_eq in
      let row : min s.cursor.y (s.lines - 1) ≡ s.cursor.y = omega (arith, f.lines_eq, f.cursor_y) in
      let at : ℕ → ℕ → Cursor = λ x y. record (s.cursor) { x = x; y = y } in
      (
        blanks,
        rows,
        flags,
        refl,
        ap (λ x. at x (min s.cursor.y (s.lines - 1))) column
            ∙ ap (at (min s.cursor.x (columns - 1))) row,
      )

  -- Entering the alternate screen from the primary one and leaving it again, both with the cursor
  -- saved and restored, gives back the rows, their wrap flags and the cursor, but a cursor that waits
  -- for a wrap is back on the last column. In between the screen is full of its default cell.
  pub exit_alt_screen-enter_alt_screen :
      s.alt_screen ≡ false
      → let t = enter_alt_screen s true in
        let r = exit_alt_screen t true in
        (t.buffer ≡ full_rows lines columns s.default_char)
        × (r.buffer ≡ s.buffer)
        × (r.wrapped ≡ s.wrapped)
        × (r.alt_screen ≡ false)
        × (r.cursor ≡ record (s.cursor) { x = min s.cursor.x (columns - 1) })
  exit_alt_screen-enter_alt_screen off =
      let entered : enter_alt_screen s true
          ≡ mark_all_dirty (push_event (parked s true) (alt_screen_switched true)) =
        unfold enter_alt_screen in
        ap
          (λ b.
            if b then s else mark_all_dirty (push_event (parked s true) (alt_screen_switched true)))
          off in
      rw entered back
