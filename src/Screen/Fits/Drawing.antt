-- ===== src/Screen/Fits/Drawing.antt =====
-- `draw` and `draw_char` of src/terminal/screen.rs, on a screen of the right shape.
use stitch_pty.Prelude.{
  ℕ, ◌+◌, ◌-◌, ◌<◌, ◌≡◌, refl, Bool, true, false, ◌&&◌, ◌==◌, ltb, leb, if◌then◌else◌, Option, some,
  unwrap_or, [], ◌∷◌, ◌++◌, arith, Text,
}
use stitch_pty.Prelude.{Holds, holds, Holds-bind, Holds-map, Bool-cases, inl, inr}
use stitch_pty.Screen.State.{Char, Screen, erase_cell}
use stitch_pty.Screen.Grid.{read_cell}
use stitch_pty.Screen.Grid.Cells.{read_cell-lt, write_cell-Shows}
use stitch_pty.Modes.{irm, has_public}
use stitch_pty.Screen.Erase.{insert_characters}
use stitch_pty.Screen.Draw.{
  wrap_next, append_glyph, combine, auto_wrap, write_glyph, put_glyph, advance_cursor, draw_char,
  draw,
}
use stitch_pty.Screen.Fits.{Fits, move_to-Fits, mark_dirty-Fits}
use stitch_pty.Screen.Fits.Erasing.{with_rows-Fits, insert_characters-Looks}
use stitch_pty.Screen.Fits.Wrapping.{wrap_next-Wrapped, auto_wrap-Wrapped, Kept}

module _ {lines columns : ℕ} {s : Screen} (f : Fits lines columns s) where
  append_glyph-Fits :
      (y x ch : ℕ) → y < lines → x < columns → Holds (Fits lines columns) (append_glyph s y x ch)
  unfolding append_glyph
  append_glyph-Fits y x ch hy hx =
      let (c, e) = read_cell-lt s.buffer y x f.page.grid hy hx in
      rw e (
        Holds-bind
          (write_cell-Shows (record c { text = c.text ++ ch ∷ [] }) s.buffer y x f.page.grid hy hx)
          (λ rows w. holds (with_rows-Fits f rows w.grid)))

  combine-Fits : (ch : ℕ) → Holds (Fits lines columns) (combine s ch)
  unfolding combine
  combine-Fits ch = elim (Bool-cases (ltb 0 s.cursor.x && ltb s.cursor.y s.lines)) [
    | inl inside ↦
        rw inside
          (append_glyph-Fits s.cursor.y (s.cursor.x - 1) ch f.cursor_y (ground (arith, f.cursor_x)))
    | inr outside ↦ rw outside (holds f)
  ]

  -- `s'` is `s` with `glyph` at the cursor, and a blank behind a wide one.
  abbrev pub glyph_view : ℕ → Char → ℕ → ℕ → Option Char
  glyph_view width glyph j i =
      if j == s.cursor.y && i == s.cursor.x
      then some glyph
      else if leb 2 width && j == s.cursor.y && i == s.cursor.x + 1 && ltb i columns
      then some (erase_cell s)
      else read_cell s.buffer j i

  -- The screen after a glyph: its cells, and its cursor, which has not moved.
  pub record Printed (width : ℕ) (glyph : Char) (s' : Screen) : Type 0 where
    pub fits : Fits lines columns s'
    pub cells : (j i : ℕ) → read_cell s'.buffer j i ≡ glyph_view width glyph j i
    pub same_cursor : s'.cursor ≡ s.cursor
    pub same_mode : s'.mode ≡ s.mode
    pub same_off : s'.scrolled_off ≡ s.scrolled_off
    pub same_flags : s'.wrapped ≡ s.wrapped
    pub kept : Kept s s'

  write_glyph-Printed :
      (ch width : ℕ)
      → s.cursor.x < columns
      → Holds (Printed width (record (s.cursor.attrs) { text = ch ∷ [] })) (write_glyph s ch width)
  unfolding write_glyph
  write_glyph-Printed ch width hx =
      Holds-bind
        (write_cell-Shows (record (s.cursor.attrs) { text = ch ∷ [] }) s.buffer s.cursor.y
          s.cursor.x f.page.grid f.cursor_y hx)
        (λ b1 w. elim (Bool-cases (leb 2 width && ltb (s.cursor.x + 1) s.columns)) [
          | inl wide ↦ rw wide (
              Holds-bind
                (write_cell-Shows (erase_cell s) b1 s.cursor.y (s.cursor.x + 1) w.grid f.cursor_y
                  (ground (arith, f.columns_eq)))
                (λ b2 v. holds (record {
                  fits = mark_dirty-Fits s.cursor.y (with_rows-Fits f b2 v.grid);
                  cells = λ j i. ground (arith, v.cells j i, w.cells j i, f.columns_eq);
                  same_cursor = refl;
                  same_mode = refl;
                  same_off = refl;
                  same_flags = refl;
                  kept = refl;
                })))
          | inr narrow ↦ rw narrow (
              holds (record {
                fits = mark_dirty-Fits s.cursor.y (with_rows-Fits f b1 w.grid);
                cells = λ j i. ground (arith, w.cells j i, f.columns_eq);
                same_cursor = refl;
                same_mode = refl;
                same_off = refl;
                same_flags = refl;
                kept = refl;
              }))
        ])

  pub advance_cursor-Fits :
      (width : ℕ) → s.cursor.x < columns → Fits lines columns (advance_cursor s width)
  unfolding advance_cursor
  advance_cursor-Fits width hx = move_to-Fits _ _ f (ground (arith, f.columns_eq)) f.cursor_y

-- The cursor stands on a column of the screen, so the next glyph is not put off.
abbrev OnScreen : ℕ → ℕ → Screen → Type 0
OnScreen lines columns s = Fits lines columns s × (s.cursor.x < columns)

module _ {lines columns : ℕ} {s : Screen} (f : Fits lines columns s) where
  auto_wrap-OnScreen : Holds (OnScreen lines columns) (auto_wrap s)
  auto_wrap-OnScreen = elim (Bool-cases (ltb s.cursor.x s.columns)) [
    | inl room ↦ unfold auto_wrap in rw room (holds (f, ground (arith, f.columns_eq)))
    | inr full ↦
        Holds-map (auto_wrap-Wrapped f full)
          (λ s' w. (w.fits, omega (arith, w.at_head, f.columns_pos)))
  ]

  wide_wrap-Fits : (b : Bool) → Holds (Fits lines columns) (if b then wrap_next s else some s)
  wide_wrap-Fits true = Holds-map (wrap_next-Wrapped f) (λ s' w. w.fits)
  wide_wrap-Fits false = holds f

  open_gap-OnScreen :
      (b : Bool)
      → s.cursor.x < columns
      → Holds (OnScreen lines columns) (if b then insert_characters s 1 else some s)
  open_gap-OnScreen true h =
      Holds-map (insert_characters-Looks f 1) (λ s' l. (l.fits, ground (arith, l.same_cursor)))
  open_gap-OnScreen false h = holds (f, h)

  pub put_glyph-Printed :
      (ch width : ℕ)
      → s.cursor.x < columns
      → Holds (Printed f width (record (s.cursor.attrs) { text = ch ∷ [] })) (put_glyph s ch width)
  unfolding put_glyph
  put_glyph-Printed ch width hx =
      let inside : (ltb s.cursor.x s.columns && ltb s.cursor.y s.lines) ≡ true =
        ground (arith, f.columns_eq, f.lines_eq, f.cursor_y) in
      rw inside (write_glyph-Printed f ch width hx)

module _ {lines columns : ℕ} (char_width : ℕ → Option ℕ) where
  -- Printing any character, whatever its width, never panics on a screen of the right shape, and
  -- leaves a screen of the same shape.
  pub draw_char-Fits :
      {s : Screen} (ch : ℕ)
      → Fits lines columns s
      → Holds (Fits lines columns) (draw_char char_width s ch)
  unfolding draw_char
  draw_char-Fits {s} ch f =
      let width = unwrap_or (char_width ch) 1 in
      elim (Bool-cases (width == 0)) [
        | inl zero_wide ↦ rw zero_wide (combine-Fits f ch)
        | inr glyph ↦ rw glyph (
            Holds-bind (wide_wrap-Fits f (leb 2 width && leb s.columns s.cursor.x)) (λ s1 f1.
              Holds-bind (auto_wrap-OnScreen f1) (λ s2 f2.
                Holds-bind (open_gap-OnScreen f2.0 (has_public s2.mode irm && width == 1) f2.1)
                  (λ s3 f3. Holds-bind (put_glyph-Printed f3.0 ch width f3.1) (λ s4 p.
                    holds
                      (advance_cursor-Fits p.fits width (ground (arith, p.same_cursor, f3.1))))))))
      ]

  -- Printing any text, whatever the widths of its characters and the modes in force, never panics
  -- on a screen of the right shape, and leaves one of the same shape.
  pub draw-Fits :
      (text : Text) {s : Screen}
      → Fits lines columns s
      → Holds (Fits lines columns) (draw char_width s text)
  unfolding draw
  draw-Fits [] f = holds f
  draw-Fits (ch ∷ rest) f = Holds-bind (draw_char-Fits ch f) (λ s1 f1. draw-Fits rest f1)
