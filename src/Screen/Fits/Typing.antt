-- ===== src/Screen/Fits/Typing.antt =====
-- `draw_char` of src/terminal/screen.rs on a glyph of width 1.
use stitch_pty.Prelude.{
  ℕ, Bool, true, not, get_elem?, ◌+◌, ◌-◌, ◌<◌, min, ◌≡◌, refl, ◌∙◌, ap, false, ◌&&◌, ◌==◌, ltb,
  if◌then◌else◌, Option, some, [], ◌∷◌, arith,
}
use stitch_pty.Prelude.{Holds, holds, Holds-bind, Holds-map, Bool-cases, inl, inr}
use stitch_pty.Screen.State.{Char, Screen}
use stitch_pty.Modes.{irm, decawm, has_public, has_private}
use stitch_pty.Screen.Grid.{read_cell}
use stitch_pty.Screen.Draw.{auto_wrap, advance_cursor, draw_char}
use stitch_pty.Screen.Fits.{Fits}
use stitch_pty.Screen.Fits.Wrapping.{auto_wrap-Wrapped, Kept, Kept-trans}
use stitch_pty.Screen.Fits.Drawing.{Printed, put_glyph-Printed, advance_cursor-Fits}

-- The row that continues the one before it when the glyph is written behind a full row.
abbrev pub is_continued : ℕ → ℕ → Screen → ℕ → Bool
is_continued lines columns s j =
    not (ltb s.cursor.x columns) && has_private s.mode decawm && j == s.cursor.y + 1 && ltb j lines

-- `s'` has `glyph` at row `y` and column `x` and every other cell of `s`; nothing was captured for
-- the history, and the cursor is behind the glyph. The wrap flag of the row that the glyph continues
-- is set, every other one is as before; but for the dirty rows nothing else differs.
pub record Typed (lines columns y x : ℕ) (glyph : Char) (s s' : Screen) : Type 0 where
  pub fits : Fits lines columns s'
  pub cells :
      (j i : ℕ)
      → read_cell s'.buffer j i ≡ (if j == y && i == x then some glyph else read_cell s.buffer j i)
  pub row : s'.cursor.y ≡ y
  pub same_off : s'.scrolled_off ≡ s.scrolled_off
  pub column :
      s'.cursor.x ≡ (if has_private s.mode decawm then x + 1 else min (x + 1) (columns - 1))
  pub flags :
      (j : ℕ)
      → get_elem? s'.wrapped j
        ≡ (if is_continued lines columns s j then some true else get_elem? s.wrapped j)
  pub kept : Kept s s'

-- Where the next glyph goes: the cursor's place, or after a full row the head of the next row; on
-- the last row of the screen, the head of that row again.
abbrev pub glyph_row : ℕ → ℕ → Screen → ℕ
glyph_row lines columns s =
    if ltb s.cursor.x columns
    then s.cursor.y
    else if s.cursor.y + 1 == lines
    then s.cursor.y
    else s.cursor.y + 1

abbrev pub glyph_column : ℕ → Screen → ℕ
glyph_column columns s = if ltb s.cursor.x columns then s.cursor.x else 0

-- What the steps of `draw_char` keep before the glyph is written.
record Ready (lines columns : ℕ) (s s' : Screen) : Type 0 where
  fits : Fits lines columns s'
  same_cells : s'.buffer ≡ s.buffer
  same_off : s'.scrolled_off ≡ s.scrolled_off
  same_mode : s'.mode ≡ s.mode
  same_attrs : s'.cursor.attrs ≡ s.cursor.attrs
  column : s'.cursor.x ≡ glyph_column columns s
  row : s'.cursor.y ≡ glyph_row lines columns s
  flags :
      (j : ℕ)
      → get_elem? s'.wrapped j
        ≡ (if is_continued lines columns s j then some true else get_elem? s.wrapped j)
  kept : Kept s s'

same_view :
    {A : Type 0} (j i : ℕ) {y y' x x' : ℕ} {a a' b b' : A}
    → y ≡ y'
    → x ≡ x'
    → a ≡ a'
    → b ≡ b'
    → (if j == y && i == x then a else b) ≡ (if j == y' && i == x' then a' else b')
same_view j i e e' h h' = ground (arith, e, e', h, h')

module _ {lines columns : ℕ} {s : Screen} (f : Fits lines columns s) where
  auto_wrap-Ready : Holds (Ready lines columns s) (auto_wrap s)
  auto_wrap-Ready = elim (Bool-cases (ltb s.cursor.x s.columns)) [
    | inl room ↦
        unfold auto_wrap in
        rw room (
          holds (record {
            fits = f;
            same_cells = refl;
            same_off = refl;
            same_mode = refl;
            same_attrs = refl;
            column = ground (arith, f.columns_eq);
            row = ground (arith, f.columns_eq);
            flags = λ j. ground (arith, f.columns_eq);
            kept = refl;
          }))
    | inr full ↦ Holds-map (auto_wrap-Wrapped f full) (λ s' w. record {
      fits = w.fits;
      same_cells = w.same_cells;
      same_off = w.same_off;
      same_mode = w.same_mode;
      same_attrs = w.same_attrs;
      column = ground (arith, f.columns_eq, w.at_head);
      row = ground (arith, f.columns_eq, w.row);
      flags = λ j. ground (arith, f.columns_eq, w.flags j);
      kept = w.kept;
    })
  ]

  advanced :
      (s4 : Screen) (x : ℕ)
      → s4.columns ≡ columns
      → s4.cursor.x ≡ x
      → s4.cursor.x < columns
      → has_private s4.mode decawm ≡ has_private s.mode decawm
      → (advance_cursor s4 1).cursor.x
        ≡ (if has_private s.mode decawm then x + 1 else min (x + 1) (columns - 1))
  unfolding advance_cursor
  advanced s4 x width there on_screen wraps = elim (Bool-cases (has_private s.mode decawm)) [
    | inl on ↦ rw (wraps, on) (ground arith)
    | inr off ↦ rw (wraps, off) (ground arith)
  ]

  -- From a written glyph to the end of `draw_char`.
  typed :
      {ch : ℕ} {s2 : Screen} {s4 : Screen} (r : Ready lines columns s s2)
      → Printed r.fits 1 (record (s2.cursor.attrs) { text = ch ∷ [] }) s4
      → Typed lines columns
          (glyph_row lines columns s)
          (glyph_column columns s)
          (record (s.cursor.attrs) { text = ch ∷ [] })
          s
          (advance_cursor s4 1)
  unfolding advance_cursor
  typed {ch} {s2} {s4} r p =
      let on_screen : s4.cursor.x < columns =
        ground (arith, p.same_cursor, r.column, f.columns_pos) in
      let old : (j i : ℕ) → read_cell s2.buffer j i ≡ read_cell s.buffer j i =
        λ j i. ap (λ b. read_cell b j i) r.same_cells in
      let with_glyph : Char → Char = λ a. record a { text = ch ∷ [] } in
      let glyph : record (s2.cursor.attrs) { text = ch ∷ [] }
          ≡ record (s.cursor.attrs) { text = ch ∷ [] } =
        ap with_glyph r.same_attrs in
      let wraps : has_private s4.mode decawm ≡ has_private s.mode decawm =
        ap (λ m. has_private m decawm) (p.same_mode ∙ r.same_mode) in
      record {
        fits = unfold advance_cursor in advance_cursor-Fits p.fits 1 on_screen;
        cells = λ j i. p.cells j i ∙ same_view j i r.row r.column (ap some glyph) (old j i);
        row = ap (λ c. c.y) p.same_cursor ∙ r.row;
        same_off = p.same_off ∙ r.same_off;
        flags = λ j. ap (λ w. get_elem? w j) p.same_flags ∙ r.flags j;
        kept = unfold advance_cursor in Kept-trans s s4 _ (Kept-trans s s2 s4 r.kept p.kept) refl;
        column =
            let there : s4.cursor.x ≡ glyph_column columns s =
              ap (λ c. c.x) p.same_cursor ∙ r.column in
            advanced s4 (glyph_column columns s) p.fits.columns_eq there on_screen wraps;
      }

  -- Printing a character of width 1 in replace mode on a screen of the right shape writes it, with
  -- the current attributes, at one place and changes no other cell. The place is the cursor's, or
  -- after a full row the head of the next one; but on the last row it is the head of that same
  -- row: the screen does not scroll and no row is captured for the history. The cursor goes behind
  -- the glyph, at most to the last column without DECAWM; with DECAWM the next row after a full one
  -- gets the wrap flag. But for the dirty rows nothing else changes.
  pub draw_char-Typed :
      (char_width : ℕ → Option ℕ) (ch : ℕ)
      → char_width ch ≡ some 1
      → has_public s.mode irm ≡ false
      → Holds
          (Typed lines columns
            (glyph_row lines columns s)
            (glyph_column columns s)
            (record (s.cursor.attrs) { text = ch ∷ [] })
            s)
          (draw_char char_width s ch)
  unfolding draw_char
  draw_char-Typed char_width ch narrow replaces = rw narrow (
      Holds-bind auto_wrap-Ready (λ s2 r.
        let off : has_public s2.mode irm ≡ false =
          ap (λ m. has_public m irm) r.same_mode ∙ replaces in
        let on_screen : s2.cursor.x < columns = ground (arith, r.column, f.columns_pos) in
        rw off (Holds-bind (put_glyph-Printed r.fits ch 1 on_screen) (λ s4 p. holds (typed r p)))))
