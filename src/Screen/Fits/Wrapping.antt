-- ===== src/Screen/Fits/Wrapping.antt =====
-- The automatic wrap of `draw_char` in src/terminal/screen.rs.
use stitch_pty.Prelude.{
  ℕ, ◌+◌, ◌-◌, ◌<◌, ◌≡◌, refl, ◌∙◌, ap, Bool, ◌&&◌, some, get_elem?, true, false, ◌==◌, ltb,
  if◌then◌else◌, length, arith,
}
use stitch_pty.Prelude.{Holds, holds, length-set, get_elem?-set, set?-lt, Bool-cases, inl, inr}
use stitch_pty.Screen.State.{Screen, scroll_region}
use stitch_pty.Modes.{decawm, has_private}
use stitch_pty.Screen.Draw.{wrap_next, auto_wrap}
use stitch_pty.Screen.Fits.{Fits, move_to-Fits, scroll_region_bounds}

-- `s` with the cells, the wrap flags, the place of the cursor and the dirty rows of `s'`.
abbrev pub taking : Screen → Screen → Screen
taking s s' = record s {
  buffer = s'.buffer;
  wrapped = s'.wrapped;
  cursor = record (s.cursor) { x = s'.cursor.x; y = s'.cursor.y };
  dirty = s'.dirty;
}

-- Nothing else differs.
abbrev pub Kept : Screen → Screen → Type 0
Kept s s' = s' ≡ taking s s'

pub Kept-trans : (s : Screen) (s1 s2 : Screen) → Kept s s1 → Kept s1 s2 → Kept s s2
Kept-trans s s1 s2 p q = q ∙ ap (λ t. taking t s2) p

-- `s'` has the cells and the captured rows of `s`, and its cursor at the head of the next row, or,
-- on the last row, at the head of that one; the wrap flag of the next row is set where it
-- `continues`, and but for the dirty rows nothing else differs.
pub record Wrapped (lines columns : ℕ) (continues : Bool) (s s' : Screen) : Type 0 where
  pub fits : Fits lines columns s'
  pub same_cells : s'.buffer ≡ s.buffer
  pub same_off : s'.scrolled_off ≡ s.scrolled_off
  pub same_mode : s'.mode ≡ s.mode
  pub same_attrs : s'.cursor.attrs ≡ s.cursor.attrs
  pub at_head : s'.cursor.x ≡ 0
  pub row : s'.cursor.y ≡ (if s.cursor.y + 1 == lines then s.cursor.y else s.cursor.y + 1)
  pub flags :
      (j : ℕ)
      → get_elem? s'.wrapped j ≡ (
          if continues && j == s.cursor.y + 1 && ltb j lines
          then some true
          else get_elem? s.wrapped j)
  pub kept : Kept s s'

module _ {lines columns : ℕ} {s : Screen} (f : Fits lines columns s) where
  pub wrap_next-Wrapped : Holds (Wrapped lines columns true s) (wrap_next s)
  unfolding wrap_next
  wrap_next-Wrapped = elim (Bool-cases (ltb s.cursor.y (s.lines - 1))) [
    | inl more ↦
        let y = s.cursor.y + 1 in
        let below : y < lines = ground (arith, f.lines_eq) in
        let here : y < length s.wrapped = omega (arith, f.page.count) in
        let g = move_to-Fits 0 y f (omega arith) below in
        rw (more, set?-lt s.wrapped y true here)
          (holds (record {
            fits = record {
              lines_eq = f.lines_eq;
              columns_eq = f.columns_eq;
              lines_pos = f.lines_pos;
              columns_pos = f.columns_pos;
              page = record {
                grid = f.page.grid;
                count = length-set s.wrapped y true ∙ f.page.count;
              };
              region = f.region;
              cursor_x = omega arith;
              cursor_y = below;
              captured = f.captured;
            };
            same_cells = refl;
            same_off = refl;
            same_mode = refl;
            same_attrs = refl;
            at_head = refl;
            row = ground arith;
            flags = λ j. get_elem?-set s.wrapped y j true here ∙ ground (arith, f.lines_eq);
            kept = refl;
          }))
    | inr last ↦ rw last (
        holds (record {
          fits = move_to-Fits 0 s.cursor.y f (omega arith) f.cursor_y;
          same_cells = refl;
          same_off = refl;
          same_mode = refl;
          same_attrs = refl;
          at_head = refl;
          row = ground (arith, f.lines_eq, f.cursor_y);
          flags = λ j. ground (arith, f.lines_eq, f.cursor_y);
          kept = refl;
        }))
  ]

  -- The scrolling branch of the wrap is never reached: the cursor's row is below the region's last
  -- row only where it is below the last row of the screen.
  scroll_wrap_unreached :
      ltb s.cursor.y (s.lines - 1) ≡ false → ltb s.cursor.y (scroll_region s).1 ≡ false
  scroll_wrap_unreached last = let b = scroll_region_bounds f in ground (arith, f.lines_eq, b.1)

  -- With the cursor waiting at the margin of a screen of the right shape, whether DECAWM is on or
  -- off, the automatic wrap never panics and takes the cursor to the head of the next row; on the
  -- last row, to the head of that same row. No cell changes and no row is captured for the history:
  -- the screen does not scroll. With DECAWM the next row gets the wrap flag; but for that, the place
  -- of the cursor and the dirty rows nothing changes.
  pub auto_wrap-Wrapped :
      ltb s.cursor.x s.columns ≡ false
      → Holds (Wrapped lines columns (has_private s.mode decawm) s) (auto_wrap s)
  unfolding auto_wrap
  auto_wrap-Wrapped full = elim (Bool-cases (has_private s.mode decawm)) [
    | inl on ↦ elim (Bool-cases (ltb s.cursor.y (s.lines - 1))) [
      | inl more ↦ rw (full, on, more) wrap_next-Wrapped
      | inr last ↦
          rw (full, on, last, scroll_wrap_unreached last)
            (holds (record {
              fits = move_to-Fits 0 s.cursor.y f (omega arith) f.cursor_y;
              same_cells = refl;
              same_off = refl;
              same_mode = refl;
              same_attrs = refl;
              at_head = refl;
              row = ground (arith, f.lines_eq, f.cursor_y);
              flags = λ j. ground (arith, f.lines_eq, f.cursor_y);
              kept = refl;
            }))
    ]
    | inr off ↦
        let at_margin : (s.cursor.x == s.columns) ≡ true =
          ground (arith, f.columns_eq, f.cursor_x) in
        rw (full, off, at_margin)
          (holds (record {
            fits = move_to-Fits _ _ f (omega arith) (ground (arith, f.lines_eq, f.cursor_y));
            same_cells = refl;
            same_off = refl;
            same_mode = refl;
            same_attrs = refl;
            at_head = refl;
            row = ground (arith, f.lines_eq, f.cursor_y);
            flags = λ j. ground (arith, f.lines_eq, f.cursor_y);
            kept = refl;
          }))
  ]
