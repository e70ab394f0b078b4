-- ===== src/Screen/Fits.antt =====
-- The shape of a screen of src/terminal/screen.rs: the buffer is `lines` rows of `columns` cells with a
-- wrap flag for each row, the cursor is on the screen or waits at the margin, and the margins lie
-- on the screen.
pub mod Moves
pub mod Scrolls
pub mod Lines
pub mod Feeds
pub mod Erasing
pub mod Wiping
pub mod Clearing
pub mod Aligning
pub mod Wrapping
pub mod Drawing
pub mod Typing
pub mod Sizes
pub mod Parked
pub mod Switching
pub mod Rest
pub mod Dispatch
use stitch_pty.Prelude.{
  ℕ, zero, suc, ◌+◌, ◌-◌, ◌*◌, ◌/◌, ◌%◌, ◌<◌, ◌≤◌, min, max, ◌≡◌, ◌≢◌, refl, sym, ◌∙◌, ap, Bool,
  true, false, not, ◌&&◌, ◌||◌, ◌==◌, ltb, leb, within, if◌then◌else◌, Option, none, some,
  unwrap_or, List, [], ◌∷◌, ◌++◌, length, get_elem?, get_or, set, set?, take, drop, replicate,
  ◌>>=◌, arith, Text, codes, equal,
}
use stitch_pty.Prelude.{
  Holds, holds, Holds-bind, Holds-map, Holds-eq, All, All-append, All-set, All-replicate, All-take,
  All-get_elem?, length-append, length-set, length-take, length-drop, length-replicate,
  get_elem?-lt, get_elem?-set, get_elem?-push, get_elem?-none, get_elem?-replicate, set?-lt,
  Bool-cases, Option-cases, ◌⊎◌, inl, inr, ==→≡, ==→≢, equal_iff,
}
use stitch_pty.Screen.State.{
  Char, blank, Row, Rows, Cursor, SavedCursor, default_cursor, Margins, CursorStyle, default_style,
  block, underline, beam, KeyboardApplyBehavior, replace, union, difference, TermEvent, bell,
  title_changed, icon_changed, cwd_changed, alt_screen_switched, scrollback_grew, Screen, full_row,
  full_rows, init_tabstops, mark_all_dirty, erase_cell, region_of, scroll_region, move_to,
  mark_dirty,
}
use stitch_pty.Screen.Grid.{Page}
use stitch_pty.Screen.Grid.Cells.{IsGrid}
use stitch_pty.Screen.Grid.Pages.{IsPage}
use stitch_pty.Screen.Scroll.{page_of, with_page}

abbrev pub RegionFits : Option Margins → ℕ → Type 0
RegionFits none lines = Unit {0}
RegionFits (some m) lines = (m.top < m.bottom) × (m.bottom < lines)

-- `cursor.x` may be `columns`: the next glyph wraps.
pub record Fits (lines columns : ℕ) (s : Screen) : Type 0 where
  pub lines_eq : s.lines ≡ lines
  pub columns_eq : s.columns ≡ columns
  pub lines_pos : 0 < lines
  pub columns_pos : 0 < columns
  pub page : IsPage lines columns (page_of s)
  pub region : RegionFits s.margins lines
  pub cursor_x : s.cursor.x ≤ columns
  pub cursor_y : s.cursor.y < lines
  pub captured : length s.scrolled_off ≡ length s.scrolled_off_wrapped

module _ {lines columns : ℕ} where
  pub with_page-Fits :
      {s : Screen} (p : Page)
      → Fits lines columns s
      → IsPage lines columns p
      → Fits lines columns (with_page s p)
  with_page-Fits p f v = record {
    lines_eq = f.lines_eq;
    columns_eq = f.columns_eq;
    lines_pos = f.lines_pos;
    columns_pos = f.columns_pos;
    page = v;
    region = f.region;
    cursor_x = f.cursor_x;
    cursor_y = f.cursor_y;
    captured = f.captured;
  }

  pub move_to-Fits :
      {s : Screen} (x y : ℕ)
      → Fits lines columns s
      → x ≤ columns
      → y < lines
      → Fits lines columns (move_to s x y)
  move_to-Fits x y f hx hy = record {
    lines_eq = f.lines_eq;
    columns_eq = f.columns_eq;
    lines_pos = f.lines_pos;
    columns_pos = f.columns_pos;
    page = f.page;
    region = f.region;
    cursor_x = hx;
    cursor_y = hy;
    captured = f.captured;
  }

  pub mark_dirty-Fits :
      {s : Screen} (y : ℕ) → Fits lines columns s → Fits lines columns (mark_dirty s y)
  mark_dirty-Fits y f = record {
    lines_eq = f.lines_eq;
    columns_eq = f.columns_eq;
    lines_pos = f.lines_pos;
    columns_pos = f.columns_pos;
    page = f.page;
    region = f.region;
    cursor_x = f.cursor_x;
    cursor_y = f.cursor_y;
    captured = f.captured;
  }

  pub Fits-if :
      {s t : Screen} (b : Bool)
      → Fits lines columns s
      → Fits lines columns t
      → Fits lines columns (if b then s else t)
  Fits-if true f g = f
  Fits-if false f g = g

  -- The scroll region lies on the screen.
  pub scroll_region_bounds :
      {s : Screen}
      → Fits lines columns s
      → ((scroll_region s).0 ≤ (scroll_region s).1) × ((scroll_region s).1 < lines)
  scroll_region_bounds {s} f = bounds s.margins f.region
    where
      bounds :
          (m : Option Margins)
          → RegionFits m lines
          → ((region_of m s.lines).0 ≤ (region_of m s.lines).1) × ((region_of m s.lines).1 < lines)
      bounds none r = omega (arith, f.lines_eq, f.lines_pos)
      bounds (some m) r = omega arith
