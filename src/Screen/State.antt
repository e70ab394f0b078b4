-- ===== src/Screen/State.antt =====
-- The state of src/terminal/screen.rs: cells, the cursor, margins, and the screen record.
use stitch_pty.Prelude.{
  ℕ, zero, suc, ◌+◌, ◌-◌, ◌/◌, max, Bool, true, false, not, ◌&&◌, Option, none, some, List, [],
  replicate, Text, codes, equal,
}
use stitch_pty.Prelude.Sets.{NatSet, insert}
use stitch_pty.Charsets.{CharsetRef, ascii}
use stitch_pty.Modes.{Modes, new_modes}

-- `Char`. The field `data` of the source is `text` here.
pub record Char : Type 0 where
  pub text : Text
  pub fg : Text
  pub bg : Text
  pub bold : Bool
  pub dim : Bool
  pub italics : Bool
  pub underscore : Bool
  pub blink : Bool
  pub reverse : Bool
  pub hidden : Bool
  pub strikethrough : Bool

-- `Char::blank`.
abbrev pub blank : Char
blank = record {
  text = codes " ";
  fg = codes "default";
  bg = codes "default";
  bold = false;
  dim = false;
  italics = false;
  underscore = false;
  blink = false;
  reverse = false;
  hidden = false;
  strikethrough = false;
}

unfoldable pub is_blank : Char → Bool
unfolding equal
is_blank c =
    equal c.text (codes " ")
    && not c.bold
    && not c.dim
    && not c.italics
    && not c.underscore
    && not c.blink
    && not c.reverse
    && not c.hidden
    && not c.strikethrough
    && equal c.fg (codes "default")
    && equal c.bg (codes "default")

-- One entry of the cursor's stack, `(usize, usize, Char, Modes)`.
pub record SavedCursor : Type 0 where
  pub x : ℕ
  pub y : ℕ
  pub attrs : Char
  pub mode : Modes

-- The head of `stack` is its top.
pub record Cursor : Type 0 where
  pub x : ℕ
  pub y : ℕ
  pub attrs : Char
  pub hidden : Bool
  pub stack : List SavedCursor

-- `Cursor::default`.
abbrev pub default_cursor : Cursor
default_cursor = record { x = 0; y = 0; attrs = blank; hidden = false; stack = [] }

pub record Margins : Type 0 where
  pub top : ℕ
  pub bottom : ℕ

pub data CursorStyle : Type 0 where
  default_style block underline beam : CursorStyle

pub data KeyboardApplyBehavior : Type 0 where
  replace union difference : KeyboardApplyBehavior

-- `TermEvent` of src/terminal/events.rs.
pub data TermEvent : Type 0 where
  bell : TermEvent
  title_changed : Text → TermEvent
  icon_changed : Text → TermEvent
  cwd_changed : Text → TermEvent
  alt_screen_switched : Bool → TermEvent
  scrollback_grew : ℕ → TermEvent

abbrev pub Row : Type 0
Row = List Char

abbrev pub Rows : Type 0
Rows = List Row

-- `Screen`. The callback `write_process_input` is the list of the texts that it was called with,
-- the latest last: `responses`. `dirty` and `tabstops` are sets.
pub record Screen : Type 0 where
  pub columns : ℕ
  pub lines : ℕ
  pub buffer : Rows
  pub wrapped : List Bool
  pub cursor : Cursor
  pub default_char : Char
  pub mode : Modes
  pub margins : Option Margins
  pub tabstops : NatSet
  pub g0_charset : CharsetRef
  pub g1_charset : CharsetRef
  pub charset : CharsetRef
  pub charset_index : ℕ
  pub dirty : NatSet
  pub icon_name : Text
  pub title : Text
  pub cwd : Option Text
  pub events : List TermEvent
  pub bell_pending : Bool
  pub responses : List Text
  pub cursor_style : CursorStyle
  pub cursor_blink : Bool
  pub keyboard_mode : ℕ
  pub keyboard_mode_stack : List ℕ
  pub scrolled_off : Rows
  pub scrolled_off_wrapped : List Bool
  pub alt_screen : Bool
  pub saved_buffer : Option Rows
  pub saved_wrapped : Option (List Bool)
  pub alt_saved_cursor : Option Cursor

-- A row and a buffer of one cell repeated, `vec![c; columns]` and `vec![row; lines]`.
abbrev pub full_row : ℕ → Char → Row
full_row columns c = replicate columns c

abbrev pub full_rows : ℕ → ℕ → Char → Rows
full_rows lines columns c = replicate lines (full_row columns c)

-- The loop `for col in (8..columns).step_by(8)`, with the rounds left.
unfoldable pub tab_columns : ℕ → ℕ → NatSet → NatSet
tab_columns zero col stops = stops
tab_columns (suc n) col stops = tab_columns n (col + 8) (insert col stops)

-- `(8..columns).step_by(8)` has `(columns - 1) / 8` elements.
unfoldable pub default_tabstops : ℕ → NatSet
unfolding tab_columns insert
default_tabstops columns = tab_columns ((columns - 1) / 8) 8 []

unfoldable pub init_tabstops : Screen → Screen
init_tabstops s = record s { tabstops = default_tabstops s.columns }

-- The loop of `mark_all_dirty`, with the rounds left.
unfoldable pub insert_range : ℕ → ℕ → NatSet → NatSet
insert_range zero y rows = rows
insert_range (suc n) y rows = insert_range n (y + 1) (insert y rows)

unfoldable pub mark_all_dirty : Screen → Screen
mark_all_dirty s = record s { dirty = insert_range s.lines 0 s.dirty }

-- `Screen::new`.
unfoldable pub new : ℕ → ℕ → Screen
new columns lines =
    let cols = max columns 1 in
    let rows = max lines 1 in
    record {
      columns = cols;
      lines = rows;
      buffer = full_rows rows cols blank;
      wrapped = replicate rows false;
      cursor = default_cursor;
      default_char = blank;
      mode = new_modes;
      margins = none;
      tabstops = default_tabstops cols;
      g0_charset = ascii;
      g1_charset = ascii;
      charset = ascii;
      charset_index = 0;
      dirty = [];
      icon_name = [];
      title = [];
      cwd = none;
      events = [];
      bell_pending = false;
      responses = [];
      cursor_style = default_style;
      cursor_blink = true;
      keyboard_mode = 0;
      keyboard_mode_stack = [];
      scrolled_off = [];
      scrolled_off_wrapped = [];
      alt_screen = false;
      saved_buffer = none;
      saved_wrapped = none;
      alt_saved_cursor = none;
    }

-- `erase_cell`: a blank with the cursor's attributes.
abbrev pub erase_cell : Screen → Char
erase_cell s = record (s.cursor.attrs) { text = codes " " }

-- The region of `margins`, or the whole screen. `lines` is at least 1.
abbrev pub region_of : Option Margins → ℕ → ℕ × ℕ
region_of none lines = (0, lines - 1)
region_of (some m) lines = (m.top, m.bottom)

abbrev pub scroll_region : Screen → ℕ × ℕ
scroll_region s = region_of s.margins s.lines

abbrev pub move_to : Screen → ℕ → ℕ → Screen
move_to s x y = record s { cursor = record (s.cursor) { x = x; y = y } }

abbrev pub mark_dirty : Screen → ℕ → Screen
mark_dirty s y = record s { dirty = insert y s.dirty }
