-- ===== src/Performer.antt =====
-- The performer of src/terminal/parser.rs, which turns the calls of the escape sequence parser into
-- operations of the screen; its `Parser`, which feeds bytes, and its `Stream`. The parser never
-- reads the screen, so that its calls are performed when it has read the bytes. `char_width` stands
-- for the width of a character in the crate unicode-width.
pub mod Safety
pub mod Feeding
mod Tests
use stitch_pty.Prelude.{
  ℕ, Bool, ◌&&◌, ◌||◌, ◌==◌, ltb, if◌then◌else◌, Option, none, some, ◌>>=◌, List, [], ◌∷◌, ◌++◌,
  Text, codes, equal,
}
use stitch_pty.Utf8.{from_utf8_lossy, encode_text}
use stitch_pty.Cwd.{parse_osc7, parse_osc9_9}
use stitch_pty.Modes.{decckm}
use stitch_pty.AnsiParser.{
  Params, Action, execute, print, hook, put, unhook, osc, csi, esc, Parser, new_parser,
}
use stitch_pty.AnsiParser.Ground.{advance}
use stitch_pty.Screen.State.{Screen}
use stitch_pty.Screen.Cursor.{
  carriage_return, tab, backspace, set_tab_stop, save_cursor, restore_cursor,
}
use stitch_pty.Screen.Scroll.{linefeed, reverse_index}
use stitch_pty.Screen.Draw.{draw}
use stitch_pty.Screen.Erase.{alignment_display}
use stitch_pty.Screen.Events.{set_icon_name, set_title, set_cwd, ring_bell}
use stitch_pty.Screen.Reports.{identify_terminal_primary, define_charset, shift_in, shift_out}
use stitch_pty.Screen.Switches.{set_private_mode, reset_private_mode}
use stitch_pty.Screen.Csi.{csi_dispatch}

-- `Performer::execute`.
unfoldable pub execute_byte : Screen → ℕ → Option Screen
execute_byte s byte =
    if byte == 0x0D
    then some (carriage_return s)
    else if byte == 0x0A
    then linefeed s
    else if byte == 0x09
    then some (tab s)
    else if byte == 0x08
    then some (backspace s)
    else if byte == 0x0B || byte == 0x0C
    then linefeed s
    else if byte == 0x0E
    then some (shift_out s)
    else if byte == 0x0F
    then some (shift_in s)
    else if byte == 0x07
    then some (ring_bell s)
    else some s

-- `params.join(&b";"[..])`.
unfoldable pub join : List (List ℕ) → List ℕ
join [] = []
join (p ∷ []) = p
join (p ∷ q ∷ params) = p ++ b';' ∷ join (q ∷ params)

unfoldable pub set_both : Screen → Text → Screen
set_both s title = set_title (set_icon_name s title) title

-- The arm `b"0" | b"1" | b"2"`.
unfoldable pub dispatch_title : Screen → List ℕ → List (List ℕ) → Screen
dispatch_title s selector rest =
    let title = from_utf8_lossy (join rest) in
    if equal selector (codes "0")
    then set_both s title
    else if equal selector (codes "1")
    then set_icon_name s title
    else set_title s title

-- The arm `b"l"`.
unfoldable pub dispatch_label : Screen → List (List ℕ) → Screen
dispatch_label s (icon ∷ title ∷ rest) =
    set_title (set_icon_name s (from_utf8_lossy icon)) (from_utf8_lossy title)
dispatch_label s rest = s

unfoldable pub set_cwd_of : Screen → Option Text → Screen
set_cwd_of s none = s
set_cwd_of s (some path) = set_cwd s path

-- The arm `b"7"`.
unfoldable pub dispatch_uri : Screen → List (List ℕ) → Screen
dispatch_uri s [] = s
dispatch_uri s (p ∷ rest) = set_cwd_of s (parse_osc7 (join (p ∷ rest)))

-- The arm `b"9"`.
unfoldable pub dispatch_conpty : Screen → List (List ℕ) → Screen
dispatch_conpty s (p ∷ q ∷ rest) =
    if equal p (codes "9") then set_cwd_of s (parse_osc9_9 (join (q ∷ rest))) else s
dispatch_conpty s rest = s

-- `Performer::osc_dispatch`.
unfoldable pub osc_dispatch : Screen → List (List ℕ) → Screen
osc_dispatch s [] = s
osc_dispatch s (selector ∷ rest) =
    if equal selector (codes "0") || equal selector (codes "1") || equal selector (codes "2")
    then dispatch_title s selector rest
    else if equal selector (codes "l")
    then dispatch_label s rest
    else if equal selector (codes "7")
    then dispatch_uri s rest
    else if equal selector (codes "9")
    then dispatch_conpty s rest
    else s

-- `params.subparams.iter().flat_map(..)`.
unfoldable pub flatten : List (List ℕ) → List ℕ
flatten [] = []
flatten (g ∷ groups) = g ++ flatten groups

-- `Performer::esc_dispatch` without an intermediate.
unfoldable pub esc_plain : Screen → ℕ → Option Screen
esc_plain s byte =
    if byte == b'H'
    then some (set_tab_stop s)
    else if byte == b'Z'
    then some (identify_terminal_primary s)
    else if byte == b'7'
    then some (save_cursor s)
    else if byte == b'8'
    then some (restore_cursor s)
    else if byte == b'D'
    then linefeed s
    else if byte == b'E'
    then linefeed (carriage_return s)
    else if byte == b'M'
    then reverse_index s
    else if byte == b'='
    then some (set_private_mode s decckm)
    else if byte == b'>'
    then some (reset_private_mode s decckm)
    else some s

-- `Performer::esc_dispatch`.
unfoldable pub esc_dispatch : Screen → List ℕ → ℕ → Option Screen
esc_dispatch s [] byte = esc_plain s byte
esc_dispatch s (i ∷ []) byte =
    if byte == b'8' && i == b'#' then alignment_display s else some (define_charset s (byte ∷ []) i)
esc_dispatch s (i ∷ j ∷ rest) byte = some s

-- The `Perform` of a `Performer`, by the call; `hook`, `put` and `unhook` do nothing.
unfoldable pub perform : (ℕ → Option ℕ) → Screen → Action → Option Screen
perform char_width s (print c) = draw char_width s (c ∷ [])
perform char_width s (execute byte) = execute_byte s byte
perform char_width s (hook params intermediates ignoring action) = some s
perform char_width s (put byte) = some s
perform char_width s unhook = some s
perform char_width s (osc params bell) = some (osc_dispatch s params)
perform char_width s (csi params intermediates ignoring action) =
    csi_dispatch s (flatten params.subparams) intermediates action
perform char_width s (esc intermediates ignoring byte) = esc_dispatch s intermediates byte

unfoldable pub perform_all : (ℕ → Option ℕ) → Screen → List Action → Option Screen
perform_all char_width s [] = some s
perform_all char_width s (action ∷ actions) = do
  t ← perform char_width s action
  perform_all char_width t actions

-- `Parser::feed`.
unfoldable pub feed : (ℕ → Option ℕ) → Parser → Screen → List ℕ → Option (Parser × Screen)
feed char_width p s bytes = do
  q ← advance (record p { actions = [] }) bytes
  t ← perform_all char_width s q.actions
  some (q, t)

-- `Parser::feed_str`.
unfoldable pub feed_str : (ℕ → Option ℕ) → Parser → Screen → Text → Option (Parser × Screen)
feed_str char_width p s text = feed char_width p s (encode_text text)

pub record Stream : Type 0 where
  pub parser : Parser
  pub screen : Option Screen

-- `Stream::new`.
abbrev pub new_stream : Stream
new_stream = record { parser = new_parser; screen = none }

unfoldable pub attach : Stream → Screen → Stream
attach st s = record st { screen = some s }

unfoldable pub detach : Stream → Stream × Option Screen
detach st = (record st { screen = none }, st.screen)

abbrev pub with_fed : Parser × Screen → Stream
with_fed fed = record { parser = fed.0; screen = some fed.1 }

-- `Stream::feed`.
unfoldable pub feed_stream : (ℕ → Option ℕ) → Stream → List ℕ → Option Stream
feed_stream char_width st bytes = elim st.screen [
  | none ↦ some st
  | some s ↦ feed char_width st.parser s bytes >>= (λ fed. some (with_fed fed))
]
