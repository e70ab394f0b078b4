-- ===== src/Screen/Sgr.antt =====
-- SGR of src/terminal/screen.rs: the attributes of the cells printed next.
use stitch_pty.Prelude.{
  ℕ, zero, suc, ◌%◌, true, false, ◌&&◌, ◌==◌, ltb, within, if◌then◌else◌, Option, none, some, List,
  [], ◌∷◌, length, get_elem?, drop, ◌>>=◌, Text, codes,
}
use stitch_pty.Screen.State.{Char, Screen}
use stitch_pty.Modes.{decscnm, has_private}
use stitch_pty.Graphics.{fg_ansi, fg_aixterm, bg_ansi, bg_aixterm, rgb_text, fg_bg_256}

abbrev pub with_attrs : Screen → Char → Screen
with_attrs s attrs = record s { cursor = record (s.cursor) { attrs = attrs } }

abbrev pub with_fg : Screen → Text → Screen
with_fg s color = with_attrs s (record (s.cursor.attrs) { fg = color })

abbrev pub with_bg : Screen → Text → Screen
with_bg s color = with_attrs s (record (s.cursor.attrs) { bg = color })

-- `if let Some(name) = …`.
unfoldable pub with_named_fg : Screen → Option Text → Screen
with_named_fg s none = s
with_named_fg s (some name) = with_fg s name

unfoldable pub with_named_bg : Screen → Option Text → Screen
with_named_bg s none = s
with_named_bg s (some name) = with_bg s name

-- The parameter 0.
unfoldable pub reset_attrs : Screen → Screen
reset_attrs s =
    if has_private s.mode decscnm
    then with_attrs s (record (s.default_char) { reverse = true })
    else with_attrs s s.default_char

-- The parameters that read no other.
unfoldable pub plain_rendition : Screen → ℕ → Screen
plain_rendition s p =
    let a = s.cursor.attrs in
    if p == 0
    then reset_attrs s
    else if p == 1
    then with_attrs s (record a { bold = true })
    else if p == 2
    then with_attrs s (record a { dim = true })
    else if p == 3
    then with_attrs s (record a { italics = true })
    else if p == 4
    then with_attrs s (record a { underscore = true })
    else if p == 5
    then with_attrs s (record a { blink = true })
    else if p == 7
    then with_attrs s (record a { reverse = true })
    else if p == 8
    then with_attrs s (record a { hidden = true })
    else if p == 9
    then with_attrs s (record a { strikethrough = true })
    else if p == 22
    then with_attrs s (record a { bold = false; dim = false })
    else if p == 23
    then with_attrs s (record a { italics = false })
    else if p == 24
    then with_attrs s (record a { underscore = false })
    else if p == 25
    then with_attrs s (record a { blink = false })
    else if p == 27
    then with_attrs s (record a { reverse = false })
    else if p == 28
    then with_attrs s (record a { hidden = false })
    else if p == 29
    then with_attrs s (record a { strikethrough = false })
    else if p == 39
    then with_fg s (codes "default")
    else if p == 49
    then with_bg s (codes "default")
    else if within 30 37 p
    then with_named_fg s (fg_ansi p)
    else if within 90 97 p
    then with_named_fg s (fg_aixterm p)
    else if within 40 47 p
    then with_named_bg s (bg_ansi p)
    else if within 100 107 p
    then with_named_bg s (bg_aixterm p)
    else s

-- The colour that follows 38 or 48, and the number of parameters it takes: `5; n` of the palette,
-- or `2; r; g; b`. `none` when the palette has no such entry, a panic.
unfoldable pub extended_color : List ℕ → Option (Option Text × ℕ)
extended_color (kind ∷ n ∷ []) =
    if kind == 5 && ltb n 256
    then get_elem? fg_bg_256 n >>= (λ color. some (some color, 2))
    else some (none, 0)
extended_color (kind ∷ n ∷ g ∷ []) =
    if kind == 5 && ltb n 256
    then get_elem? fg_bg_256 n >>= (λ color. some (some color, 2))
    else some (none, 0)
extended_color (kind ∷ n ∷ g ∷ b ∷ rest) =
    if kind == 5 && ltb n 256
    then get_elem? fg_bg_256 n >>= (λ color. some (some color, 2))
    else if kind == 2
    then some (some (rgb_text (n % 256) (g % 256) (b % 256)), 4)
    else some (none, 0)
extended_color _ = some (none, 0)

-- One round of the loop: the screen, and the parameters taken after the first.
unfoldable pub rendition : Screen → ℕ → List ℕ → Option (Screen × ℕ)
rendition s p rest =
    if p == 38
    then extended_color rest >>= (λ c. some (with_named_fg s c.0, c.1))
    else if p == 48
    then extended_color rest >>= (λ c. some (with_named_bg s c.0, c.1))
    else some (plain_rendition s p, 0)

-- The loop, with the rounds left; each round takes a parameter at least.
unfoldable pub renditions : ℕ → Screen → List ℕ → Option Screen
renditions zero s params = some s
renditions (suc n) s [] = some s
renditions (suc n) s (p ∷ rest) = do r ← rendition s p rest; renditions n r.0 (drop r.1 rest)

unfoldable pub select_graphic_rendition : Screen → List ℕ → Option Screen
select_graphic_rendition s params = renditions (length params) s params
