-- ===== src/Graphics.antt =====
-- The colour tables of src/terminal/graphics.rs. A colour is its text.
pub mod Laws
use stitch_pty.Prelude.{
  ℕ, zero, suc, ◌+◌, ◌-◌, ◌*◌, ◌/◌, ◌%◌, ◌==◌, ltb, if◌then◌else◌, Option, none, some, List, [],
  ◌∷◌, ◌++◌, map, Text, codes,
}

unfoldable pub fg_ansi : ℕ → Option Text
fg_ansi code =
    if code == 30
    then some (codes "black")
    else if code == 31
    then some (codes "red")
    else if code == 32
    then some (codes "green")
    else if code == 33
    then some (codes "brown")
    else if code == 34
    then some (codes "blue")
    else if code == 35
    then some (codes "magenta")
    else if code == 36
    then some (codes "cyan")
    else if code == 37
    then some (codes "white")
    else if code == 39
    then some (codes "default")
    else none

unfoldable pub fg_aixterm : ℕ → Option Text
fg_aixterm code =
    if code == 90
    then some (codes "brightblack")
    else if code == 91
    then some (codes "brightred")
    else if code == 92
    then some (codes "brightgreen")
    else if code == 93
    then some (codes "brightbrown")
    else if code == 94
    then some (codes "brightblue")
    else if code == 95
    then some (codes "brightmagenta")
    else if code == 96
    then some (codes "brightcyan")
    else if code == 97
    then some (codes "brightwhite")
    else none

unfoldable pub bg_ansi : ℕ → Option Text
bg_ansi code =
    if code == 40
    then some (codes "black")
    else if code == 41
    then some (codes "red")
    else if code == 42
    then some (codes "green")
    else if code == 43
    then some (codes "brown")
    else if code == 44
    then some (codes "blue")
    else if code == 45
    then some (codes "magenta")
    else if code == 46
    then some (codes "cyan")
    else if code == 47
    then some (codes "white")
    else if code == 49
    then some (codes "default")
    else none

unfoldable pub bg_aixterm : ℕ → Option Text
bg_aixterm code =
    if code == 100
    then some (codes "brightblack")
    else if code == 101
    then some (codes "brightred")
    else if code == 102
    then some (codes "brightgreen")
    else if code == 103
    then some (codes "brightbrown")
    else if code == 104
    then some (codes "brightblue")
    else if code == 105
    then some (codes "brightmagenta")
    else if code == 106
    then some (codes "brightcyan")
    else if code == 107
    then some (codes "brightwhite")
    else none

-- One digit of `{:x}`.
unfoldable pub hex_digit : ℕ → ℕ
hex_digit d = if ltb d 10 then b'0' + d else b'a' + (d - 10)

-- `{:02x}` of a byte.
unfoldable pub hex_byte : ℕ → Text
unfolding hex_digit
hex_byte b = hex_digit (b / 16) ∷ hex_digit (b % 16) ∷ []

-- `format!("{:02x}{:02x}{:02x}", r, g, b)`.
unfoldable pub rgb_text : ℕ → ℕ → ℕ → Text
unfolding hex_byte
rgb_text r g b = hex_byte r ++ hex_byte g ++ hex_byte b

abbrev pub standard_colors : List Text
standard_colors =
    rgb_text 0x00 0x00 0x00
    ∷ rgb_text 0xcd 0x00 0x00
    ∷ rgb_text 0x00 0xcd 0x00
    ∷ rgb_text 0xcd 0xcd 0x00
    ∷ rgb_text 0x00 0x00 0xee
    ∷ rgb_text 0xcd 0x00 0xcd
    ∷ rgb_text 0x00 0xcd 0xcd
    ∷ rgb_text 0xe5 0xe5 0xe5
    ∷ rgb_text 0x7f 0x7f 0x7f
    ∷ rgb_text 0xff 0x00 0x00
    ∷ rgb_text 0x00 0xff 0x00
    ∷ rgb_text 0xff 0xff 0x00
    ∷ rgb_text 0x5c 0x5c 0xff
    ∷ rgb_text 0xff 0x00 0xff
    ∷ rgb_text 0x00 0xff 0xff
    ∷ rgb_text 0xff 0xff 0xff
    ∷ []

-- The `values` of the cube.
abbrev pub cube_values : List ℕ
cube_values = 0x00 ∷ 0x5f ∷ 0x87 ∷ 0xaf ∷ 0xd7 ∷ 0xff ∷ []

-- The three nested loops over `values`.
unfoldable pub cube_blues : ℕ → ℕ → List ℕ → List Text
cube_blues r g [] = []
cube_blues r g (b ∷ bs) = rgb_text r g b ∷ cube_blues r g bs

unfoldable pub cube_greens : ℕ → List ℕ → List Text
unfolding cube_blues
cube_greens r [] = []
cube_greens r (g ∷ gs) = cube_blues r g cube_values ++ cube_greens r gs

unfoldable pub cube_reds : List ℕ → List Text
unfolding cube_greens
cube_reds [] = []
cube_reds (r ∷ rs) = cube_greens r cube_values ++ cube_reds rs

-- The loop over the greys, with the rounds left.
unfoldable pub greys : ℕ → ℕ → List Text
greys zero i = []
greys (suc n) i = let v = 8 + i * 10 in rgb_text v v v ∷ greys n (i + 1)

-- `fg_bg_256`.
unfoldable pub fg_bg_256 : List Text
unfolding cube_reds greys
fg_bg_256 = standard_colors ++ cube_reds cube_values ++ greys 24 0
