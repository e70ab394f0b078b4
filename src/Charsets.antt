-- ===== src/Charsets.antt =====
-- The character sets of src/terminal/charsets.rs. A `char` is its code point.
use stitch_pty.Prelude.{ℕ, Option, none, some, List, [], ◌∷◌, ◌==◌, ◌||◌, if◌then◌else◌}

pub data CharsetRef : Type 0 where
  ascii dec_special : CharsetRef

abbrev pub dec_special_map : List (ℕ × ℕ)
dec_special_map =
    (b'`', 0x25c6)
    ∷ (b'a', 0x2592)
    ∷ (b'b', 0x2409)
    ∷ (b'c', 0x240c)
    ∷ (b'd', 0x240d)
    ∷ (b'e', 0x240a)
    ∷ (b'f', 0x00b0)
    ∷ (b'g', 0x00b1)
    ∷ (b'h', 0x2424)
    ∷ (b'i', 0x240b)
    ∷ (b'j', 0x2518)
    ∷ (b'k', 0x2510)
    ∷ (b'l', 0x250c)
    ∷ (b'm', 0x2514)
    ∷ (b'n', 0x253c)
    ∷ (b'o', 0x23ba)
    ∷ (b'p', 0x23bb)
    ∷ (b'q', 0x2500)
    ∷ (b'r', 0x23bc)
    ∷ (b's', 0x23bd)
    ∷ (b't', 0x251c)
    ∷ (b'u', 0x2524)
    ∷ (b'v', 0x2534)
    ∷ (b'w', 0x252c)
    ∷ (b'x', 0x2502)
    ∷ (b'y', 0x2264)
    ∷ (b'z', 0x2265)
    ∷ (b'{', 0x03c0)
    ∷ (b'|', 0x2260)
    ∷ (b'}', 0x00a3)
    ∷ (b'~', 0x00b7)
    ∷ (b'_', b' ')
    ∷ []

-- The loop of `CharsetRef::map` over the table.
unfoldable pub find_mapped : List (ℕ × ℕ) → ℕ → ℕ
find_mapped [] byte = byte
find_mapped ((b, c) ∷ rest) byte = if b == byte then c else find_mapped rest byte

-- `CharsetRef::map`.
unfoldable pub map_byte : CharsetRef → ℕ → ℕ
unfolding find_mapped
map_byte ascii byte = byte
map_byte dec_special byte = find_mapped dec_special_map byte

unfoldable pub from_designation : ℕ → Option CharsetRef
from_designation c =
    if c == b'B' || c == b'(' then some ascii else if c == b'0' then some dec_special else none
