-- ===== src/Utf8/Tests.antt =====
-- UTF-8 at a few sequences: a character, a wrong one and one that is cut off.
use stitch_pty.Prelude.{◌≡◌, refl, [], ◌∷◌}
use stitch_pty.Utf8.{
  char, invalid, incomplete, lead_of, decode_two, decode_three, decode_lead, decode, lossy,
  from_utf8_lossy,
}

euro : decode (0xE2 ∷ 0x82 ∷ 0xAC ∷ 0x21 ∷ []) ≡ char 0x20AC 3
unfolding decode decode_lead decode_three lead_of
euro = refl

overlong : decode (0xE0 ∷ 0x80 ∷ 0x80 ∷ []) ≡ invalid 1
unfolding decode decode_lead decode_three lead_of
overlong = refl

half : decode (0xE2 ∷ 0x82 ∷ []) ≡ incomplete
unfolding decode decode_lead decode_three lead_of
half = refl

replaced : from_utf8_lossy (0x61 ∷ 0xFF ∷ 0x62 ∷ 0xC3 ∷ []) ≡ 0x61 ∷ 0xFFFD ∷ 0x62 ∷ 0xFFFD ∷ []
unfolding from_utf8_lossy lossy decode decode_lead decode_two lead_of
replaced = refl
