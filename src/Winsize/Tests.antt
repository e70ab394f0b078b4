-- ===== src/Winsize/Tests.antt =====
-- The operations of src/winsize.rs at concrete sizes.
use stitch_pty.Prelude.{◌≡◌, refl, true, codes}
use stitch_pty.Prelude.Ints.{pos, negsuc, to_i16}
use stitch_pty.Screen.Reports.{decimal, digits}
use stitch_pty.Winsize.{new_winsize, repr, equal_size, to_coord}

repr_text : repr (new_winsize 24 80 0 0) ≡ codes "Winsize(rows=24, cols=80, xpixel=0, ypixel=0)"
unfolding repr new_winsize decimal digits
repr_text = refl

size_equals : equal_size (new_winsize 24 80 0 0) (new_winsize 24 80 0 0) ≡ true
unfolding equal_size new_winsize
size_equals = refl

coord : to_coord (new_winsize 24 80 0 0) ≡ (pos 80, pos 24)
unfolding to_coord new_winsize to_i16
coord = refl

-- Columns above the range of an i16 come out negative.
coord_wraps : to_coord (new_winsize 24 40000 0 0) ≡ (negsuc 25535, pos 24)
unfolding to_coord new_winsize to_i16
coord_wraps = refl
