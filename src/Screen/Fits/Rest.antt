-- ===== src/Screen/Fits/Rest.antt =====
-- SGR, the reports, the cursor style and the keyboard modes of src/terminal/screen.rs, on a screen of
-- the right shape.
use stitch_pty.Prelude.{
  ℕ, zero, suc, ◌≤◌, ◌≡◌, refl, Bool, true, false, ◌&&◌, ◌==◌, ltb, leb, within, if◌then◌else◌,
  Option, none, some, List, [], ◌∷◌, length, get_elem?, drop, ◌>>=◌, arith, Text, codes, equal,
}
use stitch_pty.Prelude.{Holds, holds, Holds-bind, Holds-if, length-drop, Bool-cases, inl, inr}
use stitch_pty.Screen.State.{
  Char, KeyboardApplyBehavior, replace, union, difference, Screen, scroll_region,
}
use stitch_pty.Modes.{decom, decscnm, has_private}
use stitch_pty.Screen.Sgr.{
  with_attrs, with_named_fg, with_named_bg, reset_attrs, plain_rendition, extended_color, rendition,
  renditions, select_graphic_rendition,
}
use stitch_pty.Screen.Reports.{
  respond, identify_terminal_primary, report_device_status, set_cursor_style, set_keyboard_mode,
  push_keyboard_mode, pop_keyboard_modes, report_keyboard_mode,
}
use stitch_pty.Screen.Fits.{Fits, Fits-if}
use stitch_pty.Screen.Csi.{param, behavior_of, dispatch_u}
use stitch_pty.Graphics.{fg_bg_256}
use stitch_pty.Graphics.Laws.{fg_bg_256-lt}
use stitch_pty.Screen.Fits.Moves.{restore_cursor-Fits}

-- `s'` has the fields of `s` that the shape is about.
module _ {lines columns : ℕ} {s : Screen} (f : Fits lines columns s) where
  with_attrs-Fits : (a : Char) → Fits lines columns (with_attrs s a)
  with_attrs-Fits a = ground arith

  with_named_fg-Fits : (c : Option Text) → Fits lines columns (with_named_fg s c)
  unfolding with_named_fg
  with_named_fg-Fits none = f
  with_named_fg-Fits (some c) = with_attrs-Fits _

  with_named_bg-Fits : (c : Option Text) → Fits lines columns (with_named_bg s c)
  unfolding with_named_bg
  with_named_bg-Fits none = f
  with_named_bg-Fits (some c) = with_attrs-Fits _

  respond-Fits : (t : Text) → Fits lines columns (respond s t)
  respond-Fits t = ground arith

  reset_attrs-Fits : Fits lines columns (reset_attrs s)
  unfolding reset_attrs
  reset_attrs-Fits = elim (Bool-cases (has_private s.mode decscnm)) [
    | inl on ↦ rw on (with_attrs-Fits _)
    | inr off ↦ rw off (with_attrs-Fits _)
  ]

module _ {lines columns : ℕ} {s : Screen} (f : Fits lines columns s) where
  plain_rendition-Fits : (p : ℕ) → Fits lines columns (plain_rendition s p)
  unfolding plain_rendition
  plain_rendition-Fits p = Fits-if (p == 0) (reset_attrs-Fits f) (
      Fits-if (p == 1) (with_attrs-Fits f _) (
        Fits-if (p == 2) (with_attrs-Fits f _) (
          Fits-if (p == 3) (with_attrs-Fits f _) (
            Fits-if (p == 4) (with_attrs-Fits f _) (
              Fits-if (p == 5) (with_attrs-Fits f _) (
                Fits-if (p == 7) (with_attrs-Fits f _) (
                  Fits-if (p == 8) (with_attrs-Fits f _) (
                    Fits-if (p == 9) (with_attrs-Fits f _) (
                      Fits-if (p == 22) (with_attrs-Fits f _) (
                        Fits-if (p == 23) (with_attrs-Fits f _) (
                          Fits-if (p == 24) (with_attrs-Fits f _) (
                            Fits-if (p == 25) (with_attrs-Fits f _) (
                              Fits-if (p == 27) (with_attrs-Fits f _) (
                                Fits-if (p == 28) (with_attrs-Fits f _) (
                                  Fits-if (p == 29) (with_attrs-Fits f _) (
                                    Fits-if (p == 39) (with_attrs-Fits f _) (
                                      Fits-if (p == 49) (with_attrs-Fits f _) (
                                        Fits-if (within 30 37 p) (with_named_fg-Fits f _) (
                                          Fits-if (within 90 97 p) (with_named_fg-Fits f _) (
                                            Fits-if (within 40 47 p) (with_named_bg-Fits f _) (
                                              Fits-if (within 100 107 p) (with_named_bg-Fits f _)
                                                f)))))))))))))))))))))

palette-lt :
    {P : Option Text × ℕ → Type 0} (kind n : ℕ) (k : Text → Option Text × ℕ)
    (other : Option (Option Text × ℕ))
    → ((c : Text) → P (k c))
    → Holds P other
    → Holds P (
        if kind == 5 && ltb n 256
        then get_elem? fg_bg_256 n >>= (λ color. some (k color))
        else other)
palette-lt kind n k other q h = elim (Bool-cases (kind == 5 && ltb n 256)) [
  | inl small ↦ let (c, e) = fg_bg_256-lt n (ground arith) in rw (small, e) (holds (q c))
  | inr big ↦ rw big h
]

-- The palette index that the code uses is in range.
extended_color-lt : (rest : List ℕ) → Holds (λ r. r.1 ≤ length rest) (extended_color rest)
unfolding extended_color
extended_color-lt [] = holds (omega arith)
extended_color-lt (kind ∷ []) = holds (omega arith)
extended_color-lt (kind ∷ n ∷ []) =
    palette-lt kind n (λ color. (some color, 2)) _ (λ c. omega arith) (holds (omega arith))
extended_color-lt (kind ∷ n ∷ g ∷ []) =
    palette-lt kind n (λ color. (some color, 2)) _ (λ c. omega arith) (holds (omega arith))
extended_color-lt (kind ∷ n ∷ g ∷ b ∷ rest) =
    palette-lt kind n (λ color. (some color, 2)) _ (λ c. omega arith)
      (Holds-if (kind == 2) (holds (omega arith)) (holds (omega arith)))

module _ {lines columns : ℕ} where
  rendition-Fits :
      (s : Screen) (p : ℕ) (rest : List ℕ)
      → Fits lines columns s
      → Holds (λ r. Fits lines columns r.0) (rendition s p rest)
  unfolding rendition
  rendition-Fits s p rest f =
      Holds-if (p == 38)
        (Holds-bind (extended_color-lt rest) (λ c h. holds (with_named_fg-Fits f c.0)))
        (Holds-if (p == 48)
          (Holds-bind (extended_color-lt rest) (λ c h. holds (with_named_bg-Fits f c.0)))
          (holds (plain_rendition-Fits f p)))

  renditions-Fits :
      (n : ℕ) (s : Screen) (params : List ℕ)
      → Fits lines columns s
      → Holds (Fits lines columns) (renditions n s params)
  unfolding renditions
  renditions-Fits zero s params f = holds f
  renditions-Fits (suc n) s [] f = holds f
  renditions-Fits (suc n) s (p ∷ rest) f =
      Holds-bind (rendition-Fits s p rest f) (λ r g. renditions-Fits n r.0 (drop r.1 rest) g)

  -- SGR never panics, whatever its parameters, and keeps the shape.
  pub select_graphic_rendition-Fits :
      {s : Screen} (params : List ℕ)
      → Fits lines columns s
      → Holds (Fits lines columns) (select_graphic_rendition s params)
  unfolding select_graphic_rendition
  select_graphic_rendition-Fits {s} params f = renditions-Fits (length params) s params f

-- The loop of SGR ends by its length: more rounds than there are parameters change nothing.
pub renditions-enough :
    (n : ℕ) (s : Screen) (params : List ℕ)
    → length params ≤ n
    → renditions n s params ≡ select_graphic_rendition s params
unfolding renditions select_graphic_rendition
renditions-enough n s params h = same n (length params) s params h (omega arith)
  where
    same :
        (n m : ℕ) (s : Screen) (params : List ℕ)
        → length params ≤ n
        → length params ≤ m
        → renditions n s params ≡ renditions m s params
    same zero zero s params h k = refl
    same zero (suc m) s [] h k = refl
    same (suc n) zero s [] h k = refl
    same zero (suc m) s (p ∷ rest) h k = absurd (omega arith)
    same (suc n) zero s (p ∷ rest) h k = absurd (omega arith)
    same (suc n) (suc m) s [] h k = refl
    same (suc n) (suc m) s (p ∷ rest) h k = bind_same (rendition s p rest) (λ r.
        same n m r.0 (drop r.1 rest) (omega (arith, length-drop r.1 rest))
          (omega (arith, length-drop r.1 rest)))
      where
        bind_same :
            {A B : Type 0} {f g : A → Option B} (o : Option A)
            → ((a : A) → f a ≡ g a)
            → (o >>= f) ≡ (o >>= g)
        bind_same none e = refl
        bind_same (some a) e = e a

status_arms :
    {P : Screen → Type 0} (t u v : Screen) (asks origin above : Bool)
    → (asks && origin && above) ≡ false
    → P t
    → P u
    → P v
    → Holds P
        (if asks then (if origin then (if above then none else some t) else some u) else some v)
status_arms t u v true true true h p q r = absurd cc
status_arms t u v true true false h p q r = holds p
status_arms t u v true false above h p q r = holds q
status_arms t u v false origin above h p q r = holds r

module _ {lines columns : ℕ} {s : Screen} (f : Fits lines columns s) where
  -- A status report panics only for the cursor's position under DECOM with the cursor above the
  -- region.
  pub report_device_status-Fits :
      (param : ℕ)
      → (param == 6 && has_private s.mode decom && ltb s.cursor.y (scroll_region s).0) ≡ false
      → Holds (Fits lines columns) (report_device_status s param)
  unfolding report_device_status
  report_device_status-Fits param h = Holds-if (param == 5) (holds (respond-Fits f _)) (
      status_arms _ _ _ (param == 6) (has_private s.mode decom) (ltb s.cursor.y (scroll_region s).0)
        h (respond-Fits f _) (respond-Fits f _) f)

  pub set_cursor_style-Fits : (style : ℕ) → Fits lines columns (set_cursor_style s style)
  unfolding set_cursor_style
  set_cursor_style-Fits style = ground arith

  pub identify_terminal_primary-Fits : Fits lines columns (identify_terminal_primary s)
  unfolding identify_terminal_primary
  identify_terminal_primary-Fits = respond-Fits f _

  set_keyboard_mode-Fits :
      (mode : ℕ) (b : KeyboardApplyBehavior) → Fits lines columns (set_keyboard_mode s mode b)
  unfolding set_keyboard_mode
  set_keyboard_mode-Fits mode replace = ground arith
  set_keyboard_mode-Fits mode union = ground arith
  set_keyboard_mode-Fits mode difference = ground arith

  push_keyboard_mode-Fits : (mode : ℕ) → Fits lines columns (push_keyboard_mode s mode)
  unfolding push_keyboard_mode
  push_keyboard_mode-Fits mode = ground arith

  pop_keyboard_modes-Fits : (count : ℕ) → Fits lines columns (pop_keyboard_modes s count)
  unfolding pop_keyboard_modes
  pop_keyboard_modes-Fits count = ground arith

  report_keyboard_mode-Fits : Fits lines columns (report_keyboard_mode s)
  unfolding report_keyboard_mode
  report_keyboard_mode-Fits = respond-Fits f _

  pub dispatch_u-Fits :
      (params : List ℕ) (intermediates : Text)
      → Fits lines columns (dispatch_u s params intermediates)
  unfolding dispatch_u
  dispatch_u-Fits params intermediates =
      Fits-if (equal intermediates (codes "?")) report_keyboard_mode-Fits (
        Fits-if (equal intermediates (codes ">")) (push_keyboard_mode-Fits _) (
          Fits-if (equal intermediates (codes "<")) (pop_keyboard_modes-Fits _) (
            Fits-if (equal intermediates [] && leb 2 (length params) && param params 1 1 == 0)
              (set_keyboard_mode-Fits _ (behavior_of (param params 2 0))) (restore_cursor-Fits f))))
