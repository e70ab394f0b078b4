-- ===== src/Performer/Safety.antt =====
-- The shape of a screen that src/terminal/parser.rs feeds.
use stitch_pty.Prelude.{
  ℕ, refl, ◌&&◌, ◌||◌, ◌==◌, Option, none, some, List, [], ◌∷◌, Text, codes, equal, arith,
}
use stitch_pty.Prelude.{Holds, holds, Holds-if}
use stitch_pty.Modes.{decckm}
use stitch_pty.Charsets.{CharsetRef}
use stitch_pty.Screen.State.{Screen}
use stitch_pty.Screen.Events.{push_event, set_icon_name, set_title, set_cwd, ring_bell}
use stitch_pty.Screen.Reports.{designate, define_charset, shift_in, shift_out}
use stitch_pty.Screen.Fits.{Fits, Fits-if}
use stitch_pty.Screen.Fits.Moves.{
  carriage_return-Fits, backspace-Fits, tab-Fits, set_tab_stop-Fits, save_cursor-Fits,
  restore_cursor-Fits,
}
use stitch_pty.Screen.Fits.Feeds.{linefeed-Fits, reverse_index-Fits}
use stitch_pty.Screen.Fits.Aligning.{alignment_display-Fits}
use stitch_pty.Screen.Fits.Rest.{identify_terminal_primary-Fits}
use stitch_pty.Screen.Fits.Switching.{set_private_mode-Fits, reset_private_mode-Fits}
use stitch_pty.Performer.{
  execute_byte, set_both, dispatch_title, dispatch_label, set_cwd_of, dispatch_uri, dispatch_conpty,
  osc_dispatch, esc_plain, esc_dispatch,
}

module _ {lines columns : ℕ} {s : Screen} (f : Fits lines columns s) where
  designate-Fits : (c : Option CharsetRef) (target : ℕ) → Fits lines columns (designate s c target)
  unfolding designate
  designate-Fits none target = f
  designate-Fits (some c) target =
      Fits-if (target == b'(') (ground arith) (Fits-if (target == b')') (ground arith) f)

  shift_out-Fits : Fits lines columns (shift_out s)
  unfolding shift_out
  shift_out-Fits = ground arith

  shift_in-Fits : Fits lines columns (shift_in s)
  unfolding shift_in
  shift_in-Fits = ground arith

  ring_bell-Fits : Fits lines columns (ring_bell s)
  unfolding ring_bell push_event
  ring_bell-Fits = ground arith

  set_title-Fits : (t : Text) → Fits lines columns (set_title s t)
  unfolding set_title push_event
  set_title-Fits t = ground arith

  set_icon_name-Fits : (t : Text) → Fits lines columns (set_icon_name s t)
  unfolding set_icon_name push_event
  set_icon_name-Fits t = ground arith

  set_cwd-Fits : (t : Text) → Fits lines columns (set_cwd s t)
  unfolding set_cwd push_event
  set_cwd-Fits t = ground arith

module _ {lines columns : ℕ} {s : Screen} (f : Fits lines columns s) where
  pub execute_byte-Fits : (byte : ℕ) → Holds (Fits lines columns) (execute_byte s byte)
  unfolding execute_byte
  execute_byte-Fits byte = Holds-if (byte == 0x0D) (holds (carriage_return-Fits f)) (
      Holds-if (byte == 0x0A) (linefeed-Fits f) (
        Holds-if (byte == 0x09) (holds (tab-Fits f)) (
          Holds-if (byte == 0x08) (holds (backspace-Fits f)) (
            Holds-if (byte == 0x0B || byte == 0x0C) (linefeed-Fits f) (
              Holds-if (byte == 0x0E) (holds (shift_out-Fits f)) (
                Holds-if (byte == 0x0F) (holds (shift_in-Fits f))
                  (Holds-if (byte == 0x07) (holds (ring_bell-Fits f)) (holds f))))))))

  set_both-Fits : (title : Text) → Fits lines columns (set_both s title)
  unfolding set_both
  set_both-Fits title = set_title-Fits (set_icon_name-Fits f title) title

  set_cwd_of-Fits : (path : Option Text) → Fits lines columns (set_cwd_of s path)
  unfolding set_cwd_of
  set_cwd_of-Fits none = f
  set_cwd_of-Fits (some path) = set_cwd-Fits f path

  dispatch_label-Fits : (rest : List (List ℕ)) → Fits lines columns (dispatch_label s rest)
  unfolding dispatch_label
  dispatch_label-Fits [] = f
  dispatch_label-Fits (icon ∷ []) = f
  dispatch_label-Fits (icon ∷ title ∷ rest) = set_title-Fits (set_icon_name-Fits f _) _

  dispatch_uri-Fits : (rest : List (List ℕ)) → Fits lines columns (dispatch_uri s rest)
  unfolding dispatch_uri
  dispatch_uri-Fits [] = f
  dispatch_uri-Fits (p ∷ rest) = set_cwd_of-Fits _

  dispatch_conpty-Fits : (rest : List (List ℕ)) → Fits lines columns (dispatch_conpty s rest)
  unfolding dispatch_conpty
  dispatch_conpty-Fits [] = f
  dispatch_conpty-Fits (p ∷ []) = f
  dispatch_conpty-Fits (p ∷ q ∷ rest) = Fits-if (equal p (codes "9")) (set_cwd_of-Fits _) f

  pub osc_dispatch-Fits : (params : List (List ℕ)) → Fits lines columns (osc_dispatch s params)
  unfolding osc_dispatch dispatch_title
  osc_dispatch-Fits [] = f
  osc_dispatch-Fits (selector ∷ rest) =
      Fits-if
        (equal selector (codes "0") || equal selector (codes "1") || equal selector (codes "2"))
        (Fits-if (equal selector (codes "0")) (set_both-Fits _)
          (Fits-if (equal selector (codes "1")) (set_icon_name-Fits f _) (set_title-Fits f _)))
        (Fits-if (equal selector (codes "l")) (dispatch_label-Fits rest) (
          Fits-if (equal selector (codes "7")) (dispatch_uri-Fits rest)
            (Fits-if (equal selector (codes "9")) (dispatch_conpty-Fits rest) f)))

  esc_plain-Fits : (byte : ℕ) → Holds (Fits lines columns) (esc_plain s byte)
  unfolding esc_plain
  esc_plain-Fits byte = Holds-if (byte == b'H') (holds (set_tab_stop-Fits f)) (
      Holds-if (byte == b'Z') (holds (identify_terminal_primary-Fits f)) (
        Holds-if (byte == b'7') (holds (save_cursor-Fits f)) (
          Holds-if (byte == b'8') (holds (restore_cursor-Fits f)) (
            Holds-if (byte == b'D') (linefeed-Fits f) (
              Holds-if (byte == b'E') (linefeed-Fits (carriage_return-Fits f)) (
                Holds-if (byte == b'M') (reverse_index-Fits f) (
                  Holds-if (byte == b'=') (holds (set_private_mode-Fits f decckm refl)) (
                    Holds-if (byte == b'>') (holds (reset_private_mode-Fits f decckm refl))
                      (holds f)))))))))

  pub esc_dispatch-Fits :
      (intermediates : List ℕ) (byte : ℕ)
      → Holds (Fits lines columns) (esc_dispatch s intermediates byte)
  unfolding esc_dispatch define_charset
  esc_dispatch-Fits [] byte = esc_plain-Fits byte
  esc_dispatch-Fits (i ∷ []) byte =
      Holds-if (byte == b'8' && i == b'#') (alignment_display-Fits f) (holds (designate-Fits f _ i))
  esc_dispatch-Fits (i ∷ j ∷ rest) byte = holds f
