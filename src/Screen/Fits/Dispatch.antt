-- ===== src/Screen/Fits/Dispatch.antt =====
-- `csi_dispatch` of src/terminal/screen.rs, on a screen of the right shape.
use stitch_pty.Prelude.{
  ℕ, ◌≡◌, refl, Bool, true, false, ◌&&◌, ◌||◌, ◌==◌, ltb, if◌then◌else◌, Option, List, [], ◌∷◌,
  arith, Text, codes, equal,
}
use stitch_pty.Prelude.{Holds, holds, Holds-map, Holds-if}
use stitch_pty.Screen.State.{Screen, scroll_region}
use stitch_pty.Modes.{deccolm, decom, has_private}
use stitch_pty.Prelude.Sets.{contains}
use stitch_pty.Screen.Csi.{param, set_modes, reset_modes, csi_dispatch}
use stitch_pty.Screen.Fits.{Fits}
use stitch_pty.Screen.Fits.Moves.{
  cursor_position-Fits, cursor_to_line-Fits, cursor_to_column-Fits, cursor_up-Fits,
  cursor_down-Fits, cursor_forward-Fits, cursor_back-Fits, carriage_return-Fits, set_margins-Fits,
  clear_tab_stop-Fits, save_cursor-Fits,
}
use stitch_pty.Screen.Fits.Wiping.{erase_in_line-Fits}
use stitch_pty.Screen.Fits.Clearing.{erase_in_display-Fits}
use stitch_pty.Screen.Fits.Aligning.{alignment_display-Fits}
use stitch_pty.Screen.Fits.Erasing.{
  erase_characters-Looks, delete_characters-Looks, insert_characters-Looks,
}
use stitch_pty.Screen.Fits.Scrolls.{scroll_up-Fits}
use stitch_pty.Screen.Fits.Lines.{scroll_down-Fits, insert_lines-Fits, delete_lines-Fits}
use stitch_pty.Screen.Fits.Switching.{set_mode-Fits, reset_mode-Fits}
use stitch_pty.Screen.Fits.Rest.{
  select_graphic_rendition-Fits, report_device_status-Fits, set_cursor_style-Fits,
  identify_terminal_primary-Fits, dispatch_u-Fits,
}

-- An arm that needs to know that it was taken.
Holds-on :
    {P : Screen → Type 0} {o p : Option Screen} (b : Bool)
    → (b ≡ true → Holds P o)
    → Holds P p
    → Holds P (if b then o else p)
Holds-on true h k = h refl
Holds-on false h k = k

module _ {lines columns : ℕ} where
  set_modes-Fits :
      (params : List ℕ) (private : Bool) {s : Screen}
      → Fits lines columns s
      → (private && contains params deccolm) ≡ false
      → Fits lines columns (set_modes params private s)
  unfolding set_modes contains
  set_modes-Fits [] private f h = f
  set_modes-Fits (mode ∷ modes) private f h =
      set_modes-Fits modes private (set_mode-Fits f mode private (ground arith)) (ground arith)

  reset_modes-Fits :
      (params : List ℕ) (private : Bool) {s : Screen}
      → Fits lines columns s
      → (private && contains params deccolm) ≡ false
      → Fits lines columns (reset_modes params private s)
  unfolding reset_modes contains
  reset_modes-Fits [] private f h = f
  reset_modes-Fits (mode ∷ modes) private f h =
      reset_modes-Fits modes private (reset_mode-Fits f mode private (ground arith)) (ground arith)

  -- A control sequence with any parameters, intermediates and final byte never panics on a screen
  -- of the right shape, and leaves one of the same shape. Two cases are set apart: a private mode
  -- switch that names the 132-column mode, and a cursor position report under DECOM while the
  -- cursor is above the region.
  pub csi_dispatch-Fits :
      {s : Screen} (params : List ℕ) (intermediates : Text) (action : ℕ)
      → Fits lines columns s
      → (equal intermediates (codes "?")
          && (action == b'h' || action == b'l')
          && contains params deccolm)
        ≡ false
      → (action == b'n'
          && param params 0 0 == 6
          && has_private s.mode decom
          && ltb s.cursor.y (scroll_region s).0)
        ≡ false
      → Holds (Fits lines columns) (csi_dispatch s params intermediates action)
  unfolding csi_dispatch
  csi_dispatch-Fits {s} params intermediates action f keeps_columns below =
      let set_safe : (action == b'h') ≡ true
          → (equal intermediates (codes "?") && contains params deccolm) ≡ false =
        λ e. ground arith in
      let reset_safe : (action == b'l') ≡ true
          → (equal intermediates (codes "?") && contains params deccolm) ≡ false =
        λ e. ground arith in
      let asks : (action == b'n') ≡ true
          → (param params 0 0 == 6
              && has_private s.mode decom
              && ltb s.cursor.y (scroll_region s).0)
            ≡ false =
        λ e. (rw e at below) in
      Holds-if (action == b'A') (holds (cursor_up-Fits f _)) (
        Holds-if (action == b'B' || action == b'e') (holds (cursor_down-Fits f _)) (
          Holds-if (action == b'C' || action == b'a') (holds (cursor_forward-Fits f _)) (
            Holds-if (action == b'D') (holds (cursor_back-Fits f _)) (
              Holds-if (action == b'E') (holds (carriage_return-Fits (cursor_down-Fits f _))) (
                Holds-if (action == b'F') (holds (carriage_return-Fits (cursor_up-Fits f _))) (
                  Holds-if (action == b'G') (holds (cursor_to_column-Fits f _)) (
                    Holds-if (action == b'H' || action == b'f') (holds (cursor_position-Fits f _ _))
                      (Holds-if (action == b'd') (holds (cursor_to_line-Fits f _)) (
                        Holds-if (action == b'J') (erase_in_display-Fits f _) (
                          Holds-if (action == b'K') (erase_in_line-Fits f _) (
                            Holds-if (action == b'X')
                              (Holds-map (erase_characters-Looks f _) (λ s1 l. l.fits))
                              (Holds-if (action == b'P')
                                (Holds-map (delete_characters-Looks f _) (λ s1 l. l.fits))
                                (Holds-if (action == b'@')
                                  (Holds-map (insert_characters-Looks f _) (λ s1 l. l.fits))
                                  (Holds-if (action == b'L') (insert_lines-Fits _ f _) (
                                    Holds-if (action == b'M') (delete_lines-Fits _ f _) (
                                      Holds-if (action == b'S') (scroll_up-Fits f _) (
                                        Holds-if (action == b'T') (scroll_down-Fits _ f _) (
                                          Holds-if (action == b'm')
                                            (select_graphic_rendition-Fits params f)
                                            (Holds-on (action == b'h')
                                              (λ e. holds (set_modes-Fits params _ f (set_safe e)))
                                              (Holds-on (action == b'l')
                                                (λ e.
                                                  holds
                                                    (reset_modes-Fits params _ f (reset_safe e)))
                                                (Holds-if (action == b'r')
                                                  (holds (
                                                    cursor_position-Fits (set_margins-Fits f _ _) 1
                                                      1))
                                                  (Holds-if (action == b's')
                                                    (holds (save_cursor-Fits f))
                                                    (Holds-if (action == b'u')
                                                      (holds
                                                        (dispatch_u-Fits f params intermediates))
                                                      (Holds-if (action == b'g')
                                                        (holds (clear_tab_stop-Fits f _))
                                                        (Holds-on (action == b'n')
                                                          (λ e.
                                                            report_device_status-Fits f _ (asks e))
                                                          (Holds-if (action == b'8')
                                                            (alignment_display-Fits f)
                                                            (Holds-if (action == b'c')
                                                            (holds
                                                            (identify_terminal_primary-Fits f))
                                                            (Holds-if
                                                            (action == b'q'
                                                            && equal intermediates (codes " "))
                                                            (holds (set_cursor_style-Fits f _))
                                                            (holds f)))))))))))))))))))))))))))))
