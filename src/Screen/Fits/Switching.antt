-- ===== src/Screen/Fits/Switching.antt =====
-- Setting and resetting modes in src/terminal/screen.rs, on a screen of the right shape.
use stitch_pty.Prelude.{ℕ, ◌≡◌, Bool, true, false, ◌&&◌, ◌||◌, ◌==◌, arith}
use stitch_pty.Screen.State.{Screen}
use stitch_pty.Modes.{
  deccolm, decom, decawm, dectcem, decscnm, alt_screen_1049, alt_screen_1047, alt_screen_47,
}
use stitch_pty.Screen.Switches.{
  with_reverse, apply_reverse_to_buffer, turn_on, turn_off, with_reverse_video, with_hidden,
  set_private_mode, reset_private_mode, set_mode, reset_mode,
}
use stitch_pty.Screen.Fits.{Fits, Fits-if, move_to-Fits}
use stitch_pty.Screen.Fits.Sizes.{map-IsGrid}
use stitch_pty.Screen.Fits.Parked.{enter_alt_screen-Fits, exit_alt_screen-Fits}
use stitch_pty.Prelude.{map, length-map}

module _ {lines columns : ℕ} {s : Screen} (f : Fits lines columns s) where
  turn_on-Fits : (mode : ℕ) → Fits lines columns (turn_on s mode)
  turn_on-Fits mode = ground arith

  turn_off-Fits : (mode : ℕ) → Fits lines columns (turn_off s mode)
  turn_off-Fits mode = ground arith

  with_hidden-Fits : (b : Bool) → Fits lines columns (with_hidden s b)
  with_hidden-Fits b = ground arith

  with_reverse_video-Fits : (b : Bool) → Fits lines columns (with_reverse_video s b)
  unfolding apply_reverse_to_buffer
  with_reverse_video-Fits b = record {
    lines_eq = f.lines_eq;
    columns_eq = f.columns_eq;
    lines_pos = f.lines_pos;
    columns_pos = f.columns_pos;
    page = record {
      grid =
          map-IsGrid columns (map (with_reverse b)) (λ row. length-map row (with_reverse b))
            f.page.grid;
      count = f.page.count;
    };
    region = f.region;
    cursor_x = f.cursor_x;
    cursor_y = f.cursor_y;
    captured = f.captured;
  }

module _ {lines columns : ℕ} {s : Screen} (f : Fits lines columns s) where
  -- Setting any private mode but the 132-column one keeps the shape.
  pub set_private_mode-Fits :
      (mode : ℕ) → (mode == deccolm) ≡ false → Fits lines columns (set_private_mode s mode)
  unfolding set_private_mode
  set_private_mode-Fits mode h = rw h (
      Fits-if (mode == decom) (move_to-Fits 0 0 (turn_on-Fits f mode) (omega arith) f.lines_pos) (
        Fits-if (mode == decscnm) (with_reverse_video-Fits (turn_on-Fits f mode) true) (
          Fits-if (mode == dectcem) (with_hidden-Fits (turn_on-Fits f mode) false) (
            Fits-if (mode == decawm) (turn_on-Fits f mode) (
              Fits-if (mode == alt_screen_47 || mode == alt_screen_1047)
                (turn_on-Fits (enter_alt_screen-Fits f false) mode)
                (Fits-if (mode == alt_screen_1049)
                  (turn_on-Fits (enter_alt_screen-Fits f true) mode) (turn_on-Fits f mode)))))))

  pub reset_private_mode-Fits :
      (mode : ℕ) → (mode == deccolm) ≡ false → Fits lines columns (reset_private_mode s mode)
  unfolding reset_private_mode
  reset_private_mode-Fits mode h = rw h (
      Fits-if (mode == decom) (turn_off-Fits f mode) (
        Fits-if (mode == decscnm) (with_reverse_video-Fits (turn_off-Fits f mode) false) (
          Fits-if (mode == dectcem) (with_hidden-Fits (turn_off-Fits f mode) true) (
            Fits-if (mode == decawm) (turn_off-Fits f mode) (
              Fits-if (mode == alt_screen_47 || mode == alt_screen_1047)
                (turn_off-Fits (exit_alt_screen-Fits f false) mode)
                (Fits-if (mode == alt_screen_1049)
                  (turn_off-Fits (exit_alt_screen-Fits f true) mode) (turn_off-Fits f mode)))))))

  pub set_mode-Fits :
      (mode : ℕ) (private : Bool)
      → (private && mode == deccolm) ≡ false
      → Fits lines columns (set_mode s mode private)
  unfolding set_mode
  set_mode-Fits mode true h = set_private_mode-Fits mode h
  set_mode-Fits mode false h = ground arith

  pub reset_mode-Fits :
      (mode : ℕ) (private : Bool)
      → (private && mode == deccolm) ≡ false
      → Fits lines columns (reset_mode s mode private)
  unfolding reset_mode
  reset_mode-Fits mode true h = reset_private_mode-Fits mode h
  reset_mode-Fits mode false h = ground arith
