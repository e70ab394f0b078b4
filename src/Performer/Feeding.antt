-- ===== src/Performer/Feeding.antt =====
-- Bytes fed to a screen by src/terminal/parser.rs: what they leave of the screen's shape.
use stitch_pty.Prelude.{
  ℕ, ◌≡◌, refl, sym, ap, ◌∙◌, Bool, true, false, not, ◌&&◌, ◌||◌, ◌==◌, ltb, Option, none, some,
  List, [], ◌∷◌, codes, equal, arith,
}
use stitch_pty.Prelude.{Holds, holds, Holds-bind, Holds-eq}
use stitch_pty.Prelude.Sets.{contains}
use stitch_pty.Modes.{deccolm, decom, has_private}
use stitch_pty.AnsiParser.{Action, execute, print, hook, put, unhook, osc, csi, esc, Parser}
use stitch_pty.AnsiParser.Ground.{advance}
use stitch_pty.AnsiParser.Rounds.{Waits}
use stitch_pty.AnsiParser.Feed.{advance-Waits}
use stitch_pty.Screen.State.{Screen, scroll_region}
use stitch_pty.Screen.Csi.{param}
use stitch_pty.Screen.Fits.{Fits}
use stitch_pty.Screen.Fits.Drawing.{draw-Fits}
use stitch_pty.Screen.Fits.Dispatch.{csi_dispatch-Fits}
use stitch_pty.Performer.Safety.{execute_byte-Fits, osc_dispatch-Fits, esc_dispatch-Fits}
use stitch_pty.Performer.{flatten, perform, perform_all, feed}

-- The two cases in which a control sequence may panic or change the size: a switch of private modes
-- that names the 132-column mode, and a cursor position report under DECOM with the cursor above
-- the region.
unfoldable pub is_safe : Screen → Action → Bool
is_safe s (csi params intermediates ignoring action) =
    let ps = flatten params.subparams in
    not
      (equal intermediates (codes "?") && (action == b'h' || action == b'l') && contains ps deccolm)
    && not (
        action == b'n'
        && param ps 0 0 == 6
        && has_private s.mode decom
        && ltb s.cursor.y (scroll_region s).0)
is_safe s action = true

both_hold : (x y : Bool) → (x && y) ≡ true → (x ≡ true) × (y ≡ true)
both_hold true true e = (refl, refl)
both_hold true false e = cc
both_hold false y e = cc

neither_holds : (x y : Bool) → (not x && not y) ≡ true → (x ≡ false) × (y ≡ false)
neither_holds false false e = (refl, refl)
neither_holds false true e = cc
neither_holds true y e = cc

forget-Waits : {p : Parser} → Waits p → Waits (record p { actions = [] })
forget-Waits w = record { bounded = ground arith; cut = w.cut }

module _ (char_width : ℕ → Option ℕ) where
  -- No call of a run is one of those.
  unfoldable pub all_safe : Screen → List Action → Bool
  all_safe s [] = true
  all_safe s (action ∷ actions) =
      is_safe s action
      && elim (perform char_width s action) [ none ↦ true | some t ↦ all_safe t actions ]

  module _ {lines columns : ℕ} where
    perform-Fits :
        {s : Screen} (action : Action)
        → Fits lines columns s
        → is_safe s action ≡ true
        → Holds (Fits lines columns) (perform char_width s action)
    unfolding perform is_safe
    perform-Fits (print c) f safe = draw-Fits char_width (c ∷ []) f
    perform-Fits (execute byte) f safe = execute_byte-Fits f byte
    perform-Fits (hook params intermediates ignoring action) f safe = holds f
    perform-Fits (put byte) f safe = holds f
    perform-Fits unhook f safe = holds f
    perform-Fits (osc params bell) f safe = holds (osc_dispatch-Fits f params)
    perform-Fits (csi params intermediates ignoring action) f safe =
        let clear = neither_holds _ _ safe in
        csi_dispatch-Fits (flatten params.subparams) intermediates action f clear.0 clear.1
    perform-Fits (esc intermediates ignoring byte) f safe = esc_dispatch-Fits f intermediates byte

    perform_all-Fits :
        (actions : List Action) (s : Screen)
        → Fits lines columns s
        → all_safe s actions ≡ true
        → Holds (Fits lines columns) (perform_all char_width s actions)
    unfolding perform_all all_safe
    perform_all-Fits [] s f safe = holds f
    perform_all-Fits (action ∷ actions) s f safe =
        let now = both_hold (is_safe s action) _ safe in
        let done = Holds-eq (perform-Fits action f now.0) in
        rw done.1 (perform_all-Fits actions done.0 done.2 (rw done.1 at now.1))

module _ (char_width : ℕ → Option ℕ) where
  -- The calls of a parser that is fed bytes.
  unfoldable pub read_safely : Screen → Option Parser → Bool
  read_safely s none = true
  read_safely s (some q) = all_safe char_width s q.actions

  unfoldable pub feeds_safely : Parser → Screen → List ℕ → Bool
  feeds_safely p s bytes = read_safely s (advance (record p { actions = [] }) bytes)

  -- Fed any bytes, text, control codes and sequences that may be cut off or wrong, a parser that
  -- waits for more and a screen of the right shape become such a parser and a screen of the same
  -- shape: nothing panics and the loops end. Set apart are bytes with a call that switches the
  -- 132-column mode, or that asks for the cursor's position under DECOM with the cursor above the
  -- region.
  pub feed-Fits :
      {lines columns : ℕ} {p : Parser} {s : Screen} (bytes : List ℕ)
      → Waits p
      → Fits lines columns s
      → feeds_safely p s bytes ≡ true
      → Holds (λ (q, t). Waits q × Fits lines columns t) (feed char_width p s bytes)
  unfolding feed feeds_safely read_safely
  feed-Fits {p = p} {s = s} bytes w f safe =
      let read = Holds-eq (advance-Waits (forget-Waits w) bytes) in
      rw read.1 (
        Holds-bind
          (perform_all-Fits char_width (read.0).actions s f
            (sym (ap (read_safely s) read.1) ∙ safe))
          (λ t g. holds (read.2, g)))
