-- ===== src/Screen/Fits/Feeds.antt =====
-- `linefeed`, `index` and `reverse_index` of src/terminal/screen.rs, on a screen of the right shape.
use stitch_pty.Prelude.{ℕ, ◌+◌, ltb, if◌then◌else◌, some, arith}
use stitch_pty.Prelude.{Holds, holds, Holds-bind, Bool-cases, inl, inr}
use stitch_pty.Screen.State.{Screen, scroll_region, move_to}
use stitch_pty.Modes.{lnm, has_public}
use stitch_pty.Screen.Scroll.{scroll_up, linefeed, index, reverse_index}
use stitch_pty.Screen.Fits.{Fits, move_to-Fits, scroll_region_bounds}
use stitch_pty.Screen.Fits.Scrolls.{scroll_up-Fits}
use stitch_pty.Screen.Fits.Lines.{scroll_down-Fits}

module _ {lines columns : ℕ} {s : Screen} (f : Fits lines columns s) where
  -- A line feed never panics on a screen of the right shape, whether it moves the cursor or
  -- scrolls, and leaves one of the same shape.
  pub linefeed-Fits : Holds (Fits lines columns) (linefeed s)
  unfolding linefeed
  linefeed-Fits = Holds-bind moved (λ s1 f1. holds (home s1 f1))
    where
      moved : Holds (Fits lines columns) (
          if ltb s.cursor.y (scroll_region s).1
          then some (move_to s s.cursor.x (s.cursor.y + 1))
          else scroll_up s 1)
      moved = elim (Bool-cases (ltb s.cursor.y (scroll_region s).1)) [
        | inl above ↦
            let b = scroll_region_bounds f in
            rw above (holds (move_to-Fits _ _ f f.cursor_x (ground arith)))
        | inr last ↦ rw last (scroll_up-Fits f 1)
      ]

      home :
          (s1 : Screen)
          → Fits lines columns s1
          → Fits lines columns (if has_public s1.mode lnm then move_to s1 0 s1.cursor.y else s1)
      home s1 f1 = elim (Bool-cases (has_public s1.mode lnm)) [
        | inl on ↦ rw on (move_to-Fits 0 s1.cursor.y f1 (omega arith) f1.cursor_y)
        | inr off ↦ rw off f1
      ]

  pub index-Fits : Holds (Fits lines columns) (index s)
  unfolding index
  index-Fits = elim (Bool-cases (ltb s.cursor.y (scroll_region s).1)) [
    | inl above ↦
        let b = scroll_region_bounds f in
        rw above (holds (move_to-Fits _ _ f (omega arith) (ground arith)))
    | inr last ↦ rw last (scroll_up-Fits f 1)
  ]

  -- A reverse index never panics on a screen of the right shape, whether it moves the cursor or
  -- scrolls, and leaves one of the same shape.
  pub reverse_index-Fits : Holds (Fits lines columns) (reverse_index s)
  unfolding reverse_index
  reverse_index-Fits = elim (Bool-cases (ltb (scroll_region s).0 s.cursor.y)) [
    | inl below ↦
        let b = scroll_region_bounds f in
        let y = f.cursor_y in rw below (holds (move_to-Fits _ _ f (omega arith) (omega arith)))
    | inr first ↦ rw first (scroll_down-Fits s f 1)
  ]
