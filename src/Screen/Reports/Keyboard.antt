-- ===== src/Screen/Reports/Keyboard.antt =====
-- The stack of the keyboard modes.
use stitch_pty.Prelude.{
  ℕ, zero, suc, ◌≤◌, min, ◌≡◌, refl, some, List, [], ◌∷◌, length, get_elem?, drop, arith,
}
use stitch_pty.Screen.State.{Screen}
use stitch_pty.Screen.Reports.{pop_modes, pop_keyboard_modes}

pop_modes-drop :
    (n mode : ℕ) (stack : List ℕ)
    → n ≤ length stack
    → (get_elem? (mode ∷ stack) n ≡ some (pop_modes n mode stack).0)
      × ((pop_modes n mode stack).1 ≡ drop n stack)
unfolding pop_modes
pop_modes-drop zero mode stack h = (refl, refl)
pop_modes-drop (suc n) mode [] h = absurd (omega arith)
pop_modes-drop (suc n) mode (m ∷ stack) h = pop_modes-drop n m stack (omega arith)

-- With the mode in force before the modes on the stack, popping `count` modes goes `count` places
-- down that list, at most to its end: the mode there is in force, and those behind it are left.
pub pop_keyboard_modes-drop :
    (s : Screen) (count : ℕ)
    → let n = min count (length s.keyboard_mode_stack) in
      let r = pop_keyboard_modes s count in
      (get_elem? (s.keyboard_mode ∷ s.keyboard_mode_stack) n ≡ some r.keyboard_mode)
      × (r.keyboard_mode_stack ≡ drop n s.keyboard_mode_stack)
unfolding pop_keyboard_modes
pop_keyboard_modes-drop s count =
    pop_modes-drop (min count (length s.keyboard_mode_stack)) s.keyboard_mode s.keyboard_mode_stack
      (omega arith)
