-- ===== src/TerminalApi/Tests.antt =====
-- The operations of src/terminal_api.rs at concrete values.
use stitch_pty.Prelude.{◌≡◌, refl, [], ◌∷◌, codes, false}
use stitch_pty.Screen.State.{new}
use stitch_pty.Screen.Reports.{decimal, digits}
use stitch_pty.Screen.Events.{set_title, push_event, ring_bell, take_events, take_bell}
use stitch_pty.History.Stream.{take_all_events}
use stitch_pty.TerminalApi.{
  TerminalState, new_terminal, with_screen, poll_events, tag, payload, nothing, text, number,
  take_terminal_bell, repr_terminal,
}

-- A title and a bell, and three rows that scrolled off.
abbrev rung : TerminalState
rung =
    let t = new_terminal 4 2 10 in
    with_screen t (record t.screen {
      inner = ring_bell (set_title t.screen.inner (codes "hi"));
      scrollback_grew = 3;
    })

polled :
    (poll_events rung).1
    ≡ (codes "title", text (codes "hi"))
      ∷ (codes "bell", nothing)
      ∷ (codes "scrollback_grew", number 3)
      ∷ []
unfolding poll_events new_terminal new take_all_events take_events ring_bell set_title push_event
    tag payload
polled = refl

-- The bell goes with the events.
bell_polled : (take_terminal_bell (poll_events rung).0).1 ≡ false
unfolding poll_events new_terminal new take_all_events take_events ring_bell set_title push_event
    take_terminal_bell take_bell
bell_polled = refl

repr_text : repr_terminal rung ≡ codes "TerminalState(4x2, scrollback=0)"
unfolding repr_terminal new_terminal new ring_bell set_title push_event decimal digits
repr_text = refl
