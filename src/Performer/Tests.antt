-- ===== src/Performer/Tests.antt =====
-- The theorems on the performer at a screen that is fed a title and a cursor movement.
use stitch_pty.Prelude.{ℕ, ◌≡◌, refl, true, List, ◌∷◌, ◌++◌, some, Option, arith, codes, equal}
use stitch_pty.Prelude.{Holds}
use stitch_pty.Utf8.{from_utf8, validate, decode, decode_lead, lead_of}
use stitch_pty.AnsiParser.{
  paramnext, dispatch_csi, next_param, store_param, push_param, reset_params, collect, clear_osc,
  osc_put, osc_put_param, osc_end_of, osc_end, slices, slice, new_parser,
}
use stitch_pty.AnsiParser.Advance.{
  change_state, change_state_at, advance_esc, advance_osc_string, advance_csi_entry,
  advance_csi_param, anywhere,
}
use stitch_pty.AnsiParser.Ground.{
  advance, run, step_at, skip, advance_ground, plain_length, after_error, after_text, start_escape,
  ground_dispatch, dispatch_char,
}
use stitch_pty.AnsiParser.Rounds.{Waits}
use stitch_pty.Screen.State.{new}
use stitch_pty.Screen.Fits.{Fits}
use stitch_pty.Screen.Fits.Sizes.{new-Fits}
use stitch_pty.Screen.Csi.{csi_dispatch}
use stitch_pty.Performer.{flatten, perform, execute_byte, osc_dispatch, feed}
use stitch_pty.Performer.Feeding.{is_safe, all_safe, read_safely, feeds_safely, feed-Fits}

abbrev narrow : ℕ → Option ℕ
narrow c = some 1

-- `ESC ] 2 ; x BEL ESC [ 2 B`.
abbrev fed : List ℕ
fed = (0x1B ∷ codes "]2;x") ++ (0x07 ∷ 0x1B ∷ codes "[2B")

new_parser-Waits : Waits new_parser
new_parser-Waits = ground arith

fed_safely : feeds_safely narrow new_parser (new 4 3) fed ≡ true
unfolding advance run step_at skip advance_ground plain_length from_utf8 after_error after_text
    start_escape ground_dispatch dispatch_char validate decode decode_lead lead_of change_state
    change_state_at advance_esc advance_osc_string advance_csi_entry advance_csi_param paramnext
    dispatch_csi next_param store_param push_param reset_params collect clear_osc osc_put
    osc_put_param osc_end_of osc_end slices slice anywhere feeds_safely read_safely all_safe is_safe
    flatten perform execute_byte osc_dispatch csi_dispatch equal new
fed_safely = refl

feed-Fits_example : Holds (λ (q, t). Waits q × Fits 3 4 t) (feed narrow new_parser (new 4 3) fed)
feed-Fits_example = feed-Fits narrow fed new_parser-Waits (new-Fits 4 3) fed_safely
