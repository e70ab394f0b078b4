-- ===== src/AnsiParser/Tests.antt =====
-- The theorems on the parser at a parser amid a sequence, and amid a character.
use stitch_pty.Prelude.{List, ◌++◌, Option, some, none, Text, ◌≡◌, ◌≢◌, refl, [], ◌∷◌, arith, codes}
use stitch_pty.Prelude.{Holds}
use stitch_pty.Utf8.{
  encode_text, decode, decode_lead, decode_two, lead_of, from_utf8, validate, len_utf8,
}
use stitch_pty.Utf8.RoundTrip.{IsText}
use stitch_pty.AnsiParser.Ground.{
  advance, advance_partial_utf8, after_partial, take_first, partial_error, run, step_at, skip,
  advance_ground, plain_length, after_error, after_bad, after_text, ground_dispatch, dispatch_char,
}
use stitch_pty.AnsiParser.Rounds.{Waits}
use stitch_pty.AnsiParser.Feed.{advance-Waits}
use stitch_pty.AnsiParser.Plain.{IsPlain, Reads, advance-encode_text}
use stitch_pty.AnsiParser.{Action, print, State, osc_string, Parser, new_parser}
use stitch_pty.AnsiParser.Advance.{change_state}
use stitch_pty.AnsiParser.Bounds.{IsBounded}
use stitch_pty.AnsiParser.Safety.{change_state-IsBounded}

-- Amid an OSC string with one parameter and part of the next.
abbrev titled : Parser
titled = record new_parser { state = osc_string; osc_raw = codes "0ti"; osc_params = (0, 1) ∷ [] }

titled-IsBounded : IsBounded titled
titled-IsBounded = record {
  intermediates_fit = omega arith;
  params_fit = omega arith;
  counted = refl;
  param_fits = omega arith;
  osc_raw_fits = omega arith;
  osc_params_fit = omega arith;
  chain = (refl, omega arith, omega arith, tt);
  whole = refl;
}

reading : osc_string ≢ State.ground
reading e = cc

change_state-IsBounded_example : Holds IsBounded (change_state titled 0x07)
change_state-IsBounded_example = change_state-IsBounded titled-IsBounded 0x07 reading

-- The first byte of a character of two.
abbrev amid_char : Parser
amid_char = record new_parser { partial = 0xC3 ∷ [] }

amid_char-Waits : Waits amid_char
unfolding decode decode_lead decode_two lead_of
amid_char-Waits = record { bounded = ground arith; cut = refl }

advance-Waits_example : Holds Waits (advance amid_char (0xA9 ∷ codes "x"))
advance-Waits_example = advance-Waits amid_char-Waits (0xA9 ∷ codes "x")

-- Three characters, of one, two and three bytes, and a line feed.
abbrev note : Text
note = codes "aé€" ++ 0x0A ∷ []

note-IsText : IsText note
note-IsText = ground arith

note-IsPlain : IsPlain note
note-IsPlain = ((λ e. cc), ((λ e. cc), ((λ e. cc), ((λ e. cc), tt))))

advance-encode_text_example : Holds (Reads note new_parser) (advance new_parser (encode_text note))
advance-encode_text_example = advance-encode_text new_parser note refl refl note-IsText note-IsPlain

abbrev calls : Option Parser → List Action
calls none = []
calls (some p) = p.actions

-- The letter behind the rest of a cut-off character is lost when a wrong byte follows.
letter_lost :
    calls (advance amid_char (0xA9 ∷ codes "x" ++ 0xFF ∷ [])) ≡ print 0xE9 ∷ print 0xFFFD ∷ []
unfolding advance advance_partial_utf8 after_partial take_first partial_error run step_at skip
    advance_ground plain_length from_utf8 validate decode decode_lead decode_two lead_of len_utf8
    after_error after_bad after_text ground_dispatch dispatch_char
letter_lost = refl
