-- ===== src/Cwd/Tests.antt =====
-- The theorems on the working directory at reports of a shell.
use stitch_pty.Prelude.{
  ℕ, All, ◌≡◌, refl, ◌==◌, Bool, equal, ◌++◌, ◌∷◌, arith, codes, some, none, Text,
}
use stitch_pty.Utf8.{
  from_utf8, validate, encode_text, decode, decode_lead, decode_two, decode_three, decode_four,
  encode, lead_of,
}
use stitch_pty.Utf8.RoundTrip.{IsText}
use stitch_pty.Cwd.{
  scheme, has_nul, checked, without_slash, has_scheme, parse_path, from_slash, percent_decode,
  percent_bytes, push_hex, hex_val, valid_text, is_drive, parse_osc7, parse_osc9_9,
}
use stitch_pty.Cwd.RoundTrip.{
  percent_encode, NotNul, Stripped, Answered, parse_osc7-percent_encode, parse_osc9_9-encode_text,
}
use stitch_pty.Cwd.Paths.{Every, IsPath, parse_osc7-IsPath}

-- A drive, a space and a character of two bytes.
abbrev folder : Text
folder = codes "C:/my dir/é%"

folder-IsText : IsText folder
folder-IsText = ground arith

abbrev only_slash : ℕ → Bool
only_slash b = b == b'/'

folder-NotNul : All NotNul folder
folder-NotNul = ground arith

parse_osc7-percent_encode_example :
    (path : Text) × Stripped folder path
    × (parse_osc7
          (scheme ++ codes "host" ++ percent_encode only_slash (encode_text (b'/' ∷ folder)))
        ≡ some path)
parse_osc7-percent_encode_example =
    parse_osc7-percent_encode only_slash (codes "host") folder refl
      ((λ e. cc), ((λ e. cc), ((λ e. cc), ((λ e. cc), tt)))) folder-IsText folder-NotNul

parse_osc9_9-encode_text_example : Answered folder (parse_osc9_9 (encode_text folder))
parse_osc9_9-encode_text_example = parse_osc9_9-encode_text folder folder-IsText

abbrev report : Text
report = codes "file:///C:/Users/%41"

report_read : parse_osc7 report ≡ some (codes "C:/Users/A")
unfolding parse_osc7 has_scheme equal parse_path from_slash percent_decode percent_bytes push_hex
    hex_val valid_text from_utf8 validate checked has_nul without_slash is_drive encode_text decode
    decode_lead decode_two decode_three decode_four encode lead_of
report_read = refl

nul_refused : parse_osc7 (codes "file:///a%00") ≡ none
unfolding parse_osc7 has_scheme equal parse_path from_slash percent_decode percent_bytes push_hex
    hex_val valid_text from_utf8 validate checked has_nul without_slash is_drive encode_text decode
    decode_lead decode_two decode_three decode_four encode lead_of
nul_refused = refl

parse_osc7-IsPath_example : Every IsPath (parse_osc7 report) × Every IsPath (parse_osc9_9 report)
parse_osc7-IsPath_example = parse_osc7-IsPath report
