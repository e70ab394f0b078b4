-- ===== src/AnsiParser/Ground.antt =====
-- The ground state of src/terminal/ansi_parser.rs, where text is UTF-8, and `advance`, which reads a
-- slice of bytes. A slice or an index out of range, a subtraction below 0 and an `unwrap` of `None`
-- are panics, `none` here.
use stitch_pty.Prelude.{
  ℕ, zero, suc, ◌+◌, ◌-◌, min, ◌||◌, ◌==◌, ltb, leb, within, if◌then◌else◌, Option, none, some,
  ◌>>=◌, List, [], ◌∷◌, ◌++◌, length, get_elem?, take, drop, Text,
}
use stitch_pty.Utf8.{
  Utf8Error, no_error, bad_sequence, cut_off, Validated, from_utf8, replacement, len_utf8,
}
use stitch_pty.AnsiParser.{State, escape, execute, print, Parser, goto, act, reset_params}
use stitch_pty.AnsiParser.Advance.{change_state}

abbrev pub max_partial : ℕ
max_partial = 4

-- `bytes.iter().position(|&b| b == 0x1B).unwrap_or(num_bytes)`.
unfoldable pub plain_length : List ℕ → ℕ
plain_length [] = 0
plain_length (b ∷ bytes) = let rest = plain_length bytes in if b == 0x1B then 0 else suc rest

-- `ground_dispatch` on a character.
unfoldable pub dispatch_char : Parser → ℕ → Parser
dispatch_char p c =
    if within 0x00 0x1F c || within 0x80 0x9F c then act p (execute c) else act p (print c)

unfoldable pub ground_dispatch : Parser → Text → Parser
ground_dispatch p [] = p
ground_dispatch p (c ∷ text) = ground_dispatch (dispatch_char p c) text

-- `self.state = State::Escape; self.reset_params()`.
unfoldable pub start_escape : Parser → Parser
start_escape p = goto (reset_params p) escape

-- The parser, and the number of bytes read.
abbrev pub Step : Type 0
Step = Parser × ℕ

-- The branch `Ok(parsed)`.
unfoldable pub after_text : Parser → ℕ → ℕ → Step
after_text p plain size = if ltb plain size then (start_escape p, plain + 1) else (p, plain)

-- The branch `Some(len)`.
unfoldable pub after_bad : Parser → List ℕ → ℕ → ℕ → Option Step
after_bad p bytes valid len =
    if len == 1
    then get_elem? bytes valid >>= (λ b.
      some ((if leb b 0x9F then act p (execute b) else act p (print replacement)), valid + len))
    else some (act p (print replacement), valid + len)

-- The bytes cut off go behind those of `partial_utf8`: more than the array holds is a panic.
unfoldable pub keep_partial : Parser → List ℕ → Option Parser
keep_partial p extra =
    let bytes = p.partial ++ extra in
    if leb (length bytes) max_partial then some (record p { partial = bytes }) else none

-- The branch `None`.
unfoldable pub after_cut : Parser → List ℕ → ℕ → ℕ → Option Step
after_cut p bytes plain valid =
    if ltb plain (length bytes)
    then some (start_escape (act p (print replacement)), plain + 1)
    else keep_partial p (drop valid bytes) >>= (λ q. some (q, length bytes))

unfoldable pub after_error : Utf8Error → Parser → List ℕ → ℕ → ℕ → Option Step
after_error no_error p bytes plain valid = some (after_text p plain (length bytes))
after_error (bad_sequence len) p bytes plain valid = after_bad p bytes valid len
after_error cut_off p bytes plain valid = after_cut p bytes plain valid

unfoldable pub advance_ground : Parser → List ℕ → Option Step
advance_ground p bytes =
    let plain = plain_length bytes in
    let v = from_utf8 (take plain bytes) in
    if plain == 0
    then some (start_escape p, 1)
    else after_error v.error (ground_dispatch p v.text) bytes plain v.valid_up_to

-- `self.partial_utf8_len = 0` behind a character or a replacement.
abbrev pub forget_partial : Parser → ℕ → Parser
forget_partial p c = record (act p (print c)) { partial = [] }

-- `n - m` on usize.
abbrev pub checked_sub : ℕ → ℕ → Option ℕ
checked_sub n m = if leb m n then some (n - m) else none

-- `parsed.chars().next().unwrap()`, with the number of bytes that are taken as read.
unfoldable pub take_first : Parser → Text → ℕ → ℕ → Option Step
take_first p [] old read = none
take_first p (c ∷ text) old read =
    checked_sub read old >>= (λ used. some (forget_partial p c, used))

-- The branch `Err`, of no valid byte.
unfoldable pub partial_error : Utf8Error → Parser → ℕ → ℕ → Option Step
partial_error no_error p old copied = none
partial_error (bad_sequence len) p old copied =
    checked_sub len old >>= (λ used. some (forget_partial p replacement, used))
partial_error cut_off p old copied = some (p, copied)

-- The number of bytes of the first character.
abbrev pub first_len : Text → ℕ
first_len [] = 0
first_len (c ∷ text) = len_utf8 c

unfoldable pub after_partial : Validated → Parser → ℕ → ℕ → Option Step
after_partial v p old copied = elim v.error [
  | no_error ↦ take_first p v.text old (first_len v.text)
  | bad_sequence len ↦
      if ltb 0 v.valid_up_to
      then take_first p v.text old v.valid_up_to
      else partial_error (bad_sequence len) p old copied
  | cut_off ↦
      if ltb 0 v.valid_up_to
      then take_first p v.text old v.valid_up_to
      else partial_error cut_off p old copied
]

unfoldable pub advance_partial_utf8 : Parser → List ℕ → Option Step
advance_partial_utf8 p bytes =
    let old = length p.partial in
    let copied = min (length bytes) (max_partial - old) in
    let buffer = p.partial ++ take copied bytes in
    after_partial (from_utf8 buffer) (record p { partial = buffer }) old copied

-- A round of the loop of `advance`, by the state.
unfoldable pub step_at : State → Parser → ℕ → List ℕ → Option Step
step_at State.ground p byte bytes = advance_ground p (byte ∷ bytes)
step_at state p byte bytes = change_state p byte >>= (λ q. some (q, 1))

-- `&bytes[i..]`.
unfoldable pub skip : ℕ → List ℕ → Option (List ℕ)
skip used bytes = if leb used (length bytes) then some (drop used bytes) else none

-- The loop of `advance`, with the rounds left; there is no result if they are not enough.
unfoldable pub run : ℕ → Parser → List ℕ → Option Parser
run n p [] = some p
run zero p (b ∷ bytes) = none
run (suc n) p (b ∷ bytes) = do
  (q, used) ← step_at p.state p b bytes
  rest ← skip used (b ∷ bytes)
  run n q rest

-- `advance`. Each round reads a byte at least, so the number of bytes is enough rounds.
unfoldable pub advance : Parser → List ℕ → Option Parser
advance p bytes = do
  (q, used) ← if length p.partial == 0 then some (p, 0) else advance_partial_utf8 p bytes
  rest ← skip used bytes
  run (length rest) q rest
