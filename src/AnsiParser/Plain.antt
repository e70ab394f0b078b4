-- ===== src/AnsiParser/Plain.antt =====
-- Text without an escape character, read by the ground state of src/terminal/ansi_parser.rs.
use stitch_pty.Prelude.{
  ℕ, suc, ◌<◌, ◌≡◌, ◌≢◌, refl, ◌∙◌, ap, true, false, ◌==◌, ltb, leb, Option, some, ◌>>=◌, List, [],
  ◌∷◌, ◌++◌, length, drop, arith, Text, length-append, Bool-cases, ◌⊎◌, inl, inr, ◌≤◌, ◌||◌, within,
  sym, append-nil, append_assoc, Holds, holds,
}
use stitch_pty.Utf8.{encode, encode_text, no_error, from_utf8}
use stitch_pty.Utf8.RoundTrip.{IsText, from_utf8-encode_text, length-encode}
use stitch_pty.AnsiParser.{State, Action, print, execute, act, Parser}
use stitch_pty.AnsiParser.Ground.{
  plain_length, dispatch_char, ground_dispatch, after_text, after_error, advance_ground, Step,
  step_at, skip, run, advance,
}
use stitch_pty.AnsiParser.Rounds.{take_all}

-- No byte is ESC.
abbrev pub IsPlain : List ℕ → Type 0
IsPlain [] = Unit {0}
IsPlain (b ∷ bytes) = (b ≢ 0x1B) × IsPlain bytes

append-IsPlain : (xs ys : List ℕ) → IsPlain xs → IsPlain ys → IsPlain (xs ++ ys)
append-IsPlain [] ys h k = k
append-IsPlain (x ∷ xs) ys h k = (h.0, append-IsPlain xs ys h.1 k)

encode-IsPlain : (c : ℕ) → c ≢ 0x1B → IsPlain (encode c)
unfolding encode
encode-IsPlain c h = ground arith

encode_text-IsPlain : (text : Text) → IsPlain text → IsPlain (encode_text text)
unfolding encode_text
encode_text-IsPlain [] h = tt
encode_text-IsPlain (c ∷ text) h =
    append-IsPlain (encode c) (encode_text text) (encode-IsPlain c h.0)
      (encode_text-IsPlain text h.1)

plain_length-IsPlain : (bytes : List ℕ) → IsPlain bytes → plain_length bytes ≡ length bytes
unfolding plain_length
plain_length-IsPlain [] h = refl
plain_length-IsPlain (b ∷ bytes) h = ground (arith, plain_length-IsPlain bytes h.1, h.0)

-- The whole of the bytes is valid, and there is no ESC behind them.
ground-plain :
    (p : Parser) (bytes : List ℕ) (text : Text)
    → plain_length bytes ≡ length bytes
    → 0 < length bytes
    → from_utf8 bytes ≡ record { text = text; valid_up_to = length bytes; error = no_error }
    → advance_ground p bytes ≡ some (ground_dispatch p text, length bytes)
unfolding advance_ground after_error after_text
ground-plain p bytes text e h v =
    let some_byte : (length bytes == 0) ≡ false = ground arith in
    let no_more : ltb (length bytes) (length bytes) ≡ false = ground arith in
    rw e (rw some_byte (rw (take_all (length bytes) bytes refl) (rw v (rw no_more refl))))

drop_all : (bytes : List ℕ) → drop (length bytes) bytes ≡ []
drop_all [] = refl
drop_all (b ∷ bytes) = drop_all bytes

-- A round that reads all the bytes is the last.
last-round :
    (n : ℕ) (q : Parser) (bytes : List ℕ)
    → (skip (length bytes) bytes >>= (λ rest. run n q rest)) ≡ some q
unfolding skip run
last-round n q bytes =
    let inside : leb (length bytes) (length bytes) ≡ true = ground arith in
    rw inside (rw (drop_all bytes) refl)

run-plain :
    (n : ℕ) (p q : Parser) (b : ℕ) (bytes : List ℕ)
    → p.state ≡ State.ground
    → advance_ground p (b ∷ bytes) ≡ some (q, length (b ∷ bytes))
    → run (suc n) p (b ∷ bytes) ≡ some q
unfolding run step_at
run-plain n p q b bytes s e =
    ap (λ state. step_at state p b bytes >>= round) s
    ∙ ap (λ o. o >>= round) e
    ∙ last-round n q (b ∷ bytes)
  where
    round : Step → Option Parser
    round s = skip s.1 (b ∷ bytes) >>= (λ rest. run n s.0 rest)

advance-run :
    (p : Parser) (bytes : List ℕ) → p.partial ≡ [] → advance p bytes ≡ run (length bytes) p bytes
unfolding advance skip
advance-run p bytes e =
    let nothing : (length p.partial == 0) ≡ true = ground (arith, ap length e) in
    let inside : leb 0 (length bytes) ≡ true = ground arith in rw nothing (rw inside refl)

run-all :
    (p q : Parser) (bytes : List ℕ)
    → 0 < length bytes
    → p.state ≡ State.ground
    → advance_ground p bytes ≡ some (q, length bytes)
    → run (length bytes) p bytes ≡ some q
run-all p q [] h s e = absurd (omega arith)
run-all p q (b ∷ bytes) h s e = run-plain (length bytes) p q b bytes s e

-- The control characters of 7 and of 8 bits.
abbrev pub IsControl : ℕ → Type 0
IsControl c = (c < 0x20) ⊎ ((0x80 ≤ c) × (c < 0xA0))

-- The call for a character: a control is executed, any other character is printed.
abbrev pub IsCall : ℕ → Action → Type 0
IsCall c action = (IsControl c × (action ≡ execute c)) ⊎ (¬ IsControl c × (action ≡ print c))

-- The calls for a text, one for each character, in order.
abbrev pub AreCalls : Text → List Action → Type 0
AreCalls [] [] = Unit
AreCalls (c ∷ text) (action ∷ actions) = IsCall c action × AreCalls text actions
AreCalls _ _ = ⊥

-- `q` is `p` behind the calls for `text`.
pub record Reads (text : Text) (p q : Parser) : Type 0 where
  pub calls : List Action
  pub told : AreCalls text calls
  pub state_kept : q ≡ record p { actions = p.actions ++ calls }

dispatch_char-IsCall :
    (p : Parser) (c : ℕ) → (a : Action) × IsCall c a × (dispatch_char p c ≡ act p a)
unfolding dispatch_char
dispatch_char-IsCall p c = elim (Bool-cases (within 0x00 0x1F c || within 0x80 0x9F c)) [
  | inl control ↦ (execute c, inl (ground arith, refl), rw control refl)
  | inr other ↦ (print c, inr (ground arith, refl), rw other refl)
]

ground_dispatch-Reads : (p : Parser) (text : Text) → Reads text p (ground_dispatch p text)
unfolding ground_dispatch
ground_dispatch-Reads p [] = record {
  calls = [];
  told = tt;
  state_kept = ap (λ l. record p { actions = l }) {x = p.actions} (sym (append-nil p.actions));
}
ground_dispatch-Reads p (c ∷ text) =
    let (a, call, made) = dispatch_char-IsCall p c in
    let rest = ground_dispatch-Reads (act p a) text in
    record {
      calls = a ∷ rest.calls;
      told = (call, rest.told);
      state_kept =
          ap (λ q. ground_dispatch q text) made
          ∙ rest.state_kept
          ∙ ap (λ l. record p { actions = l }) (append_assoc p.actions (a ∷ []) rest.calls);
    }

dispatched :
    (p : Parser) (text : Text)
    → p.state ≡ State.ground
    → p.partial ≡ []
    → IsText text
    → IsPlain text
    → advance p (encode_text text) ≡ some (ground_dispatch p text)
unfolding encode_text ground_dispatch run
dispatched p [] s e t h = advance-run p [] e
dispatched p (c ∷ text) s e t h =
    let bytes = encode_text (c ∷ text) in
    let size = length-append (encode c) (encode_text text) in
    let some_byte = (length-encode c).1 in
    advance-run p bytes e
    ∙ run-all p _ bytes (omega arith) s (
        ground-plain p bytes (c ∷ text)
          (plain_length-IsPlain bytes (encode_text-IsPlain (c ∷ text) h)) (omega arith)
          (from_utf8-encode_text (c ∷ text) t))

-- Fed the bytes of a text without an escape character, a parser in the ground state with no
-- character cut off prints the characters of the text in order, and executes the controls
-- among them; nothing else of it changes.
pub advance-encode_text :
    (p : Parser) (text : Text)
    → p.state ≡ State.ground
    → p.partial ≡ []
    → IsText text
    → IsPlain text
    → Holds (Reads text p) (advance p (encode_text text))
advance-encode_text p text s e t h =
    rw (dispatched p text s e t h) (holds (ground_dispatch-Reads p text))
