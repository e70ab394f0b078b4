-- ===== src/Utf8.antt =====
-- UTF-8 as Rust's standard library reads it (`std::str::from_utf8`, `String::from_utf8_lossy`,
-- `char::len_utf8`), which src/terminal/ansi_parser.rs, parser.rs and cwd.rs call. A `char` is its
-- code point, a byte a number.
pub mod Scan
pub mod RoundTrip
mod Tests
use stitch_pty.Prelude.{
  ℕ, zero, suc, ◌+◌, ◌-◌, ◌*◌, ◌/◌, ◌%◌, Bool, ◌||◌, ◌==◌, ltb, within, if◌then◌else◌, Option, none,
  some, List, [], ◌∷◌, ◌++◌, length, drop, Text,
}

-- What the first byte of a sequence asks for: the bounds are those of the second byte.
pub data Lead : Type 0 where
  one two no_lead : Lead
  three four : ℕ → ℕ → Lead

unfoldable pub lead_of : ℕ → Lead
lead_of b =
    if ltb b 0x80
    then one
    else if within 0xC2 0xDF b
    then two
    else if b == 0xE0
    then three 0xA0 0xBF
    else if b == 0xED
    then three 0x80 0x9F
    else if within 0xE1 0xEF b
    then three 0x80 0xBF
    else if b == 0xF0
    then four 0x90 0xBF
    else if within 0xF1 0xF3 b
    then four 0x80 0xBF
    else if b == 0xF4
    then four 0x80 0x8F
    else no_lead

-- The first sequence: a character with the number of its bytes; `Utf8Error::error_len` of `Some`
-- length; or a sequence that the end cuts off, `error_len` of `None`.
pub data Decoded : Type 0 where
  char : ℕ → ℕ → Decoded
  invalid : ℕ → Decoded
  incomplete : Decoded

abbrev pub is_continuation : ℕ → Bool
is_continuation b = within 0x80 0xBF b

unfoldable pub decode_two : ℕ → List ℕ → Decoded
decode_two b0 [] = incomplete
decode_two b0 (b1 ∷ rest) =
    if is_continuation b1 then char ((b0 - 0xC0) * 64 + (b1 - 0x80)) 2 else invalid 1

unfoldable pub decode_three : ℕ → ℕ → ℕ → List ℕ → Decoded
decode_three lo hi b0 [] = incomplete
decode_three lo hi b0 (b1 ∷ []) = if within lo hi b1 then incomplete else invalid 1
decode_three lo hi b0 (b1 ∷ b2 ∷ rest) =
    if within lo hi b1
    then if is_continuation b2
      then char ((b0 - 0xE0) * 4096 + (b1 - 0x80) * 64 + (b2 - 0x80)) 3
      else invalid 2
    else invalid 1

unfoldable pub decode_four : ℕ → ℕ → ℕ → List ℕ → Decoded
decode_four lo hi b0 [] = incomplete
decode_four lo hi b0 (b1 ∷ []) = if within lo hi b1 then incomplete else invalid 1
decode_four lo hi b0 (b1 ∷ b2 ∷ []) =
    if within lo hi b1 then if is_continuation b2 then incomplete else invalid 2 else invalid 1
decode_four lo hi b0 (b1 ∷ b2 ∷ b3 ∷ rest) =
    if within lo hi b1
    then if is_continuation b2
      then if is_continuation b3
        then char ((b0 - 0xF0) * 262144 + (b1 - 0x80) * 4096 + (b2 - 0x80) * 64 + (b3 - 0x80)) 4
        else invalid 3
      else invalid 2
    else invalid 1

unfoldable pub decode_lead : Lead → ℕ → List ℕ → Decoded
unfolding decode_two decode_three decode_four
decode_lead one b0 rest = char b0 1
decode_lead two b0 rest = decode_two b0 rest
decode_lead (three lo hi) b0 rest = decode_three lo hi b0 rest
decode_lead (four lo hi) b0 rest = decode_four lo hi b0 rest
decode_lead no_lead b0 rest = invalid 1

unfoldable pub decode : List ℕ → Decoded
unfolding lead_of decode_lead
decode [] = incomplete
decode (b0 ∷ rest) = decode_lead (lead_of b0) b0 rest

pub data Utf8Error : Type 0 where
  no_error : Utf8Error
  bad_sequence : ℕ → Utf8Error
  cut_off : Utf8Error

-- The result of `from_utf8`: the valid text, the number of its bytes, and what ends it.
pub record Validated : Type 0 where
  pub text : Text
  pub valid_up_to : ℕ
  pub error : Utf8Error

abbrev pub prepend : ℕ → ℕ → Validated → Validated
prepend c len v = record { text = c ∷ v.text; valid_up_to = len + v.valid_up_to; error = v.error }

abbrev pub stop_at : Utf8Error → Validated
stop_at e = record { text = []; valid_up_to = 0; error = e }

-- With the rounds left; each takes a byte at least.
unfoldable pub validate : ℕ → List ℕ → Validated
validate zero bytes = stop_at no_error
validate (suc n) [] = stop_at no_error
validate (suc n) (b ∷ bytes) = elim (decode (b ∷ bytes)) [
  | char c len ↦ prepend c len (validate n (drop len (b ∷ bytes)))
  | invalid len ↦ stop_at (bad_sequence len)
  | incomplete ↦ stop_at cut_off
]

unfoldable pub from_utf8 : List ℕ → Validated
unfolding validate
from_utf8 bytes = validate (length bytes) bytes

-- U+FFFD.
abbrev pub replacement : ℕ
replacement = 0xFFFD

unfoldable pub lossy : ℕ → List ℕ → Text
lossy zero bytes = []
lossy (suc n) [] = []
lossy (suc n) (b ∷ bytes) = elim (decode (b ∷ bytes)) [
  | char c len ↦ c ∷ lossy n (drop len (b ∷ bytes))
  | invalid len ↦ replacement ∷ lossy n (drop len (b ∷ bytes))
  | incomplete ↦ replacement ∷ []
]

unfoldable pub from_utf8_lossy : List ℕ → Text
unfolding lossy
from_utf8_lossy bytes = lossy (length bytes) bytes

-- `char::len_utf8`.
unfoldable pub len_utf8 : ℕ → ℕ
len_utf8 c = if ltb c 0x80 then 1 else if ltb c 0x800 then 2 else if ltb c 0x10000 then 3 else 4

-- `char::encode_utf8`.
unfoldable pub encode : ℕ → List ℕ
encode c =
    if ltb c 0x80
    then c ∷ []
    else if ltb c 0x800
    then (0xC0 + c / 64) ∷ (0x80 + c % 64) ∷ []
    else if ltb c 0x10000
    then (0xE0 + c / 4096) ∷ (0x80 + c / 64 % 64) ∷ (0x80 + c % 64) ∷ []
    else (0xF0 + c / 262144) ∷ (0x80 + c / 4096 % 64) ∷ (0x80 + c / 64 % 64) ∷ (0x80 + c % 64) ∷ []

-- `str::as_bytes`.
unfoldable pub encode_text : Text → List ℕ
unfolding encode
encode_text [] = []
encode_text (c ∷ cs) = encode c ++ encode_text cs
