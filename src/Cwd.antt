-- ===== src/Cwd.antt =====
-- The working directory that a shell reports, src/terminal/cwd.rs. A payload is a list of bytes, a
-- path a text; `none` is the source's `None`.
pub mod RoundTrip
pub mod Paths
mod Tests
use stitch_pty.Prelude.{
  ℕ, ◌+◌, ◌-◌, ◌*◌, Bool, true, false, not, ◌&&◌, ◌||◌, ◌==◌, ltb, within, if◌then◌else◌, Option,
  none, some, ◌>>=◌, map, List, [], ◌∷◌, length, drop, take, Text, codes, equal,
}
use stitch_pty.Utf8.{Validated, Utf8Error, no_error, bad_sequence, cut_off, from_utf8, encode_text}

unfoldable pub hex_val : ℕ → Option ℕ
hex_val b =
    if within b'0' b'9' b
    then some (b - b'0')
    else if within b'a' b'f' b
    then some (b - b'a' + 10)
    else if within b'A' b'F' b
    then some (b - b'A' + 10)
    else none

-- `out.push(b)` before the bytes that follow.
abbrev pub push : ℕ → Option (List ℕ) → Option (List ℕ)
push b none = none
push b (some out) = some (b ∷ out)

-- `%` and two digits.
unfoldable pub push_hex : ℕ → ℕ → Option (List ℕ) → Option (List ℕ)
push_hex c d out = do hi ← hex_val c; lo ← hex_val d; push (hi * 16 + lo) out

-- The loop of `percent_decode`.
unfoldable pub percent_bytes : List ℕ → Option (List ℕ)
percent_bytes [] = some []
percent_bytes (b ∷ []) = if b == b'%' then none else some (b ∷ [])
percent_bytes (b ∷ c ∷ []) =
    let rest = percent_bytes (c ∷ []) in if b == b'%' then none else push b rest
percent_bytes (b ∷ c ∷ d ∷ bytes) =
    let behind = percent_bytes bytes in
    let rest = percent_bytes (c ∷ d ∷ bytes) in
    if b == b'%' then push_hex c d behind else push b rest

-- `String::from_utf8(..).ok()`.
unfoldable pub valid_text : Validated → Option Text
valid_text v = elim v.error [ no_error ↦ some v.text | bad_sequence len ↦ none | cut_off ↦ none ]

unfoldable pub percent_decode : List ℕ → Option Text
percent_decode input = percent_bytes input >>= (λ out. valid_text (from_utf8 out))

-- `path.contains('\0')`.
unfoldable pub has_nul : Text → Bool
has_nul [] = false
has_nul (c ∷ text) = c == 0 || has_nul text

abbrev pub is_empty : Text → Bool
is_empty [] = true
is_empty (c ∷ text) = false

-- A path that is empty or has a NUL is no path.
unfoldable pub checked : Text → Option Text
checked path = if is_empty path || has_nul path then none else some path

abbrev pub to_ascii_lowercase : ℕ → ℕ
to_ascii_lowercase b = if within b'A' b'Z' b then b + 32 else b

abbrev pub scheme : List ℕ
scheme = codes "file://"

-- `payload[..SCHEME.len()].eq_ignore_ascii_case(SCHEME)` of a payload that is long enough.
unfoldable pub has_scheme : List ℕ → Bool
has_scheme payload =
    not (ltb (length payload) (length scheme))
    && equal (map to_ascii_lowercase (take (length scheme) payload)) scheme

-- `&rest[slash..]` where the first `/` is found.
unfoldable pub from_slash : List ℕ → Option (List ℕ)
from_slash [] = none
from_slash (b ∷ rest) =
    let behind = from_slash rest in if b == b'/' then some (b ∷ rest) else behind

-- `/C:` at the head of the bytes.
unfoldable pub is_drive : List ℕ → Bool
is_drive [] = false
is_drive (a ∷ []) = false
is_drive (a ∷ b ∷ []) = false
is_drive (a ∷ b ∷ c ∷ rest) = a == b'/' && (within b'A' b'Z' b || within b'a' b'z' b) && c == b':'

-- `file:///C:/Users/x` is `C:/Users/x`.
unfoldable pub without_slash : Text → Text
without_slash path = if is_drive (encode_text path) then drop 1 path else path

-- The part behind the scheme.
unfoldable pub parse_path : List ℕ → Option Text
parse_path rest = do
  path_enc ← from_slash rest
  decoded ← percent_decode path_enc
  path ← checked decoded
  some (without_slash path)

unfoldable pub parse_osc7 : List ℕ → Option Text
parse_osc7 payload = if has_scheme payload then parse_path (drop (length scheme) payload) else none

unfoldable pub parse_osc9_9 : List ℕ → Option Text
parse_osc9_9 [] = none
parse_osc9_9 (b ∷ payload) = valid_text (from_utf8 (b ∷ payload)) >>= checked
