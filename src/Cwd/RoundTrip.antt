-- ===== src/Cwd/RoundTrip.antt =====
-- What src/terminal/cwd.rs makes of a path that a shell reports.
use stitch_pty.Prelude.{
  ℕ, ◌+◌, ◌-◌, ◌/◌, ◌%◌, ◌<◌, ◌≤◌, ◌≡◌, ◌⊎◌, ◌↔◌, ◌≢◌, refl, ◌∙◌, ap, Bool, true, false, not, ◌&&◌,
  ◌==◌, ltb, if◌then◌else◌, Option, none, some, sym, List, [], ◌∷◌, ◌++◌, length, All, All-append,
  arith, Text, equal, length-append, Bool-cases, inl, inr,
}
use stitch_pty.Utf8.{from_utf8, encode, encode_text}
use stitch_pty.Utf8.RoundTrip.{IsScalar, IsText, all_valid, length-encode, from_utf8-encode_text}
use stitch_pty.Cwd.{
  hex_val, push, push_hex, percent_bytes, valid_text, percent_decode, has_nul, checked, scheme,
  has_scheme, from_slash, is_drive, without_slash, parse_path, parse_osc7, parse_osc9_9,
}

abbrev pub hex_digit : ℕ → ℕ
hex_digit d = if ltb d 10 then b'0' + d else b'A' + (d - 10)

-- The reference: `%` and two digits for each byte but those to keep.
unfoldable pub percent_encode : (ℕ → Bool) → List ℕ → List ℕ
percent_encode keep [] = []
percent_encode keep (b ∷ bytes) =
    let rest = percent_encode keep bytes in
    if keep b && not (b == b'%')
    then b ∷ rest
    else b'%' ∷ hex_digit (b / 16) ∷ hex_digit (b % 16) ∷ rest

abbrev pub IsByte : ℕ → Type 0
IsByte b = b < 256

hex_val-hex_digit : (d : ℕ) → d < 16 → hex_val (hex_digit d) ≡ some d
unfolding hex_val
hex_val-hex_digit d h = ground arith

percent_bytes-push :
    (b : ℕ) (bytes : List ℕ)
    → (b == b'%') ≡ false
    → percent_bytes (b ∷ bytes) ≡ push b (percent_bytes bytes)
unfolding percent_bytes
percent_bytes-push b [] e = rw e refl
percent_bytes-push b (c ∷ []) e = rw e refl
percent_bytes-push b (c ∷ d ∷ bytes) e = rw e refl

push_hex-hex_digit :
    (b : ℕ) (out : Option (List ℕ))
    → IsByte b
    → push_hex (hex_digit (b / 16)) (hex_digit (b % 16)) out ≡ push b out
unfolding push_hex
push_hex-hex_digit b out h =
    rw (hex_val-hex_digit (b / 16) (omega arith))
      (rw (hex_val-hex_digit (b % 16) (omega arith)) (ap (λ k. push k out) (omega arith)))

percent_bytes-percent_encode :
    (keep : ℕ → Bool) (bytes : List ℕ)
    → All IsByte bytes
    → percent_bytes (percent_encode keep bytes) ≡ some bytes
unfolding percent_encode percent_bytes
percent_bytes-percent_encode keep [] h = refl
percent_bytes-percent_encode keep (b ∷ bytes) h =
    let rest = percent_bytes-percent_encode keep bytes h.1 in
    elim (Bool-cases (keep b && not (b == b'%'))) [
      | inl kept ↦
          rw kept
            (percent_bytes-push b _ (not_percent (keep b) (b == b'%') kept) ∙ ap (push b) rest)
      | inr coded ↦ rw coded (push_hex-hex_digit b _ h.0 ∙ ap (push b) rest)
    ]
  where
    not_percent : (x y : Bool) → (x && not y) ≡ true → y ≡ false
    not_percent true false e = refl
    not_percent true true e = cc
    not_percent false y e = cc

encode-IsByte : (c : ℕ) → IsScalar c → All IsByte (encode c)
unfolding encode
encode-IsByte c s = ground arith

encode_text-IsByte : (text : Text) → IsText text → All IsByte (encode_text text)
unfolding encode_text
encode_text-IsByte [] t = tt
encode_text-IsByte (c ∷ text) t =
    All-append IsByte (encode c) _ (encode-IsByte c t.0) (encode_text-IsByte text t.1)

percent_decode-percent_encode :
    (keep : ℕ → Bool) (text : Text)
    → IsText text
    → percent_decode (percent_encode keep (encode_text text)) ≡ some text
unfolding percent_decode valid_text
percent_decode-percent_encode keep text t =
    rw (percent_bytes-percent_encode keep (encode_text text) (encode_text-IsByte text t))
      (rw (from_utf8-encode_text text t) refl)

abbrev pub HasSlash : ℕ → Type 0
HasSlash b = b ≢ b'/'

from_slash-append :
    (host rest : List ℕ) → All HasSlash host → from_slash (host ++ b'/' ∷ rest) ≡ some (b'/' ∷ rest)
unfolding from_slash
from_slash-append [] rest h = refl
from_slash-append (b ∷ host) rest h =
    let other : (b == b'/') ≡ false = ground (arith, h.0) in
    rw other (from_slash-append host rest h.1)

has_scheme-append : (rest : List ℕ) → has_scheme (scheme ++ rest) ≡ true
unfolding has_scheme equal
has_scheme-append rest = ground arith

percent_encode-slash :
    (keep : ℕ → Bool) (text : Text)
    → keep b'/' ≡ true
    → percent_encode keep (encode_text (b'/' ∷ text))
      ≡ b'/' ∷ percent_encode keep (encode_text text)
unfolding percent_encode encode_text encode
percent_encode-slash keep text k = rw k refl

-- The characters of a path: no NUL among them.
abbrev pub NotNul : ℕ → Type 0
NotNul c = c ≢ 0

has_nul-NotNul : (text : Text) → All NotNul text → has_nul text ≡ false
unfolding has_nul
has_nul-NotNul [] h = refl
has_nul-NotNul (c ∷ text) h = ground (arith, has_nul-NotNul text h.1, h.0)

has_nul-All : (text : Text) → has_nul text ≡ false → All NotNul text
unfolding has_nul
has_nul-All [] h = tt
has_nul-All (c ∷ text) h = elim (Bool-cases (c == 0)) [
  | inl e ↦ ground arith
  | inr e ↦ (ground arith, has_nul-All text (ground arith))
]

checked-path : (c : ℕ) (text : Text) → All NotNul (c ∷ text) → checked (c ∷ text) ≡ some (c ∷ text)
unfolding checked
checked-path c text h = rw (has_nul-NotNul (c ∷ text) h) refl

-- A letter of a drive, and a colon.
abbrev pub IsLetter : ℕ → Type 0
IsLetter c = ((b'A' ≤ c) × (c ≤ b'Z')) ⊎ ((b'a' ≤ c) × (c ≤ b'z'))

abbrev pub IsDrive : Text → Type 0
IsDrive (c ∷ d ∷ text) = IsLetter c × (d ≡ b':')
IsDrive _ = ⊥

is_drive-two :
    (c d : ℕ) (rest : List ℕ)
    → (is_drive (b'/' ∷ (encode c ++ (encode d ++ rest))) ≡ true) ↔ (IsLetter c × (d ≡ b':'))
unfolding is_drive encode
is_drive-two c d rest = ground arith

is_drive-one : (c : ℕ) → is_drive (b'/' ∷ (encode c ++ [])) ≡ false
unfolding is_drive encode
is_drive-one c = ground arith

-- What is left of an absolute path: a drive loses the `/` before it.
abbrev pub Stripped : Text → Text → Type 0
Stripped text path = (IsDrive text × (path ≡ text)) ⊎ (¬ IsDrive text × (path ≡ b'/' ∷ text))

Stripped-by :
    (text : Text)
    → (is_drive (encode_text (b'/' ∷ text)) ≡ true) ↔ IsDrive text
    → Stripped text (without_slash (b'/' ∷ text))
unfolding without_slash
Stripped-by text drive = elim (Bool-cases (is_drive (encode_text (b'/' ∷ text)))) [
  | inl e ↦ rw e (inl (drive.0 e, refl))
  | inr e ↦ rw e (inr ((λ d. false_ne_true (sym e ∙ drive.1 d)), refl))
]
  where
    false_ne_true : false ≢ true
    false_ne_true h = cc

without_slash-Stripped : (text : Text) → Stripped text (without_slash (b'/' ∷ text))
unfolding encode_text encode
without_slash-Stripped [] = Stripped-by [] (unfold is_drive in ground arith)
without_slash-Stripped (c ∷ []) = Stripped-by (c ∷ []) (ground (arith, is_drive-one c))
without_slash-Stripped (c ∷ d ∷ text) =
    Stripped-by (c ∷ d ∷ text) (is_drive-two c d (encode_text text))

-- A report that names a host and percent-encodes some of the bytes of an absolute path, each byte
-- that is `%` and not `/` among them, is read as that path, but as the path behind the `/` exactly
-- if that begins with a letter and a colon. The path is a text without NUL; which bytes are encoded
-- besides is free.
pub parse_osc7-percent_encode :
    (keep : ℕ → Bool) (host : List ℕ) (text : Text)
    → keep b'/' ≡ true
    → All HasSlash host
    → IsText text
    → All NotNul text
    → (path : Text) × Stripped text path
      × (parse_osc7 (scheme ++ host ++ percent_encode keep (encode_text (b'/' ∷ text))) ≡ some path)
unfolding parse_osc7 parse_path
parse_osc7-percent_encode keep host text k h t n =
    let rest = host ++ percent_encode keep (encode_text (b'/' ∷ text)) in
    let encoded = percent_encode-slash keep text k in
    (
      without_slash (b'/' ∷ text),
      without_slash-Stripped text,
      rw (has_scheme-append rest) (
          rw encoded (
            rw (from_slash-append host (percent_encode keep (encode_text text)) h) (
              rw⁻¹ encoded (
                rw (percent_decode-percent_encode keep (b'/' ∷ text) (inl (omega arith), t))
                  (rw (checked-path b'/' text ((λ e. omega arith), n)) refl))))),
    )

osc9_9-reads :
    (bytes : List ℕ) (text : Text)
    → 0 < length bytes
    → from_utf8 bytes ≡ all_valid text
    → parse_osc9_9 bytes ≡ checked text
unfolding parse_osc9_9 valid_text
osc9_9-reads [] text h e = absurd (omega arith)
osc9_9-reads (b ∷ bytes) text h e = rw e refl

osc9_9-checked : (text : Text) → IsText text → parse_osc9_9 (encode_text text) ≡ checked text
unfolding parse_osc9_9 encode_text checked
osc9_9-checked [] t = refl
osc9_9-checked (c ∷ text) t =
    let size = length-append (encode c) (encode_text text) in
    let some_byte = (length-encode c).1 in
    osc9_9-reads (encode_text (c ∷ text)) (c ∷ text) (omega arith)
      (from_utf8-encode_text (c ∷ text) t)

-- A text that can be a path.
abbrev pub IsPathText : Text → Type 0
IsPathText text = (text ≢ []) × All NotNul text

-- The answer to a report of `text` as it is.
abbrev pub Answered : Text → Option Text → Type 0
Answered text answer =
    (IsPathText text × (answer ≡ some text)) ⊎ (¬ IsPathText text × (answer ≡ none))

checked-Answered : (text : Text) → Answered text (checked text)
unfolding checked
checked-Answered [] = inr ((λ h. h.0 refl), refl)
checked-Answered (c ∷ text) = elim (Bool-cases (has_nul (c ∷ text))) [
  | inl e ↦ rw e (inr ((λ h. true_ne_false (sym e ∙ has_nul-NotNul (c ∷ text) h.1)), refl))
  | inr e ↦ rw e (inl (((λ h. cc), has_nul-All (c ∷ text) e), refl))
]
  where
    true_ne_false : true ≢ false
    true_ne_false h = cc

-- The bytes of a text, reported as they are, are read as that text if it is not empty and has no
-- NUL; else the report is refused.
pub parse_osc9_9-encode_text :
    (text : Text) → IsText text → Answered text (parse_osc9_9 (encode_text text))
parse_osc9_9-encode_text text t = rw (osc9_9-checked text t) (checked-Answered text)
