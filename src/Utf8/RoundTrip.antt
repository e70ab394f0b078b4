-- ===== src/Utf8/RoundTrip.antt =====
-- A text is the bytes of its characters: what `from_utf8` reads of the bytes that a text has.
use stitch_pty.Prelude.{
  ℕ, zero, suc, ◌+◌, ◌/◌, ◌%◌, ◌<◌, ◌≤◌, ◌≡◌, refl, ◌∙◌, ap, true, ◌==◌, ltb, within, List, [], ◌∷◌,
  ◌++◌, length, drop, arith, Text, Bool-cases, ◌⊎◌, inl, inr, length-append,
}
use stitch_pty.Utf8.{
  two, three, four, lead_of, Decoded, char, invalid, incomplete, bad_sequence, cut_off, decode_two,
  decode_three, decode_four, decode_lead, decode, no_error, Validated, prepend, stop_at, validate,
  from_utf8, len_utf8, encode, encode_text,
}

-- A Unicode scalar value, which a `char` is.
abbrev pub IsScalar : ℕ → Type 0
IsScalar c = (c < 0xD800) ⊎ ((0xDFFF < c) × (c < 0x110000))

decode-one : (c : ℕ) (rest : List ℕ) → c < 0x80 → decode (c ∷ rest) ≡ char c 1
unfolding decode lead_of decode_lead
decode-one c rest h = let e : ltb c 0x80 ≡ true = ground arith in rw e refl

lead_of-two : (b : ℕ) → 0xC2 ≤ b → b ≤ 0xDF → lead_of b ≡ two
unfolding lead_of
lead_of-two b h k = ground arith

decode-two :
    (c : ℕ) (rest : List ℕ)
    → 0x80 ≤ c
    → c < 0x800
    → decode ((0xC0 + c / 64) ∷ (0x80 + c % 64) ∷ rest) ≡ char c 2
unfolding decode decode_lead decode_two
decode-two c rest h k =
    let l = lead_of-two (0xC0 + c / 64) (omega arith) (omega arith) in
    let w : within 0x80 0xBF (0x80 + c % 64) ≡ true = ground arith in
    rw l (rw w (ap (λ d. char d 2) (omega arith)))

lead_of-three :
    (b b1 : ℕ)
    → 0xE0 ≤ b
    → b ≤ 0xEF
    → 0x80 ≤ b1
    → b1 ≤ 0xBF
    → (b ≡ 0xE0 → 0xA0 ≤ b1)
    → (b ≡ 0xED → b1 ≤ 0x9F)
    → (lo : ℕ) × (hi : ℕ) × (lead_of b ≡ three lo hi) × (within lo hi b1 ≡ true)
unfolding lead_of
lead_of-three b b1 h k l m e f = elim (Bool-cases (b == 0xE0)) [
  | inl y ↦ (0xA0, 0xBF, ground arith, ground arith)
  | inr y ↦ elim (Bool-cases (b == 0xED)) [
    | inl z ↦ (0x80, 0x9F, ground arith, ground arith)
    | inr z ↦ (0x80, 0xBF, ground arith, ground arith)
  ]
]

lead_of-four :
    (b b1 : ℕ)
    → 0xF0 ≤ b
    → b ≤ 0xF4
    → 0x80 ≤ b1
    → b1 ≤ 0xBF
    → (b ≡ 0xF0 → 0x90 ≤ b1)
    → (b ≡ 0xF4 → b1 ≤ 0x8F)
    → (lo : ℕ) × (hi : ℕ) × (lead_of b ≡ four lo hi) × (within lo hi b1 ≡ true)
unfolding lead_of
lead_of-four b b1 h k l m e f = elim (Bool-cases (b == 0xF0)) [
  | inl y ↦ (0x90, 0xBF, ground arith, ground arith)
  | inr y ↦ elim (Bool-cases (b == 0xF4)) [
    | inl z ↦ (0x80, 0x8F, ground arith, ground arith)
    | inr z ↦ (0x80, 0xBF, ground arith, ground arith)
  ]
]

decode-three :
    (c : ℕ) (rest : List ℕ)
    → 0x800 ≤ c
    → c < 0x10000
    → IsScalar c
    → decode ((0xE0 + c / 4096) ∷ (0x80 + c / 64 % 64) ∷ (0x80 + c % 64) ∷ rest) ≡ char c 3
unfolding decode decode_lead decode_three
decode-three c rest h k s =
    let l =
      lead_of-three (0xE0 + c / 4096) (0x80 + c / 64 % 64) (omega arith) (omega arith) (omega arith)
        (omega arith) (λ e. omega arith) (λ e. ground arith) in
    let w : within 0x80 0xBF (0x80 + c % 64) ≡ true = ground arith in
    rw l.2 (rw l.3 (rw w (ap (λ d. char d 3) (omega arith))))

decode-four :
    (c : ℕ) (rest : List ℕ)
    → 0x10000 ≤ c
    → c < 0x110000
    → decode (
        (0xF0 + c / 262144)
        ∷ (0x80 + c / 4096 % 64)
        ∷ (0x80 + c / 64 % 64)
        ∷ (0x80 + c % 64)
        ∷ rest)
      ≡ char c 4
unfolding decode decode_lead decode_four
decode-four c rest h k =
    let l =
      lead_of-four (0xF0 + c / 262144) (0x80 + c / 4096 % 64) (omega arith) (omega arith)
        (omega arith) (omega arith) (λ e. omega arith) (λ e. omega arith) in
    let w : within 0x80 0xBF (0x80 + c / 64 % 64) ≡ true = ground arith in
    let v : within 0x80 0xBF (0x80 + c % 64) ≡ true = ground arith in
    rw l.2 (rw l.3 (rw w (rw v (ap (λ d. char d 4) (omega arith)))))

abbrev answer : ℕ → List ℕ → Decoded → Validated
answer n bytes (char c len) = prepend c len (validate n (drop len bytes))
answer n bytes (invalid len) = stop_at (bad_sequence len)
answer n bytes incomplete = stop_at cut_off

validate-char :
    (n c len b : ℕ) (bytes rest : List ℕ)
    → decode (b ∷ bytes) ≡ char c len
    → drop len (b ∷ bytes) ≡ rest
    → validate (suc n) (b ∷ bytes) ≡ prepend c len (validate n rest)
unfolding validate
validate-char n c len b bytes rest e d =
    ap (answer n (b ∷ bytes)) e ∙ ap (λ r. prepend c len (validate n r)) d

-- What the rounds read of a character: itself, and then the rest.
validate-encode :
    (n c : ℕ) (rest : List ℕ)
    → IsScalar c
    → validate (suc n) (encode c ++ rest) ≡ prepend c (len_utf8 c) (validate n rest)
unfolding encode len_utf8
validate-encode n c rest s = elim (Bool-cases (ltb c 0x80)) [
  | inl y ↦ rw y (validate-char n c _ _ _ rest (decode-one c rest (ground arith)) refl)
  | inr y ↦ elim (Bool-cases (ltb c 0x800)) [
    | inl z ↦
        rw y (
          rw z
            (validate-char n c _ _ _ rest (decode-two c rest (ground arith) (ground arith)) refl))
    | inr z ↦ elim (Bool-cases (ltb c 0x10000)) [
      | inl w ↦ rw y (
          rw z (
            rw w (
              validate-char n c _ _ _ rest (decode-three c rest (ground arith) (ground arith) s)
                refl)))
      | inr w ↦ rw y (
          rw z (
            rw w (
              validate-char n c _ _ _ rest (decode-four c rest (ground arith) (ground arith))
                refl)))
    ]
  ]
]

pub length-encode : (c : ℕ) → (length (encode c) ≡ len_utf8 c) × (0 < length (encode c))
unfolding encode len_utf8
length-encode c = ground arith

abbrev pub IsText : Text → Type 0
IsText [] = Unit {0}
IsText (c ∷ text) = IsScalar c × IsText text

-- `from_utf8` of the bytes of a text.
abbrev pub all_valid : Text → Validated
all_valid text = record { text = text; valid_up_to = length (encode_text text); error = no_error }

empty : (n : ℕ) → validate n [] ≡ stop_at no_error
unfolding validate
empty zero = refl
empty (suc n) = refl

validate-encode_text :
    (n : ℕ) (text : Text)
    → IsText text
    → length (encode_text text) ≤ n
    → validate n (encode_text text) ≡ all_valid text
unfolding encode_text
validate-encode_text n [] t h = empty n
validate-encode_text zero (c ∷ text) t h =
    let size = length-append (encode c) (encode_text text) in
    let some_byte = (length-encode c).1 in absurd (omega arith)
validate-encode_text (suc n) (c ∷ text) (s, t) h =
    let size = length-append (encode c) (encode_text text) in
    let bytes = (length-encode c).0 in
    let some_byte = (length-encode c).1 in
    validate-encode n c (encode_text text) s
    ∙ ap (prepend c (len_utf8 c)) (validate-encode_text n text t (omega arith))
    ∙ ap (λ k. record (all_valid (c ∷ text)) { valid_up_to = k })
        {x = len_utf8 c + length (encode_text text)} (omega arith)

pub from_utf8-encode_text :
    (text : Text) → IsText text → from_utf8 (encode_text text) ≡ all_valid text
unfolding from_utf8
from_utf8-encode_text text t = validate-encode_text _ text t (omega arith)
