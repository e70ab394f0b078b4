-- ===== src/Utf8/Scan.antt =====
-- What `from_utf8` tells of the bytes that it read.
use stitch_pty.Prelude.{
  ℕ, zero, suc, ◌+◌, ◌-◌, ◌<◌, ◌≤◌, ◌≡◌, refl, sym, ◌∙◌, ap, Bool, true, false, ◌==◌, ltb, within,
  if◌then◌else◌, List, [], ◌∷◌, ◌++◌, length, drop, arith, Text, length-drop, drop-drop,
}
use stitch_pty.Utf8.{
  Lead, one, two, no_lead, three, four, lead_of, Decoded, char, invalid, incomplete, decode_two,
  decode_three, decode_four, decode_lead, decode, Utf8Error, no_error, bad_sequence, cut_off,
  Validated, prepend, stop_at, validate, from_utf8, len_utf8,
}

-- The first bytes of a class, and the least second bytes that make a shortest form.
abbrev pub LeadFits : ℕ → Lead → Type 0
LeadFits b one = b < 0x80
LeadFits b two = (0xC2 ≤ b) × (b ≤ 0xDF)
LeadFits b (three lo hi) =
    (0xE0 ≤ b) × (b ≤ 0xEF) × (0x80 ≤ lo) × (hi ≤ 0xBF) × (b ≡ 0xE0 → 0xA0 ≤ lo)
LeadFits b (four lo hi) =
    (0xF0 ≤ b) × (b ≤ 0xF4) × (0x80 ≤ lo) × (hi ≤ 0xBF) × (b ≡ 0xF0 → 0x90 ≤ lo)
LeadFits b no_lead = Unit {0}

LeadFits-if :
    (b : ℕ) (t : Bool) (l m : Lead)
    → (t ≡ true → LeadFits b l)
    → LeadFits b m
    → LeadFits b (if t then l else m)
LeadFits-if b true l m h k = h refl
LeadFits-if b false l m h k = k

lead_of-LeadFits : (b : ℕ) → LeadFits b (lead_of b)
unfolding lead_of
lead_of-LeadFits b =
    LeadFits-if b (ltb b 0x80) one _ (λ e. ground arith)
      (LeadFits-if b (within 0xC2 0xDF b) two _ (λ e. ground arith)
        (LeadFits-if b (b == 0xE0) (three 0xA0 0xBF) _ (λ e. ground arith)
          (LeadFits-if b (b == 0xED) (three 0x80 0x9F) _ (λ e. ground arith)
            (LeadFits-if b (within 0xE1 0xEF b) (three 0x80 0xBF) _ (λ e. ground arith)
              (LeadFits-if b (b == 0xF0) (four 0x90 0xBF) _ (λ e. ground arith)
                (LeadFits-if b (within 0xF1 0xF3 b) (four 0x80 0xBF) _ (λ e. ground arith)
                  (LeadFits-if b (b == 0xF4) (four 0x80 0x8F) no_lead (λ e. ground arith) tt)))))))

-- What `decode` may answer of `size` bytes.
abbrev pub FitsIn : ℕ → Decoded → Type 0
FitsIn size (char c len) = (0 < len) × (len ≤ size) × (len_utf8 c ≡ len)
FitsIn size (invalid len) = (0 < len) × (len ≤ size)
FitsIn size incomplete = size < 4

decode_lead-FitsIn :
    (l : Lead) (b0 : ℕ) (rest : List ℕ)
    → LeadFits b0 l
    → FitsIn (suc (length rest)) (decode_lead l b0 rest)
unfolding decode_lead decode_two decode_three decode_four len_utf8
decode_lead-FitsIn one b0 rest h = ground arith
decode_lead-FitsIn no_lead b0 rest h = ground arith
decode_lead-FitsIn two b0 [] h = ground arith
decode_lead-FitsIn two b0 (b1 ∷ rest) h = ground arith
decode_lead-FitsIn (three lo hi) b0 [] h = ground arith
decode_lead-FitsIn (three lo hi) b0 (b1 ∷ []) h = ground arith
decode_lead-FitsIn (three lo hi) b0 (b1 ∷ b2 ∷ rest) h = ground arith
decode_lead-FitsIn (four lo hi) b0 [] h = ground arith
decode_lead-FitsIn (four lo hi) b0 (b1 ∷ []) h = ground arith
decode_lead-FitsIn (four lo hi) b0 (b1 ∷ b2 ∷ []) h = ground arith
decode_lead-FitsIn (four lo hi) b0 (b1 ∷ b2 ∷ b3 ∷ rest) h = ground arith

pub decode-FitsIn : (b : ℕ) (bytes : List ℕ) → FitsIn (suc (length bytes)) (decode (b ∷ bytes))
unfolding decode
decode-FitsIn b bytes = decode_lead-FitsIn (lead_of b) b bytes (lead_of-LeadFits b)

-- The answer on a text of which the first `n` bytes were cut off.
abbrev pub GoesBeyond : ℕ → Decoded → Type 0
GoesBeyond n (char c len) = n < len
GoesBeyond n (invalid len) = n ≤ len
GoesBeyond n incomplete = Unit {0}

decode_lead-GoesBeyond :
    (l : Lead) (b0 : ℕ) (rest more : List ℕ)
    → decode_lead l b0 rest ≡ incomplete
    → GoesBeyond (suc (length rest)) (decode_lead l b0 (rest ++ more))
unfolding decode_lead decode_two decode_three decode_four
decode_lead-GoesBeyond one b0 rest more e = absurd cc
decode_lead-GoesBeyond no_lead b0 rest more e = absurd cc
decode_lead-GoesBeyond two b0 [] [] e = tt
decode_lead-GoesBeyond two b0 [] (b1 ∷ more) e = ground arith
decode_lead-GoesBeyond two b0 (b1 ∷ rest) more e = ground arith
decode_lead-GoesBeyond (three lo hi) b0 [] [] e = tt
decode_lead-GoesBeyond (three lo hi) b0 [] (b1 ∷ []) e = ground arith
decode_lead-GoesBeyond (three lo hi) b0 [] (b1 ∷ b2 ∷ more) e = ground arith
decode_lead-GoesBeyond (three lo hi) b0 (b1 ∷ []) [] e = ground arith
decode_lead-GoesBeyond (three lo hi) b0 (b1 ∷ []) (b2 ∷ more) e = ground arith
decode_lead-GoesBeyond (three lo hi) b0 (b1 ∷ b2 ∷ rest) more e = ground arith
decode_lead-GoesBeyond (four lo hi) b0 [] [] e = tt
decode_lead-GoesBeyond (four lo hi) b0 [] (b1 ∷ []) e = ground arith
decode_lead-GoesBeyond (four lo hi) b0 [] (b1 ∷ b2 ∷ []) e = ground arith
decode_lead-GoesBeyond (four lo hi) b0 [] (b1 ∷ b2 ∷ b3 ∷ more) e = ground arith
decode_lead-GoesBeyond (four lo hi) b0 (b1 ∷ []) [] e = ground arith
decode_lead-GoesBeyond (four lo hi) b0 (b1 ∷ []) (b2 ∷ []) e = ground arith
decode_lead-GoesBeyond (four lo hi) b0 (b1 ∷ []) (b2 ∷ b3 ∷ more) e = ground arith
decode_lead-GoesBeyond (four lo hi) b0 (b1 ∷ b2 ∷ []) [] e = ground arith
decode_lead-GoesBeyond (four lo hi) b0 (b1 ∷ b2 ∷ []) (b3 ∷ more) e = ground arith
decode_lead-GoesBeyond (four lo hi) b0 (b1 ∷ b2 ∷ b3 ∷ rest) more e = ground arith

-- Bytes that complete a cut-off sequence: the sequence ends among them, or is wrong there.
pub decode-GoesBeyond :
    (b : ℕ) (rest more : List ℕ)
    → decode (b ∷ rest) ≡ incomplete
    → GoesBeyond (suc (length rest)) (decode (b ∷ rest ++ more))
unfolding decode
decode-GoesBeyond b rest more e = decode_lead-GoesBeyond (lead_of b) b rest more e

-- What stands at the head of `bytes`, by the text read and by what ended it.
abbrev pub Heads : Text → Utf8Error → List ℕ → Type 0
Heads (c ∷ cs) error bytes = decode bytes ≡ char c (len_utf8 c)
Heads [] no_error bytes = bytes ≡ []
Heads [] (bad_sequence len) bytes = decode bytes ≡ invalid len
Heads [] cut_off bytes = decode bytes ≡ incomplete

-- What is left of `size` bytes where the valid text ends.
abbrev pub Leaves : Utf8Error → ℕ → Type 0
Leaves no_error size = size ≡ 0
Leaves (bad_sequence len) size = (0 < len) × (len ≤ size)
Leaves cut_off size = (0 < size) × (size < 4)

-- The valid text takes at least the bytes of its first character, and none if it is empty.
abbrev pub Takes : Text → ℕ → Type 0
Takes [] n = n ≡ 0
Takes (c ∷ cs) n = len_utf8 c ≤ n

abbrev pub CutsOff : Utf8Error → List ℕ → Type 0
CutsOff no_error rest = Unit {0}
CutsOff (bad_sequence len) rest = Unit {0}
CutsOff cut_off rest = decode rest ≡ incomplete

pub record Reads (bytes : List ℕ) (v : Validated) : Type 0 where
  pub inside : v.valid_up_to ≤ length bytes
  pub leaves : Leaves v.error (length bytes - v.valid_up_to)
  pub cuts : CutsOff v.error (drop v.valid_up_to bytes)
  pub heads : Heads v.text v.error bytes
  pub takes : Takes v.text v.valid_up_to

CutsOff-drop :
    (e : Utf8Error) (m n : ℕ) (xs : List ℕ)
    → CutsOff e (drop m (drop n xs))
    → CutsOff e (drop (n + m) xs)
CutsOff-drop no_error m n xs h = tt
CutsOff-drop (bad_sequence len) m n xs h = tt
CutsOff-drop cut_off m n xs h = sym (ap decode (drop-drop m n xs)) ∙ h

pub Leaves-same : (e : Utf8Error) (m n : ℕ) → m ≡ n → Leaves e m → Leaves e n
Leaves-same no_error m n e h = omega arith
Leaves-same (bad_sequence len) m n e h = (h.0, omega arith)
Leaves-same cut_off m n e h = (omega arith, omega arith)

prepend-Reads :
    (c len : ℕ) (bytes : List ℕ) (v : Validated)
    → len ≤ length bytes
    → decode bytes ≡ char c len
    → len_utf8 c ≡ len
    → Reads (drop len bytes) v
    → Reads bytes (prepend c len v)
prepend-Reads c len bytes v fits e same r =
    let shorter = length-drop len bytes in
    let inside = r.inside in
    record {
      inside = omega arith;
      leaves = Leaves-same v.error _ _ (omega arith) r.leaves;
      cuts = CutsOff-drop v.error v.valid_up_to len bytes r.cuts;
      heads = e ∙ ap (char c) (sym same);
      takes = omega arith;
    }

Reads-nothing : Reads [] (stop_at no_error)
Reads-nothing = record {
  inside = omega arith;
  leaves = refl;
  cuts = tt;
  heads = refl;
  takes = refl;
}

validate-Reads : (n : ℕ) (bytes : List ℕ) → length bytes ≤ n → Reads bytes (validate n bytes)
unfolding validate
validate-Reads zero [] h = Reads-nothing
validate-Reads zero (b ∷ bytes) h = absurd (omega arith)
validate-Reads (suc n) [] h = Reads-nothing
validate-Reads (suc n) (b ∷ bytes) h =
    answer
      (λ c len pos fits e same.
        let shorter = length-drop len (b ∷ bytes) in
        prepend-Reads c len (b ∷ bytes) _ fits e same
          (validate-Reads n (drop len (b ∷ bytes)) (omega arith)))
      (decode (b ∷ bytes)) refl (decode-FitsIn b bytes)
  where
    answer :
        ((c len : ℕ)
          → 0 < len
          → len ≤ suc (length bytes)
          → decode (b ∷ bytes) ≡ char c len
          → len_utf8 c ≡ len
          → Reads (b ∷ bytes) (prepend c len (validate n (drop len (b ∷ bytes)))))
        → (d : Decoded) → decode (b ∷ bytes) ≡ d
        → FitsIn (suc (length bytes)) d
        → Reads (b ∷ bytes) (elim d [
          | char c len ↦ prepend c len (validate n (drop len (b ∷ bytes)))
          | invalid len ↦ stop_at (bad_sequence len)
          | incomplete ↦ stop_at cut_off
        ])
    answer read (char c len) e (pos, fits, same) = read c len pos fits e same
    answer read (invalid len) e (pos, fits) = record {
      inside = omega arith;
      leaves = (pos, omega arith);
      cuts = tt;
      heads = e;
      takes = refl;
    }
    answer read incomplete e small = record {
      inside = omega arith;
      leaves = (omega arith, omega arith);
      cuts = e;
      heads = e;
      takes = refl;
    }

-- `from_utf8` reads all of the bytes: the rounds are enough.
pub from_utf8-Reads : (bytes : List ℕ) → Reads bytes (from_utf8 bytes)
unfolding from_utf8
from_utf8-Reads bytes = validate-Reads (length bytes) bytes (omega arith)
