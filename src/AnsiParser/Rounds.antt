-- ===== src/AnsiParser/Rounds.antt =====
-- The ground state of src/terminal/ansi_parser.rs: what a round of its loop reads.
use stitch_pty.Prelude.{
  ℕ, zero, suc, ◌+◌, ◌-◌, ◌<◌, ◌≤◌, ◌≡◌, refl, sym, ◌∙◌, ap, true, ◌||◌, ◌==◌, ltb, leb, within,
  List, [], ◌∷◌, ◌++◌, length, take, drop, arith, Text, Bool-cases, ◌⊎◌, inl, inr, Holds, holds,
  Holds-bind, Holds-if, length-append, length-take, length-drop, get_elem?-lt,
}
use stitch_pty.Utf8.{
  Utf8Error, no_error, bad_sequence, cut_off, Validated, incomplete, decode, from_utf8,
}
use stitch_pty.Utf8.Scan.{Reads, from_utf8-Reads, Leaves, Leaves-same, CutsOff}
use stitch_pty.AnsiParser.{Parser}
use stitch_pty.AnsiParser.Ground.{
  plain_length, dispatch_char, ground_dispatch, start_escape, Step, after_text, after_bad,
  keep_partial, after_cut, after_error, advance_ground,
}
use stitch_pty.AnsiParser.Bounds.{
  IsBounded, IsBounded-if, goto-IsBounded, act-IsBounded, reset_params-IsBounded,
}

-- The bytes of a character that were cut off.
abbrev pub IsCut : List ℕ → Type 0
IsCut [] = Unit {0}
IsCut (b ∷ bytes) = decode (b ∷ bytes) ≡ incomplete

abbrev pub without_partial : Parser → Parser
without_partial p = record p { partial = [] }

pub record Waits (p : Parser) : Type 0 where
  pub bounded : IsBounded (without_partial p)
  pub cut : IsCut p.partial

-- Behind a step, unless it has read all the bytes, no character is cut off.
pub record Goes (least size : ℕ) (s : Step) : Type 0 where
  pub reads : least ≤ s.1
  pub within_bytes : s.1 ≤ size
  pub waits : Waits s.0
  pub goes_on : (s.0.partial ≡ []) ⊎ (s.1 ≡ size)

empty-IsCut : (bytes : List ℕ) → bytes ≡ [] → IsCut bytes
empty-IsCut [] e = tt
empty-IsCut (b ∷ bytes) e = absurd cc

pub IsBounded-Waits : {p : Parser} → IsBounded p → Waits p
IsBounded-Waits {p = p} b = record { bounded = ground arith; cut = empty-IsCut p.partial b.whole }

pub Waits-IsBounded : {p : Parser} → Waits p → p.partial ≡ [] → IsBounded p
Waits-IsBounded w e = ground arith

pub IsBounded-Goes :
    {p : Parser} (least size used : ℕ)
    → IsBounded p
    → least ≤ used
    → used ≤ size
    → Goes least size (p, used)
IsBounded-Goes least size used b l h = record {
  reads = l;
  within_bytes = h;
  waits = IsBounded-Waits b;
  goes_on = inl b.whole;
}

plain_length-le : (bytes : List ℕ) → plain_length bytes ≤ length bytes
unfolding plain_length
plain_length-le [] = ground arith
plain_length-le (b ∷ bytes) = ground (arith, plain_length-le bytes)

ground_dispatch-IsBounded :
    (p : Parser) (text : Text) → IsBounded p → IsBounded (ground_dispatch p text)
unfolding ground_dispatch dispatch_char
ground_dispatch-IsBounded p [] b = b
ground_dispatch-IsBounded p (c ∷ text) b = ground_dispatch-IsBounded (dispatch_char p c) text (
    IsBounded-if (within 0x00 0x1F c || within 0x80 0x9F c) (act-IsBounded b _) (act-IsBounded b _))

start_escape-IsBounded : {p : Parser} → IsBounded p → IsBounded (start_escape p)
unfolding start_escape
start_escape-IsBounded b = goto-IsBounded (reset_params-IsBounded b) _

after_text-Goes :
    (p : Parser) (plain size : ℕ)
    → IsBounded p
    → 0 < plain
    → plain ≤ size
    → Goes 1 size (after_text p plain size)
unfolding after_text
after_text-Goes p plain size b h k = elim (Bool-cases (ltb plain size)) [
  | inl more ↦
      rw more
        (IsBounded-Goes 1 size (plain + 1) (start_escape-IsBounded b) (omega arith) (ground arith))
  | inr done ↦ rw done (IsBounded-Goes 1 size plain b (omega arith) k)
]

after_bad-Goes :
    (p : Parser) (bytes : List ℕ) (valid len : ℕ)
    → IsBounded p
    → 0 < len
    → valid + len ≤ length bytes
    → Holds (Goes 1 (length bytes)) (after_bad p bytes valid len)
unfolding after_bad
after_bad-Goes p bytes valid len b h k =
    Holds-if (len == 1)
      (let at = get_elem?-lt bytes valid (omega arith) in
        rw at.1 (
          holds (
            IsBounded-Goes 1 (length bytes) (valid + len)
              (IsBounded-if (leb at.0 0x9F) (act-IsBounded b _) (act-IsBounded b _)) (omega arith)
              k)))
      (holds (IsBounded-Goes 1 (length bytes) (valid + len) (act-IsBounded b _) (omega arith) k))

pub append-IsCut : (xs bytes : List ℕ) → xs ≡ [] → decode bytes ≡ incomplete → IsCut (xs ++ bytes)
append-IsCut [] [] e h = tt
append-IsCut [] (b ∷ bytes) e h = h
append-IsCut (x ∷ xs) bytes e h = absurd cc

-- An array with nothing in it has room for a character that was cut off.
keep_partial-Waits :
    (p : Parser) (bytes : List ℕ)
    → IsBounded p
    → decode bytes ≡ incomplete
    → length bytes < 4
    → Holds Waits (keep_partial p bytes)
unfolding keep_partial
keep_partial-Waits p bytes b e h =
    let size = length-append p.partial bytes in
    let none_yet = ap length b.whole in
    let fits : leb (length (p.partial ++ bytes)) 4 ≡ true = ground arith in
    rw fits
      (holds (record { bounded = ground arith; cut = append-IsCut p.partial bytes b.whole e }))

after_cut-Goes :
    (p : Parser) (bytes : List ℕ) (plain valid : ℕ)
    → IsBounded p
    → 0 < plain
    → plain ≤ length bytes
    → (plain ≡ length bytes → (decode (drop valid bytes) ≡ incomplete) × (length bytes - valid < 4))
    → Holds (Goes 1 (length bytes)) (after_cut p bytes plain valid)
unfolding after_cut
after_cut-Goes p bytes plain valid b h k cut = elim (Bool-cases (ltb plain (length bytes))) [
  | inl more ↦ rw more (
      holds (
        IsBounded-Goes 1 _ (plain + 1) (start_escape-IsBounded (act-IsBounded b _)) (omega arith)
          (ground arith)))
  | inr done ↦
      let whole = cut (ground arith) in
      let left = length-drop valid bytes in
      rw done (
        Holds-bind (keep_partial-Waits p (drop valid bytes) b whole.0 (omega arith)) (λ q w.
          holds (record {
            reads = omega arith;
            within_bytes = omega arith;
            waits = w;
            goes_on = inr refl;
          })))
]

pub take_all : (n : ℕ) (bytes : List ℕ) → n ≡ length bytes → take n bytes ≡ bytes
take_all zero [] e = refl
take_all zero (b ∷ bytes) e = absurd (omega arith)
take_all (suc n) [] e = refl
take_all (suc n) (b ∷ bytes) e = ap (λ xs. b ∷ xs) (take_all n bytes (omega arith))

error-Goes :
    (error : Utf8Error) (p : Parser) (bytes : List ℕ) (plain valid : ℕ)
    → IsBounded p
    → 0 < plain
    → plain ≤ length bytes
    → valid ≤ plain
    → Leaves error (plain - valid)
    → CutsOff error (drop valid (take plain bytes))
    → Holds (Goes 1 (length bytes)) (after_error error p bytes plain valid)
unfolding after_error
error-Goes no_error p bytes plain valid b h k i l c =
    holds (after_text-Goes p plain (length bytes) b h k)
error-Goes (bad_sequence len) p bytes plain valid b h k i l c =
    after_bad-Goes p bytes valid len b l.0 (omega arith)
error-Goes cut_off p bytes plain valid b h k i l c =
    after_cut-Goes p bytes plain valid b h k
      (λ e. (sym (ap (λ xs. decode (drop valid xs)) (take_all plain bytes e)) ∙ c, omega arith))

after_error-Goes :
    (p : Parser) (bytes : List ℕ) (plain : ℕ) (v : Validated)
    → IsBounded p
    → 0 < plain
    → plain ≤ length bytes
    → Reads (take plain bytes) v
    → Holds (Goes 1 (length bytes)) (after_error v.error p bytes plain v.valid_up_to)
after_error-Goes p bytes plain v b h k r =
    let size = length-take plain bytes in
    let inside = r.inside in
    error-Goes v.error p bytes plain v.valid_up_to b h k (omega arith)
      (Leaves-same v.error _ _ (omega arith) r.leaves) r.cuts

pub advance_ground-Goes :
    (p : Parser) (byte : ℕ) (bytes : List ℕ)
    → IsBounded p
    → Holds (Goes 1 (suc (length bytes))) (advance_ground p (byte ∷ bytes))
unfolding advance_ground
advance_ground-Goes p byte bytes b =
    let plain = plain_length (byte ∷ bytes) in
    let v = from_utf8 (take plain (byte ∷ bytes)) in
    elim (Bool-cases (plain == 0)) [
      | inl none_plain ↦
          rw none_plain
            (holds (IsBounded-Goes 1 _ 1 (start_escape-IsBounded b) (omega arith) (omega arith)))
      | inr some_plain ↦ rw some_plain (
          after_error-Goes (ground_dispatch p v.text) (byte ∷ bytes) plain v
            (ground_dispatch-IsBounded p v.text b) (ground arith) (plain_length-le (byte ∷ bytes))
            (from_utf8-Reads _))
    ]
