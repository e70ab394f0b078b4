-- ===== src/AnsiParser/Feed.antt =====
-- A character that the input cut off, and the whole of `advance` of src/terminal/ansi_parser.rs.
use stitch_pty.Prelude.{
  ℕ, zero, suc, ◌+◌, ◌-◌, ◌<◌, ◌≤◌, min, ◌≡◌, ◌≢◌, refl, ap, true, false, ◌==◌, ltb, leb, some,
  ◌>>=◌, List, [], ◌∷◌, ◌++◌, length, take, drop, arith, Text, Bool-cases, ◌⊎◌, inl, inr, Holds,
  holds, Holds-bind, length-append, length-take, length-drop,
}
use stitch_pty.Utf8.{
  Utf8Error, no_error, bad_sequence, cut_off, Decoded, incomplete, decode, from_utf8, replacement,
  len_utf8,
}
use stitch_pty.Utf8.Scan.{GoesBeyond, decode-GoesBeyond, Reads, from_utf8-Reads}
use stitch_pty.AnsiParser.{
  State, csi_entry, csi_ignore, csi_intermediate, csi_param, dcs_entry, dcs_ignore,
  dcs_intermediate, dcs_param, dcs_passthrough, escape, escape_intermediate, osc_string,
  sos_pm_apc_string, Parser,
}
use stitch_pty.AnsiParser.Advance.{change_state}
use stitch_pty.AnsiParser.Ground.{
  max_partial, forget_partial, checked_sub, take_first, partial_error, after_partial, Step,
  advance_partial_utf8, step_at, skip, run, advance,
}
use stitch_pty.AnsiParser.Bounds.{IsBounded}
use stitch_pty.AnsiParser.Safety.{change_state-IsBounded}
use stitch_pty.AnsiParser.Rounds.{
  IsCut, without_partial, Waits, Goes, IsBounded-Goes, Waits-IsBounded, advance_ground-Goes,
}

Beyond : (n : ℕ) (d e : Decoded) → d ≡ e → GoesBeyond n d → GoesBeyond n e
Beyond n d e p g = rw⁻¹ p g

module _ (p : Parser) (b : IsBounded (without_partial p)) where
  forget_partial-IsBounded : (c : ℕ) → IsBounded (forget_partial p c)
  forget_partial-IsBounded c = ground arith

  forgets-Goes :
      (c old read size : ℕ)
      → old ≤ read
      → read - old ≤ size
      → Holds (Goes 0 size) (checked_sub read old >>= (λ used. some (forget_partial p c, used)))
  forgets-Goes c old read size h k =
      let inside : leb old read ≡ true = ground arith in
      rw inside
        (holds (IsBounded-Goes 0 size (read - old) (forget_partial-IsBounded c) (omega arith) k))

  -- `old` bytes were there, and `buffer` has them and some of the `size` bytes that follow.
  after_partial-Goes :
      (buffer : List ℕ) (text : Text) (valid : ℕ) (error : Utf8Error) (old copied size : ℕ)
      → Reads buffer (record { text = text; valid_up_to = valid; error = error })
      → 0 < old
      → length buffer ≡ old + copied
      → copied ≤ size
      → GoesBeyond old (decode buffer)
      → (length buffer < 4 → copied ≡ size)
      → (decode buffer ≡ incomplete → IsCut p.partial)
      → Holds
          (Goes 0 size)
          (after_partial (record { text = text; valid_up_to = valid; error = error }) p old copied)
  unfolding after_partial take_first partial_error
  after_partial-Goes buffer [] valid no_error old copied size r h l k g w e =
      absurd (omega (arith, ap length r.heads))
  after_partial-Goes buffer (c ∷ text) valid no_error old copied size r h l k g w e =
      let beyond = Beyond old _ _ r.heads g in
      forgets-Goes c old (len_utf8 c) size (omega arith) (omega (arith, r.inside, r.takes))
  after_partial-Goes buffer [] valid (bad_sequence len) old copied size r h l k g w e =
      let none_valid : ltb 0 valid ≡ false = ground (arith, r.takes) in
      let beyond = Beyond old _ _ r.heads g in
      rw none_valid
        (forgets-Goes replacement old len size beyond (omega (arith, r.leaves, r.takes)))
  after_partial-Goes buffer (c ∷ text) valid (bad_sequence len) old copied size r h l k g w e =
      let beyond = Beyond old _ _ r.heads g in
      let some_valid : ltb 0 valid ≡ true = ground (arith, r.takes) in
      rw some_valid
        (forgets-Goes c old valid size (omega (arith, r.takes)) (omega (arith, r.inside)))
  after_partial-Goes buffer [] valid cut_off old copied size r h l k g w e =
      let none_valid : ltb 0 valid ≡ false = ground (arith, r.takes) in
      let all_read = w (omega (arith, r.takes, r.leaves)) in
      rw none_valid (
        holds (record {
          reads = omega arith;
          within_bytes = k;
          waits = record { bounded = b; cut = e r.heads };
          goes_on = inr all_read;
        }))
  after_partial-Goes buffer (c ∷ text) valid cut_off old copied size r h l k g w e =
      let beyond = Beyond old _ _ r.heads g in
      let some_valid : ltb 0 valid ≡ true = ground (arith, r.takes) in
      rw some_valid
        (forgets-Goes c old valid size (omega (arith, r.takes)) (omega (arith, r.inside)))

resume-Goes :
    (p : Parser) (partial more : List ℕ)
    → IsBounded (without_partial p)
    → IsCut partial
    → length partial ≢ 0
    → Holds (Goes 0 (length more)) (
        let old = length partial in
        let copied = min (length more) (max_partial - old) in
        let buffer = partial ++ take copied more in
        after_partial (from_utf8 buffer) (record p { partial = buffer }) old copied)
resume-Goes p [] more b e h = absurd (h refl)
resume-Goes p (byte ∷ bytes) more b e h =
    let old = suc (length bytes) in
    let copied = min (length more) (max_partial - old) in
    let buffer = byte ∷ bytes ++ take copied more in
    let v = from_utf8 buffer in
    let size = length-append bytes (take copied more) in
    let taken = length-take copied more in
    after_partial-Goes (record p { partial = buffer }) b buffer v.text v.valid_up_to v.error old
      copied (length more) (from_utf8-Reads buffer) (omega arith) (omega arith) (omega arith)
      (decode-GoesBeyond byte bytes (take copied more) e) (λ h. omega arith) (λ e. e)

advance_partial_utf8-Goes :
    (p : Parser) (bytes : List ℕ)
    → Waits p
    → length p.partial ≢ 0
    → Holds (Goes 0 (length bytes)) (advance_partial_utf8 p bytes)
unfolding advance_partial_utf8
advance_partial_utf8-Goes p bytes w h = resume-Goes p p.partial bytes w.bounded w.cut h

other-Goes :
    (p : Parser) (byte size : ℕ)
    → IsBounded p
    → p.state ≢ State.ground
    → Holds (Goes 1 (suc size)) (change_state p byte >>= (λ q. some (q, 1)))
other-Goes p byte size b h =
    Holds-bind (change_state-IsBounded b byte h)
      (λ q c. holds (IsBounded-Goes 1 (suc size) 1 c (omega arith) (omega arith)))

step_at-Goes :
    (state : State) (p : Parser) (byte : ℕ) (bytes : List ℕ)
    → state ≡ p.state
    → IsBounded p
    → Holds (Goes 1 (suc (length bytes))) (step_at state p byte bytes)
unfolding step_at
step_at-Goes State.ground p byte bytes e b = advance_ground-Goes p byte bytes b
step_at-Goes csi_entry p byte bytes e b = other-Goes p byte (length bytes) b (λ g. cc)
step_at-Goes csi_ignore p byte bytes e b = other-Goes p byte (length bytes) b (λ g. cc)
step_at-Goes csi_intermediate p byte bytes e b = other-Goes p byte (length bytes) b (λ g. cc)
step_at-Goes csi_param p byte bytes e b = other-Goes p byte (length bytes) b (λ g. cc)
step_at-Goes dcs_entry p byte bytes e b = other-Goes p byte (length bytes) b (λ g. cc)
step_at-Goes dcs_ignore p byte bytes e b = other-Goes p byte (length bytes) b (λ g. cc)
step_at-Goes dcs_intermediate p byte bytes e b = other-Goes p byte (length bytes) b (λ g. cc)
step_at-Goes dcs_param p byte bytes e b = other-Goes p byte (length bytes) b (λ g. cc)
step_at-Goes dcs_passthrough p byte bytes e b = other-Goes p byte (length bytes) b (λ g. cc)
step_at-Goes escape p byte bytes e b = other-Goes p byte (length bytes) b (λ g. cc)
step_at-Goes escape_intermediate p byte bytes e b = other-Goes p byte (length bytes) b (λ g. cc)
step_at-Goes osc_string p byte bytes e b = other-Goes p byte (length bytes) b (λ g. cc)
step_at-Goes sos_pm_apc_string p byte bytes e b = other-Goes p byte (length bytes) b (λ g. cc)

run-Waits :
    (n : ℕ) (p : Parser) (bytes : List ℕ)
    → length bytes ≤ n
    → Waits p
    → (p.partial ≡ []) ⊎ (length bytes ≡ 0)
    → Holds Waits (run n p bytes)
unfolding run skip
run-Waits n p [] h w g = holds w
run-Waits zero p (b ∷ bytes) h w g = absurd (omega arith)
run-Waits (suc n) p (b ∷ bytes) h w (inr e) = absurd (omega arith)
run-Waits (suc n) p (b ∷ bytes) h w (inl e) =
    Holds-bind (step_at-Goes p.state p b bytes refl (Waits-IsBounded w e)) (λ s g.
      let inside : leb s.1 (suc (length bytes)) ≡ true = ground (arith, g.within_bytes) in
      let left = length-drop s.1 (b ∷ bytes) in
      rw inside (
        run-Waits n s.0 (drop s.1 (b ∷ bytes)) (omega (arith, g.reads)) g.waits
          (elim g.goes_on [ inl e ↦ inl e | inr e ↦ inr (omega arith) ])))

-- Behind the bytes that a cut-off character took, the loop reads the others.
rest-Waits :
    (s : Step) (bytes : List ℕ)
    → Goes 0 (length bytes) s
    → Holds Waits (skip s.1 bytes >>= (λ rest. run (length rest) s.0 rest))
unfolding skip
rest-Waits s bytes g =
    let inside : leb s.1 (length bytes) ≡ true = ground (arith, g.within_bytes) in
    let left = length-drop s.1 bytes in
    rw inside (
      run-Waits (length (drop s.1 bytes)) s.0 (drop s.1 bytes) (omega arith) g.waits
        (elim g.goes_on [ inl e ↦ inl e | inr e ↦ inr (omega arith) ]))

length_nil : (xs : List ℕ) → length xs ≡ 0 → xs ≡ []
length_nil [] e = refl
length_nil (x ∷ xs) e = absurd (omega arith)

-- Fed any bytes, with a character of the last ones cut off or not, the parser reads them all and
-- does not panic: the rounds of the loop are enough, and no index, slice or subtraction is out of
-- range. What it collects stays within the sizes of its arrays, and what it keeps of a character
-- is the beginning of one.
pub advance-Waits : {p : Parser} → Waits p → (bytes : List ℕ) → Holds Waits (advance p bytes)
unfolding advance
advance-Waits {p = p} w bytes = elim (Bool-cases (length p.partial == 0)) [
  | inl e ↦ rw e (
      rest-Waits (p, 0) bytes
        (record {
          reads = omega arith;
          within_bytes = omega arith;
          waits = w;
          goes_on = inl (length_nil p.partial (ground arith));
        }))
  | inr e ↦ rw e (
      Holds-bind (advance_partial_utf8-Goes p bytes w (ground arith)) (λ s g. rest-Waits s bytes g))
]
