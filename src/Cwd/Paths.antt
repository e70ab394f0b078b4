-- ===== src/Cwd/Paths.antt =====
-- The paths that src/terminal/cwd.rs answers.
use stitch_pty.Prelude.{
  ℕ, ◌≡◌, ◌≢◌, refl, Bool, true, false, if◌then◌else◌, Option, none, some, ◌>>=◌, List, [], ◌∷◌,
  arith, Text, Bool-cases, inl, inr,
}
use stitch_pty.Utf8.{from_utf8, encode, encode_text}
use stitch_pty.Cwd.{
  percent_decode, valid_text, has_nul, checked, has_scheme, from_slash, is_drive, without_slash,
  parse_path, parse_osc7, parse_osc9_9,
}

-- What an answer is, if there is one.
abbrev pub Every {ℓ κ} : {A : Type ℓ} → (A → Type κ) → Option A → Type κ
Every P none = Unit
Every P (some a) = P a

Every-bind {ℓ κ} :
    {A B : Type ℓ} (P : B → Type κ) (o : Option A) (f : A → Option B)
    → ((a : A) → Every P (f a))
    → Every P (o >>= f)
Every-bind P none f h = tt
Every-bind P (some a) f h = h a

Every-if {ℓ κ} :
    {A : Type ℓ} (P : A → Type κ) (b : Bool) (o p : Option A)
    → Every P o
    → Every P p
    → Every P (if b then o else p)
Every-if P true o p h k = h
Every-if P false o p h k = k

abbrev pub IsPath : Text → Type 0
IsPath path = (path ≢ []) × (has_nul path ≡ false)

checked-IsPath : (text : Text) → Every IsPath (checked text)
unfolding checked
checked-IsPath [] = tt
checked-IsPath (c ∷ text) = elim (Bool-cases (has_nul (c ∷ text))) [
  | inl nul ↦ rw nul tt
  | inr clean ↦ rw clean ((λ e. cc), clean)
]

has_nul-behind : (c : ℕ) (text : Text) → has_nul (c ∷ text) ≡ false → has_nul text ≡ false
unfolding has_nul
has_nul-behind c text e = ground arith

-- One character is no drive.
is_drive-encode : (c : ℕ) → is_drive (encode_text (c ∷ [])) ≡ false
unfolding is_drive encode_text encode
is_drive-encode c = ground arith

without_slash-IsPath : (path : Text) → IsPath path → IsPath (without_slash path)
unfolding without_slash
without_slash-IsPath [] h = absurd (h.0 refl)
without_slash-IsPath (c ∷ []) h = rw (is_drive-encode c) h
without_slash-IsPath (c ∷ d ∷ path) h = elim (Bool-cases (is_drive (encode_text (c ∷ d ∷ path)))) [
  | inl drive ↦ rw drive ((λ e. cc), has_nul-behind c (d ∷ path) h.1)
  | inr other ↦ rw other h
]

Every-IsPath :
    (text : Text) (o : Option Text)
    → ((path : Text) → IsPath path → Every IsPath (some (without_slash path)))
    → Every IsPath o
    → Every IsPath (o >>= (λ path. some (without_slash path)))
Every-IsPath text none k h = tt
Every-IsPath text (some path) k h = k path h

parse_path-IsPath : (rest : List ℕ) → Every IsPath (parse_path rest)
unfolding parse_path
parse_path-IsPath rest = Every-bind IsPath (from_slash rest) _ (λ path_enc.
    Every-bind IsPath (percent_decode path_enc) _ (λ decoded.
      Every-IsPath decoded (checked decoded) without_slash-IsPath (checked-IsPath decoded)))

-- Whatever bytes are reported, a path that is read of them is not empty and has no NUL.
pub parse_osc7-IsPath :
    (payload : List ℕ) → Every IsPath (parse_osc7 payload) × Every IsPath (parse_osc9_9 payload)
unfolding parse_osc7 parse_osc9_9
parse_osc7-IsPath payload =
    (Every-if IsPath (has_scheme payload) _ none (parse_path-IsPath _) tt, raw payload)
  where
    raw : (payload : List ℕ) → Every IsPath (parse_osc9_9 payload)
    raw [] = tt
    raw (b ∷ payload) =
        Every-bind IsPath (valid_text (from_utf8 (b ∷ payload))) checked checked-IsPath
