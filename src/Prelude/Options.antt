-- ===== src/Prelude/Options.antt =====
-- Fallible steps. `none` is a panic of the program; `Holds P` says that a step does not panic
-- and that its result has the property `P`.
use mathlib.Core.Path.{◌≡◌, refl}
use mathlib.Core.Bool.{Bool, true, false}
use stitch_pty.Prelude.Tests.{if◌then◌else◌}
use mathlib.Core.Option.{Option, none, some}

infixl 5 ◌>>=◌
abbrev pub ◌>>=◌ {ℓ κ} : {A : Type ℓ} {B : Type κ} → Option A → (A → Option B) → Option B
none >>= f = none
some a >>= f = f a

abbrev pub unwrap_or {ℓ} : {A : Type ℓ} → Option A → A → A
unwrap_or none d = d
unwrap_or (some a) d = a

pub data Holds {ℓ κ} {A : Type ℓ} (P : A → Type κ) : Option A → Type (ℓ ⊔ κ) where
  holds : {a : A} → P a → Holds P (some a)

-- The rule for a sequence of steps.
pub Holds-bind {ℓ κ} :
    {A B : Type ℓ} {P : A → Type κ} {Q : B → Type κ} {o : Option A} {f : A → Option B}
    → Holds P o
    → ((a : A) → P a → Holds Q (f a))
    → Holds Q (o >>= f)
Holds-bind (holds {a = a} p) k = k a p

pub Holds-map {ℓ κ} :
    {A : Type ℓ} {P Q : A → Type κ} {o : Option A} → Holds P o → ((a : A) → P a → Q a) → Holds Q o
Holds-map (holds {a = a} p) k = holds (k a p)

-- Both branches of a test.
pub Holds-if {ℓ κ} :
    {A : Type ℓ} {P : A → Type κ} {o p : Option A} (b : Bool)
    → Holds P o
    → Holds P p
    → Holds P (if b then o else p)
Holds-if true h k = h
Holds-if false h k = k

-- A step that does not panic has a result.
pub Holds-eq {ℓ κ} :
    {A : Type ℓ} {P : A → Type κ} {o : Option A} → Holds P o → (a : A) × (o ≡ some a) × P a
Holds-eq (holds {a = a} p) = (a, refl, p)
