-- ===== src/Errors/Ends.antt =====
-- Which read errors tell Python that the child's side is closed, src/errors.rs.
use stitch_pty.Prelude.{
  ℕ, ◌≡◌, ◌⊎◌, ◌↔◌, refl, Bool, true, false, ◌++◌, if◌then◌else◌, Option, none, some, Text, codes,
  arith,
}
use stitch_pty.Prelude.Ints.{ℤ, pos, negsuc, same}
use stitch_pty.Errors.{
  async_io, eof, py_err_of, to_py_err, error_text, IoError, Target, unix, windows, new_err,
  py_io_error, is_eof_number, is_eof_error, from_read_error,
}

-- The numbers that mean it on each system.
abbrev pub IsGone : Target → ℤ → Option ℤ → Type 0
IsGone unix eio number = number ≡ some eio
IsGone windows eio number = (number ≡ some (pos 109)) ⊎ (number ≡ some (pos 232))

same_iff : (i j : ℤ) → (same i j ≡ true) ↔ (i ≡ j)
unfolding same
same_iff (pos m) (pos n) = ground arith
same_iff (negsuc m) (negsuc n) = ground arith
same_iff (pos m) (negsuc n) = ground arith
same_iff (negsuc m) (pos n) = ground arith

is_eof_number_iff :
    (target : Target) (eio : ℤ) (raw : Option ℤ)
    → (is_eof_number target eio raw ≡ true) ↔ IsGone target eio raw
unfolding is_eof_number
is_eof_number_iff unix eio none = ground arith
is_eof_number_iff windows eio none = ground arith
is_eof_number_iff unix eio (some number) = ground (arith, same_iff number eio)
is_eof_number_iff windows eio (some number) =
    ground (arith, same_iff number (pos 109), same_iff number (pos 232))

-- The two ends of a read error, by what the test of its number stands for.
surfaces :
    (debug_duration : ℕ → Text) (b : Bool) (message : Text) (P : Type 0)
    → (b ≡ true) ↔ P
    → let err = to_py_err debug_duration (if b then eof else async_io message) in
      ((err.kind ≡ some (codes "eof")) ↔ P)
      × (¬ P → err ≡ new_err py_io_error (codes "Async I/O error: " ++ message))
unfolding to_py_err py_err_of error_text
surfaces debug_duration true message P gone =
    (((λ p. gone.0 refl), (λ p. refl)), (λ n. absurd (n (gone.0 refl))))
surfaces debug_duration false message P gone =
    (((λ p. ground arith), (λ p. ground (arith, gone.1 p))), (λ n. refl))

-- A read error becomes the exception with the attribute `kind` of the end of the child's side
-- exactly if its number is one that means it on that system, and otherwise an OSError of Python
-- with the error's text.
pub from_read_error-IsGone :
    (debug_duration : ℕ → Text) (target : Target) (eio : ℤ) (err : IoError)
    → (((to_py_err debug_duration (from_read_error target eio err)).kind ≡ some (codes "eof"))
        ↔ IsGone target eio err.raw_os_error)
      × (¬ IsGone target eio err.raw_os_error
          → to_py_err debug_duration (from_read_error target eio err)
            ≡ new_err py_io_error (codes "Async I/O error: " ++ err.message))
unfolding from_read_error is_eof_error
from_read_error-IsGone debug_duration target eio err =
    surfaces debug_duration (is_eof_number target eio err.raw_os_error) err.message
      (IsGone target eio err.raw_os_error) (is_eof_number_iff target eio err.raw_os_error)
