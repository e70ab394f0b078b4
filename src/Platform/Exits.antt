-- ===== src/Platform/Exits.antt =====
-- How a process ended, src/platform.rs.
use stitch_pty.Prelude.{
  ◌≡◌, ◌<◌, ◌^◌, ◌↔◌, refl, inl, inr, Option-cases, true, Bool-cases, Option, none, some, codes,
  arith,
}
use stitch_pty.Prelude.Ints.{ℤ, pos, negsuc, to_u32}
use stitch_pty.Platform.{
  ExitStatus, ProcessExit, success, exit_code, display_status, display_failure, status_of,
  to_exit_status, with_exit_code, with_signal,
}

-- The range of an i32.
abbrev pub IsI32 : Option ℤ → Type 0
IsI32 none = Unit
IsI32 (some (pos n)) = n < 2 ^ 31
IsI32 (some (negsuc n)) = n < 2 ^ 31

abbrev pub IsClean : Option ℤ → Option ℤ → Type 0
IsClean code signal = (code ≡ some (pos 0)) × (signal ≡ none)

-- A text that tells of a failure is not `Success`.
display_failure-apart : (status : ExitStatus) → ¬ (display_failure status ≡ codes "Success")
unfolding display_failure
display_failure-apart status = elim (Option-cases status.signal) [
  | inl e ↦ rw e (λ p. ground arith)
  | inr (sig, e) ↦ rw e (λ p. ground arith)
]

display_status-success :
    (status : ExitStatus) → (display_status status ≡ codes "Success") ↔ (success status ≡ true)
unfolding display_status
display_status-success status = elim (Bool-cases (success status)) [
  | inl e ↦ rw e ((λ p. refl), (λ p. refl))
  | inr e ↦ rw e ((λ p. absurd (display_failure-apart status p)), (λ p. cc))
]

status_of-success :
    (code signal : Option ℤ)
    → IsI32 code
    → (success (status_of code signal) ≡ true) ↔ IsClean code signal
unfolding status_of success with_exit_code with_signal to_u32
status_of-success (some (pos n)) none h = ground arith
status_of-success (some (negsuc n)) none h = ground arith
status_of-success none none h = ground arith
status_of-success none (some s) h = ground arith
status_of-success (some c) (some s) h = ground arith

status_of-zero :
    (code signal : Option ℤ)
    → IsI32 code
    → (exit_code (status_of code signal) ≡ 0) ↔ IsClean code signal
unfolding status_of exit_code with_exit_code with_signal to_u32
status_of-zero (some (pos n)) none h = ground arith
status_of-zero (some (negsuc n)) none h = ground arith
status_of-zero none none h = ground arith
status_of-zero none (some s) h = ground arith
status_of-zero (some c) (some s) h = ground arith

-- A process that ended with an exit code in the range of an i32, or none, is a success exactly if
-- its exit code is 0 and no signal ended it; so is its status' code 0, and its text `Success`.
pub to_exit_status-IsClean :
    (e : ProcessExit)
    → IsI32 e.exit_code
    → ((success (to_exit_status e) ≡ true) ↔ IsClean e.exit_code e.signal)
      × ((exit_code (to_exit_status e) ≡ 0) ↔ IsClean e.exit_code e.signal)
      × ((display_status (to_exit_status e) ≡ codes "Success") ↔ IsClean e.exit_code e.signal)
unfolding to_exit_status
to_exit_status-IsClean e h =
    let clean = status_of-success e.exit_code e.signal h in
    let shown = display_status-success (status_of e.exit_code e.signal) in
    (
      clean,
      status_of-zero e.exit_code e.signal h,
      ((λ p. clean.0 (shown.0 p)), (λ c. shown.1 (clean.1 c))),
    )
