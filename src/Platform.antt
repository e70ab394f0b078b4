-- ===== src/Platform.antt =====
-- The part of src/platform.rs that reads no system call: how a process ended, and the check of a
-- working directory. `metadata` stands for std::fs::metadata, `debug` for the `{:?}` of a string.
pub mod Exits
mod Tests
use stitch_pty.Prelude.{
  ℕ, ◌+◌, Bool, true, false, ◌==◌, if◌then◌else◌, Option, none, some, ◌++◌, Text, codes,
}
use stitch_pty.Prelude.Ints.{ℤ, pos, negsuc, to_u32}
use stitch_pty.Screen.Reports.{decimal}
use stitch_pty.Errors.{PtyErrorKind, fork_failed}

pub record ExitStatus : Type 0 where
  pub code : ℕ
  pub signal : Option Text

unfoldable pub with_exit_code : ℕ → ExitStatus
with_exit_code code = record { code = code; signal = none }

unfoldable pub with_signal : Text → ExitStatus
with_signal signal = record { code = 1; signal = some signal }

unfoldable pub success : ExitStatus → Bool
success status = elim status.signal [ none ↦ status.code == 0 | some signal ↦ false ]

unfoldable pub exit_code : ExitStatus → ℕ
exit_code status = status.code

-- The text of a status that is no success.
unfoldable pub display_failure : ExitStatus → Text
display_failure status = elim status.signal [
  | some signal ↦ codes "Terminated by " ++ signal
  | none ↦ codes "Exited with code " ++ decimal status.code
]

-- The `Display` of an `ExitStatus`.
unfoldable pub display_status : ExitStatus → Text
display_status status = if success status then codes "Success" else display_failure status

pub record ProcessExit : Type 0 where
  pub pid : ℕ
  pub exit_code : Option ℤ
  pub signal : Option ℤ

-- `{}` of an i32.
unfoldable pub signed_decimal : ℤ → Text
signed_decimal (pos n) = decimal n
signed_decimal (negsuc n) = codes "-" ++ decimal (n + 1)

-- The match of `ProcessExit::to_exit_status`.
unfoldable pub status_of : Option ℤ → Option ℤ → ExitStatus
status_of (some code) none = with_exit_code (to_u32 code)
status_of none (some sig) = with_signal (codes "SIG" ++ signed_decimal sig)
status_of none none = with_exit_code 1
status_of (some code) (some sig) = with_exit_code 1

unfoldable pub to_exit_status : ProcessExit → ExitStatus
to_exit_status e = status_of e.exit_code e.signal

-- What std::fs::metadata answers: whether it is a directory, or the text of an error.
pub data Metadata : Type 0 where
  found : Bool → Metadata
  failed : Text → Metadata

-- `validate_cwd`, with `none` for `Ok(())`.
unfoldable pub validate_cwd : (Text → Metadata) → (Text → Text) → Text → Option PtyErrorKind
validate_cwd metadata debug cwd = elim (metadata cwd) [
  | found true ↦ none
  | found false ↦ some (fork_failed (codes "cwd is not a directory: " ++ debug cwd))
  | failed e ↦ some (fork_failed (codes "invalid cwd " ++ debug cwd ++ codes ": " ++ e))
]
