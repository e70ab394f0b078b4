-- ===== src/Platform/Tests.antt =====
-- The theorems and operations of src/platform.rs at concrete values.
use stitch_pty.Prelude.{◌≡◌, refl, ◌↔◌, true, false, some, none, codes, arith}
use stitch_pty.Prelude.Ints.{pos, negsuc, to_u32}
use stitch_pty.Errors.{fork_failed}
use stitch_pty.Screen.Reports.{decimal, digits}
use stitch_pty.Platform.{
  ProcessExit, success, exit_code, display_status, display_failure, to_exit_status, status_of,
  with_exit_code, with_signal, signed_decimal, validate_cwd, found,
}
use stitch_pty.Platform.Exits.{IsClean, to_exit_status-IsClean}

abbrev ended : ProcessExit
ended = record { pid = 7; exit_code = some (negsuc 0); signal = none }

abbrev killed : ProcessExit
killed = record { pid = 7; exit_code = none; signal = some (pos 9) }

ended_text : display_status (to_exit_status ended) ≡ codes "Exited with code 4294967295"
unfolding display_status display_failure to_exit_status status_of with_exit_code to_u32 success
    decimal digits
ended_text = refl

killed_text : display_status (to_exit_status killed) ≡ codes "Terminated by SIG9"
unfolding display_status display_failure to_exit_status status_of with_signal signed_decimal success
    decimal digits
killed_text = refl

no_directory :
    validate_cwd (λ p. found false) (λ p. p) (codes "/a")
    ≡ some (fork_failed (codes "cwd is not a directory: /a"))
unfolding validate_cwd
no_directory = refl

to_exit_status-IsClean_example :
    ((success (to_exit_status ended) ≡ true) ↔ IsClean (some (negsuc 0)) none)
    × ((exit_code (to_exit_status ended) ≡ 0) ↔ IsClean (some (negsuc 0)) none)
    × ((display_status (to_exit_status ended) ≡ codes "Success") ↔ IsClean (some (negsuc 0)) none)
to_exit_status-IsClean_example = to_exit_status-IsClean ended (omega arith)
