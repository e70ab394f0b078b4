-- ===== src/Errors/Tests.antt =====
-- The theorem on read errors and the texts of src/errors.rs at concrete values.
use stitch_pty.Prelude.{◌≡◌, refl, ◌↔◌, some, [], codes, ◌++◌}
use stitch_pty.Prelude.Ints.{pos}
use stitch_pty.Screen.Reports.{decimal, digits}
use stitch_pty.Errors.{
  buffer_overflow, error_text, to_py_err, py_err_of, new_err, py_io_error, process_error, IoError,
  windows, from_read_error, process_not_running,
}
use stitch_pty.Errors.Ends.{IsGone, from_read_error-IsGone}

abbrev broken : IoError
broken = record { raw_os_error = some (pos 232); message = codes "gone" }

overflow_text :
    error_text (λ d. []) (buffer_overflow 70000 65536)
    ≡ codes "Buffer overflow: requested 70000, max 65536"
unfolding error_text decimal digits
overflow_text = refl

not_running :
    to_py_err (λ d. []) process_not_running ≡ new_err process_error (codes "Process not running")
unfolding to_py_err py_err_of error_text
not_running = refl

from_read_error-IsGone_example :
    (((to_py_err (λ d. []) (from_read_error windows (pos 5) broken)).kind ≡ some (codes "eof"))
      ↔ IsGone windows (pos 5) (some (pos 232)))
    × (¬ IsGone windows (pos 5) (some (pos 232))
        → to_py_err (λ d. []) (from_read_error windows (pos 5) broken)
          ≡ new_err py_io_error (codes "Async I/O error: " ++ codes "gone"))
from_read_error-IsGone_example = from_read_error-IsGone (λ d. []) windows (pos 5) broken
