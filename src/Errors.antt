-- ===== src/Errors.antt =====
-- The errors of src/errors.rs and the Python exceptions that they become. An `io::Error` is what
-- the code reads of it: the number of the system's error and the text. `debug_duration` stands for
-- the `{:?}` of a duration, whose nanoseconds are a number here, and `eio` for libc::EIO.
pub mod Ends
mod Tests
use stitch_pty.Prelude.{
  ℕ, Bool, true, false, ◌||◌, if◌then◌else◌, Option, none, some, ◌++◌, Text, codes,
}
use stitch_pty.Prelude.Ints.{ℤ, pos, same}
use stitch_pty.Screen.Reports.{decimal}

pub data PtyErrorKind : Type 0 where
  open_failed operation_failed fork_failed : Text → PtyErrorKind
  process_not_running invalid_handle : PtyErrorKind
  winsize_failed signal_error async_io : Text → PtyErrorKind
  buffer_overflow : ℕ → ℕ → PtyErrorKind
  closed eof : PtyErrorKind
  timeout : ℕ → PtyErrorKind
  platform_not_supported windows_error : Text → PtyErrorKind

-- The texts of the `error` attributes.
unfoldable pub error_text : (ℕ → Text) → PtyErrorKind → Text
error_text debug_duration (open_failed e) = codes "PTY open failed: " ++ e
error_text debug_duration (operation_failed e) = codes "PTY operation failed: " ++ e
error_text debug_duration (fork_failed e) = codes "Process spawn failed: " ++ e
error_text debug_duration process_not_running = codes "Process not running"
error_text debug_duration invalid_handle = codes "Invalid handle/FD"
error_text debug_duration (winsize_failed e) = codes "Window size operation failed: " ++ e
error_text debug_duration (signal_error e) = codes "Signal handling error: " ++ e
error_text debug_duration (async_io e) = codes "Async I/O error: " ++ e
error_text debug_duration (buffer_overflow requested most) =
    codes "Buffer overflow: requested " ++ decimal requested ++ codes ", max " ++ decimal most
error_text debug_duration closed = codes "PTY is closed"
error_text debug_duration eof = codes "PTY EOF: child side closed"
error_text debug_duration (timeout after) = codes "Timeout after " ++ debug_duration after
error_text debug_duration (platform_not_supported e) = codes "Platform not supported: " ++ e
error_text debug_duration (windows_error e) = codes "Windows API error: " ++ e

-- The classes of the exceptions.
pub data PyClass : Type 0 where
  pty_error process_error io_error py_os_error py_io_error : PyClass

-- An exception: its class, its errno where it has one, its text and its attribute `kind`.
pub record PyErr : Type 0 where
  pub class : PyClass
  pub errno : Option ℕ
  pub text : Text
  pub kind : Option Text

abbrev pub new_err : PyClass → Text → PyErr
new_err class text = record { class = class; errno = none; text = text; kind = none }

-- The match of `From<PtyErrorKind> for PyErr`, whose arms take the text of the error.
unfoldable pub py_err_of : PtyErrorKind → Text → PyErr
py_err_of (open_failed e) text = new_err pty_error text
py_err_of (operation_failed e) text = new_err pty_error text
py_err_of closed text = new_err pty_error text
py_err_of (platform_not_supported e) text = new_err pty_error text
py_err_of (fork_failed e) text = new_err process_error text
py_err_of process_not_running text = new_err process_error text
py_err_of invalid_handle text = new_err io_error text
py_err_of (winsize_failed e) text = new_err io_error text
py_err_of (buffer_overflow requested most) text = new_err io_error text
py_err_of eof text = record {
  class = py_os_error;
  errno = some 0;
  text = text;
  kind = some (codes "eof");
}
py_err_of (timeout after) text = new_err pty_error text
py_err_of (signal_error e) text = new_err py_os_error text
py_err_of (windows_error e) text = new_err py_os_error text
py_err_of (async_io e) text = new_err py_io_error text

unfoldable pub to_py_err : (ℕ → Text) → PtyErrorKind → PyErr
to_py_err debug_duration err = py_err_of err (error_text debug_duration err)

pub record IoError : Type 0 where
  pub raw_os_error : Option ℤ
  pub message : Text

-- `From<std::io::Error> for PtyErrorKind`.
abbrev pub from_io_error : IoError → PtyErrorKind
from_io_error err = async_io err.message

-- The system that the code is built for.
pub data Target : Type 0 where
  unix windows : Target

-- The tests of the number of the error, if it has one, by the system.
unfoldable pub is_eof_number : Target → ℤ → Option ℤ → Bool
is_eof_number target eio none = false
is_eof_number unix eio (some number) = same number eio
is_eof_number windows eio (some number) = same number (pos 109) || same number (pos 232)

unfoldable pub is_eof_error : Target → ℤ → IoError → Bool
is_eof_error target eio err = is_eof_number target eio err.raw_os_error

-- `PtyErrorKind::from_read_error`.
unfoldable pub from_read_error : Target → ℤ → IoError → PtyErrorKind
from_read_error target eio err = if is_eof_error target eio err then eof else async_io err.message
