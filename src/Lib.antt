-- ===== src/Lib.antt =====
-- The terminal emulator of stitch-pty: a model of its screen, and the theorems about it.
--
-- The program reads the bytes that a child process writes to its terminal. src/terminal/
-- ansi_parser.rs cuts them into characters and control sequences, parser.rs hands these to a
-- screen, and src/terminal/screen.rs keeps the screen: rows of cells with a wrap flag for each row,
-- a cursor, margins, modes, tab stops, and the queues that the caller empties (events, dirty rows,
-- rows that scrolled off). src/terminal/history.rs keeps
-- the rows that scrolled off and reflows all rows to a new width, and cwd.rs reads the working
-- directory that a shell reports. This library models all of these.
--
-- The files, by the source that they model:
--   Performer           src/terminal/parser.rs: Performer, Parser::feed and Stream. Performer/Safety
--                       and Performer/Feeding are about them.
--   History             src/terminal/history.rs: HistoryScreen and its rows; in its children
--                       History/Scroll, Flatten and Split (the steps of reflow), Reflow (reflow and
--                       resize) and Stream (feed, take_events, reset). Bounds, Widths, Fit, Resizing
--                       and the files named after what they prove are about them.
--   Cwd                 src/terminal/cwd.rs: parse_osc7 and parse_osc9_9. Cwd/RoundTrip and Cwd/Paths
--                       are about them.
--   Utf8                UTF-8 as the standard library documents it, which the parsers call;
--                       Utf8/Scan and Utf8/RoundTrip say what from_utf8 answers.
--   AnsiParser          src/terminal/ansi_parser.rs: Params, Parser and its actions;
--                       AnsiParser/Advance has a function for each state and change_state,
--                       AnsiParser/Ground the ground state and advance. AnsiParser/Bounds, Safety,
--                       Recovery, Rounds, Feed and Plain are about them.
--   TerminalApi         src/terminal_api.rs: TerminalState over a screen with history.
--   Platform            src/platform.rs: ExitStatus, ProcessExit and validate_cwd; Platform/Exits is
--                       about the exits.
--   Errors              src/errors.rs: PtyErrorKind, the exceptions of Python, from_read_error;
--                       Errors/Ends is about it.
--   Winsize             src/winsize.rs: Winsize and its COORD.
--   Prelude             shared names: lists with native indices, sets, texts, fallible steps.
--   Charsets            src/terminal/charsets.rs: the line drawing table and the designations.
--   Graphics            src/terminal/graphics.rs: the names of the colours and the palette.
--   Modes               src/terminal/modes.rs: Modes and its operations; Modes/Laws on them.
--   Screen/State        src/terminal/screen.rs: Char, Cursor, Margins, Screen, Screen::new.
--   Screen/Grid         the writes of cells and rows that its loops are made of; Grid/Cells and
--                       Grid/Pages say what the loops leave.
--   Screen/Events       push_event, ring_bell, take_bell, take_events, set_title, set_cwd, ...;
--                       Events/Log on the bound of the log and on the bell.
--   Screen/Cursor       cursor movement, tab stops, margins, save_cursor and restore_cursor.
--   Screen/Scroll       scroll_up, scroll_down, linefeed, index, insert_lines, delete_lines, ...
--   Screen/Erase        the erase operations, insert_characters, delete_characters.
--   Screen/Draw         draw, draw_char.
--   Screen/Sgr          select_graphic_rendition.
--   Screen/Conform      resize, reset, conform_buffer, conform_wrapped.
--   Screen/AltScreen    enter_alt_screen, exit_alt_screen.
--   Screen/Switches     set_mode, reset_mode and the private modes.
--   Screen/Reports      the reports, the cursor style, the keyboard modes (their stack in
--                       Reports/Keyboard), the charsets in use.
--   Screen/Csi          csi_dispatch.
--   Screen/Fits         the shape of a screen, and in its children what each operation does with
--                       it: Moves, Scrolls, Lines, Feeds, Erasing, Wiping, Clearing, Aligning,
--                       Wrapping, Drawing, Typing, Sizes, Parked, Switching, Rest, Dispatch.
--   Tests, in each part                the theorems at concrete states.
--
-- How the state corresponds. A struct is a record with the source's fields, an enum a data type.
-- An operation that changes the screen is a function from the screen to the new one. Where the code
-- indexes a vector or subtracts below 0, the function has an Option as its result, and `none` is
-- the panic. Elsewhere the code's subtractions do not go below 0 on a screen of the right shape
-- (`lines - 1`, `columns - 1`, `bottom - top`), or they saturate as those of the numbers here do.
-- Sizes are usize and parameters u16 in the code; no sum here comes near the end of usize. A
-- `bitflags` value is a record of Booleans, a hash set an ascending list, a String the list of its
-- code points, and the callback write_process_input the list of the texts it was called with.
-- The calls of a performer are the list of what it was called with: the parser never reads the
-- screen, so that they are performed when it has read the bytes. A loop is recursion on the
-- rounds left, which the code's own bounds give; `digits` has 20 rounds, enough for a 64-bit number, and
-- advance has a round for each byte,
-- each of which reads one at least.
--
-- The shape, `Fits lines columns s`: the buffer has `lines` rows of `columns` cells and as many
-- wrap flags, the margins lie on the screen, and the cursor is on it or, waiting for a wrap, one
-- column past its end.
--
-- Not modelled: the width of a character, which the crate unicode-width computes and which is the
-- parameter char_width; display, cwd and the Display instance, which only read; the methods of
-- HistoryScreen that hand a call to its screen unchanged; and the system calls,
-- threads and bindings around the emulator (the
-- backends that src/platform.rs dispatches to, src/async_io.rs, src/python_api.rs).
pub mod Prelude
pub mod Charsets
pub mod Graphics
pub mod Modes
pub mod Screen
pub mod Performer
pub mod History
pub mod Utf8
pub mod Cwd
pub mod AnsiParser
pub mod Errors
pub mod Platform
pub mod Winsize
pub mod TerminalApi
