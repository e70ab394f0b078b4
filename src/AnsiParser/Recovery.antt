-- ===== src/AnsiParser/Recovery.antt =====
-- CAN, SUB and ESC in the states of src/terminal/ansi_parser.rs.
use stitch_pty.Prelude.{◌≡◌, ◌⊎◌, [], false}
use stitch_pty.AnsiParser.{escape, Parser, no_params}

-- Nothing of a sequence is collected.
pub record IsFresh (q : Parser) : Type 0 where
  pub no_intermediates : q.intermediates ≡ []
  pub heeded : q.ignoring ≡ false
  pub no_digits : q.param ≡ 0
  pub params_new : q.params ≡ no_params

-- What ESC makes of a parser `p`: it starts a sequence of which nothing is collected, or, where it
-- is right behind another ESC, leaves the parser as it is.
pub record Restarts (p q : Parser) : Type 0 where
  pub escaped : q.state ≡ escape
  pub fresh : IsFresh q ⊎ ((p.state ≡ escape) × (q ≡ p))
