-- ===== src/Modes.antt =====
-- The mode flags of src/terminal/modes.rs. A `bitflags` value is a record with a Boolean for each
-- declared flag; the `HashSet` of the other private modes is a set of numbers.
pub mod Laws
mod Tests
use stitch_pty.Prelude.{ℕ, Bool, true, false, ◌==◌, ◌||◌, if◌then◌else◌, []}
use stitch_pty.Prelude.Sets.{NatSet, contains, insert, remove}

abbrev pub irm : ℕ
irm = 4

abbrev pub lnm : ℕ
lnm = 20

abbrev pub decckm : ℕ
decckm = 1

abbrev pub deccolm : ℕ
deccolm = 3

abbrev pub decom : ℕ
decom = 6

abbrev pub decawm : ℕ
decawm = 7

abbrev pub dectcem : ℕ
dectcem = 25

abbrev pub decscnm : ℕ
decscnm = 5

abbrev pub x10_mouse : ℕ
x10_mouse = 1000

abbrev pub normal_mouse : ℕ
normal_mouse = 1002

abbrev pub any_event_mouse : ℕ
any_event_mouse = 1003

abbrev pub sgr_mouse_mode : ℕ
sgr_mouse_mode = 1006

abbrev pub bracketed_paste : ℕ
bracketed_paste = 2004

abbrev pub alt_screen_1049 : ℕ
alt_screen_1049 = 1049

abbrev pub alt_screen_1047 : ℕ
alt_screen_1047 = 1047

abbrev pub alt_screen_47 : ℕ
alt_screen_47 = 47

pub record PublicModes : Type 0 where
  pub irm_flag : Bool
  pub lnm_flag : Bool

pub record PrivateModes : Type 0 where
  pub decckm_flag : Bool
  pub deccolm_flag : Bool
  pub decom_flag : Bool
  pub decawm_flag : Bool
  pub dectcem_flag : Bool
  pub decscnm_flag : Bool

-- `public` and `private` of the source are `public_modes` and `private_modes`.
pub record Modes : Type 0 where
  pub public_modes : PublicModes
  pub private_modes : PrivateModes
  pub extended : NatSet

-- `Modes::new`.
abbrev pub new_modes : Modes
new_modes = record {
  public_modes = record { irm_flag = false; lnm_flag = true };
  private_modes = record {
    decckm_flag = false;
    deccolm_flag = false;
    decom_flag = false;
    decawm_flag = true;
    dectcem_flag = true;
    decscnm_flag = false;
  };
  extended = [];
}

unfoldable pub has_public : Modes → ℕ → Bool
has_public m mode =
    if mode == irm
    then m.public_modes.irm_flag
    else if mode == lnm
    then m.public_modes.lnm_flag
    else false

unfoldable pub has_private : Modes → ℕ → Bool
unfolding contains
has_private m mode =
    if mode == decckm
    then m.private_modes.decckm_flag
    else if mode == deccolm
    then m.private_modes.deccolm_flag
    else if mode == decom
    then m.private_modes.decom_flag
    else if mode == decawm
    then m.private_modes.decawm_flag
    else if mode == dectcem
    then m.private_modes.dectcem_flag
    else if mode == decscnm
    then m.private_modes.decscnm_flag
    else contains m.extended mode

unfoldable pub set_public : Modes → ℕ → Modes
set_public m mode =
    if mode == irm
    then record m { public_modes = record (m.public_modes) { irm_flag = true } }
    else if mode == lnm
    then record m { public_modes = record (m.public_modes) { lnm_flag = true } }
    else m

unfoldable pub clear_public : Modes → ℕ → Modes
clear_public m mode =
    if mode == irm
    then record m { public_modes = record (m.public_modes) { irm_flag = false } }
    else if mode == lnm
    then record m { public_modes = record (m.public_modes) { lnm_flag = false } }
    else m

unfoldable pub set_private : Modes → ℕ → Modes
set_private m mode =
    if mode == decckm
    then record m { private_modes = record (m.private_modes) { decckm_flag = true } }
    else if mode == deccolm
    then record m { private_modes = record (m.private_modes) { deccolm_flag = true } }
    else if mode == decom
    then record m { private_modes = record (m.private_modes) { decom_flag = true } }
    else if mode == decawm
    then record m { private_modes = record (m.private_modes) { decawm_flag = true } }
    else if mode == dectcem
    then record m { private_modes = record (m.private_modes) { dectcem_flag = true } }
    else if mode == decscnm
    then record m { private_modes = record (m.private_modes) { decscnm_flag = true } }
    else record m { extended = insert mode m.extended }

unfoldable pub clear_private : Modes → ℕ → Modes
clear_private m mode =
    if mode == decckm
    then record m { private_modes = record (m.private_modes) { decckm_flag = false } }
    else if mode == deccolm
    then record m { private_modes = record (m.private_modes) { deccolm_flag = false } }
    else if mode == decom
    then record m { private_modes = record (m.private_modes) { decom_flag = false } }
    else if mode == decawm
    then record m { private_modes = record (m.private_modes) { decawm_flag = false } }
    else if mode == dectcem
    then record m { private_modes = record (m.private_modes) { dectcem_flag = false } }
    else if mode == decscnm
    then record m { private_modes = record (m.private_modes) { decscnm_flag = false } }
    else record m { extended = remove mode m.extended }

-- The highest-precedence mouse tracking mode in force, 0 for none.
unfoldable pub mouse_protocol : Modes → ℕ
unfolding has_private
mouse_protocol m =
    if has_private m any_event_mouse
    then any_event_mouse
    else if has_private m normal_mouse
    then normal_mouse
    else if has_private m x10_mouse
    then x10_mouse
    else 0

unfoldable pub sgr_mouse : Modes → Bool
sgr_mouse m = has_private m sgr_mouse_mode

unfoldable pub is_alt_screen : Modes → Bool
is_alt_screen m =
    has_private m alt_screen_1049 || has_private m alt_screen_1047 || has_private m alt_screen_47
