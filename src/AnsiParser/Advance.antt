-- ===== src/AnsiParser/Advance.antt =====
-- The states of src/terminal/ansi_parser.rs: one function for each, and the step on one byte.
use stitch_pty.Prelude.{ℕ, Bool, ◌||◌, ◌==◌, within, if◌then◌else◌, Option, none, some, ◌>>=◌}
use stitch_pty.AnsiParser.{
  State, csi_entry, csi_ignore, csi_intermediate, csi_param, dcs_entry, dcs_ignore,
  dcs_intermediate, dcs_param, dcs_passthrough, escape, escape_intermediate, osc_string,
  sos_pm_apc_string, ground, execute, put, unhook, esc, Parser, goto, act, reset_params, collect,
  subparam, next_param, paramnext, dispatch_csi, dispatch_hook, clear_osc, osc_put, osc_put_param,
  osc_end,
}

-- The pattern `0x00..=0x17 | 0x19 | 0x1C..=0x1F`.
abbrev pub is_control : ℕ → Bool
is_control byte = within 0x00 0x17 byte || byte == 0x19 || within 0x1C 0x1F byte

unfoldable pub anywhere : Parser → ℕ → Parser
anywhere p byte =
    if byte == 0x18 || byte == 0x1A
    then goto (act p (execute byte)) ground
    else if byte == 0x1B
    then goto (reset_params p) escape
    else p

unfoldable pub advance_csi_entry : Parser → ℕ → Parser
advance_csi_entry p byte =
    if is_control byte
    then act p (execute byte)
    else if within 0x20 0x2F byte
    then goto (collect p byte) csi_intermediate
    else if within 0x30 0x39 byte
    then goto (paramnext p byte) csi_param
    else if byte == 0x3A
    then goto (subparam p) csi_param
    else if byte == 0x3B
    then goto (next_param p) csi_param
    else if within 0x3C 0x3F byte
    then goto (collect p byte) csi_param
    else if within 0x40 0x7E byte
    then dispatch_csi p byte
    else anywhere p byte

unfoldable pub advance_csi_ignore : Parser → ℕ → Parser
advance_csi_ignore p byte =
    if is_control byte
    then act p (execute byte)
    else if within 0x20 0x3F byte
    then p
    else if within 0x40 0x7E byte
    then goto p ground
    else if byte == 0x7F
    then p
    else anywhere p byte

unfoldable pub advance_csi_intermediate : Parser → ℕ → Parser
advance_csi_intermediate p byte =
    if is_control byte
    then act p (execute byte)
    else if within 0x20 0x2F byte
    then collect p byte
    else if within 0x30 0x3F byte
    then goto p csi_ignore
    else if within 0x40 0x7E byte
    then dispatch_csi p byte
    else anywhere p byte

unfoldable pub advance_csi_param : Parser → ℕ → Parser
advance_csi_param p byte =
    if is_control byte
    then act p (execute byte)
    else if within 0x20 0x2F byte
    then goto (collect p byte) csi_intermediate
    else if within 0x30 0x39 byte
    then paramnext p byte
    else if byte == 0x3A
    then subparam p
    else if within 0x3B 0x3D byte
    then next_param p
    else if within 0x3E 0x3F byte
    then goto p csi_ignore
    else if within 0x40 0x7E byte
    then dispatch_csi p byte
    else if byte == 0x7F
    then p
    else anywhere p byte

unfoldable pub advance_dcs_entry : Parser → ℕ → Parser
advance_dcs_entry p byte =
    if is_control byte
    then p
    else if within 0x20 0x2F byte
    then goto (collect p byte) dcs_intermediate
    else if within 0x30 0x39 byte
    then goto (paramnext p byte) dcs_param
    else if byte == 0x3A
    then goto (subparam p) dcs_param
    else if byte == 0x3B
    then goto (next_param p) dcs_param
    else if within 0x3C 0x3F byte
    then goto (collect p byte) dcs_param
    else if within 0x40 0x7E byte
    then dispatch_hook p byte
    else if byte == 0x7F
    then p
    else anywhere p byte

unfoldable pub advance_dcs_intermediate : Parser → ℕ → Parser
advance_dcs_intermediate p byte =
    if is_control byte
    then p
    else if within 0x20 0x2F byte
    then collect p byte
    else if within 0x30 0x3F byte
    then goto p dcs_ignore
    else if within 0x40 0x7E byte
    then dispatch_hook p byte
    else anywhere p byte

unfoldable pub advance_dcs_param : Parser → ℕ → Parser
advance_dcs_param p byte =
    if is_control byte
    then p
    else if within 0x20 0x2F byte
    then goto (collect p byte) dcs_intermediate
    else if within 0x30 0x39 byte
    then paramnext p byte
    else if byte == 0x3A
    then subparam p
    else if byte == 0x3B
    then next_param p
    else if within 0x3C 0x3F byte
    then goto p dcs_ignore
    else if within 0x40 0x7E byte
    then dispatch_hook p byte
    else if byte == 0x7F
    then p
    else anywhere p byte

unfoldable pub advance_dcs_passthrough : Parser → ℕ → Parser
advance_dcs_passthrough p byte =
    if within 0x00 0x17 byte || byte == 0x19 || within 0x1C 0x7E byte
    then act p (put byte)
    else if byte == 0x18 || byte == 0x1A
    then goto (act (act p unhook) (execute byte)) ground
    else if byte == 0x1B
    then goto (reset_params (act p unhook)) escape
    else if byte == 0x7F
    then p
    else if byte == 0x9C
    then goto (act p unhook) ground
    else p

unfoldable pub advance_esc : Parser → ℕ → Parser
advance_esc p byte =
    if is_control byte
    then act p (execute byte)
    else if within 0x20 0x2F byte
    then goto (collect p byte) escape_intermediate
    else if within 0x30 0x4F byte
    then goto (act p (esc p.intermediates p.ignoring byte)) ground
    else if byte == 0x50
    then goto (reset_params p) dcs_entry
    else if within 0x51 0x57 byte
    then goto (act p (esc p.intermediates p.ignoring byte)) ground
    else if byte == 0x58
    then goto p sos_pm_apc_string
    else if within 0x59 0x5A byte
    then goto (act p (esc p.intermediates p.ignoring byte)) ground
    else if byte == 0x5B
    then goto (reset_params p) csi_entry
    else if byte == 0x5C
    then goto (act p (esc p.intermediates p.ignoring byte)) ground
    else if byte == 0x5D
    then goto (clear_osc p) osc_string
    else if within 0x5E 0x5F byte
    then goto p sos_pm_apc_string
    else if within 0x60 0x7E byte
    then goto (act p (esc p.intermediates p.ignoring byte)) ground
    else if byte == 0x18 || byte == 0x1A
    then goto (act p (execute byte)) ground
    else p

unfoldable pub advance_esc_intermediate : Parser → ℕ → Parser
advance_esc_intermediate p byte =
    if is_control byte
    then act p (execute byte)
    else if within 0x20 0x2F byte
    then collect p byte
    else if within 0x30 0x7E byte
    then goto (act p (esc p.intermediates p.ignoring byte)) ground
    else if byte == 0x7F
    then p
    else anywhere p byte

unfoldable pub advance_osc_string : Parser → ℕ → Option Parser
advance_osc_string p byte =
    if within 0x00 0x06 byte || within 0x08 0x17 byte || byte == 0x19 || within 0x1C 0x1F byte
    then some p
    else if byte == 0x07
    then osc_end p byte >>= (λ q. some (goto q ground))
    else if byte == 0x18 || byte == 0x1A
    then osc_end p byte >>= (λ q. some (goto (act q (execute byte)) ground))
    else if byte == 0x1B
    then osc_end p byte >>= (λ q. some (goto (reset_params q) escape))
    else if byte == 0x3B
    then some (osc_put_param p)
    else some (osc_put p byte)

-- `change_state`, by the state; `unreachable!()` in the ground state is a panic.
unfoldable pub change_state_at : State → Parser → ℕ → Option Parser
change_state_at csi_entry p byte = some (advance_csi_entry p byte)
change_state_at csi_ignore p byte = some (advance_csi_ignore p byte)
change_state_at csi_intermediate p byte = some (advance_csi_intermediate p byte)
change_state_at csi_param p byte = some (advance_csi_param p byte)
change_state_at dcs_entry p byte = some (advance_dcs_entry p byte)
change_state_at dcs_ignore p byte = some (anywhere p byte)
change_state_at dcs_intermediate p byte = some (advance_dcs_intermediate p byte)
change_state_at dcs_param p byte = some (advance_dcs_param p byte)
change_state_at dcs_passthrough p byte = some (advance_dcs_passthrough p byte)
change_state_at escape p byte = some (advance_esc p byte)
change_state_at escape_intermediate p byte = some (advance_esc_intermediate p byte)
change_state_at osc_string p byte = advance_osc_string p byte
change_state_at sos_pm_apc_string p byte = some (anywhere p byte)
change_state_at ground p byte = none

unfoldable pub change_state : Parser → ℕ → Option Parser
change_state p byte = change_state_at p.state p byte
