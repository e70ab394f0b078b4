-- ===== src/AnsiParser/Safety.antt =====
-- The steps of src/terminal/ansi_parser.rs outside the ground state, and the bounds.
use stitch_pty.Prelude.{ℕ, ◌≢◌, refl, ◌||◌, ◌==◌, within}
use stitch_pty.Prelude.{Holds, holds, Holds-bind, Holds-if}
use stitch_pty.AnsiParser.{
  State, csi_entry, csi_ignore, csi_intermediate, csi_param, dcs_entry, dcs_ignore,
  dcs_intermediate, dcs_param, dcs_passthrough, escape, escape_intermediate, osc_string,
  sos_pm_apc_string, Parser,
}
use stitch_pty.AnsiParser.Advance.{
  is_control, anywhere, advance_csi_entry, advance_csi_ignore, advance_csi_intermediate,
  advance_csi_param, advance_dcs_entry, advance_dcs_intermediate, advance_dcs_param,
  advance_dcs_passthrough, advance_esc, advance_esc_intermediate, advance_osc_string,
  change_state_at, change_state,
}
use stitch_pty.AnsiParser.Bounds.{
  IsBounded, IsBounded-if, goto-IsBounded, act-IsBounded, reset_params-IsBounded, collect-IsBounded,
  subparam-IsBounded, paramnext-IsBounded, clear_osc-IsBounded, osc_put-IsBounded,
  osc_put_param-IsBounded, next_param-IsBounded, dispatch_csi-IsBounded, dispatch_hook-IsBounded,
  osc_end-IsBounded,
}

module _ {p : Parser} (b : IsBounded p) where
  anywhere-IsBounded : (byte : ℕ) → IsBounded (anywhere p byte)
  unfolding anywhere
  anywhere-IsBounded byte =
      IsBounded-if (byte == 0x18 || byte == 0x1A) (goto-IsBounded (act-IsBounded b _) _)
        (IsBounded-if (byte == 0x1B) (goto-IsBounded (reset_params-IsBounded b) _) (b))

module _ {p : Parser} (b : IsBounded p) where
  advance_csi_entry-IsBounded : (byte : ℕ) → IsBounded (advance_csi_entry p byte)
  unfolding advance_csi_entry
  advance_csi_entry-IsBounded byte = IsBounded-if (is_control byte) (act-IsBounded b _) (
      IsBounded-if (within 0x20 0x2F byte) (goto-IsBounded (collect-IsBounded b byte) _) (
        IsBounded-if (within 0x30 0x39 byte) (goto-IsBounded (paramnext-IsBounded b byte) _) (
          IsBounded-if (byte == 0x3A) (goto-IsBounded (subparam-IsBounded b) _) (
            IsBounded-if (byte == 0x3B) (goto-IsBounded (next_param-IsBounded b) _) (
              IsBounded-if (within 0x3C 0x3F byte) (goto-IsBounded (collect-IsBounded b byte) _) (
                IsBounded-if (within 0x40 0x7E byte) (dispatch_csi-IsBounded b byte)
                  (anywhere-IsBounded b byte)))))))

  advance_csi_ignore-IsBounded : (byte : ℕ) → IsBounded (advance_csi_ignore p byte)
  unfolding advance_csi_ignore
  advance_csi_ignore-IsBounded byte = IsBounded-if (is_control byte) (act-IsBounded b _) (
      IsBounded-if (within 0x20 0x3F byte) (b) (
        IsBounded-if (within 0x40 0x7E byte) (goto-IsBounded b _)
          (IsBounded-if (byte == 0x7F) (b) (anywhere-IsBounded b byte))))

  advance_csi_intermediate-IsBounded : (byte : ℕ) → IsBounded (advance_csi_intermediate p byte)
  unfolding advance_csi_intermediate
  advance_csi_intermediate-IsBounded byte = IsBounded-if (is_control byte) (act-IsBounded b _) (
      IsBounded-if (within 0x20 0x2F byte) (collect-IsBounded b byte) (
        IsBounded-if (within 0x30 0x3F byte) (goto-IsBounded b _) (
          IsBounded-if (within 0x40 0x7E byte) (dispatch_csi-IsBounded b byte)
            (anywhere-IsBounded b byte))))

  advance_csi_param-IsBounded : (byte : ℕ) → IsBounded (advance_csi_param p byte)
  unfolding advance_csi_param
  advance_csi_param-IsBounded byte = IsBounded-if (is_control byte) (act-IsBounded b _) (
      IsBounded-if (within 0x20 0x2F byte) (goto-IsBounded (collect-IsBounded b byte) _) (
        IsBounded-if (within 0x30 0x39 byte) (paramnext-IsBounded b byte) (
          IsBounded-if (byte == 0x3A) (subparam-IsBounded b) (
            IsBounded-if (within 0x3B 0x3D byte) (next_param-IsBounded b) (
              IsBounded-if (within 0x3E 0x3F byte) (goto-IsBounded b _) (
                IsBounded-if (within 0x40 0x7E byte) (dispatch_csi-IsBounded b byte)
                  (IsBounded-if (byte == 0x7F) (b) (anywhere-IsBounded b byte))))))))

  advance_dcs_entry-IsBounded : (byte : ℕ) → IsBounded (advance_dcs_entry p byte)
  unfolding advance_dcs_entry
  advance_dcs_entry-IsBounded byte = IsBounded-if (is_control byte) (b) (
      IsBounded-if (within 0x20 0x2F byte) (goto-IsBounded (collect-IsBounded b byte) _) (
        IsBounded-if (within 0x30 0x39 byte) (goto-IsBounded (paramnext-IsBounded b byte) _) (
          IsBounded-if (byte == 0x3A) (goto-IsBounded (subparam-IsBounded b) _) (
            IsBounded-if (byte == 0x3B) (goto-IsBounded (next_param-IsBounded b) _) (
              IsBounded-if (within 0x3C 0x3F byte) (goto-IsBounded (collect-IsBounded b byte) _) (
                IsBounded-if (within 0x40 0x7E byte) (dispatch_hook-IsBounded b byte)
                  (IsBounded-if (byte == 0x7F) (b) (anywhere-IsBounded b byte))))))))

  advance_dcs_intermediate-IsBounded : (byte : ℕ) → IsBounded (advance_dcs_intermediate p byte)
  unfolding advance_dcs_intermediate
  advance_dcs_intermediate-IsBounded byte = IsBounded-if (is_control byte) (b) (
      IsBounded-if (within 0x20 0x2F byte) (collect-IsBounded b byte) (
        IsBounded-if (within 0x30 0x3F byte) (goto-IsBounded b _) (
          IsBounded-if (within 0x40 0x7E byte) (dispatch_hook-IsBounded b byte)
            (anywhere-IsBounded b byte))))

  advance_dcs_param-IsBounded : (byte : ℕ) → IsBounded (advance_dcs_param p byte)
  unfolding advance_dcs_param
  advance_dcs_param-IsBounded byte = IsBounded-if (is_control byte) (b) (
      IsBounded-if (within 0x20 0x2F byte) (goto-IsBounded (collect-IsBounded b byte) _) (
        IsBounded-if (within 0x30 0x39 byte) (paramnext-IsBounded b byte) (
          IsBounded-if (byte == 0x3A) (subparam-IsBounded b) (
            IsBounded-if (byte == 0x3B) (next_param-IsBounded b) (
              IsBounded-if (within 0x3C 0x3F byte) (goto-IsBounded b _) (
                IsBounded-if (within 0x40 0x7E byte) (dispatch_hook-IsBounded b byte)
                  (IsBounded-if (byte == 0x7F) (b) (anywhere-IsBounded b byte))))))))

  advance_dcs_passthrough-IsBounded : (byte : ℕ) → IsBounded (advance_dcs_passthrough p byte)
  unfolding advance_dcs_passthrough
  advance_dcs_passthrough-IsBounded byte =
      IsBounded-if (within 0x00 0x17 byte || byte == 0x19 || within 0x1C 0x7E byte)
        (act-IsBounded b _)
        (IsBounded-if (byte == 0x18 || byte == 0x1A)
          (goto-IsBounded (act-IsBounded (act-IsBounded b _) _) _)
          (IsBounded-if (byte == 0x1B)
            (goto-IsBounded (reset_params-IsBounded (act-IsBounded b _)) _)
            (IsBounded-if (byte == 0x7F) (b)
              (IsBounded-if (byte == 0x9C) (goto-IsBounded (act-IsBounded b _) _) (b)))))

  advance_esc-IsBounded : (byte : ℕ) → IsBounded (advance_esc p byte)
  unfolding advance_esc
  advance_esc-IsBounded byte = IsBounded-if (is_control byte) (act-IsBounded b _) (
      IsBounded-if (within 0x20 0x2F byte) (goto-IsBounded (collect-IsBounded b byte) _) (
        IsBounded-if (within 0x30 0x4F byte) (goto-IsBounded (act-IsBounded b _) _) (
          IsBounded-if (byte == 0x50) (goto-IsBounded (reset_params-IsBounded b) _) (
            IsBounded-if (within 0x51 0x57 byte) (goto-IsBounded (act-IsBounded b _) _) (
              IsBounded-if (byte == 0x58) (goto-IsBounded b _) (
                IsBounded-if (within 0x59 0x5A byte) (goto-IsBounded (act-IsBounded b _) _) (
                  IsBounded-if (byte == 0x5B) (goto-IsBounded (reset_params-IsBounded b) _) (
                    IsBounded-if (byte == 0x5C) (goto-IsBounded (act-IsBounded b _) _) (
                      IsBounded-if (byte == 0x5D) (goto-IsBounded (clear_osc-IsBounded b) _) (
                        IsBounded-if (within 0x5E 0x5F byte) (goto-IsBounded b _) (
                          IsBounded-if (within 0x60 0x7E byte)
                            (goto-IsBounded (act-IsBounded b _) _)
                            (IsBounded-if (byte == 0x18 || byte == 0x1A)
                              (goto-IsBounded (act-IsBounded b _) _) (b)))))))))))))

  advance_esc_intermediate-IsBounded : (byte : ℕ) → IsBounded (advance_esc_intermediate p byte)
  unfolding advance_esc_intermediate
  advance_esc_intermediate-IsBounded byte = IsBounded-if (is_control byte) (act-IsBounded b _) (
      IsBounded-if (within 0x20 0x2F byte) (collect-IsBounded b byte) (
        IsBounded-if (within 0x30 0x7E byte) (goto-IsBounded (act-IsBounded b _) _)
          (IsBounded-if (byte == 0x7F) (b) (anywhere-IsBounded b byte))))

  advance_osc_string-IsBounded : (byte : ℕ) → Holds IsBounded (advance_osc_string p byte)
  unfolding advance_osc_string
  advance_osc_string-IsBounded byte =
      Holds-if
        (within 0x00 0x06 byte || within 0x08 0x17 byte || byte == 0x19 || within 0x1C 0x1F byte)
        (holds b)
        (Holds-if (byte == 0x07)
          (Holds-bind (osc_end-IsBounded b byte) (λ q c. holds (goto-IsBounded c _)))
          (Holds-if (byte == 0x18 || byte == 0x1A)
            (Holds-bind (osc_end-IsBounded b byte)
              (λ q c. holds (goto-IsBounded (act-IsBounded c _) _)))
            (Holds-if (byte == 0x1B)
              (Holds-bind (osc_end-IsBounded b byte)
                (λ q c. holds (goto-IsBounded (reset_params-IsBounded c) _)))
              (Holds-if (byte == 0x3B) (holds (osc_put_param-IsBounded b))
                (holds (osc_put-IsBounded b byte))))))

module _ {p : Parser} (b : IsBounded p) where
  at_state :
      (state : State) (byte : ℕ)
      → state ≢ State.ground
      → Holds IsBounded (change_state_at state p byte)
  unfolding change_state_at
  at_state csi_entry byte h = holds (advance_csi_entry-IsBounded b byte)
  at_state csi_ignore byte h = holds (advance_csi_ignore-IsBounded b byte)
  at_state csi_intermediate byte h = holds (advance_csi_intermediate-IsBounded b byte)
  at_state csi_param byte h = holds (advance_csi_param-IsBounded b byte)
  at_state dcs_entry byte h = holds (advance_dcs_entry-IsBounded b byte)
  at_state dcs_ignore byte h = holds (anywhere-IsBounded b byte)
  at_state dcs_intermediate byte h = holds (advance_dcs_intermediate-IsBounded b byte)
  at_state dcs_param byte h = holds (advance_dcs_param-IsBounded b byte)
  at_state dcs_passthrough byte h = holds (advance_dcs_passthrough-IsBounded b byte)
  at_state escape byte h = holds (advance_esc-IsBounded b byte)
  at_state escape_intermediate byte h = holds (advance_esc_intermediate-IsBounded b byte)
  at_state osc_string byte h = advance_osc_string-IsBounded b byte
  at_state sos_pm_apc_string byte h = holds (anywhere-IsBounded b byte)
  at_state State.ground byte h = absurd (h refl)

  -- Outside the ground state, with no character cut off, no byte makes the parser panic, an OSC
  -- string's slices included, and no character is cut off behind it. The
  -- intermediates, the parameters and the OSC string stay within the sizes of their arrays, the
  -- count of the parameters is the number of those stored, and the number read stays below 2^16.
  pub change_state-IsBounded :
      (byte : ℕ) → p.state ≢ State.ground → Holds IsBounded (change_state p byte)
  unfolding change_state
  change_state-IsBounded byte h = at_state p.state byte h
