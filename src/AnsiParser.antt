-- ===== src/AnsiParser.antt =====
-- The escape sequence parser of src/terminal/ansi_parser.rs: its state, and what it collects. The
-- arrays with a count of the entries in use (`intermediates`, `osc_params`) are the lists of those
-- entries. The calls of the performer are the list `actions`, the latest last.
-- `partial` is `partial_utf8` with its length: the bytes of a character that the input cut off.
pub mod Advance
pub mod Ground
pub mod Rounds
pub mod Feed
pub mod Plain
pub mod Bounds
pub mod Safety
pub mod Recovery
mod Tests
use stitch_pty.Prelude.{
  ℕ, zero, suc, ◌+◌, ◌-◌, ◌*◌, ◌/◌, ◌%◌, ◌<◌, ◌≤◌, min, max, ◌≡◌, ◌≢◌, refl, sym, ◌∙◌, ap, Bool,
  true, false, not, ◌&&◌, ◌||◌, ◌==◌, ltb, leb, within, if◌then◌else◌, Option, none, some,
  unwrap_or, List, [], ◌∷◌, ◌++◌, length, get_elem?, get_or, set, set?, take, drop, replicate,
  ◌>>=◌, arith, Text, codes, equal,
}

abbrev pub max_params : ℕ
max_params = 32

abbrev pub max_intermediates : ℕ
max_intermediates = 2

abbrev pub max_osc_params : ℕ
max_osc_params = 16

abbrev pub max_osc_raw : ℕ
max_osc_raw = 1024

pub record Params : Type 0 where
  pub subparams : List (List ℕ)
  pub total_len : ℕ

-- `Params::push`.
unfoldable pub push_param : Params → ℕ → Params
push_param ps value = record {
  subparams = ps.subparams ++ (value ∷ []) ∷ [];
  total_len = ps.total_len + 1;
}

-- `last.push(value)`, or the first group.
unfoldable pub extend_last : List (List ℕ) → ℕ → List (List ℕ)
extend_last [] value = (value ∷ []) ∷ []
extend_last (g ∷ []) value = (g ++ value ∷ []) ∷ []
extend_last (g ∷ h ∷ gs) value = g ∷ extend_last (h ∷ gs) value

-- `Params::extend`.
unfoldable pub extend_param : Params → ℕ → Params
extend_param ps value = record {
  subparams = extend_last ps.subparams value;
  total_len = ps.total_len + 1;
}

-- `Params::is_full`.
abbrev pub is_full : Params → Bool
is_full ps = leb max_params ps.total_len

abbrev pub no_params : Params
no_params = record { subparams = []; total_len = 0 }

pub data State : Type 0 where
  csi_entry csi_ignore csi_intermediate csi_param : State
  dcs_entry dcs_ignore dcs_intermediate dcs_param dcs_passthrough : State
  escape escape_intermediate osc_string sos_pm_apc_string ground : State

-- The calls of `Perform`.
pub data Action : Type 0 where
  print : ℕ → Action
  execute : ℕ → Action
  hook : Params → List ℕ → Bool → ℕ → Action
  put : ℕ → Action
  unhook : Action
  osc : List (List ℕ) → Bool → Action
  csi : Params → List ℕ → Bool → ℕ → Action
  esc : List ℕ → Bool → ℕ → Action

pub record Parser : Type 0 where
  pub state : State
  pub intermediates : List ℕ
  pub params : Params
  pub param : ℕ
  pub ignoring : Bool
  pub osc_raw : List ℕ
  pub osc_params : List (ℕ × ℕ)
  pub partial : List ℕ
  pub subparam_continuation : Bool
  pub actions : List Action

-- `Parser::new`.
abbrev pub new_parser : Parser
new_parser = record {
  state = ground;
  intermediates = [];
  params = no_params;
  param = 0;
  ignoring = false;
  osc_raw = [];
  osc_params = [];
  partial = [];
  subparam_continuation = false;
  actions = [];
}

abbrev pub goto : Parser → State → Parser
goto p state = record p { state = state }

abbrev pub act : Parser → Action → Parser
act p action = record p { actions = p.actions ++ action ∷ [] }

-- `reset_params`, which leaves `subparam_continuation`.
unfoldable pub reset_params : Parser → Parser
reset_params p = record p { intermediates = []; ignoring = false; param = 0; params = no_params }

-- `action_collect`.
unfoldable pub collect : Parser → ℕ → Parser
collect p byte =
    if ltb (length p.intermediates) max_intermediates
    then record p { intermediates = p.intermediates ++ byte ∷ [] }
    else record p { ignoring = true }

-- `action_subparam`.
unfoldable pub subparam : Parser → Parser
subparam p =
    if is_full p.params
    then record p { ignoring = true; subparam_continuation = true }
    else record p {
      params = extend_param p.params p.param;
      param = 0;
      subparam_continuation = true;
    }

-- The first half of `action_param` and of `action_csi_dispatch`: the parameter read is stored.
unfoldable pub store_param : Parser → Parser
store_param p =
    if is_full p.params
    then record p { ignoring = true }
    else if p.subparam_continuation
    then record p { params = extend_param p.params p.param }
    else record p { params = push_param p.params p.param }

-- `action_param`.
unfoldable pub next_param : Parser → Parser
next_param p = record (store_param p) { param = 0; subparam_continuation = false }

-- `action_paramnext`: two saturating operations on u16.
unfoldable pub paramnext : Parser → ℕ → Parser
paramnext p byte = record p { param = min (min (p.param * 10) 0xffff + (byte - b'0')) 0xffff }

-- `action_csi_dispatch`.
unfoldable pub dispatch_csi : Parser → ℕ → Parser
dispatch_csi p byte =
    let q = next_param p in goto (act q (csi q.params q.intermediates q.ignoring byte)) ground

-- The head of `action_hook`.
unfoldable pub store_last : Parser → Parser
store_last p =
    if is_full p.params
    then record p { ignoring = true }
    else record p { params = push_param p.params p.param }

-- `action_hook`.
unfoldable pub dispatch_hook : Parser → ℕ → Parser
dispatch_hook p byte =
    let q = store_last p in
    goto (act q (hook q.params q.intermediates q.ignoring byte)) dcs_passthrough

-- `self.osc_raw.clear(); self.osc_num_params = 0`.
unfoldable pub clear_osc : Parser → Parser
clear_osc p = record p { osc_raw = []; osc_params = [] }

-- `action_osc_put`.
unfoldable pub osc_put : Parser → ℕ → Parser
osc_put p byte =
    if ltb (length p.osc_raw) max_osc_raw then record p { osc_raw = p.osc_raw ++ byte ∷ [] } else p

-- Where the next parameter of an OSC string begins: at the end of the last one.
unfoldable pub osc_end_of : ℕ → List (ℕ × ℕ) → ℕ
osc_end_of from [] = from
osc_end_of from ((start, end) ∷ rest) = osc_end_of end rest

-- `action_osc_put_param`.
unfoldable pub osc_put_param : Parser → Parser
osc_put_param p = if leb max_osc_params (length p.osc_params) then p else record p {
  osc_params = p.osc_params ++ (osc_end_of 0 p.osc_params, length p.osc_raw) ∷ [];
}

-- `&self.osc_raw[start..end]`: out of range is a panic.
unfoldable pub slice : List ℕ → ℕ → ℕ → Option (List ℕ)
slice raw start end =
    if leb start end && leb end (length raw)
    then some (take (end - start) (drop start raw))
    else none

-- The loop of `osc_end`.
unfoldable pub slices : List ℕ → List (ℕ × ℕ) → Option (List (List ℕ))
slices raw [] = some []
slices raw ((start, end) ∷ rest) = do
  s ← slice raw start end
  more ← slices raw rest
  some (s ∷ more)

-- `osc_end`.
unfoldable pub osc_end : Parser → ℕ → Option Parser
osc_end p byte = do
  let q = osc_put_param p
  parts ← slices q.osc_raw q.osc_params
  some (clear_osc (act q (osc parts (byte == 0x07))))
