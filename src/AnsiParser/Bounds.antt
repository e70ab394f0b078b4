-- ===== src/AnsiParser/Bounds.antt =====
-- The collecting actions of src/terminal/ansi_parser.rs, and the bounds of what they collect.
use stitch_pty.Prelude.{
  ℕ, suc, ◌+◌, ◌<◌, ◌≤◌, ◌≡◌, refl, ap, Bool, true, false, ◌&&◌, ltb, leb, if◌then◌else◌, List, [],
  ◌∷◌, ◌++◌, length, arith,
}
use stitch_pty.Prelude.{Holds, holds, Holds-bind, length-append, Bool-cases, inl, inr}
use stitch_pty.AnsiParser.{
  max_params, max_intermediates, max_osc_params, max_osc_raw, push_param, extend_last, extend_param,
  State, Action, Parser, goto, act, reset_params, collect, subparam, store_param, next_param,
  paramnext, dispatch_csi, store_last, dispatch_hook, clear_osc, osc_put, osc_end_of, osc_put_param,
  slice, slices, osc_end,
}

-- The parameters of an OSC string, in order and within the text: the first starts at `from`.
abbrev pub IsChain : ℕ → List (ℕ × ℕ) → ℕ → Type 0
IsChain from [] size = Unit {0}
IsChain from ((start, end) ∷ rest) size =
    (start ≡ from) × (start ≤ end) × (end ≤ size) × IsChain end rest size

-- The number of parameters of all groups.
abbrev pub group_total : List (List ℕ) → ℕ
group_total [] = 0
group_total (g ∷ gs) = length g + group_total gs

pub record IsBounded (p : Parser) : Type 0 where
  pub intermediates_fit : length p.intermediates ≤ max_intermediates
  pub params_fit : p.params.total_len ≤ max_params
  pub counted : p.params.total_len ≡ group_total p.params.subparams
  pub param_fits : p.param < 0x10000
  pub osc_raw_fits : length p.osc_raw ≤ max_osc_raw
  pub osc_params_fit : length p.osc_params ≤ max_osc_params
  pub chain : IsChain 0 p.osc_params (length p.osc_raw)
  pub whole : p.partial ≡ []

pub IsBounded-if :
    {p q : Parser} (t : Bool) → IsBounded p → IsBounded q → IsBounded (if t then p else q)
IsBounded-if true h k = h
IsBounded-if false h k = k

group_total-append :
    (gs hs : List (List ℕ)) → group_total (gs ++ hs) ≡ group_total gs + group_total hs
group_total-append [] hs = omega arith
group_total-append (g ∷ gs) hs = omega (arith, group_total-append gs hs)

group_total-extend_last :
    (gs : List (List ℕ)) (v : ℕ) → group_total (extend_last gs v) ≡ group_total gs + 1
unfolding extend_last
group_total-extend_last [] v = omega arith
group_total-extend_last (g ∷ []) v = omega (arith, length-append g (v ∷ []))
group_total-extend_last (g ∷ h ∷ gs) v = omega (arith, group_total-extend_last (h ∷ gs) v)

IsChain-grows :
    (from : ℕ) (ps : List (ℕ × ℕ)) (n m : ℕ) → n ≤ m → IsChain from ps n → IsChain from ps m
IsChain-grows from [] n m h c = tt
IsChain-grows from ((start, end) ∷ rest) n m h (e, i, j, c) =
    (e, i, omega arith, IsChain-grows end rest n m h c)

-- The chain with a parameter up to the end of the text.
IsChain-push :
    (from : ℕ) (ps : List (ℕ × ℕ)) (n : ℕ)
    → from ≤ n
    → IsChain from ps n
    → IsChain from (ps ++ (osc_end_of from ps, n) ∷ []) n
unfolding osc_end_of
IsChain-push from [] n h c = (refl, h, omega arith, tt)
IsChain-push from ((start, end) ∷ rest) n h (e, i, j, c) = (e, i, j, IsChain-push end rest n j c)

slices-Holds :
    (raw : List ℕ) (from : ℕ) (ps : List (ℕ × ℕ))
    → IsChain from ps (length raw)
    → Holds (λ parts. length parts ≡ length ps) (slices raw ps)
unfolding slices slice
slices-Holds raw from [] c = holds refl
slices-Holds raw from ((start, end) ∷ rest) (e, i, j, c) =
    let inside : (leb start end && leb end (length raw)) ≡ true = ground arith in
    rw inside (Holds-bind (slices-Holds raw end rest c) (λ more l. holds (ap suc l)))

module _ {p : Parser} (b : IsBounded p) where
  pub goto-IsBounded : (state : State) → IsBounded (goto p state)
  goto-IsBounded state = ground arith

  pub act-IsBounded : (action : Action) → IsBounded (act p action)
  act-IsBounded action = ground arith

  pub reset_params-IsBounded : IsBounded (reset_params p)
  unfolding reset_params
  reset_params-IsBounded = ground arith

  pub collect-IsBounded : (byte : ℕ) → IsBounded (collect p byte)
  unfolding collect
  collect-IsBounded byte = ground (arith, length-append p.intermediates (byte ∷ []))

  pub subparam-IsBounded : IsBounded (subparam p)
  unfolding subparam extend_param
  subparam-IsBounded = ground (arith, group_total-extend_last p.params.subparams p.param)

  pub store_param-IsBounded : IsBounded (store_param p)
  unfolding store_param extend_param push_param
  store_param-IsBounded = ground (
    arith,
    group_total-extend_last p.params.subparams p.param,
    group_total-append p.params.subparams ((p.param ∷ []) ∷ []),
  )

  pub store_last-IsBounded : IsBounded (store_last p)
  unfolding store_last push_param
  store_last-IsBounded = ground (arith, group_total-append p.params.subparams ((p.param ∷ []) ∷ []))

  pub paramnext-IsBounded : (byte : ℕ) → IsBounded (paramnext p byte)
  unfolding paramnext
  paramnext-IsBounded byte = ground arith

  pub clear_osc-IsBounded : IsBounded (clear_osc p)
  unfolding clear_osc
  clear_osc-IsBounded = ground arith

  pub osc_put-IsBounded : (byte : ℕ) → IsBounded (osc_put p byte)
  unfolding osc_put
  osc_put-IsBounded byte = elim (Bool-cases (ltb (length p.osc_raw) max_osc_raw)) [
    | inl room ↦
        let longer = length-append p.osc_raw (byte ∷ []) in
        rw room (record {
          intermediates_fit = b.intermediates_fit;
          params_fit = b.params_fit;
          counted = b.counted;
          param_fits = b.param_fits;
          osc_raw_fits = ground arith;
          osc_params_fit = b.osc_params_fit;
          chain = IsChain-grows 0 p.osc_params _ _ (omega arith) b.chain;
          whole = b.whole;
        })
    | inr full ↦ rw full b
  ]

  pub osc_put_param-IsBounded : IsBounded (osc_put_param p)
  unfolding osc_put_param
  osc_put_param-IsBounded = elim (Bool-cases (leb max_osc_params (length p.osc_params))) [
    | inl full ↦ rw full b
    | inr room ↦
        let longer =
          length-append p.osc_params ((osc_end_of 0 p.osc_params, length p.osc_raw) ∷ []) in
        rw room (record {
          intermediates_fit = b.intermediates_fit;
          params_fit = b.params_fit;
          counted = b.counted;
          param_fits = b.param_fits;
          osc_raw_fits = b.osc_raw_fits;
          osc_params_fit = ground arith;
          chain = IsChain-push 0 p.osc_params (length p.osc_raw) (omega arith) b.chain;
          whole = b.whole;
        })
  ]

cleared-IsBounded :
    {p : Parser} → IsBounded p → IsBounded (record p { param = 0; subparam_continuation = false })
cleared-IsBounded b = ground arith

module _ {p : Parser} (b : IsBounded p) where
  pub next_param-IsBounded : IsBounded (next_param p)
  unfolding next_param
  next_param-IsBounded = cleared-IsBounded (store_param-IsBounded b)

module _ {p : Parser} (b : IsBounded p) where
  pub dispatch_csi-IsBounded : (byte : ℕ) → IsBounded (dispatch_csi p byte)
  unfolding dispatch_csi
  dispatch_csi-IsBounded byte = goto-IsBounded (act-IsBounded (next_param-IsBounded b) _) _

  pub dispatch_hook-IsBounded : (byte : ℕ) → IsBounded (dispatch_hook p byte)
  unfolding dispatch_hook
  dispatch_hook-IsBounded byte = goto-IsBounded (act-IsBounded (store_last-IsBounded b) _) _

  pub osc_end-IsBounded : (byte : ℕ) → Holds IsBounded (osc_end p byte)
  unfolding osc_end
  osc_end-IsBounded byte =
      let q = osc_put_param-IsBounded b in
      Holds-bind (slices-Holds _ 0 _ q.chain)
        (λ parts l. holds (clear_osc-IsBounded (act-IsBounded q _)))
