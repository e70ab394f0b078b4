-- ===== src/History/Bounds.antt =====
-- The rows of the history in src/terminal/history.rs: what is kept of the rows that are pushed.
use stitch_pty.Prelude.{
  ℕ, zero, suc, ◌-◌, ◌<◌, ◌≤◌, ◌≡◌, refl, sym, ap, ◌∙◌, Bool, true, false, ◌&&◌, ltb, leb,
  if◌then◌else◌, List, [], ◌∷◌, ◌++◌, length, drop, arith, Bool-cases, inl, inr, length-append,
  length-drop, drop-drop, drop-append, append-nil, append_assoc,
}
use stitch_pty.Prelude.{Holds, holds, Holds-bind, Holds-map}
use stitch_pty.Screen.State.{Row, Rows, Screen}
use stitch_pty.History.{HistoryScreen, drain, trim_history, push_history}
use stitch_pty.History.Flatten.{with_flags}
use stitch_pty.History.Reflow.{push_rows, drain_rows, drain_scrolled_off}

-- The reference: the latest `cap` elements, or all of them if `cap` is 0.
unfoldable pub latest {ℓ} : {A : Type ℓ} → ℕ → List A → List A
latest cap xs = if ltb 0 cap then drop (length xs - cap) xs else xs

latest-append {ℓ} :
    {A : Type ℓ} (cap : ℕ) (xs ys : List A)
    → latest cap (latest cap xs ++ ys) ≡ latest cap (xs ++ ys)
unfolding latest
latest-append cap xs ys = elim (Bool-cases (ltb 0 cap)) [
  | inl y ↦
      let k = length xs - cap in
      let front = drop-append k xs ys (omega arith) in
      let size = length-append (drop k xs) ys in
      let left = length-drop k xs in
      let all = length-append xs ys in
      rw y (
        ap (λ zs. drop (length (drop k xs ++ ys) - cap) zs) (sym front)
        ∙ drop-drop (length (drop k xs ++ ys) - cap) k (xs ++ ys)
        ∙ ap (λ n. drop n (xs ++ ys)) (ground arith))
  | inr n ↦ rw n refl
]

with_flags-append :
    (rows more : Rows) (flags f : List Bool)
    → length rows ≡ length flags
    → with_flags (rows ++ more) (flags ++ f) ≡ with_flags rows flags ++ with_flags more f
unfolding with_flags
with_flags-append [] more [] f e = refl
with_flags-append [] more (w ∷ flags) f e = absurd (omega arith)
with_flags-append (row ∷ rows) more [] f e = absurd (omega arith)
with_flags-append (row ∷ rows) more (w ∷ flags) f e =
    ap (λ xs. (row, w) ∷ xs) (with_flags-append rows more flags f (omega arith))

with_flags-drop :
    (n : ℕ) (rows : Rows) (flags : List Bool)
    → length rows ≡ length flags
    → with_flags (drop n rows) (drop n flags) ≡ drop n (with_flags rows flags)
unfolding with_flags
with_flags-drop zero rows flags e = refl
with_flags-drop (suc n) [] [] e = refl
with_flags-drop (suc n) [] (w ∷ flags) e = absurd (omega arith)
with_flags-drop (suc n) (row ∷ rows) [] e = absurd (omega arith)
with_flags-drop (suc n) (row ∷ rows) (w ∷ flags) e = with_flags-drop n rows flags (omega arith)

pub length-with_flags :
    (rows : Rows) (flags : List Bool) → length (with_flags rows flags) ≡ length rows
unfolding with_flags
length-with_flags [] flags = refl
length-with_flags (row ∷ rows) [] = ap suc (length-with_flags rows [])
length-with_flags (row ∷ rows) (w ∷ flags) = ap suc (length-with_flags rows flags)

-- The abstract history: its rows with their flags.
abbrev pub lines_of : HistoryScreen → List (Row × Bool)
lines_of h = with_flags h.history h.history_wrapped

-- A history of which the flags go with the rows: `h` was made of `old` by a change of the rows only.
pub record Keeps (old : HistoryScreen) (rows : List (Row × Bool)) (h : HistoryScreen) : Type 0 where
  pub parallel : length h.history ≡ length h.history_wrapped
  pub kept : lines_of h ≡ latest old.scrollback_lines rows
  pub same_cap : h.scrollback_lines ≡ old.scrollback_lines
  pub same_inner : h.inner ≡ old.inner

latest-all {ℓ} :
    {A : Type ℓ} (cap : ℕ) (xs : List A)
    → (ltb 0 cap && ltb cap (length xs)) ≡ false
    → latest cap xs ≡ xs
unfolding latest
latest-all cap xs e = elim (Bool-cases (ltb 0 cap)) [
  | inl y ↦ rw y (ap (λ n. drop n xs) {x = length xs - cap} {y = 0} (ground arith))
  | inr n ↦ rw n refl
]

latest-cut {ℓ} :
    {A : Type ℓ} (cap : ℕ) (xs : List A)
    → ltb 0 cap ≡ true
    → latest cap xs ≡ drop (length xs - cap) xs
unfolding latest
latest-cut cap xs e = rw e refl

-- The rows that are too many go, with their flags.
pub trim_history-Keeps :
    (h : HistoryScreen)
    → length h.history ≡ length h.history_wrapped
    → Holds (Keeps h (lines_of h)) (trim_history h)
unfolding trim_history drain
trim_history-Keeps h e =
    let cap = h.scrollback_lines in
    let excess = length h.history - cap in
    elim (Bool-cases (ltb 0 cap && ltb cap (length h.history))) [
      | inl over ↦
          let in_rows : leb excess (length h.history) ≡ true = ground arith in
          let in_flags : leb excess (length h.history_wrapped) ≡ true = ground arith in
          let some_cap : ltb 0 cap ≡ true = ground arith in
          let rows = length-drop excess h.history in
          let flags = length-drop excess h.history_wrapped in
          rw over (
            rw in_rows (
              rw in_flags (
                holds (record {
                  parallel = omega arith;
                  kept =
                      with_flags-drop excess h.history h.history_wrapped e
                      ∙ ap (λ n. drop (n - cap) (lines_of h))
                          (sym (length-with_flags h.history h.history_wrapped))
                      ∙ sym (latest-cut cap (lines_of h) some_cap);
                  same_cap = refl;
                  same_inner = refl;
                }))))
      | inr fits ↦ rw fits (
          holds (record {
            parallel = e;
            kept = sym (
                latest-all cap (lines_of h) (
                  ap (λ n. ltb 0 cap && ltb cap n) (length-with_flags h.history h.history_wrapped)
                  ∙ fits));
            same_cap = refl;
            same_inner = refl;
          }))
    ]

pub push_history-Keeps :
    (h : HistoryScreen) (line : Row) (wrapped : Bool)
    → length h.history ≡ length h.history_wrapped
    → Holds (Keeps h (lines_of h ++ (line, wrapped) ∷ [])) (push_history h line wrapped)
unfolding push_history with_flags
push_history-Keeps h line wrapped e =
    let rows = length-append h.history (line ∷ []) in
    let flags = length-append h.history_wrapped (wrapped ∷ []) in
    Holds-map (trim_history-Keeps _ (omega arith)) (λ h' k. record {
      parallel = k.parallel;
      kept =
          k.kept
          ∙ ap (latest h.scrollback_lines)
              (with_flags-append h.history (line ∷ []) h.history_wrapped (wrapped ∷ []) e);
      same_cap = k.same_cap;
      same_inner = k.same_inner;
    })

-- A push, and the pushes that follow.
then-Keeps :
    (h h1 h2 : HistoryScreen) (x : Row × Bool) (rows : List (Row × Bool))
    → Keeps h (lines_of h ++ x ∷ []) h1
    → Keeps h1 (lines_of h1 ++ rows) h2
    → Keeps h (lines_of h ++ x ∷ rows) h2
then-Keeps h h1 h2 x rows k l = record {
  parallel = l.parallel;
  kept =
      l.kept
      ∙ ap (λ cap. latest cap (lines_of h1 ++ rows)) k.same_cap
      ∙ ap (λ ls. latest h.scrollback_lines (ls ++ rows)) k.kept
      ∙ latest-append h.scrollback_lines (lines_of h ++ x ∷ []) rows
      ∙ ap (latest h.scrollback_lines) (append_assoc (lines_of h) (x ∷ []) rows);
  same_cap = l.same_cap ∙ k.same_cap;
  same_inner = l.same_inner ∙ k.same_inner;
}

push_rows-Keeps :
    (x : Row × Bool) (rows : List (Row × Bool)) (h : HistoryScreen)
    → length h.history ≡ length h.history_wrapped
    → Holds (Keeps h (lines_of h ++ x ∷ rows)) (push_rows h (x ∷ rows))
unfolding push_rows
push_rows-Keeps x [] h e = Holds-bind (push_history-Keeps h x.0 x.1 e) (λ h1 k. holds k)
push_rows-Keeps x (y ∷ rows) h e = Holds-bind (push_history-Keeps h x.0 x.1 e) (λ h1 k.
    Holds-map (push_rows-Keeps y rows h1 k.parallel) (λ h2 l. then-Keeps h h1 h2 x (y ∷ rows) k l))

-- The history within its cap.
pub record IsHistory (h : HistoryScreen) : Type 0 where
  pub parallel : length h.history ≡ length h.history_wrapped
  pub capped : 0 < h.scrollback_lines → length h.history ≤ h.scrollback_lines

latest-fits {ℓ} : {A : Type ℓ} (cap : ℕ) (xs : List A) → 0 < cap → length (latest cap xs) ≤ cap
unfolding latest
latest-fits cap xs h =
    let some_cap : ltb 0 cap ≡ true = ground arith in
    let left = length-drop (length xs - cap) xs in rw some_cap (omega arith)

pub Keeps-IsHistory :
    {old h : HistoryScreen} {rows : List (Row × Bool)} → Keeps old rows h → IsHistory h
Keeps-IsHistory {old} {h} {rows} k = record {
  parallel = k.parallel;
  capped = λ pos.
      let fits = latest-fits old.scrollback_lines rows (omega (arith, k.same_cap)) in
      omega
        (arith, fits, ap length k.kept, k.same_cap, length-with_flags h.history h.history_wrapped);
}

latest-same {ℓ} :
    {A : Type ℓ} (cap : ℕ) (xs : List A) → (0 < cap → length xs ≤ cap) → latest cap xs ≡ xs
latest-same cap xs h = latest-all cap xs (ground arith)

flagged-Keeps :
    (row : Row) (rows : Rows) (flags : List Bool) (h : HistoryScreen)
    → length h.history ≡ length h.history_wrapped
    → Holds
        (Keeps h (lines_of h ++ with_flags (row ∷ rows) flags))
        (push_rows h (with_flags (row ∷ rows) flags))
unfolding with_flags
flagged-Keeps row rows [] h e = push_rows-Keeps (row, false) (with_flags rows []) h e
flagged-Keeps row rows (w ∷ flags) h e = push_rows-Keeps (row, w) (with_flags rows flags) h e

-- The history when the rows that scrolled off the screen have gone there.
pub record Drained (h h' : HistoryScreen) : Type 0 where
  pub bounded : IsHistory h'
  pub refines :
      lines_of h'
      ≡ latest h.scrollback_lines
          (lines_of h ++ with_flags h.inner.scrolled_off h.inner.scrolled_off_wrapped)
  pub same_cap : h'.scrollback_lines ≡ h.scrollback_lines
  pub emptied : h'.inner.scrolled_off ≡ []
  pub captured :
      length h.inner.scrolled_off ≡ length h.inner.scrolled_off_wrapped
      → length h'.inner.scrolled_off ≡ length h'.inner.scrolled_off_wrapped
  pub same_screen :
      record (h'.inner) { scrolled_off = []; scrolled_off_wrapped = [] }
      ≡ record (h.inner) { scrolled_off = []; scrolled_off_wrapped = [] }

drain_rows-Drained :
    (rows : Rows) (h : HistoryScreen)
    → IsHistory h
    → h.inner.scrolled_off ≡ rows
    → Holds (Drained h) (drain_rows rows h)
unfolding drain_rows with_flags
drain_rows-Drained [] h b e = holds (record {
  bounded = b;
  refines =
      sym (
        latest-same h.scrollback_lines (lines_of h)
          (λ pos. omega (arith, b.capped pos, length-with_flags h.history h.history_wrapped)))
      ∙ ap (latest h.scrollback_lines) (
          sym (append-nil (lines_of h))
          ∙ ap (λ off. lines_of h ++ with_flags off h.inner.scrolled_off_wrapped) (sym e));
  same_cap = refl;
  emptied = e;
  captured = λ c. c;
  same_screen = refl;
})
drain_rows-Drained (row ∷ rows) h b e =
    Holds-map (flagged-Keeps row rows h.inner.scrolled_off_wrapped _ b.parallel) (λ h' k. record {
      bounded = Keeps-IsHistory k;
      refines =
          k.kept
          ∙ ap
              (λ off.
                latest h.scrollback_lines
                  (lines_of h ++ with_flags off h.inner.scrolled_off_wrapped))
              (sym e);
      same_cap = k.same_cap;
      emptied = ap (λ s. s.scrolled_off) k.same_inner;
      captured = λ c.
          ap (λ s. length s.scrolled_off) k.same_inner
          ∙ sym (ap (λ s. length s.scrolled_off_wrapped) k.same_inner);
      same_screen = ap (λ s. as_drained s) k.same_inner;
    })
  where
    as_drained : Screen → Screen
    as_drained s = record s { scrolled_off = []; scrolled_off_wrapped = [] }

-- The history behind the rows that scrolled off holds the latest rows of the old history and of
-- those, in that order and each with its wrap flag: as many as the cap allows, or all of them if the
-- cap is 0. Nothing else of the screen changes, and nothing panics.
pub drain_scrolled_off-Drained :
    (h : HistoryScreen) → IsHistory h → Holds (Drained h) (drain_scrolled_off h)
unfolding drain_scrolled_off
drain_scrolled_off-Drained h b = drain_rows-Drained h.inner.scrolled_off h b refl
