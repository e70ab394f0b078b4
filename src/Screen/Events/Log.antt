-- ===== src/Screen/Events/Log.antt =====
-- The event log of src/terminal/screen.rs and its two readers.
use stitch_pty.Prelude.{
  ℕ, ◌-◌, ◌≤◌, ◌≡◌, ◌≢◌, refl, sym, ◌∙◌, Bool, true, false, not, ◌&&◌, ◌||◌, leb, if◌then◌else◌,
  List, [], ◌∷◌, ◌++◌, length, drop, arith,
}
use stitch_pty.Prelude.{length-append, length-drop, Bool-cases, ◌⊎◌, inl, inr}
use stitch_pty.Screen.State.{
  TermEvent, bell, title_changed, icon_changed, cwd_changed, alt_screen_switched, scrollback_grew,
  Screen,
}
use stitch_pty.Screen.Events.{
  max_events, push_event, ring_bell, is_bell, without_bells, has_bell, take_bell, take_events,
}

-- The log has at most `max_events` entries, and a bell in it is also pending.
pub record IsLogged (s : Screen) : Type 0 where
  pub bounded : length s.events ≤ max_events
  pub pending : has_bell s.events ≡ true → s.bell_pending ≡ true

true_ne_false : true ≢ false
true_ne_false e = cc

has_bell-append : (es fs : List TermEvent) → has_bell (es ++ fs) ≡ (has_bell es || has_bell fs)
unfolding has_bell
has_bell-append [] fs = refl
has_bell-append (bell ∷ es) fs = refl
has_bell-append (title_changed t ∷ es) fs = has_bell-append es fs
has_bell-append (icon_changed t ∷ es) fs = has_bell-append es fs
has_bell-append (cwd_changed t ∷ es) fs = has_bell-append es fs
has_bell-append (alt_screen_switched b ∷ es) fs = has_bell-append es fs
has_bell-append (scrollback_grew n ∷ es) fs = has_bell-append es fs

-- Dropping the oldest entry brings no bell.
has_bell-drop : (es : List TermEvent) → has_bell (drop 1 es) ≡ true → has_bell es ≡ true
unfolding has_bell
has_bell-drop [] h = h
has_bell-drop (e ∷ es) h = ground arith

or_false : (b : Bool) → (b || false) ≡ true → b ≡ true
or_false true h = refl
or_false false h = h

told : (c : Bool) (x y : Screen) → (if◌then◌else◌ {A = Screen × Bool} c (x, true) (y, false)).1 ≡ c
told true x y = refl
told false x y = refl

quietened : (b p : Bool) → (if b then false else p) ≡ (p && not b)
quietened true true = refl
quietened true false = refl
quietened false true = refl
quietened false false = refl

kept_bell :
    (b : Bool) (es : List TermEvent)
    → has_bell (if b then drop 1 es else es) ≡ true
    → has_bell es ≡ true
kept_bell true es h = has_bell-drop es h
kept_bell false es h = h

or_cases : (a b : Bool) → (a || b) ≡ true → (a ≡ true) ⊎ (b ≡ true)
or_cases true b h = inl refl
or_cases false b h = inr h

pushed-IsLogged :
    {s : Screen} (event : TermEvent)
    → IsLogged s
    → (is_bell event ≡ true → s.bell_pending ≡ true)
    → IsLogged (push_event s event)
unfolding push_event has_bell
pushed-IsLogged {s} event g ready = record {
  bounded =
      let kept = length-drop 1 s.events in
      let full = length-append (drop 1 s.events) (event ∷ []) in
      let room = length-append s.events (event ∷ []) in ground (arith, g.bounded);
  pending = λ h.
      let b = leb max_events (length s.events) in
      let es = if b then drop 1 s.events else s.events in
      elim (or_cases (has_bell es) _ (sym (has_bell-append es (event ∷ [])) ∙ h)) [
        | inl old ↦ g.pending (kept_bell b s.events old)
        | inr new ↦ ready (or_false _ new)
      ];
}

-- The last `n` of a log.
abbrev pub latest : ℕ → List TermEvent → List TermEvent
latest n es = drop (length es - n) es

latest-push :
    (es : List TermEvent) (event : TermEvent)
    → length es ≤ max_events
    → (if leb max_events (length es) then drop 1 es else es) ++ event ∷ []
      ≡ latest max_events (es ++ event ∷ [])
latest-push [] event h = refl
latest-push (e ∷ es) event h =
    let size = length-append (e ∷ es) (event ∷ []) in
    elim (Bool-cases (leb max_events (length (e ∷ es)))) [
      | inl full ↦
          let one : length ((e ∷ es) ++ event ∷ []) - max_events ≡ 1 = ground (arith, size) in
          rw (full, one) refl
      | inr room ↦
          let none : length ((e ∷ es) ++ event ∷ []) - max_events ≡ 0 = ground (arith, size) in
          rw (room, none) refl
    ]

-- Any event may be pushed when a bell in the log, or the event itself, is pending. The log then has
-- the latest `max_events` entries of the old log and the event behind it, and a bell in it is
-- pending; the flag of the bell is as before.
pub push_event-IsLogged :
    {s : Screen} (event : TermEvent)
    → IsLogged s
    → (is_bell event ≡ true → s.bell_pending ≡ true)
    → IsLogged (push_event s event)
      × ((push_event s event).events ≡ latest max_events (s.events ++ event ∷ []))
      × ((push_event s event).bell_pending ≡ s.bell_pending)
unfolding push_event
push_event-IsLogged {s} event g ready =
    (pushed-IsLogged event g ready, latest-push s.events event g.bounded, refl)

pub ring_bell-IsLogged : {s : Screen} → IsLogged s → IsLogged (ring_bell s)
unfolding ring_bell
ring_bell-IsLogged {s} g =
    pushed-IsLogged {s = record s { bell_pending = true }} bell
      (record { bounded = g.bounded; pending = λ h. refl }) (λ h. refl)

abbrev cleared : Screen → Screen
cleared s = record s { bell_pending = false; events = without_bells s.events }

-- `take_bell`, by the flag.
abbrev taken : Screen → Bool → Screen × Bool
taken s b = if b then (cleared s, true) else (s, false)

-- `take_events` on a logged screen gives the log and leaves it empty. When the log had a bell, a
-- `take_bell` behind it tells false. When it had none, `take_bell` still tells of a pending bell,
-- whose entry a full log has dropped.
pub take_events-once :
    {s : Screen}
    → IsLogged s
    → let r = take_events s in
      (r.1 ≡ s.events)
      × IsLogged r.0
      × ((take_events r.0).1 ≡ [])
      × ((take_bell r.0).1 ≡ (s.bell_pending && not (has_bell s.events)))
unfolding take_events take_bell has_bell
take_events-once {s} g = (
  refl,
  record { bounded = omega arith; pending = λ h. absurd (true_ne_false (sym h)) },
  refl,
  unfold take_bell in (told _ _ _ ∙ quietened (has_bell s.events) s.bell_pending),
)
