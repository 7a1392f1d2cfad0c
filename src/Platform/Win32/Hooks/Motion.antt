-- ===== src/Platform/Win32/Hooks/Motion.antt =====
-- src/platform/win32.cpp, Win32InputCapture: runs of motions under remote control.
use mksync.Prelude.{
  ℕ, suc, ◌+◌, Bool, not, ◌&&◌, pos, true, false, arith, List, [], ◌∷◌, Option, none, some, ◌≡◌,
  refl, if◌then◌else◌, Bool-cases, inl, inr, ◌∙◌,
}
use mksync.Core.Events.{InputEvent, move_event, button_event, wheel_event, key_event}
use mksync.Platform.Win32.Desktop.{Desktop, Point}
use mksync.Platform.Win32.Monitors.{Win32Monitor, global_to_monitor}
use mksync.Platform.Win32.Capture.{Capture}
use mksync.Platform.Win32.Hooks.{
  MouseInfo, swallowed, mouse_move, is_at, difference, translate_mouse_move, translate_on_monitor,
  translate_mouse_event, recenter, try_enqueue, mouse_hook_proc,
}

-- A motion of the mouse to a point: whether it is injected, and whether the channel takes its event.
pub record Motion : Type 0 where
  pub point : Point
  pub injected : Bool
  pub takes : Bool

abbrev pub motion : Motion → MouseInfo
motion m = record { pt = m.point; mouse_data = 0; injected = m.injected }

-- The deltas of the motions among events.
abbrev pub deltas : List InputEvent → List Point
deltas [] = []
deltas (move_event m ∷ rest) = (m.delta_x, m.delta_y) ∷ deltas rest
deltas (button_event b ∷ rest) = deltas rest
deltas (wheel_event v ∷ rest) = deltas rest
deltas (key_event k ∷ rest) = deltas rest

-- What comes next stands first.
abbrev pub newest_first : List Point → List Point → List Point
newest_first [] before = before
newest_first (d ∷ ds) before = newest_first ds (d ∷ before)

-- A motion that is not injected and leads away from the anchor.
abbrev leads_away : Point → Motion → Bool
leads_away anchor m = not m.injected && not (is_at (difference m.point anchor) (pos 0, pos 0))

-- How far from the anchor each motion leads that the channel takes.
abbrev pub displacements : Point → List Motion → List Point
displacements anchor [] = []
displacements anchor (m ∷ ms) =
    let rest = displacements anchor ms in
    if leads_away anchor m && m.takes then difference m.point anchor ∷ rest else rest

-- How many motions lead away that the channel does not take.
abbrev pub losses : Point → List Motion → ℕ
losses anchor [] = 0
losses anchor (m ∷ ms) = (if leads_away anchor m && not m.takes then 1 else 0) + losses anchor ms

-- A hooked capture with a channel, under remote control from an anchor.
abbrev pub controlling : Capture → Point → Capture
controlling c anchor = record c {
  is_current = true;
  has_channel = true;
  remote_control_active = true;
  remote_anchor = some anchor;
}

-- The capture once a motion has gone into the channel, and once one has been dropped.
abbrev seen : Capture → ℕ × Point → Point → Point → Capture
seen c (screen, (x, y)) p (dx, dy) = record c {
  last_mouse_global = some p;
  sent =
      move_event (record { x = x; y = y; screen_index = screen; delta_x = dx; delta_y = dy })
      ∷ c.sent;
}

abbrev lost : Capture → Point → Capture
lost c p = record c { last_mouse_global = some p; dropped_events = suc c.dropped_events }

-- Where Windows is after the cursor has been put back after each motion that is not injected.
abbrev pinned_once : {S : Type 0} → Desktop S → Point → Motion → S → S
pinned_once w anchor m s =
    if m.injected then s else if is_at m.point anchor then s else (w.set_cursor_pos anchor s).0

pub pinned : {S : Type 0} → Desktop S → Point → List Motion → S → S
pinned w anchor [] s = s
pinned w anchor (m ∷ ms) s = pinned w anchor ms (pinned_once w anchor m s)

module _ {S : Type 0} (w : Desktop S) (monitors : List Win32Monitor) where
  pub run_motions : List Motion → Capture → S → Option (Capture × S)
  run_motions [] c s = some (c, s)
  run_motions (m ∷ ms) c s =
      elim (mouse_hook_proc w monitors true m.takes mouse_move (motion m) c s) [
        | none ↦ none
        | some (c', s', r) ↦ run_motions ms c' s'
      ]

  -- What one motion does.
  abbrev Moves : Point → Motion → Capture → S → Capture → Type 0
  Moves anchor m c s c' =
      (mouse_hook_proc w monitors true m.takes mouse_move (motion m) (controlling c anchor) s
        ≡ some (controlling c' anchor, pinned_once w anchor m s, swallowed))
      × (deltas c'.sent ≡ (
          if leads_away anchor m && m.takes
          then difference m.point anchor ∷ deltas c.sent
          else deltas c.sent))
      × (c'.dropped_events
          ≡ (if leads_away anchor m && not m.takes then 1 else 0) + c.dropped_events)

  module _
      (known : (s : S) (p : Point)
        → (at : ℕ × Point) × (global_to_monitor w s monitors p ≡ some at)) where
    remote_step :
        (anchor p : Point) (injected takes : Bool) (c : Capture) (s : S)
        → (c' : Capture) × Moves anchor
            (record { point = p; injected = injected; takes = takes })
            c
            s
            c'
    unfolding mouse_hook_proc translate_mouse_event translate_on_monitor translate_mouse_move
        try_enqueue recenter
    remote_step anchor p true takes c s = (c, (refl, refl, omega arith))
    remote_step anchor p false takes c s =
        let (at, e) = known s p in
        elim (Bool-cases (is_at (difference p anchor) (pos 0, pos 0))) [
          | inl still ↦ (
            c,
            (
              rw (e, translate_mouse_event, mouse_hook_proc, still) refl,
              rw still refl,
              rw still (omega arith),
            ),
          )
          | inr away ↦ elim (Bool-cases takes) [
            | inl t ↦ (
              seen c at p (difference p anchor),
              (
                rw (e, translate_mouse_event, mouse_hook_proc, away, t) refl,
                rw (away, t) refl,
                rw (away, t) (omega arith),
              ),
            )
            | inr t ↦ (
              lost c p,
              (
                rw (e, translate_mouse_event, mouse_hook_proc, away, t) refl,
                rw (away, t) refl,
                rw (away, t) (omega arith),
              ),
            )
          ]
        ]

    prepended :
        (anchor : Point) (m : Motion) (ms : List Motion) (c c' : Capture)
        → deltas c'.sent ≡ (
            if leads_away anchor m && m.takes
            then difference m.point anchor ∷ deltas c.sent
            else deltas c.sent)
        → newest_first (displacements anchor ms) (deltas c'.sent)
          ≡ newest_first (displacements anchor (m ∷ ms)) (deltas c.sent)
    prepended anchor m ms c c' grown = elim (Bool-cases (leads_away anchor m && m.takes)) [
      | inl goes ↦ rw (grown, goes) refl
      | inr stays ↦ rw (grown, stays) refl
    ]

    -- Where every point is on a known monitor: under remote control, any run of motions gives the
    -- client the displacement from the anchor of each that is not injected, leads away from it and
    -- finds room in the channel, in their order; those that find no room are counted as dropped, and
    -- injected ones change nothing. The anchor stays, and the cursor is put back to it after each
    -- motion away from it that is not injected.
    pub run_motions-remote :
        (anchor : Point) (ms : List Motion) (c : Capture) (s : S)
        → (c' : Capture) × (run_motions ms (controlling c anchor) s
            ≡ some (controlling c' anchor, pinned w anchor ms s))
          × (deltas c'.sent ≡ newest_first (displacements anchor ms) (deltas c.sent))
          × (c'.dropped_events ≡ losses anchor ms + c.dropped_events)
    unfolding run_motions pinned
    run_motions-remote anchor [] c s = (c, refl, refl, omega arith)
    run_motions-remote anchor (m ∷ ms) c s =
        let (c', (step, grown, dropped)) = remote_step anchor m.point m.injected m.takes c s in
        let (c'', rest, all, more) = run_motions-remote anchor ms c' (pinned_once w anchor m s) in
        (
          c'',
          rw (step, run_motions) rest,
          all ∙ prepended anchor m ms c c' grown,
          omega (arith, more, dropped),
        )
