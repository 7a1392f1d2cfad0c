-- ===== src/Platform/Xcb/Capture/Runs.antt =====
-- src/platform/xcb.cpp, XcbInputCapture: any sequence of calls.
use mksync.Prelude.{
  ℕ, ℤ, Bool, true, false, not, ◌&&◌, List, [], ◌∷◌, Option, none, some, ◌≡◌, refl, Result,
  if◌then◌else◌, arith, Bool-cases, if_rule, Option-cases, Result-cases, ◌⊎◌, inl, inr, subst, sym,
}
use mksync.Core.Events.{InputEvent}
use mksync.Platform.Xcb.Connection.{Errc, check}
use mksync.Platform.Xcb.Screens.{XcbScreen, local_to_global, coordinate_fits}
use mksync.Platform.Xcb.Capture.{Capture, Answers}
use mksync.Platform.Xcb.Capture.Resources.{destroy_grab_window, free_hidden_cursor}
use mksync.Platform.Xcb.Capture.Grab.{ungrab_keyboard, ungrab_pointer, release_remote_control}
use mksync.Platform.Xcb.Capture.Calls.{
  set_remote_control_active, warp_to, move_local_cursor, close_connection, prepare, open_connection,
  initialize,
}
use mksync.Platform.Xcb.Capture.Holding.{
  IsConsistent, is_closed, is_idle, is_active, idle, active, initial, remove_one, release-idle,
  Outcome, failed, grabbed, acquire_remote_control-Outcome,
}
use mksync.Platform.Xcb.Events.{
  Display, XEvent, translate_core_mouse_move, translate_core_event, translate_event, motion_notify,
  button_press, button_release, key_press, key_release, protocol_error, mapping_notify, other_core,
  other_generic, raw_motion, raw_button_press, raw_button_release, raw_key_press, raw_key_release,
}

-- The calls of the `InputCapture` interface, with the server's answers; `event` is one turn of
-- `nextEvent`, which throws without a connection or a poller.
pub data Call : Type 0 where
  initialize_with : Answers → Call
  set_active : Answers → Bool → Call
  move_cursor : Answers → List XcbScreen → ℕ → ℤ → ℤ → Call
  event : Display → XEvent → Call
  shutdown : Call

unfoldable pub next_event : Display → Capture → XEvent → Capture × Option InputEvent
unfolding translate_event
next_event d c e = if c.connected && c.has_poller then translate_event d c e else (c, none)

unfoldable pub apply : Call → Capture → Capture
unfolding initialize set_remote_control_active move_local_cursor next_event close_connection
apply (initialize_with a) c = (initialize a c).0
apply (set_active a active) c = (set_remote_control_active a c active).0
apply (move_cursor a screens i x y) c = (move_local_cursor a screens c i x y).0
apply (event d e) c = (next_event d c e).0
apply shutdown c = close_connection c

unfoldable pub run : List Call → Capture → Capture
unfolding apply
run [] c = c
run (call ∷ rest) c = run rest (apply call c)

pub close-closed :
    {c : Capture} → IsConsistent c → close_connection c ≡ idle false none none false false
unfolding close_connection release_remote_control destroy_grab_window ungrab_pointer ungrab_keyboard
    free_hidden_cursor
close-closed is_closed = refl
close-closed (is_idle none last s p) = refl
close-closed (is_idle (some id) last s p) = rw (remove_one id) refl
close-closed (is_active cursor window true last s p) =
    rw (remove_one window, remove_one cursor) refl
close-closed (is_active cursor window false last s p) =
    rw (remove_one window, remove_one cursor) refl

open_connection-IsConsistent :
    (a : Answers) → IsConsistent ((open_connection a (idle false none none false false)).0)
unfolding open_connection prepare
open_connection-IsConsistent a = elim (Result-cases a.connects) [
  | inr (e, q) ↦ rw (q) is_closed
  | inl (u, q) ↦ elim (Result-cases a.selects) [
    | inr (e, r) ↦ rw (q, r, close-closed (is_idle none none false false)) is_closed
    | inl (u', r) ↦ elim (Bool-cases a.allocates_key_symbols) [
      | inr k ↦ rw (q, r, k, close-closed (is_idle none none false false)) is_closed
      | inl k ↦ elim (Result-cases a.makes_poller) [
        | inr (e, p) ↦ rw (q, r, k, p) (is_idle none none true false)
        | inl (v, p) ↦ rw (q, r, k, p) (is_idle none none true true)
      ]
    ]
  ]
]

initialize-IsConsistent :
    (a : Answers) {c : Capture} → IsConsistent c → IsConsistent ((initialize a c).0)
unfolding initialize
initialize-IsConsistent a {c} h =
    subst (λ closed. IsConsistent ((open_connection a closed).0)) (sym (close-closed h))
      (open_connection-IsConsistent a)

-- Where the pointer was last seen does not matter.
moved-IsConsistent :
    {c : Capture} (p : Option (ℤ × ℤ))
    → IsConsistent c
    → c.connected ≡ true
    → IsConsistent (record c { last_core_pointer = p })
moved-IsConsistent p is_closed e = cc
moved-IsConsistent p (is_idle cursor last s q) e = is_idle cursor p s q
moved-IsConsistent p (is_active cursor window k last s q) e = is_active cursor window k p s q

acquired-IsConsistent :
    {symbols poller : Bool} {r : Capture × Result Errc (Unit {0})}
    → Outcome symbols poller r
    → IsConsistent r.0
acquired-IsConsistent (failed cursor last e) = is_idle cursor last _ _
acquired-IsConsistent (grabbed cursor window keyboard last) =
    is_active cursor window keyboard last _ _

set_remote_control_active-IsConsistent :
    (a : Answers) (wanted : Bool) {c : Capture}
    → IsConsistent c
    → IsConsistent ((set_remote_control_active a c wanted).0)
unfolding set_remote_control_active
set_remote_control_active-IsConsistent a wanted is_closed = is_closed
set_remote_control_active-IsConsistent a true (is_idle cursor last s p) =
    acquired-IsConsistent (acquire_remote_control-Outcome a last s p cursor)
set_remote_control_active-IsConsistent a false (is_idle cursor last s p) = is_idle cursor last s p
set_remote_control_active-IsConsistent a true (is_active cursor window k last s p) =
    is_active cursor window k last s p
set_remote_control_active-IsConsistent a false (is_active cursor window k last s p) =
    rw (release-idle cursor window k last s p) (is_idle (some cursor) none s p)

warp_to-IsConsistent :
    (a : Answers) {c : Capture} (g : ℤ × ℤ)
    → IsConsistent c
    → c.connected ≡ true
    → IsConsistent ((warp_to a c g).0)
unfolding warp_to check
warp_to-IsConsistent a {c} (x, y) h e = elim (Bool-cases (coordinate_fits x && coordinate_fits y)) [
  | inr f ↦ rw f h
  | inl f ↦ elim (Bool-cases a.warps) [
    | inr w ↦ rw (f, w) h
    | inl w ↦ rw (f, w) (moved-IsConsistent (some (x, y)) h e)
  ]
]

move_local_cursor-IsConsistent :
    (a : Answers) (screens : List XcbScreen) {c : Capture} (i : ℕ) (x y : ℤ)
    → IsConsistent c
    → IsConsistent ((move_local_cursor a screens c i x y).0)
unfolding move_local_cursor
move_local_cursor-IsConsistent a screens i x y is_closed = is_closed
move_local_cursor-IsConsistent a screens i x y (is_idle cursor last s p) =
    elim (Option-cases (local_to_global screens i x y)) [
      | inl l ↦ rw l (is_idle cursor last s p)
      | inr (g, l) ↦ rw l (warp_to-IsConsistent a g (is_idle cursor last s p) refl)
    ]
move_local_cursor-IsConsistent a screens i x y (is_active cursor window k last s p) =
    elim (Option-cases (local_to_global screens i x y)) [
      | inl l ↦ rw l (is_active cursor window k last s p)
      | inr (g, l) ↦ rw l (warp_to-IsConsistent a g (is_active cursor window k last s p) refl)
    ]

-- The only event that changes the capture is a motion of the core pointer.
translate_core_event-IsConsistent :
    (d : Display) {c : Capture} (e : XEvent)
    → IsConsistent c
    → c.connected ≡ true
    → IsConsistent ((translate_core_event d c e).0)
unfolding translate_core_event translate_core_mouse_move
translate_core_event-IsConsistent d (motion_notify x y) h e = moved-IsConsistent (some (x, y)) h e
translate_core_event-IsConsistent d (button_press k x y) h e = h
translate_core_event-IsConsistent d (button_release k x y) h e = h
translate_core_event-IsConsistent d (key_press k) h e = h
translate_core_event-IsConsistent d (key_release k) h e = h
translate_core_event-IsConsistent d protocol_error h e = h
translate_core_event-IsConsistent d mapping_notify h e = h
translate_core_event-IsConsistent d other_core h e = h
translate_core_event-IsConsistent d other_generic h e = h
translate_core_event-IsConsistent d (raw_motion x y) h e = h
translate_core_event-IsConsistent d (raw_button_press k) h e = h
translate_core_event-IsConsistent d (raw_button_release k) h e = h
translate_core_event-IsConsistent d (raw_key_press k) h e = h
translate_core_event-IsConsistent d (raw_key_release k) h e = h

-- The raw translation is tried when the core one gives no event; the state is that of the latter.
translate_event-state :
    (d : Display) (c : Capture) (e : XEvent)
    → ((translate_event d c e).0 ≡ c) ⊎ ((translate_event d c e).0 ≡ (translate_core_event d c e).0)
unfolding translate_event
translate_event-state d c e =
    elim (Bool-cases (c.remote_control_active && not d.raw_events_during_grab)) [
      | inr b ↦ inl (rw b refl)
      | inl b ↦ elim (Option-cases ((translate_core_event d c e).1)) [
        | inl o ↦ inr (rw (b, o) refl)
        | inr (t, o) ↦ inr (rw (b, o) refl)
      ]
    ]

next_event-IsConsistent :
    (d : Display) {c : Capture} (e : XEvent) → IsConsistent c → IsConsistent ((next_event d c e).0)
unfolding next_event
next_event-IsConsistent d {c} e h =
    if_rule (λ r. IsConsistent r.0) (c.connected && c.has_poller) (translate_event d c e) (c, none)
      (λ b. elim (translate_event-state d c e) [
        | inl q ↦ subst IsConsistent (sym q) h
        | inr q ↦
            subst IsConsistent (sym q) (translate_core_event-IsConsistent d e h (ground (arith, b)))
      ])
      (λ b. h)

apply-IsConsistent : (call : Call) {c : Capture} → IsConsistent c → IsConsistent (apply call c)
unfolding apply
apply-IsConsistent (initialize_with a) h = initialize-IsConsistent a h
apply-IsConsistent (set_active a wanted) h = set_remote_control_active-IsConsistent a wanted h
apply-IsConsistent (move_cursor a screens i x y) h =
    move_local_cursor-IsConsistent a screens i x y h
apply-IsConsistent (event d e) h = next_event-IsConsistent d e h
apply-IsConsistent shutdown {c} h = subst IsConsistent (sym (close-closed h)) is_closed

-- Whatever is called and whatever the X server answers, a new capture is in one of three states:
-- closed with nothing held; connected with at most the hidden cursor held; or controlling, with
-- the cursor, the window, the pointer and perhaps the keyboard held. The flags tell which, and the
-- server holds no pixmap and no graphic context.
pub run-IsConsistent : (calls : List Call) → IsConsistent (run calls initial)
unfolding run
run-IsConsistent calls = from calls is_closed
  where
    from : (calls : List Call) {c : Capture} → IsConsistent c → IsConsistent (run calls c)
    from [] h = h
    from (call ∷ rest) h = from rest (apply-IsConsistent call h)
