-- ===== src/Platform/Xcb/Injector/Pointer.antt =====
-- src/platform/xcb.cpp: a pointer position that is injected, as a capture on the same screens sees
-- it.
use mksync.Prelude.{
  ℕ, ℤ, IsInt32, ◌≡◌, refl, true, ◌&&◌, List, ◌∷◌, Option, none, some, ok, Option-cases, inl, inr,
  ap, ◌∙◌,
}
use mksync.Core.Events.{InputEvent, move_event, button_event, wheel_event, key_event}
use mksync.Platform.Xcb.Connection.{check}
use mksync.Platform.Xcb.Screens.{
  XcbScreen, screen_at, is_inside, local_to_global, global_to_screen, root_of, coordinate_fits,
}
use mksync.Platform.Xcb.Screens.Pixels.{Fits, OnScreen}
use mksync.Platform.Xcb.Monitors.{Source, enumerate_screens}
use mksync.Platform.Xcb.Monitors.Numbering.{global_to_screen-enumerated}
use mksync.Platform.Xcb.Capture.{Capture}
use mksync.Platform.Xcb.Events.{translate_core_mouse_move}
use mksync.Platform.Xcb.Injector.{FakeInput, fake_motion, Target, fake_input, move_cursor}
use mksync.Platform.Xcb.Injector.Wheel.{IsWilling}

-- The screen of a mouse event and the pixel on it.
abbrev pub position_of : InputEvent → Option (ℕ × ℤ × ℤ)
position_of (move_event m) = some (m.screen_index, m.x, m.y)
position_of (button_event b) = some (b.screen_index, b.x, b.y)
position_of (wheel_event w) = none
position_of (key_event k) = none

translated :
    (screens : List XcbScreen) (c : Capture) (gx gy : ℤ)
    → position_of ((translate_core_mouse_move screens c gx gy).1)
      ≡ some (global_to_screen screens gx gy)
unfolding translate_core_mouse_move
translated screens c gx gy = elim (Option-cases c.last_core_pointer) [
  | inl e ↦ rw e refl
  | inr (p, e) ↦ rw e refl
]

moved :
    (t : Target) (i : ℕ) (s : XcbScreen) (x y gx gy : ℤ) (log : List FakeInput)
    → IsWilling t
    → screen_at t.screens i ≡ some s
    → local_to_global t.screens i x y ≡ some (gx, gy)
    → (coordinate_fits gx && coordinate_fits gy) ≡ true
    → move_cursor t i x y log ≡ (fake_motion s.root gx gy ∷ log, ok tt)
unfolding move_cursor root_of fake_input check
moved t i s x y gx gy log willing h go fits =
    rw
      (
        move_cursor,
        go,
        root_of,
        h,
        fits,
        willing.0 log (fake_motion s.root gx gy),
        willing.1 (fake_motion s.root gx gy ∷ log),
      )
      refl

-- On enumerated screens within `int32_t` and a server that accepts every request: a pixel of a
-- screen whose place on the display fits `int16_t` and lies on no other screen is reached by one
-- request, and a capture that sees the pointer there gives the same screen and pixel.
pub position_of-move_cursor :
    (src : Source) (t : Target) (i : ℕ) (s : XcbScreen) (x y gx gy : ℤ) (log : List FakeInput)
    (c : Capture)
    → enumerate_screens src ≡ ok t.screens
    → IsWilling t
    → screen_at t.screens i ≡ some s
    → Fits s.info
    → OnScreen s.info x y
    → IsInt32 x
    → IsInt32 y
    → local_to_global t.screens i x y ≡ some (gx, gy)
    → (coordinate_fits gx && coordinate_fits gy) ≡ true
    → ((j : ℕ) (r : XcbScreen)
        → screen_at t.screens j ≡ some r
        → is_inside r.info gx gy ≡ true
        → j ≡ i)
    → (move_cursor t i x y log ≡ (fake_motion s.root gx gy ∷ log, ok tt))
      × (position_of ((translate_core_mouse_move t.screens c gx gy).1) ≡ some (i, x, y))
position_of-move_cursor src t i s x y gx gy log c e willing h fits on tx ty go small only = (
  moved t i s x y gx gy log willing h go small,
  translated t.screens c gx gy
      ∙ ap some (global_to_screen-enumerated src t.screens i s x y gx gy e h fits on tx ty go only),
)
