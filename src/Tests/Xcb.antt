-- ===== src/Tests/Xcb.antt =====
-- The X11 screens and capture on small inputs.
use mksync.Prelude.{
  All, sub32, ◌-ℤ◌, ◌+ℤ◌, ◌≡◌, refl, ℤ, pos, negsuc, true, false, String, List, [], ◌∷◌, some, ok,
  err, Result, arith,
}
use mksync.Core.Events.{ScreenInfo}
use mksync.Platform.Xcb.Connection.{Errc, io_error, device_or_resource_busy}
use mksync.Platform.Xcb.Screens.{XcbScreen, global_to_screen}
use mksync.Platform.Xcb.Screens.Nearest.{IsIn}
use mksync.Platform.Xcb.Screens.Pixels.{Fits}
use mksync.Platform.Xcb.Screens.Closest.{IsNear, IsClosest, global_to_screen-IsNearestPixel}
use mksync.Platform.Xcb.Capture.{Answers, success, frozen, GrabStatus}
use mksync.Platform.Xcb.Capture.Calls.{set_remote_control_active, close_connection, initialize}
use mksync.Platform.Xcb.Capture.Holding.{IsConsistent, initial}
use mksync.Platform.Xcb.Capture.Runs.{Call, initialize_with, set_active, run, run-IsConsistent}
use mksync.Platform.Xcb.Capture.Release.{
  IsAnswered, set_remote_control_active-IsAnswered, close_connection-run,
}

abbrev answers : GrabStatus → Result Errc (Unit {0}) → Answers
answers status flushes = record {
  connects = ok tt;
  selects = ok tt;
  allocates_key_symbols = true;
  makes_poller = ok tt;
  cursor_id = 41;
  window_id = 42;
  creates_pixmap = true;
  creates_gc = true;
  fills = true;
  creates_cursor = true;
  creates_window = true;
  maps_window = true;
  grabs_pointer = some status;
  grabs_keyboard = some frozen;
  query_pointer = some (pos 3, pos 4);
  warps = true;
  flushes = flushes;
}

abbrev willing : Answers
willing = answers success (ok tt)

abbrev busy : Answers
busy = answers frozen (ok tt)

abbrev calls : List Call
calls = initialize_with willing ∷ set_active busy true ∷ set_active willing true ∷ []

busy_run :
    (set_remote_control_active busy ((initialize willing initial).0) true).1
    ≡ err device_or_resource_busy
unfolding set_remote_control_active initialize
busy_run = refl

run-IsConsistent_example : IsConsistent (run calls initial)
run-IsConsistent_example = run-IsConsistent calls

set_remote_control_active-IsAnswered_example :
    IsAnswered true
      (set_remote_control_active (answers success (err io_error)) (run calls initial) true)
set_remote_control_active-IsAnswered_example =
    set_remote_control_active-IsAnswered calls (answers success (err io_error)) true

close_connection-run_example : close_connection (run calls initial) ≡ initial
close_connection-run_example = close_connection-run calls

abbrev info_at : ℤ → String → ScreenInfo
info_at x name = record {
  x = x;
  y = pos 0;
  width = pos 1920;
  height = pos 1080;
  dpi = pos 96;
  name = name;
  primary = false;
}

abbrev left_screen : XcbScreen
left_screen = record { index = 0; x_screen_number = 0; root = 7; info = info_at (pos 0) "left" }

abbrev right_screen : XcbScreen
right_screen = record {
  index = 1;
  x_screen_number = 0;
  root = 7;
  info = info_at (pos 1920) "right";
}

near : All (λ r. Fits r.info × IsNear (pos 4000, negsuc 9) r.info) (left_screen ∷ right_screen ∷ [])
unfolding ◌-ℤ◌ ◌+ℤ◌
near = (
  (
    (
      (omega arith, omega arith),
      (omega arith, omega arith),
      omega arith,
      omega arith,
      (omega arith, omega arith),
      (omega arith, omega arith),
    ),
    ((pos 1920, pos 0), (omega arith, omega arith, omega arith, omega arith), omega arith),
  ),
  (
    (
      (
        (omega arith, omega arith),
        (omega arith, omega arith),
        omega arith,
        omega arith,
        (omega arith, omega arith),
        (omega arith, omega arith),
      ),
      ((pos 3840, pos 0), (omega arith, omega arith, omega arith, omega arith), omega arith),
    ),
    tt,
  ),
)

global_to_screen-IsNearestPixel_example :
    (r : XcbScreen) × IsIn (pos 4000) (negsuc 9) r (left_screen ∷ right_screen ∷ [])
    × (global_to_screen (left_screen ∷ right_screen ∷ []) (pos 4000) (negsuc 9)
        ≡ (r.index, sub32 (pos 4000) r.info.x, sub32 (negsuc 9) r.info.y))
    × IsClosest (left_screen ∷ right_screen ∷ []) (pos 4000) (negsuc 9) r
global_to_screen-IsNearestPixel_example =
    global_to_screen-IsNearestPixel (pos 4000) (negsuc 9) left_screen (right_screen ∷ []) near
