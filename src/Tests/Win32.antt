-- ===== src/Tests/Win32.antt =====
-- The Windows backend on small inputs.
use mksync.Prelude.{
  ◌+◌, ℕ, zero, suc, is_some, ◌⊎◌, ◌≡◌, refl, ℤ, pos, negsuc, ◌+ℤ◌, ◌-ℤ◌, sub32, Bool, true, false,
  List, [], ◌∷◌, length, none, some, err, Result, arith,
}
use mksync.Platform.Xcb.Capture.Resources.{remove}
use mksync.Platform.Win32.Desktop.{
  Desktop, IsDocumented, HookKind, mouse, keyboard, Point, ErrorCode, no_error,
}
use mksync.Platform.Win32.Monitors.{
  MonitorInfo, Win32Monitor, make_monitor, enumerate_monitors, monitor_at, global_to_monitor,
}
use mksync.Platform.Win32.Startup.{Answers, construct, construct-IsReleased, cleanup, count_down}
use mksync.Platform.Win32.Capture.{Capture, new_capture}
use mksync.Platform.Win32.Capture.Calls.{initialize, set_remote_control_active}
use mksync.Platform.Win32.Capture.Holding.{IsConsistent}
use mksync.Platform.Win32.Capture.Runs.{
  Reach, here, next, initialized, asked_for, Reach-IsConsistent, Answered,
  set_remote_control_active-Answered,
}
use mksync.Platform.Win32.Hooks.{
  Keyboard, MouseInfo, KeyInfo, mouse_move, key_down, mouse_hook_proc, keyboard_hook_proc,
  translate_mouse_event,
}
use mksync.Platform.Win32.Hooks.Delivery.{Delivered, delivery, hooks_deliver}
use mksync.Platform.Win32.Hooks.Motion.{
  Motion, run_motions, pinned, controlling, losses, deltas, newest_first, displacements,
  run_motions-remote,
}
use mksync.Platform.Win32.Injector.{move_cursor}
use mksync.Platform.Win32.Injector.Pointer.{position, event_of, position-move_cursor}

-- A Windows that does all that it is asked for, with its display count and its hooks.
abbrev State : Type 0
State = ℤ × List ℕ

abbrev handle_of : HookKind → ℕ
handle_of mouse = 1
handle_of keyboard = 2

abbrev counted : Bool → ℤ → ℤ
counted true d = d +ℤ pos 1
counted false d = d -ℤ pos 1

abbrev windows : Desktop State
windows = record {
  posts = λ s. true;
  show_cursor = λ b s. ((counted b s.0, s.1), counted b s.0);
  cursor_pos = λ s. some (pos 100, pos 50);
  set_cursor_pos = λ p s. (s, true);
  set_hook = λ k s. ((s.0, handle_of k ∷ s.1), some (handle_of k));
  unhook = λ h s. (s.0, remove h s.1);
  send_input = λ inputs s. (s, length inputs);
  monitor_from_point = λ s p. 7;
  last_error = λ s. 5;
}

abbrev display : State → ℤ
display s = s.0

abbrev hooked : State → List ℕ
hooked s = s.1

documented : IsDocumented windows display hooked
documented = record {
  shows = λ s. refl;
  hides = λ s. refl;
  answers = λ b s. refl;
  show_hooked = λ b s. refl;
  move_display = λ p s. refl;
  move_hooked = λ p s. refl;
  hook_display = λ k s. refl;
  hook_none = λ k s e. cc;
  hook_some = λ k s h e. cc;
  unhook_display = λ h s. refl;
  unhook_hooked = λ h s. refl;
}

abbrev quiet : State
quiet = (pos 0, [])

abbrev hooked_capture : Capture × State × Result ErrorCode (Unit {0})
hooked_capture = initialize windows new_capture quiet

controlled : Capture × State × Result ErrorCode (Unit {0})
controlled = set_remote_control_active windows true hooked_capture.0 hooked_capture.1

-- The capture is hooked, and under remote control the cursor has a display count of -1.
controlled_state : controlled.1 ≡ (negsuc 0, 2 ∷ 1 ∷ [])
unfolding controlled set_remote_control_active initialize ◌+ℤ◌ ◌-ℤ◌
controlled_state = refl

run : Reach windows display hooked new_capture quiet controlled.0 controlled.1
unfolding controlled
run =
    next (next here (initialized new_capture quiet refl))
      (asked_for true hooked_capture.0 hooked_capture.1)

Reach-IsConsistent_example : IsConsistent display hooked controlled.0 controlled.1
Reach-IsConsistent_example =
    Reach-IsConsistent windows display hooked documented (omega arith) refl run

set_remote_control_active-Answered_example :
    Answered true hooked_capture.0 hooked_capture.1 controlled
unfolding controlled
set_remote_control_active-Answered_example =
    set_remote_control_active-Answered windows true hooked_capture.0 hooked_capture.1 (λ e. cc)
      (λ e. cc)

abbrev screen_info : MonitorInfo
screen_info = record {
  rect = record { left = negsuc 99; top = pos 0; right = pos 1820; bottom = pos 1080 };
  primary = true;
  name = "DISPLAY1";
  dpi = some 96;
}

abbrev monitors : List Win32Monitor
monitors = make_monitor 7 0 screen_info ∷ []

abbrev keys : Keyboard
keys = record { code = λ name. 0; map_virtual_key = λ scan. scan; down = λ name. false }

abbrev moved_to : Point → MouseInfo
moved_to p = record { pt = p; mouse_data = 0; injected = false }

abbrev listening : Capture
listening = record new_capture { is_current = true; has_channel = true }

abbrev pressed : KeyInfo
pressed = record { vk_code = 0x41; scan_code = 30; injected = false }

hooks_deliver_example :
    Delivered listening quiet false (
      mouse_hook_proc windows monitors true true mouse_move
        (moved_to (pos 5, pos 6))
        listening
        quiet)
    × ((keyboard_hook_proc keys true true key_down pressed listening).1 ≡ delivery listening)
    × ((is_some (
            mouse_hook_proc windows monitors true true mouse_move
              (moved_to (pos 5, pos 6))
              listening
              quiet)
          ≡ true)
        ⊎ (global_to_monitor windows quiet monitors (pos 5, pos 6) ≡ none))
hooks_deliver_example =
    hooks_deliver windows monitors keys true mouse_move (moved_to (pos 5, pos 6)) key_down pressed
      listening quiet refl

known :
    (s : State) (p : Point) → (at : ℕ × Point) × (global_to_monitor windows s monitors p ≡ some at)
unfolding global_to_monitor make_monitor
known s p = ((0, (sub32 p.0 (negsuc 99), sub32 p.1 (pos 0))), refl)

abbrev to : Point → Bool → Bool → Motion
to p injected takes = record { point = p; injected = injected; takes = takes }

-- The last motion finds the channel full, and the one before it is injected.
path : List Motion
path =
    to (pos 103, pos 50) false true
    ∷ to (pos 100, pos 50) false true
    ∷ to (pos 99, pos 48) false true
    ∷ to (pos 90, pos 48) true true
    ∷ to (pos 98, pos 50) false false
    ∷ []

run_motions-remote_example :
    (c' : Capture) × (run_motions windows monitors path
        (controlling listening (pos 100, pos 50))
        quiet
      ≡ some (controlling c' (pos 100, pos 50), pinned windows (pos 100, pos 50) path quiet))
    × (deltas c'.sent ≡ newest_first (displacements (pos 100, pos 50) path) (deltas []))
    × (c'.dropped_events ≡ losses (pos 100, pos 50) path + listening.dropped_events)
run_motions-remote_example =
    run_motions-remote windows monitors known (pos 100, pos 50) path listening quiet

path_deltas : displacements (pos 100, pos 50) path ≡ (pos 3, pos 0) ∷ (negsuc 0, negsuc 1) ∷ []
unfolding path ◌-ℤ◌
path_deltas = refl

path-losses : losses (pos 100, pos 50) path ≡ 1
unfolding path ◌-ℤ◌
path-losses = refl

only_monitor : (j : ℕ) (r : Win32Monitor) → monitor_at monitors j ≡ some r → r.handle ≡ 7 → j ≡ 0
only_monitor zero r e h = refl
only_monitor (suc j) r e h = cc

position-move_cursor_example :
    (move_cursor windows monitors 0 (pos 5, pos 6) quiet ≡ (quiet, no_error))
    × (position (
          event_of (
            translate_mouse_event windows monitors listening quiet mouse_move
              (moved_to (negsuc 94, pos 6))))
        ≡ some (0, pos 5, pos 6))
unfolding enumerate_monitors make_monitor ◌+ℤ◌
position-move_cursor_example =
    position-move_cursor windows ((7, some screen_info) ∷ []) monitors 0
      (make_monitor 7 0 screen_info) (pos 5) (pos 6) quiet listening (moved_to (negsuc 94, pos 6))
      refl refl only_monitor (omega arith) (omega arith) (omega arith) (omega arith) refl refl refl
      refl

abbrev no_window : Answers
no_window = record { is_gui_thread = true; creates_window = false; enumerates = true }

construct-IsReleased_example :
    construct no_window ≡ (cleanup ∷ count_down ∷ [], err "Failed to create Win32 message window")
construct-IsReleased_example = construct-IsReleased no_window
