-- ===== src/Tests/XcbInput.antt =====
-- Events that the X11 backend injects and captures, on small inputs.
use mksync.Prelude.{
  ◌<◌, arith, ℕ, zero, suc, ◌==◌, ◌≡◌, refl, ℤ, pos, negsuc, true, false, List, [], ◌∷◌, none, some,
  ok, arith, if◌then◌else◌, ◌+ℤ◌,
}
use mksync.Core.Key
use mksync.Core.KeyModifier
use mksync.Core.KeyModifier.{intersection}
use mksync.Core.Events.{KeyEvent, MouseWheelEvent}
use mksync.Platform.KeyTable.{switch}
use mksync.Platform.Xcb.Screens.{XcbScreen, screen_at, is_inside, local_to_global}
use mksync.Platform.Xcb.Capture.Holding.{initial}
use mksync.Platform.Xcb.Monitors.{Monitor, Source, enumerate_screens}
use mksync.Platform.Xcb.Keysyms.{key_sym_for, translate_key_sym}
use mksync.Platform.Xcb.Keysyms.Defined.{keysymdef}
use mksync.Platform.KeyTable.Documented.{documented_code}
use mksync.Platform.Xcb.Events.{
  Display, is_pressed, translate_key, pressed, key_modifier_for, translate_core_mouse_move,
}
use mksync.Platform.Xcb.Events.Modifiers.{modifiers_in, after}
use mksync.Platform.Xcb.Events.Held.{modifier_bit, any_down, translate_key-modifiers}
use mksync.Platform.Xcb.Injector.{
  Target, FakeInput, fake_motion, fake_key, move_cursor, inject_key, inject_wheel,
}
use mksync.Platform.Xcb.Injector.Presses.{captured}
use mksync.Platform.Xcb.Injector.Wheel.{IsWilling, IsRoundedUp, captured-inject_wheel}
use mksync.Platform.Xcb.Injector.Pointer.{position_of, position_of-move_cursor}
use mksync.Platform.Xcb.Injector.Keyboard.{key_of, key_of-inject_key}

abbrev monitor : ℤ → Monitor
monitor x = record {
  x = x;
  y = pos 0;
  width = 1920;
  height = 1080;
  width_in_millimeters = 500;
  name = none;
  primary = false;
}

abbrev source : Source
source = record {
  default_screen = 0;
  root = 7;
  randr = record {
    present = true;
    version = some (1, 6);
    monitors = some (monitor (pos 0) ∷ monitor (pos 1920) ∷ []);
  };
  roots = [];
  lround_dpi = λ w mm. pos 98;
  format_monitor = λ i. "monitor";
  format_screen = λ i. "screen";
}

abbrev screen : ℕ → ℤ → XcbScreen
screen i x = record {
  index = i;
  x_screen_number = 0;
  root = 7;
  info = record {
    x = x;
    y = pos 0;
    width = pos 1920;
    height = pos 1080;
    dpi = pos 98;
    name = "monitor";
    primary = false;
  };
}

abbrev target : Target
target = record {
  screens = screen 0 (pos 0) ∷ screen 1 (pos 1920) ∷ [];
  code = keysymdef;
  key_codes_of = λ s. some (38 ∷ []);
  accepts = λ log r. true;
  flushes = λ log. ok tt;
}

enumerated : enumerate_screens source ≡ ok target.screens
unfolding enumerate_screens
enumerated = refl

target-IsWilling : IsWilling target
target-IsWilling = (λ log r. refl, λ log. refl)

placed : local_to_global target.screens 1 (pos 10) (pos 20) ≡ some (pos 1930, pos 20)
unfolding local_to_global ◌+ℤ◌
placed = refl

only_there :
    (j : ℕ) (r : XcbScreen)
    → screen_at target.screens j ≡ some r
    → is_inside r.info (pos 1930) (pos 20) ≡ true
    → j ≡ 1
unfolding screen_at is_inside ◌+ℤ◌
only_there zero r at inside = ground (arith, at, inside)
only_there (suc zero) r at inside = refl
only_there (suc (suc j)) r at inside = cc

first_there : screen_at target.screens 1 ≡ some (screen 1 (pos 1920))
unfolding screen_at
first_there = refl

position_of-move_cursor_example :
    (move_cursor target 1 (pos 10) (pos 20) [] ≡ (fake_motion 7 (pos 1930) (pos 20) ∷ [], ok tt))
    × (position_of ((translate_core_mouse_move target.screens initial (pos 1930) (pos 20)).1)
        ≡ some (1, pos 10, pos 20))
unfolding ◌+ℤ◌
position_of-move_cursor_example =
    position_of-move_cursor source target 1 (screen 1 (pos 1920)) (pos 10) (pos 20) (pos 1930)
      (pos 20) [] initial enumerated target-IsWilling first_there (omega arith) (omega arith)
      (omega arith) (omega arith) placed refl only_there

abbrev key_event_of : ℕ → KeyEvent
key_event_of key = record {
  key = key;
  modifiers = 0;
  native_code = 0;
  repeat = false;
  release = false;
}

-- Key code 38 is the key `a`, and 37 the left control key, which is held.
abbrev display : Display
display = record {
  screens = target.screens;
  raw_events_during_grab = true;
  query_pointer = none;
  key_sym_of = λ code. if code == 37 then keysymdef "XK_Control_L" else keysymdef "XK_a";
  key_codes_of = λ s. if s == keysymdef "XK_Control_L" then 37 ∷ [] else [];
  keymap = some (λ byte. if byte == 4 then 32 else 0);
  code = keysymdef;
}

a_sym : key_sym_for keysymdef Key.a ≡ some (keysymdef "XK_a")
unfolding key_sym_for documented_code
a_sym = refl

key_of-inject_key_example :
    (inject_key target (key_event_of Key.a) [] ≡ (fake_key 38 true ∷ [], ok tt))
    × (key_of (translate_key display 38 false) ≡ some (Key.a, false))
key_of-inject_key_example =
    key_of-inject_key target display (key_event_of Key.a) (keysymdef "XK_a") 38 [] []
      (λ name listed. refl) refl target-IsWilling (omega arith) a_sym refl
      (λ e. absurd (omega (arith, e))) refl

abbrev wheel : MouseWheelEvent
wheel = record { x = pos 0; y = pos 0; delta_x = negsuc 49; delta_y = pos 240 }

captured-inject_wheel_example :
    (log : List FakeInput) × (inject_wheel target wheel [] ≡ (log, ok tt))
    × IsRoundedUp (negsuc 49) ((captured log).0)
    × IsRoundedUp (pos 240) ((captured log).1)
captured-inject_wheel_example = captured-inject_wheel target target-IsWilling wheel

control_held :
    after
      (key_modifier_for (translate_key_sym keysymdef (keysymdef "XK_a")))
      false
      KeyModifier.left_ctrl
      (pressed display (λ byte. if byte == 4 then 32 else 0) "XK_Control_L")
    ≡ true
unfolding key_modifier_for translate_key_sym documented_code is_pressed
control_held = refl

bytes : (b : ℕ) → (if b == 4 then 32 else 0) < 256
bytes b = ground arith

translate_key-modifiers_example :
    intersection (modifiers_in (translate_key display 38 false)) KeyModifier.left_ctrl ≡ (
      if after
        (modifier_bit (translate_key_sym keysymdef (keysymdef "XK_a")))
        false
        KeyModifier.left_ctrl
        (any_down
          (λ byte. if byte == 4 then 32 else 0)
          (display.key_codes_of (keysymdef "XK_Control_L")))
      then KeyModifier.left_ctrl
      else KeyModifier.none)
unfolding switch
translate_key-modifiers_example =
    translate_key-modifiers display (λ byte. if byte == 4 then 32 else 0) 38 false
      KeyModifier.left_ctrl "XK_Control_L" refl bytes refl
