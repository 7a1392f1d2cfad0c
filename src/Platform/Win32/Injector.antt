-- ===== src/Platform/Win32/Injector.antt =====
-- src/platform/win32.cpp, Win32InputInjector.
pub mod Pointer
pub mod Wheel
use mksync.Prelude.{
  ℕ, zero, suc, ◌+◌, ◌-◌, ◌%◌, ◌==◌, ℤ, pos, negsuc, eqb_ℤ, Bool, true, false, not, ◌&&◌, String,
  List, [], ◌∷◌, ◌++◌, length, Option, none, some, Result, ok, err, if◌then◌else◌,
}
use mksync.Core.Events.{
  MouseButton, InputEvent, MouseMoveEvent, MouseButtonEvent, MouseWheelEvent, KeyEvent, move_event,
  button_event, wheel_event, key_event,
}
use mksync.Core.Events
use mksync.Platform.Win32.Keys.{key_to_win32}
use mksync.Platform.Win32.Desktop.{
  Desktop, Point, Input, mouse_input, keyboard_input, MouseFlag, left_down, left_up, right_down,
  right_up, middle_down, middle_up, wheel, h_wheel, ErrorCode, no_error, invalid_argument,
  not_connected, is_error, io_result, send_inputs, fallback_error,
}
use mksync.Platform.Win32.Monitors.{Win32Monitor, local_to_global}

abbrev flag_for : MouseButton → Bool → Option MouseFlag
flag_for Events.left release = some (if release then left_up else left_down)
flag_for Events.right release = some (if release then right_up else right_down)
flag_for Events.middle release = some (if release then middle_up else middle_down)
flag_for Events.none release = none

-- `static_cast<DWORD>(delta)`.
unfoldable pub dword_of : ℤ → ℕ
dword_of (pos n) = n % 4294967296
dword_of (negsuc n) = 4294967295 - n % 4294967296

-- A wheel input, if there is a delta.
abbrev wheel_input : MouseFlag → ℤ → List Input
wheel_input flag delta =
    if not (eqb_ℤ delta (pos 0)) then mouse_input flag (dword_of delta) ∷ [] else []

unfoldable pub wheel_inputs : MouseWheelEvent → List Input
unfolding dword_of
wheel_inputs event = wheel_input wheel event.delta_y ++ wheel_input h_wheel event.delta_x

unfoldable pub inject_wheel : {S : Type 0} → Desktop S → MouseWheelEvent → S → S × ErrorCode
unfolding wheel_inputs send_inputs
inject_wheel w event s = send_inputs w (wheel_inputs event) (length (wheel_inputs event)) s

unfoldable pub inject_key : {S : Type 0} → Desktop S → (String → ℕ) → KeyEvent → S → S × ErrorCode
unfolding key_to_win32 send_inputs
inject_key w code event s = elim (key_to_win32 code event.key event.native_code) [
  | none ↦ (s, invalid_argument)
  | some key ↦ send_inputs w (keyboard_input key.virtual_key event.release key.extended ∷ []) 1 s
]

module _ {S : Type 0} (w : Desktop S) (monitors : List Win32Monitor) where
  unfoldable pub move_cursor : ℕ → Point → S → S × ErrorCode
  unfolding local_to_global fallback_error
  move_cursor i local s = elim (local_to_global monitors i local) [
    | none ↦ (s, invalid_argument)
    | some p ↦
        let (s', moved) = w.set_cursor_pos p s in
        if moved then (s', no_error) else (s', fallback_error w s')
  ]

  unfoldable pub inject_button : MouseButtonEvent → S → S × ErrorCode
  unfolding move_cursor send_inputs
  inject_button event s =
      let (s', error) = move_cursor event.screen_index (event.x, event.y) s in
      if is_error error then (s', error) else elim (flag_for event.button event.release) [
        | none ↦ (s', invalid_argument)
        | some flag ↦ send_inputs w (mouse_input flag 0 ∷ []) 1 s'
      ]

  unfoldable pub inject_one : (String → ℕ) → InputEvent → S → S × ErrorCode
  unfolding move_cursor inject_button inject_wheel inject_key
  inject_one code (move_event e) s = move_cursor e.screen_index (e.x, e.y) s
  inject_one code (button_event e) s = inject_button e s
  inject_one code (wheel_event e) s = inject_wheel w e s
  inject_one code (key_event e) s = inject_key w code e s

  -- `inject`, with `mInitialized`.
  unfoldable pub inject : (String → ℕ) → Bool → InputEvent → S → S × Result ErrorCode (Unit {0})
  unfolding inject_one
  inject code initialized event s =
      if not initialized
      then (s, err not_connected)
      else (let (s', error) = inject_one code event s in (s', io_result error))
