-- ===== src/Platform/Win32/Injector/Wheel.antt =====
-- src/platform/win32.cpp: a wheel event that is injected, as another machine captures it.
use mksync.Prelude.{
  ℕ, ◌*◌, ◌%◌, ◌==◌, ==_iff, ℤ, pos, negsuc, eqb_ℤ, ◌≤ℤ◌, ◌≡◌, refl, true, not, List, [], ◌∷◌, ◌++◌,
  map, length, Option, some, Bool-cases, inl, inr, arith, if◌then◌else◌,
}
use mksync.Core.Events.{InputEvent, MouseWheelEvent, wheel_event}
use mksync.Platform.Win32.Desktop.{
  Desktop, Point, Input, mouse_input, keyboard_input, wheel, h_wheel, no_error, send_inputs,
}
use mksync.Platform.Win32.Capture.{Capture}
use mksync.Platform.Win32.Hooks.{
  MouseMessage, mouse_wheel, mouse_h_wheel, other_message, translate_on_monitor, wheel_delta,
}
use mksync.Platform.Win32.Injector.{dword_of, wheel_inputs, inject_wheel}

abbrev pub IsInt16 : ℤ → Type 0
IsInt16 a = (negsuc 32767 ≤ℤ a) × (a ≤ℤ pos 32767)

-- Windows hands the low word of an injected wheel's data over in the high word of the hook's.
abbrev pub hook_data : ℕ → ℕ
hook_data n = n % 65536 * 65536

wheel_delta-dword_of : (a : ℤ) → IsInt16 a → wheel_delta (hook_data (dword_of a)) ≡ a
unfolding wheel_delta dword_of
wheel_delta-dword_of (pos n) h = ground arith
wheel_delta-dword_of (negsuc n) h = ground arith

-- The message of the hook for an input.
abbrev pub message_of : Input → MouseMessage
message_of (mouse_input wheel n) = mouse_wheel
message_of (mouse_input h_wheel n) = mouse_h_wheel
message_of (mouse_input flag n) = other_message
message_of (keyboard_input key up extended) = other_message

abbrev pub data_of : Input → ℕ
data_of (mouse_input flag n) = hook_data n
data_of (keyboard_input key up extended) = 0

-- What a capture that sees the mouse at a point makes of an input.
abbrev pub captured : Capture → Point → ℕ × Point → Input → Option InputEvent
captured c pt at input =
    (translate_on_monitor c (message_of input)
      (record { pt = pt; mouse_data = data_of input; injected = true }) at).1

abbrev turn : Point → ℤ → ℤ → Option InputEvent
turn (x, y) dx dy = some (wheel_event (record { x = x; y = y; delta_x = dx; delta_y = dy }))

-- One event for each delta that is not zero, the vertical one first.
abbrev pub turns : Point → MouseWheelEvent → List (Option InputEvent)
turns p event =
    (if not (eqb_ℤ event.delta_y (pos 0)) then turn p (pos 0) event.delta_y ∷ [] else [])
    ++ (if not (eqb_ℤ event.delta_x (pos 0)) then turn p event.delta_x (pos 0) ∷ [] else [])

captured-inputs :
    (event : MouseWheelEvent) (c : Capture) (pt p : Point) (screen : ℕ)
    → IsInt16 event.delta_x
    → IsInt16 event.delta_y
    → map (captured c pt (screen, p)) (wheel_inputs event) ≡ turns p event
unfolding wheel_inputs translate_on_monitor
captured-inputs event c pt (px, py) screen hx hy = elim (Bool-cases (eqb_ℤ event.delta_y (pos 0))) [
  | inl v ↦ elim (Bool-cases (eqb_ℤ event.delta_x (pos 0))) [
    | inl u ↦ rw (v, u) refl
    | inr u ↦ rw (v, u, wheel_delta-dword_of event.delta_x hx) refl
  ]
  | inr v ↦ elim (Bool-cases (eqb_ℤ event.delta_x (pos 0))) [
    | inl u ↦ rw (v, u, wheel_delta-dword_of event.delta_y hy) refl
    | inr u ↦
        rw (v, u, wheel_delta-dword_of event.delta_x hx, wheel_delta-dword_of event.delta_y hy) refl
  ]
]

-- If `SendInput` takes every input and the deltas are values of `int16_t`, the injection of a wheel
-- event succeeds with at most one call of it, and a capture that sees these inputs makes one event
-- of each delta that is not zero, with that delta, the vertical one first.
inject_wheel-captured :
    {S : Type 0} (w : Desktop S) (event : MouseWheelEvent) (s : S) (c : Capture) (pt p : Point)
    (screen : ℕ)
    → (w.send_input (wheel_inputs event) s).1 ≡ length (wheel_inputs event)
    → IsInt16 event.delta_x
    → IsInt16 event.delta_y
    → (inject_wheel w event s ≡ (
      if length (wheel_inputs event) == 0 then s else (w.send_input (wheel_inputs event) s).0,
      no_error,
    ))
      × (map (captured c pt (screen, p)) (wheel_inputs event) ≡ turns p event)
unfolding inject_wheel send_inputs
inject_wheel-captured w event s c pt p screen all hx hy = (
  sent (length (wheel_inputs event)) (wheel_inputs event) all,
  captured-inputs event c pt p screen hx hy,
)
  where
    sent :
        (n : ℕ) (inputs : List Input)
        → (w.send_input inputs s).1 ≡ n
        → send_inputs w inputs n s ≡ (if n == 0 then s else (w.send_input inputs s).0, no_error)
    sent n inputs taken = elim (Bool-cases (n == 0)) [
      | inl z ↦ rw (z, send_inputs) refl
      | inr z ↦ rw (z, send_inputs, taken, (==_iff n n).1 refl) refl
    ]
