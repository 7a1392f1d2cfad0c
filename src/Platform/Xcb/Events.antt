-- ===== src/Platform/Xcb/Events.antt =====
-- src/platform/xcb.cpp, XcbInputCapture: how X events become input events.
pub mod Modifiers
pub mod Held
use mksync.Prelude.{
  ℕ, zero, suc, ◌+◌, ◌-◌, ◌*◌, ◌/◌, ◌%◌, ◌^◌, ◌==◌, leb, ltb, ℤ, pos, negsuc, sub32, Bool, true,
  false, not, ◌&&◌, String, List, [], ◌∷◌, Option, none, some, if◌then◌else◌, is_some,
}
use Prim.Native.Nat.{bit_and}
use mksync.Core.Key
use mksync.Core.KeyModifier
use mksync.Core.KeyModifier.{union, intersection, complement}
use mksync.Core.Events.{
  MouseButton, InputEvent, MouseMoveEvent, MouseButtonEvent, MouseWheelEvent, KeyEvent, move_event,
  button_event, wheel_event, key_event,
}
use mksync.Core.Events
use mksync.Platform.KeyTable.{switch}
use mksync.Platform.Xcb.Screens.{XcbScreen, global_to_screen}
use mksync.Platform.Xcb.Keysyms.{translate_key_sym}
use mksync.Platform.Xcb.Capture.{Capture}

-- An X event, by its response type and, for XInput2, its event type: the root position that it
-- carries, its detail, and for `raw_motion` what `rawMotionDelta` makes of its valuators.
pub data XEvent : Type 0 where
  protocol_error mapping_notify other_core other_generic : XEvent
  motion_notify : ℤ → ℤ → XEvent
  button_press button_release : ℕ → ℤ → ℤ → XEvent
  key_press key_release : ℕ → XEvent
  raw_motion : ℤ → ℤ → XEvent
  raw_button_press raw_button_release raw_key_press raw_key_release : ℕ → XEvent

-- What the translation asks: the platform's screens and whether raw events come during a grab, the
-- pointer's position, the keysym of a key code and the key codes of a keysym (xcb-keysyms), the
-- server's bit map of pressed keys as bytes, and the values of the keysym macros.
pub record Display : Type 0 where
  pub screens : List XcbScreen
  pub raw_events_during_grab : Bool
  pub query_pointer : Option (ℤ × ℤ)
  pub key_sym_of : ℕ → ℕ
  pub key_codes_of : ℕ → List ℕ
  pub keymap : Option (ℕ → ℕ)
  pub code : String → ℕ

unfoldable pub translate_core_mouse_move : List XcbScreen → Capture → ℤ → ℤ → Capture × InputEvent
translate_core_mouse_move screens c x y =
    let (screen, lx, ly) = global_to_screen screens x y in
    (
      record c { last_core_pointer = some (x, y) },
      elim c.last_core_pointer [
        | none ↦
            move_event
              (record { x = lx; y = ly; screen_index = screen; delta_x = pos 0; delta_y = pos 0 })
        | some (px, py) ↦ move_event (record {
          x = lx;
          y = ly;
          screen_index = screen;
          delta_x = sub32 x px;
          delta_y = sub32 y py;
        })
      ],
    )

-- `screenLocalPoint`: the point given, or else where the pointer is.
unfoldable pub screen_local_point : Display → Option (ℤ × ℤ) → Option (ℕ × ℤ × ℤ)
unfolding global_to_screen
screen_local_point d (some (x, y)) = some (global_to_screen d.screens x y)
screen_local_point d none = elim d.query_pointer [
  | none ↦ none
  | some (x, y) ↦ some (global_to_screen d.screens x y)
]

abbrev pub button_of_detail : ℕ → MouseButton
button_of_detail detail =
    if detail == 1 then Events.left else if detail == 2 then Events.middle else Events.right

unfoldable pub button_at : ℕ → Bool → ℕ × ℤ × ℤ → Option InputEvent
button_at detail release (screen, x, y) =
    if leb 1 detail && leb detail 3
    then some (
        button_event (record {
          x = x;
          y = y;
          screen_index = screen;
          button = button_of_detail detail;
          release = release;
        }))
    else if leb 4 detail && (leb detail 7 && not release)
    then some (
        wheel_event (record {
          x = x;
          y = y;
          delta_x = if detail == 6 then negsuc 119 else if detail == 7 then pos 120 else pos 0;
          delta_y = if detail == 4 then pos 120 else if detail == 5 then negsuc 119 else pos 0;
        }))
    else none

unfoldable pub translate_button : Display → ℕ → Bool → Option (ℤ × ℤ) → Option InputEvent
unfolding screen_local_point button_at
translate_button d detail release point = elim (screen_local_point d point) [
  | none ↦ none
  | some at ↦ button_at detail release at
]

abbrev pub modifier_cases : List (ℕ × ℕ)
modifier_cases =
    (Key.left_ctrl, KeyModifier.left_ctrl)
    ∷ (Key.right_ctrl, KeyModifier.right_ctrl)
    ∷ (Key.left_shift, KeyModifier.left_shift)
    ∷ (Key.right_shift, KeyModifier.right_shift)
    ∷ (Key.left_alt, KeyModifier.left_alt)
    ∷ (Key.right_alt, KeyModifier.right_alt)
    ∷ (Key.left_meta, KeyModifier.left_meta)
    ∷ (Key.right_meta, KeyModifier.right_meta)
    ∷ []

unfoldable pub key_modifier_for : ℕ → ℕ
unfolding switch
key_modifier_for key = elim (switch key modifier_cases) [
  | none ↦ KeyModifier.none
  | some modifier ↦ modifier
]

-- The lambda `pressed`: the key codes of the keysym, up to XCB_NO_SYMBOL.
unfoldable pub is_pressed : (ℕ → ℕ) → List ℕ → Bool
is_pressed keys [] = false
is_pressed keys (code ∷ rest) =
    let later = is_pressed keys rest in
    if code == 0
    then false
    else if bit_and (keys (code / 8)) (2 ^ (code % 8)) == 0
    then later
    else true

abbrev pub add_if : Bool → ℕ → ℕ → ℕ
add_if pressed modifier modifiers = if pressed then union modifiers modifier else modifiers

unfoldable pub modifiers_of : (String → Bool) → ℕ
modifiers_of pressed =
    let ctrl =
      add_if (pressed "XK_Control_R") KeyModifier.right_ctrl
        (add_if (pressed "XK_Control_L") KeyModifier.left_ctrl KeyModifier.none) in
    let shift =
      add_if (pressed "XK_Shift_R") KeyModifier.right_shift
        (add_if (pressed "XK_Shift_L") KeyModifier.left_shift ctrl) in
    let alt =
      add_if (pressed "XK_Alt_R") KeyModifier.right_alt
        (add_if (pressed "XK_Alt_L") KeyModifier.left_alt shift) in
    add_if (pressed "XK_Super_R") KeyModifier.right_meta
      (add_if (pressed "XK_Super_L") KeyModifier.left_meta alt)

abbrev pub pressed : Display → (ℕ → ℕ) → String → Bool
pressed d keys name = is_pressed keys (d.key_codes_of (d.code name))

unfoldable pub current_modifiers : Display → ℕ
unfolding modifiers_of
current_modifiers d = elim d.keymap [
  | none ↦ KeyModifier.none
  | some keys ↦ modifiers_of (pressed d keys)
]

-- The key's own modifier is added on a press, and removed on a release.
unfoldable pub with_own_modifier : ℕ → Bool → ℕ → ℕ
with_own_modifier modifier release modifiers =
    if modifier == KeyModifier.none
    then modifiers
    else if release
    then intersection modifiers (complement modifier)
    else union modifiers modifier

unfoldable pub translate_key : Display → ℕ → Bool → InputEvent
unfolding translate_key_sym current_modifiers with_own_modifier key_modifier_for
translate_key d key_code release =
    let key = translate_key_sym d.code (d.key_sym_of key_code) in
    key_event (record {
      key = key;
      modifiers = with_own_modifier (key_modifier_for key) release (current_modifiers d);
      native_code = key_code;
      repeat = false;
      release = release;
    })

unfoldable pub translate_core_event : Display → Capture → XEvent → Capture × Option InputEvent
unfolding translate_core_mouse_move translate_button translate_key
translate_core_event d c (motion_notify x y) =
    let (c', event) = translate_core_mouse_move d.screens c x y in (c', some event)
translate_core_event d c (button_press detail x y) =
    (c, translate_button d detail false (some (x, y)))
translate_core_event d c (button_release detail x y) =
    (c, translate_button d detail true (some (x, y)))
translate_core_event d c (key_press code) = (c, some (translate_key d code false))
translate_core_event d c (key_release code) = (c, some (translate_key d code true))
translate_core_event d c protocol_error = (c, none)
translate_core_event d c mapping_notify = (c, none)
translate_core_event d c other_core = (c, none)
translate_core_event d c other_generic = (c, none)
translate_core_event d c (raw_motion x y) = (c, none)
translate_core_event d c (raw_button_press detail) = (c, none)
translate_core_event d c (raw_button_release detail) = (c, none)
translate_core_event d c (raw_key_press detail) = (c, none)
translate_core_event d c (raw_key_release detail) = (c, none)

-- The XInput2 events; `xcb_keycode_t` is a byte.
unfoldable pub translate_raw_event : Display → XEvent → Option InputEvent
unfolding translate_button translate_key screen_local_point
translate_raw_event d (raw_motion dx dy) = elim (screen_local_point d none) [
  | none ↦ none
  | some (screen, x, y) ↦
      some (move_event (record { x = x; y = y; screen_index = screen; delta_x = dx; delta_y = dy }))
]
translate_raw_event d (raw_button_press detail) = translate_button d detail false none
translate_raw_event d (raw_button_release detail) = translate_button d detail true none
translate_raw_event d (raw_key_press detail) =
    if ltb 255 detail then none else some (translate_key d detail false)
translate_raw_event d (raw_key_release detail) =
    if ltb 255 detail then none else some (translate_key d detail true)
translate_raw_event d protocol_error = none
translate_raw_event d mapping_notify = none
translate_raw_event d other_core = none
translate_raw_event d other_generic = none
translate_raw_event d (motion_notify x y) = none
translate_raw_event d (button_press detail x y) = none
translate_raw_event d (button_release detail x y) = none
translate_raw_event d (key_press code) = none
translate_raw_event d (key_release code) = none

-- `xcb_refresh_keyboard_mapping` changes the mapping, an argument here, and not the capture.
unfoldable pub translate_event : Display → Capture → XEvent → Capture × Option InputEvent
unfolding translate_core_event translate_raw_event
translate_event d c event =
    if c.remote_control_active && not d.raw_events_during_grab
    then (let (c', core) = translate_core_event d c event in
        elim core [
          | some translated ↦ (c', some translated)
          | none ↦ (c', translate_raw_event d event)
        ])
    else (c, translate_raw_event d event)
