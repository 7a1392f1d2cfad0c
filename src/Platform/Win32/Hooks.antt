-- ===== src/Platform/Win32/Hooks.antt =====
-- src/platform/win32.cpp, Win32InputCapture: the low-level hooks and the translation of their events.
pub mod Delivery
pub mod Motion
use mksync.Prelude.{
  ℕ, suc, ◌+◌, ◌/◌, ◌%◌, ◌-◌, ltb, ℤ, pos, negsuc, eqb_ℤ, sub32, Bool, true, false, not, ◌&&◌, ◌||◌,
  String, List, ◌∷◌, Option, none, some, if◌then◌else◌,
}
use mksync.Core.Events.{MouseButton, InputEvent, move_event, button_event, wheel_event, key_event}
use mksync.Core.Events
use mksync.Core.KeyModifier
use mksync.Core.KeyModifier.{union, intersection, complement}
use mksync.Platform.Xcb.Events.{with_own_modifier}
use mksync.Platform.Win32.Keys.{normalize_virtual_key, virtual_key_to_key}
use mksync.Platform.Win32.Keys.Modifiers.{key_modifier_for, current_modifiers}
use mksync.Platform.Win32.Desktop.{Desktop, Point}
use mksync.Platform.Win32.Monitors.{Win32Monitor, global_to_monitor}
use mksync.Platform.Win32.Capture.{Capture}

-- The `wp` of a mouse hook, WM_MOUSEMOVE and so on, and of a keyboard hook.
pub data MouseMessage : Type 0 where
  mouse_move mouse_wheel mouse_h_wheel other_message : MouseMessage
  l_button_up r_button_up m_button_up x_button_up : MouseMessage
  l_button_down r_button_down m_button_down x_button_down : MouseMessage

pub data KeyMessage : Type 0 where
  key_down sys_key_down key_up sys_key_up other_key : KeyMessage

-- `MSLLHOOKSTRUCT` and `KBDLLHOOKSTRUCT`, with the flag of an injected event.
pub record MouseInfo : Type 0 where
  pub pt : Point
  pub mouse_data : ℕ
  pub injected : Bool

pub record KeyInfo : Type 0 where
  pub vk_code : ℕ
  pub scan_code : ℕ
  pub injected : Bool

-- `CallNextHookEx`, or 1.
pub data HookResult : Type 0 where
  passed_on swallowed : HookResult

unfoldable pub mouse_button_from_message : MouseMessage → MouseButton
mouse_button_from_message l_button_up = Events.left
mouse_button_from_message l_button_down = Events.left
mouse_button_from_message r_button_up = Events.right
mouse_button_from_message r_button_down = Events.right
mouse_button_from_message m_button_up = Events.middle
mouse_button_from_message m_button_down = Events.middle
mouse_button_from_message message = Events.none

unfoldable pub is_mouse_button_release : MouseMessage → Bool
is_mouse_button_release l_button_up = true
is_mouse_button_release r_button_up = true
is_mouse_button_release m_button_up = true
is_mouse_button_release x_button_up = true
is_mouse_button_release message = false

-- `static_cast<SHORT>(HIWORD(data))`.
unfoldable pub wheel_delta : ℕ → ℤ
wheel_delta mouse_data =
    let w = mouse_data / 65536 % 65536 in if ltb w 32768 then pos w else negsuc (65535 - w)

abbrev pub is_at : Point → Point → Bool
is_at (x, y) (x', y') = eqb_ℤ x x' && eqb_ℤ y y'

abbrev pub difference : Point → Point → Point
difference (x, y) (x', y') = (sub32 x x', sub32 y y')

-- A motion, with its delta.
abbrev moved : Capture → ℕ → Point → Point → Point → Capture × Option InputEvent
moved c screen (x, y) pt (dx, dy) = (
  record c { last_mouse_global = some pt },
  some (move_event (record { x = x; y = y; screen_index = screen; delta_x = dx; delta_y = dy })),
)

abbrev from_last : Option Point → Point → Point
from_last none pt = (pos 0, pos 0)
from_last (some last) pt = difference pt last

unfoldable pub translate_mouse_move : Capture → ℕ → Point → Point → Capture × Option InputEvent
translate_mouse_move c screen local pt =
    elim (if c.remote_control_active then c.remote_anchor else none) [
      | none ↦ moved c screen local pt (from_last c.last_mouse_global pt)
      | some anchor ↦
          if is_at (difference pt anchor) (pos 0, pos 0)
          then (c, none)
          else moved c screen local pt (difference pt anchor)
    ]

abbrev button_at : MouseButton → Bool → ℕ → Point → Option InputEvent
button_at Events.none release screen local = none
button_at button release screen (x, y) = some (
    button_event
      (record { x = x; y = y; screen_index = screen; button = button; release = release }))

abbrev wheel_at : Point → ℤ → ℤ → Option InputEvent
wheel_at (x, y) dx dy = some (wheel_event (record { x = x; y = y; delta_x = dx; delta_y = dy }))

unfoldable pub translate_on_monitor :
    Capture → MouseMessage → MouseInfo → ℕ × Point → Capture × Option InputEvent
unfolding translate_mouse_move mouse_button_from_message is_mouse_button_release wheel_delta
translate_on_monitor c mouse_move info (screen, local) = translate_mouse_move c screen local info.pt
translate_on_monitor c mouse_wheel info (screen, local) =
    (c, wheel_at local (pos 0) (wheel_delta info.mouse_data))
translate_on_monitor c mouse_h_wheel info (screen, local) =
    (c, wheel_at local (wheel_delta info.mouse_data) (pos 0))
translate_on_monitor c other_message info (screen, local) = (c, none)
translate_on_monitor c message info (screen, local) = (
  c,
  button_at (mouse_button_from_message message) (is_mouse_button_release message) screen local,
)

-- What `trySend` on the channel answers is `takes`.
unfoldable pub try_enqueue : Bool → Option InputEvent → Capture → Capture
try_enqueue takes none c = c
try_enqueue takes (some event) c =
    if not c.has_channel
    then c
    else if takes
    then record c { sent = event ∷ c.sent }
    else record c { dropped_events = suc c.dropped_events }

-- The cursor goes back to the anchor from which the next delta is measured.
unfoldable pub recenter : {S : Type 0} → Desktop S → Capture → MouseMessage → Point → S → S
recenter w c mouse_move pt s = elim c.remote_anchor [
  | none ↦ s
  | some anchor ↦ if is_at pt anchor then s else (w.set_cursor_pos anchor s).0
]
recenter w c message pt s = s

module _ {S : Type 0} (w : Desktop S) (monitors : List Win32Monitor) where
  -- `none` where the code throws.
  unfoldable pub translate_mouse_event :
      Capture → S → MouseMessage → MouseInfo → Option (Capture × Option InputEvent)
  unfolding global_to_monitor translate_on_monitor
  translate_mouse_event c s message info = elim (global_to_monitor w s monitors info.pt) [
    | none ↦ none
    | some at ↦ some (translate_on_monitor c message info at)
  ]

  -- `hooked` is `code >= 0`.
  unfoldable pub mouse_hook_proc :
      Bool → Bool → MouseMessage → MouseInfo → Capture → S → Option (Capture × S × HookResult)
  unfolding translate_mouse_event try_enqueue recenter
  mouse_hook_proc hooked takes message info c s =
      if not (hooked && c.is_current)
      then some (c, s, passed_on)
      else if c.remote_control_active && info.injected
      then some (c, s, swallowed)
      else elim (translate_mouse_event c s message info) [
        | none ↦ none
        | some (c', event) ↦
            let c'' = try_enqueue takes event c' in
            if not c.remote_control_active
            then some (c'', s, passed_on)
            else some (c'', recenter w c'' message info.pt s, swallowed)
      ]

-- The values of the macros of virtual keys, `MapVirtualKeyW`, and the keys that are down.
pub record Keyboard : Type 0 where
  pub code : String → ℕ
  pub map_virtual_key : ℕ → ℕ
  pub down : String → Bool

abbrev pub is_press : KeyMessage → Bool
is_press key_down = true
is_press sys_key_down = true
is_press message = false

abbrev pub is_release : KeyMessage → Bool
is_release key_up = true
is_release sys_key_up = true
is_release message = false

unfoldable pub translate_keyboard_event : Keyboard → KeyMessage → KeyInfo → Option InputEvent
unfolding normalize_virtual_key virtual_key_to_key key_modifier_for current_modifiers
    with_own_modifier
translate_keyboard_event k message info =
    let vk_code = normalize_virtual_key k.code k.map_virtual_key info.vk_code info.scan_code in
    let key = virtual_key_to_key k.code vk_code in
    if not (is_press message) && not (is_release message)
    then none
    else some (
        key_event (record {
          key = key;
          modifiers =
              with_own_modifier (key_modifier_for key) (not (is_press message))
                (current_modifiers k.down);
          native_code = vk_code;
          repeat = false;
          release = is_release message;
        }))

unfoldable pub keyboard_hook_proc :
    Keyboard → Bool → Bool → KeyMessage → KeyInfo → Capture → Capture × HookResult
unfolding translate_keyboard_event try_enqueue
keyboard_hook_proc k hooked takes message info c =
    if not (hooked && c.is_current)
    then (c, passed_on)
    else if c.remote_control_active && info.injected
    then (c, swallowed)
    else (
      try_enqueue takes (translate_keyboard_event k message info) c,
      if c.remote_control_active then swallowed else passed_on,
    )
