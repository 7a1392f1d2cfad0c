-- ===== src/Platform/Portal/Injector.antt =====
-- src/platform/wayland_portal.cpp, PortalInputInjector: the devices of libei, and the requests made of
-- input events.
pub mod Devices
pub mod Emulation
pub mod Balance
pub mod Session
pub mod Ended
pub mod Allowed
pub mod Starts
use mksync.Prelude.{
  ℕ, zero, suc, ◌+◌, ◌%◌, ◌==◌, ℤ, pos, ◌-ℤ◌, sub32, String, Bool, true, false, not, ◌&&◌, List, [],
  ◌∷◌, Option, none, some, is_some, Result, ok, err, if◌then◌else◌,
}
use mksync.Core.Events.{
  MouseButton, ScreenInfo, InputEvent, MouseMoveEvent, MouseButtonEvent, MouseWheelEvent, KeyEvent,
  move_event, button_event, wheel_event, key_event,
}
use mksync.Core.Events
use mksync.Platform.Wayland.Keymap.{evdev_key_code}
use mksync.Platform.Portal.Errors.{
  Errc, invalid_argument, operation_not_supported, not_connected, connection_reset,
}
use mksync.Platform.Portal.Screens.{local_to_global}

-- EI_DEVICE_CAP_…
pub data Capability : Type 0 where
  pointer_absolute button scroll keyboard : Capability

-- `object` stands for the pointer to the `ei_device`.
pub record Device : Type 0 where
  pub object : ℕ
  pub resumed : Bool
  pub emulating : Bool

-- The calls of libei, with the object that they are for.
pub data Request : Type 0 where
  take_ref unref stop_emulating frame : ℕ → Request
  start_emulating : ℕ → ℕ → Request
  motion_absolute : ℕ → ℤ → ℤ → Request
  press : ℕ → ℕ → Bool → Request
  scroll_discrete : ℕ → ℤ → ℤ → Request
  press_key : ℕ → ℕ → Bool → Request

-- The devices, `mSequence`, `mDisconnected`, and the requests made so far, the newest first.
pub record Injector : Type 0 where
  pub devices : List Device
  pub sequence : ℕ
  pub disconnected : Bool
  pub log : List Request

abbrev pub new_injector : Injector
new_injector = record { devices = []; sequence = 1; disconnected = false; log = [] }

pub data EiEvent : Type 0 where
  seat_added disconnect other_event : EiEvent
  device_added device_resumed device_paused device_removed : ℕ → EiEvent

abbrev pub add_device : ℕ → List Device → List Device
add_device o [] = record { object = o; resumed = false; emulating = false } ∷ []
add_device o (d ∷ rest) = d ∷ add_device o rest

unfoldable pub find_device : ℕ → List Device → Option Device
find_device o [] = none
find_device o (d ∷ rest) = let later = find_device o rest in if d.object == o then some d else later

-- Writes through the iterator of `findDevice`, to the first device of the object.
unfoldable pub set_device : ℕ → Bool → Bool → List Device → List Device
set_device o resumed emulating [] = []
set_device o resumed emulating (d ∷ rest) =
    let later = set_device o resumed emulating rest in
    if d.object == o
    then record d { resumed = resumed; emulating = emulating } ∷ rest
    else d ∷ later

unfoldable pub erase_device : ℕ → List Device → List Device
erase_device o [] = []
erase_device o (d ∷ rest) =
    let later = erase_device o rest in if d.object == o then rest else d ∷ later

unfoldable pub process_ei_event : EiEvent → Injector → Injector
unfolding find_device set_device erase_device
process_ei_event (device_added o) i = record i {
  devices = add_device o i.devices;
  log = take_ref o ∷ i.log;
}
process_ei_event (device_resumed o) i = elim (find_device o i.devices) [
  | none ↦ i
  | some d ↦
      if d.emulating then record i { devices = set_device o true true i.devices } else record i {
        devices = set_device o true true i.devices;
        sequence = (i.sequence + 1) % 4294967296;
        log = start_emulating o i.sequence ∷ i.log;
      }
]
process_ei_event (device_paused o) i = elim (find_device o i.devices) [
  | none ↦ i
  | some d ↦ record i { devices = set_device o false false i.devices }
]
process_ei_event (device_removed o) i = elim (find_device o i.devices) [
  | none ↦ i
  | some d ↦ record i { devices = erase_device o i.devices; log = unref o ∷ i.log }
]
process_ei_event disconnect i = record i { disconnected = true }
process_ei_event seat_added i = i
process_ei_event other_event i = i

-- The events that libei has.
unfoldable pub dispatch_ei : List EiEvent → Injector → Injector
unfolding process_ei_event
dispatch_ei [] i = i
dispatch_ei (e ∷ rest) i = dispatch_ei rest (process_ei_event e i)

-- The devices of `close`, which stops those that emulate.
unfoldable pub release_devices : List Device → List Request → List Request
release_devices [] log = log
release_devices (d ∷ rest) log =
    release_devices rest
      (unref d.object ∷ (if d.emulating then stop_emulating d.object ∷ log else log))

unfoldable pub close_devices : Injector → Injector
unfolding release_devices
close_devices i = record i {
  devices = [];
  disconnected = false;
  log = release_devices i.devices i.log;
}

-- `capable` is what libei says of a device; `code` gives the values of the macros of the Linux
-- header.
module _ (capable : ℕ → Capability → Bool) where
  unfoldable pub device : Capability → List Device → Option ℕ
  device c [] = none
  device c (d ∷ rest) =
      let later = device c rest in if d.resumed && capable d.object c then some d.object else later

  unfoldable pub ready : List Device → Bool
  unfolding device
  ready devices =
      is_some (device pointer_absolute devices)
      && (is_some (device button devices)
          && (is_some (device scroll devices) && is_some (device keyboard devices)))

  -- The requests made so far, and how the event went.
  abbrev pub Outcome : Type 0
  Outcome = List Request × Result Errc (Unit {0})

  module _ (code : String → ℕ) (screens : List ScreenInfo) (devices : List Device) where
    abbrev evdev_button : MouseButton → Option ℕ
    evdev_button Events.left = some (code "BTN_LEFT")
    evdev_button Events.right = some (code "BTN_RIGHT")
    evdev_button Events.middle = some (code "BTN_MIDDLE")
    evdev_button Events.none = none

    unfoldable pub move_pointer : ℕ → ℤ → ℤ → List Request → Outcome
    unfolding device local_to_global
    move_pointer screen x y log = elim (device pointer_absolute devices) [
      | none ↦ (log, err invalid_argument)
      | some o ↦ elim (local_to_global screens screen x y) [
        | none ↦ (log, err invalid_argument)
        | some (gx, gy) ↦ (frame o ∷ motion_absolute o gx gy ∷ log, ok tt)
      ]
    ]

    unfoldable pub press_button : MouseButtonEvent → List Request → Outcome
    unfolding device
    press_button event log = elim (device button devices) [
      | none ↦ (log, err invalid_argument)
      | some o ↦ elim (evdev_button event.button) [
        | none ↦ (log, err invalid_argument)
        | some b ↦ (frame o ∷ press o b (not event.release) ∷ log, ok tt)
      ]
    ]

    unfoldable pub inject_button : MouseButtonEvent → List Request → Outcome
    unfolding move_pointer press_button
    inject_button event log =
        let (moved, r) = move_pointer event.screen_index event.x event.y log in
        elim r [ err e ↦ (moved, err e) | ok u ↦ press_button event moved ]

    unfoldable pub inject_wheel : MouseWheelEvent → List Request → Outcome
    unfolding device
    inject_wheel event log = elim (device scroll devices) [
      | none ↦ (log, err operation_not_supported)
      | some o ↦
          (frame o ∷ scroll_discrete o event.delta_x (sub32 (pos 0) event.delta_y) ∷ log, ok tt)
    ]

    unfoldable pub inject_key : KeyEvent → List Request → Outcome
    unfolding device evdev_key_code
    inject_key event log = elim (device keyboard devices) [
      | none ↦ (log, err invalid_argument)
      | some o ↦ elim (evdev_key_code code event.key) [
        | none ↦ (log, err invalid_argument)
        | some native ↦ (frame o ∷ press_key o native (not event.release) ∷ log, ok tt)
      ]
    ]

    unfoldable pub inject_one : InputEvent → List Request → Outcome
    unfolding move_pointer inject_button inject_wheel inject_key
    inject_one (move_event e) log = move_pointer e.screen_index e.x e.y log
    inject_one (button_event e) log = inject_button e log
    inject_one (wheel_event e) log = inject_wheel e log
    inject_one (key_event e) log = inject_key e log

  -- `inject`, with whether there is a libei context and the events that it has by then.
  unfoldable pub inject :
      (String → ℕ)
      → List ScreenInfo
      → Bool
      → List EiEvent
      → InputEvent
      → Injector
      → Injector × Result Errc (Unit {0})
  unfolding ready dispatch_ei inject_one
  inject code screens has_ei events event i =
      if not (has_ei && ready i.devices)
      then (i, err not_connected)
      else (let i' = dispatch_ei events i in
          if i'.disconnected
          then (i', err connection_reset)
          else (let (log, r) = inject_one code screens i'.devices event i'.log in
              (record i' { log = log }, r)))
