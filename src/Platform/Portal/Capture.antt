-- ===== src/Platform/Portal/Capture.antt =====
-- src/platform/wayland_portal.cpp, PortalInputCapture: the signals of the portal, the events of libei,
-- and the calls of the interface once a session runs.
pub mod Activation
pub mod Traces
use mksync.Prelude.{
  ℕ, ◌==◌, ℤ, pos, sub32, String, Bool, true, false, not, ◌&&◌, List, [], ◌∷◌, ◌++◌, Option, none,
  some, Result, ok, err, if◌then◌else◌,
}
use mksync.Core.Key
use mksync.Core.KeyModifier
use mksync.Core.Events.{
  MouseButton, ScreenInfo, InputEvent, move_event, button_event, wheel_event, key_event,
}
use mksync.Core.Events
use mksync.Platform.KeyTable.{switch}
use mksync.Platform.Xcb.Events.{modifier_cases, with_own_modifier}
use mksync.Platform.Wayland.Keymap.{key_from_evdev}
use mksync.Platform.Portal.Errors.{Errc, not_connected, invalid_argument}
use mksync.Platform.Portal.Screens.{Zone, zone_screens, update_screens, local_to_global}
use mksync.Platform.Portal.Points.{Doubles, LocalPoint, global_to_local}

-- `CaptureState`, with the events in the order of the queue.
pub record CaptureState (D : Type 0) : Type 0 where
  pub events : List InputEvent
  pub global_x : D
  pub global_y : D
  pub activation_id : ℕ
  pub modifiers : ℕ
  pub active : Bool
  pub closed : Bool

-- The capture: the screens of its platform, its state, and the releases that it has asked for, the newest first, each of an
-- activation and at a point.
pub record Capture (D : Type 0) : Type 0 where
  pub screens : List ScreenInfo
  pub state : CaptureState D
  pub has_session : Bool
  pub releases : List (ℕ × D × D)

-- A capture whose session has started.
abbrev pub new_capture : {D : Type 0} → List ScreenInfo → D → Capture D
new_capture screens zero = record {
  screens = screens;
  state = record {
    events = [];
    global_x = zero;
    global_y = zero;
    activation_id = 0;
    modifiers = KeyModifier.none;
    active = false;
    closed = false;
  };
  has_session = true;
  releases = [];
}

-- The events of libei: a motion by or to a point, a button or a key with whether it is pressed, and
-- scrolling by clicks or by distances.
pub data EiEvent (D : Type 0) : Type 0 where
  seat_added disconnect other_event : EiEvent D
  pointer_motion pointer_motion_absolute scroll_delta : D → D → EiEvent D
  button keyboard_key : ℕ → Bool → EiEvent D
  scroll_discrete : ℤ → ℤ → EiEvent D

unfoldable pub key_modifier_for : ℕ → ℕ
unfolding switch
key_modifier_for key = elim (switch key modifier_cases) [
  | none ↦ KeyModifier.none
  | some modifier ↦ modifier
]

module _ {D : Type 0} where
  unfoldable pub capture_activated : ℕ → Option (D × D) → CaptureState D → CaptureState D
  capture_activated id none s = record s { activation_id = id; active = true }
  capture_activated id (some (x, y)) s = record s {
    activation_id = id;
    active = true;
    global_x = x;
    global_y = y;
  }

  unfoldable pub capture_deactivated : ℕ → CaptureState D → CaptureState D
  capture_deactivated id s =
      if s.activation_id == id then record s { activation_id = 0; active = false } else s

  unfoldable pub capture_disabled : CaptureState D → CaptureState D
  capture_disabled s = record s { activation_id = 0; active = false }

  -- `name` formats "portal-zone-{}".
  unfoldable pub capture_zones_changed : (ℕ → String) → List Zone → Capture D → Capture D
  unfolding zone_screens update_screens
  capture_zones_changed name zones c = record c {
    screens = update_screens (zone_screens name 0 zones) c.screens;
  }

  unfoldable pub set_remote_control_active : Bool → Capture D → Result Errc (Unit {0})
  set_remote_control_active active c = if c.has_session then ok tt else err not_connected

  unfoldable pub queue : InputEvent → CaptureState D → CaptureState D
  queue event s = record s { events = s.events ++ event ∷ [] }

module _ {D : Type 0} (d : Doubles D) (code : String → ℕ) (screens : List ScreenInfo) where
  abbrev release_at : ℕ → D × D → Capture D → Capture D
  release_at id (x, y) c =
      let moved = record c {
        state = record c.state { global_x = x; global_y = y; active = false; activation_id = 0 };
      } in
      if id == 0 then moved else record moved { releases = (id, x, y) ∷ c.releases }

  unfoldable pub move_local_cursor : ℕ → ℤ → ℤ → Capture D → Capture D × Result Errc (Unit {0})
  unfolding local_to_global
  move_local_cursor i x y c =
      if not c.has_session then (c, err not_connected) else elim (local_to_global screens i x y) [
        | none ↦ (c, err invalid_argument)
        | some (gx, gy) ↦ (release_at c.state.activation_id (d.of_int gx, d.of_int gy) c, ok tt)
      ]

  unfoldable pub pointer_button : ℕ → MouseButton
  pointer_button b =
      if b == code "BTN_LEFT"
      then Events.left
      else if b == code "BTN_RIGHT"
      then Events.right
      else if b == code "BTN_MIDDLE"
      then Events.middle
      else Events.none

  -- What happens at the point of the pointer, if there is a screen.
  abbrev pub at_point : (LocalPoint → InputEvent) → CaptureState D → CaptureState D
  at_point event s = elim (global_to_local d screens s.global_x s.global_y) [
    | none ↦ s
    | some p ↦ queue (event p) s
  ]

  abbrev move_by : ℤ → ℤ → LocalPoint → InputEvent
  move_by dx dy p =
      move_event
        (record { x = p.x; y = p.y; screen_index = p.screen_index; delta_x = dx; delta_y = dy })

  abbrev wheel_by : ℤ → ℤ → LocalPoint → InputEvent
  wheel_by dx dy p = wheel_event (record { x = p.x; y = p.y; delta_x = dx; delta_y = dy })

  abbrev pub press_button : MouseButton → Bool → CaptureState D → CaptureState D
  press_button Events.none pressed s = s
  press_button b pressed s =
      at_point
        (λ p. button_event (record {
          x = p.x;
          y = p.y;
          screen_index = p.screen_index;
          button = b;
          release = not pressed;
        }))
        s

  unfoldable pub press_key : ℕ → Bool → CaptureState D → CaptureState D
  unfolding key_from_evdev key_modifier_for with_own_modifier queue
  press_key native pressed s =
      let key = key_from_evdev code native in
      let modifiers = with_own_modifier (key_modifier_for key) (not pressed) s.modifiers in
      if key == Key.none
      then s
      else queue
          (key_event (record {
            key = key;
            modifiers = modifiers;
            native_code = native;
            repeat = false;
            release = not pressed;
          }))
          (record s { modifiers = modifiers })

  unfoldable pub process_ei_event : EiEvent D → CaptureState D → CaptureState D
  unfolding global_to_local queue pointer_button press_key
  process_ei_event (pointer_motion dx dy) s =
      at_point (move_by (d.lround dx) (d.lround dy))
        (record s { global_x = d.add s.global_x dx; global_y = d.add s.global_y dy })
  process_ei_event (pointer_motion_absolute x y) s =
      at_point (move_by (pos 0) (pos 0)) (record s { global_x = x; global_y = y })
  process_ei_event (button b pressed) s = press_button (pointer_button b) pressed s
  process_ei_event (scroll_discrete dx dy) s = at_point (wheel_by dx (sub32 (pos 0) dy)) s
  process_ei_event (scroll_delta dx dy) s =
      at_point (wheel_by (d.lround (d.times12 dx)) (d.lround (d.times12 (d.negate dy)))) s
  process_ei_event (keyboard_key native pressed) s = press_key native pressed s
  process_ei_event disconnect s = record s { closed = true }
  process_ei_event seat_added s = s
  process_ei_event other_event s = s

module _ {D : Type 0} where
  unfoldable pub close : Capture D → Capture D
  close c = record c {
    has_session = false;
    state = record c.state { closed = true; active = false };
  }

  -- One turn of `nextEvent` after the events of libei: an event, `none` where it polls, or an error
  -- where it throws.
  unfoldable pub take_event : CaptureState D → CaptureState D × Result Errc (Option InputEvent)
  take_event s = elim s.events [
    | [] ↦ (s, if s.closed then err not_connected else ok none)
    | event ∷ rest ↦ (record s { events = rest }, ok (some event))
  ]
