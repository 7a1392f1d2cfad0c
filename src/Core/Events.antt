-- ===== src/Core/Events.antt =====
-- src/core/events.hpp and src/core/mouse.hpp: input events and screen geometry.
use mksync.Prelude.{ℕ, ℤ, Bool, String}

pub data MouseButton : Type 0 where
  none left right middle : MouseButton

pub record MouseMoveEvent : Type 0 where
  pub x : ℤ
  pub y : ℤ
  pub screen_index : ℕ
  pub delta_x : ℤ
  pub delta_y : ℤ

pub record MouseButtonEvent : Type 0 where
  pub x : ℤ
  pub y : ℤ
  pub screen_index : ℕ
  pub button : MouseButton
  pub release : Bool

pub record MouseWheelEvent : Type 0 where
  pub x : ℤ
  pub y : ℤ
  pub delta_x : ℤ
  pub delta_y : ℤ

-- `Key` and `KeyModifier` are enumerations over `uint32_t` and `uint8_t`, whose every value may
-- come off the wire, so a key is its number.
pub record KeyEvent : Type 0 where
  pub key : ℕ
  pub modifiers : ℕ
  pub native_code : ℕ
  pub repeat : Bool
  pub release : Bool

pub record ScreenInfo : Type 0 where
  pub x : ℤ
  pub y : ℤ
  pub width : ℤ
  pub height : ℤ
  pub dpi : ℤ
  pub name : String
  pub primary : Bool

pub data InputEvent : Type 0 where
  key_event : KeyEvent → InputEvent
  button_event : MouseButtonEvent → InputEvent
  move_event : MouseMoveEvent → InputEvent
  wheel_event : MouseWheelEvent → InputEvent
