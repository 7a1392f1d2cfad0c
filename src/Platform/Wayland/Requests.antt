-- ===== src/Platform/Wayland/Requests.antt =====
-- src/platform/wayland.cpp, WaylandInputInjector: the requests that it makes of input events.
use Prim.Native.Nat.{bit_or}
use mksync.Prelude.{
  ℕ, ◌==◌, ltb, ℤ, pos, ◌^◌, ◌-ℤ◌, eqb_ℤ, String, Bool, true, false, not, List, [], ◌∷◌, ◌++◌,
  Option, none, some, if◌then◌else◌,
}
use mksync.Core.KeyModifier
use mksync.Core.KeyModifier.{union, intersection}
use mksync.Core.Events.{
  MouseButton, ScreenInfo, InputEvent, MouseMoveEvent, MouseButtonEvent, MouseWheelEvent, KeyEvent,
  move_event, button_event, wheel_event, key_event,
}
use mksync.Core.Events
use mksync.Platform.Wayland.Keymap.{evdev_key_code}
use mksync.Platform.Wayland.Outputs.{div_ℤ}
use mksync.Platform.Wayland.Position.{AbsolutePosition, absolute_position}

-- The requests; whether an axis is the vertical one, its value, and its whole steps.
pub data Request : Type 0 where
  motion_absolute : AbsolutePosition → Request
  button : ℕ → Bool → Request
  axis_discrete : Bool → ℤ → ℤ → Request
  axis : Bool → ℤ → Request
  frame : Request
  key : ℕ → Bool → Request
  set_modifiers : ℕ → Request

-- The masks of the four modifiers in the key map.
pub record Masks : Type 0 where
  pub shift : ℕ
  pub ctrl : ℕ
  pub alt : ℕ
  pub logo : ℕ

-- `index` is `none` for XKB_MOD_INVALID.
unfoldable pub modifier_mask : Option ℕ → ℕ
modifier_mask none = 0
modifier_mask (some index) = if ltb index 32 then 2 ^ index else 0

abbrev with_mask : ℕ → ℕ → ℕ → ℕ → ℕ
with_mask modifiers pair mask so_far =
    if intersection modifiers pair == KeyModifier.none then so_far else bit_or so_far mask

unfoldable pub modifiers_for : Masks → ℕ → ℕ
modifiers_for m modifiers =
    with_mask modifiers (union KeyModifier.left_meta KeyModifier.right_meta) m.logo (
      with_mask modifiers (union KeyModifier.left_alt KeyModifier.right_alt) m.alt (
        with_mask modifiers (union KeyModifier.left_ctrl KeyModifier.right_ctrl) m.ctrl
          (with_mask modifiers (union KeyModifier.left_shift KeyModifier.right_shift) m.shift 0)))

-- `fixed` is `wl_fixed_from_double` of the twelfth part.
module _ (code : String → ℕ) (fixed : ℤ → ℤ) (screens : List ScreenInfo) where
  unfoldable pub pointer_button : MouseButton → Option ℕ
  pointer_button Events.left = some (code "BTN_LEFT")
  pointer_button Events.right = some (code "BTN_RIGHT")
  pointer_button Events.middle = some (code "BTN_MIDDLE")
  pointer_button Events.none = none

  -- `none` is `std::errc::invalid_argument`; the requests made before stay made.
  unfoldable pub queue_pointer_position : ℕ → ℤ → ℤ → Option Request
  unfolding absolute_position
  queue_pointer_position i x y = elim (absolute_position screens i x y) [
    | none ↦ none
    | some p ↦ some (motion_absolute p)
  ]

  unfoldable pub inject_move : MouseMoveEvent → List Request × Bool
  unfolding queue_pointer_position
  inject_move e = elim (queue_pointer_position e.screen_index e.x e.y) [
    | none ↦ ([], false)
    | some r ↦ (r ∷ frame ∷ [], true)
  ]

  unfoldable pub inject_button : MouseButtonEvent → List Request × Bool
  unfolding queue_pointer_position pointer_button
  inject_button e = elim (queue_pointer_position e.screen_index e.x e.y) [
    | none ↦ ([], false)
    | some r ↦ elim (pointer_button e.button) [
      | none ↦ (r ∷ [], false)
      | some b ↦ (r ∷ button b (not e.release) ∷ frame ∷ [], true)
    ]
  ]

  -- One axis, vertical or not: whole steps of 120 are sent as discrete ones.
  unfoldable pub turn_axis : Bool → ℤ → List Request
  turn_axis vertical delta =
      let steps = div_ℤ delta 120 in
      if eqb_ℤ delta (pos 0)
      then []
      else if eqb_ℤ steps (pos 0)
      then axis vertical (fixed delta) ∷ []
      else axis_discrete vertical (fixed delta) steps ∷ []

  unfoldable pub inject_wheel : MouseWheelEvent → List Request × Bool
  unfolding turn_axis
  inject_wheel e =
      (turn_axis true (pos 0 -ℤ e.delta_y) ++ (turn_axis false e.delta_x ++ frame ∷ []), true)

  unfoldable pub inject_key : Masks → KeyEvent → List Request × Bool
  unfolding modifiers_for evdev_key_code
  inject_key m e = elim (evdev_key_code code e.key) [
    | none ↦ ([], false)
    | some k ↦ (key k (not e.release) ∷ set_modifiers (modifiers_for m e.modifiers) ∷ [], true)
  ]

  unfoldable pub inject_one : Masks → InputEvent → List Request × Bool
  unfolding inject_move inject_button inject_wheel inject_key
  inject_one m (move_event e) = inject_move e
  inject_one m (button_event e) = inject_button e
  inject_one m (wheel_event e) = inject_wheel e
  inject_one m (key_event e) = inject_key m e
