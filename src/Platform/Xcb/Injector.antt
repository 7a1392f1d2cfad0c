-- ===== src/Platform/Xcb/Injector.antt =====
-- src/platform/xcb.cpp, XcbInputInjector: input events become XTest requests.
pub mod Presses
pub mod Wheel
pub mod Pointer
pub mod Keyboard
use mksync.Prelude.{
  ℕ, zero, suc, ◌+◌, ◌/◌, ◌==◌, ltb, leb, ℤ, pos, pos_part, neg_part, ltb_ℤ, String, Bool, true,
  false, not, ◌&&◌, List, [], ◌∷◌, Option, none, some, Result, ok, err, if◌then◌else◌,
}
use mksync.Core.Events.{
  MouseButton, InputEvent, MouseMoveEvent, MouseButtonEvent, MouseWheelEvent, KeyEvent, move_event,
  button_event, wheel_event, key_event,
}
use mksync.Core.Events
use mksync.Platform.Xcb.Connection.{Errc, invalid_argument, not_connected, check}
use mksync.Platform.Xcb.Screens.{XcbScreen, local_to_global, root_of, coordinate_fits}
use mksync.Platform.Xcb.Keysyms.{key_sym_for}

-- The requests of `xcb_test_fake_input`.
pub data FakeInput : Type 0 where
  fake_motion : ℕ → ℤ → ℤ → FakeInput
  fake_button : ℕ → Bool → FakeInput
  fake_key : ℕ → Bool → FakeInput

-- What the injector uses: the screens, the values of the keysym macros, the key codes of a keysym
-- (`none` if the library gives no list), whether the server accepts a request after those before,
-- newest first, and `flush` after them.
pub record Target : Type 0 where
  pub screens : List XcbScreen
  pub code : String → ℕ
  pub key_codes_of : ℕ → Option (List ℕ)
  pub accepts : List FakeInput → FakeInput → Bool
  pub flushes : List FakeInput → Result Errc (Unit {0})

-- The requests made so far, newest first, and how the last step went.
abbrev pub Outcome : Type 0
Outcome = List FakeInput × Result Errc (Unit {0})

-- `if (auto error = …; error) { return error; }`
abbrev pub and_then : Outcome → (List FakeInput → Outcome) → Outcome
and_then (log, ok u) next = next log
and_then (log, err e) next = (log, err e)

abbrev pub button_for : MouseButton → Option ℕ
button_for Events.left = some 1
button_for Events.middle = some 2
button_for Events.right = some 3
button_for Events.none = none

-- The clicks of a wheel's delta: `abs`, rounded up to whole steps of 120, and at least one.
unfoldable pub wheel_click_count : ℤ → ℕ
wheel_click_count delta =
    let clicks = (pos_part delta + neg_part delta + 119) / 120 in if ltb clicks 1 then 1 else clicks

module _ (t : Target) where
  -- A refused request has been made as well.
  unfoldable pub fake_input : FakeInput → List FakeInput → Outcome
  unfolding check
  fake_input request log = (request ∷ log, check (t.accepts log request))

  abbrev flushed : List FakeInput → Outcome
  flushed log = (log, t.flushes log)

  -- The pointer that is observed afterwards is only logged.
  unfoldable pub move_cursor : ℕ → ℤ → ℤ → List FakeInput → Outcome
  unfolding fake_input local_to_global root_of
  move_cursor screen x y log = elim (local_to_global t.screens screen x y) [
    | none ↦ (log, err invalid_argument)
    | some (gx, gy) ↦ elim (root_of t.screens screen) [
      | none ↦ (log, err invalid_argument)
      | some root ↦
          if coordinate_fits gx && coordinate_fits gy
          then and_then (fake_input (fake_motion root gx gy) log) flushed
          else (log, err invalid_argument)
    ]
  ]

  unfoldable pub fake_clicks : ℕ → ℕ → List FakeInput → Outcome
  unfolding fake_input
  fake_clicks zero button log = flushed log
  fake_clicks (suc count) button log =
      and_then (fake_input (fake_button button true) log) (λ pressed.
        and_then (fake_input (fake_button button false) pressed)
          (λ released. fake_clicks count button released))

  abbrev no_error : List FakeInput → Outcome
  no_error log = (log, ok tt)

  -- The vertical and the horizontal half of a wheel event.
  unfoldable pub inject_wheel_y : ℤ → List FakeInput → Outcome
  unfolding fake_clicks wheel_click_count
  inject_wheel_y delta log =
      if ltb_ℤ (pos 0) delta
      then fake_clicks (wheel_click_count delta) 4 log
      else if ltb_ℤ delta (pos 0)
      then fake_clicks (wheel_click_count delta) 5 log
      else no_error log

  unfoldable pub inject_wheel_x : ℤ → List FakeInput → Outcome
  unfolding fake_clicks wheel_click_count
  inject_wheel_x delta log =
      if ltb_ℤ delta (pos 0)
      then fake_clicks (wheel_click_count delta) 6 log
      else if ltb_ℤ (pos 0) delta
      then fake_clicks (wheel_click_count delta) 7 log
      else no_error log

  unfoldable pub inject_wheel : MouseWheelEvent → List FakeInput → Outcome
  unfolding inject_wheel_x inject_wheel_y
  inject_wheel event log =
      and_then (inject_wheel_y event.delta_y log) (inject_wheel_x event.delta_x)

  unfoldable pub inject_button : MouseButtonEvent → List FakeInput → Outcome
  unfolding move_cursor fake_input
  inject_button event log = and_then (move_cursor event.screen_index event.x event.y log) (λ moved.
      elim (button_for event.button) [
        | none ↦ (moved, err invalid_argument)
        | some button ↦ and_then (fake_input (fake_button button (not event.release)) moved) flushed
      ])

  -- The first key code of the keysym, unless it is XCB_NO_SYMBOL.
  abbrev first_code : Option (List ℕ) → Option ℕ
  first_code none = none
  first_code (some []) = none
  first_code (some (code ∷ rest)) = if code == 0 then none else some code

  abbrev code_of_sym : Option ℕ → Option ℕ
  code_of_sym none = none
  code_of_sym (some key_sym) = first_code (t.key_codes_of key_sym)

  unfoldable pub key_code_for : KeyEvent → Option ℕ
  unfolding key_sym_for
  key_code_for event = elim (code_of_sym (key_sym_for t.code event.key)) [
    | some code ↦ some code
    | none ↦
        if ltb 0 event.native_code && leb event.native_code 255
        then some event.native_code
        else none
  ]

  unfoldable pub inject_key : KeyEvent → List FakeInput → Outcome
  unfolding key_code_for fake_input
  inject_key event log = elim (key_code_for event) [
    | none ↦ (log, err invalid_argument)
    | some code ↦ and_then (fake_input (fake_key code (not event.release)) log) flushed
  ]

  unfoldable pub inject_one : InputEvent → List FakeInput → Outcome
  unfolding move_cursor inject_button inject_wheel inject_key
  inject_one (move_event e) log = move_cursor e.screen_index e.x e.y log
  inject_one (button_event e) log = inject_button e log
  inject_one (wheel_event e) log = inject_wheel e log
  inject_one (key_event e) log = inject_key e log

  -- `inject`, with whether there is a connection.
  unfoldable pub inject : Bool → InputEvent → List FakeInput → Outcome
  unfolding inject_one
  inject connected event log =
      if not connected then (log, err not_connected) else inject_one event log
