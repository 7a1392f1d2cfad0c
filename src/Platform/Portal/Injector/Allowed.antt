-- ===== src/Platform/Portal/Injector/Allowed.antt =====
-- src/platform/wayland_portal.cpp, PortalInputInjector: to which devices requests go.
use mksync.Prelude.{
  ℕ, ℤ, ◌≡◌, String, Bool, true, false, not, ◌&&◌, List, [], ◌∷◌, some, Option-cases, Bool-cases,
  Result-cases, inl, inr, ◌⊎◌, arith,
}
use mksync.Core.Events.{
  ScreenInfo, InputEvent, MouseButtonEvent, move_event, button_event, wheel_event, key_event,
}
use mksync.Platform.Wayland.Keymap.{evdev_key_code}
use mksync.Platform.Portal.Screens.{local_to_global}
use mksync.Platform.Portal.Injector.{
  Capability, pointer_absolute, button, scroll, keyboard, Device, Request, frame, motion_absolute,
  press, scroll_discrete, press_key, device, evdev_button, move_pointer, press_button,
  inject_button, inject_wheel, inject_key, inject_one,
}

-- Some device of the list is this object, resumed and capable.
abbrev pub Offers : (ℕ → Capability → Bool) → Capability → List Device → ℕ → Type 0
Offers capable c [] o = ⊥
Offers capable c (d ∷ rest) o =
    ((d.object ≡ o) × ((d.resumed && capable d.object c) ≡ true)) ⊎ Offers capable c rest o

-- The requests of an event, the newest first, upon those before: each request that emulates input
-- goes to a resumed device with the capability for it, and is framed on that device at once.
pub data Emulates (capable : ℕ → Capability → Bool) (devices : List Device) (before : List Request)
    : List Request → Type 0 where
  nothing : Emulates capable devices before before
  moves :
      {log : List Request} (o : ℕ) (x y : ℤ)
      → Offers capable pointer_absolute devices o
      → Emulates capable devices before log
      → Emulates capable devices before (frame o ∷ motion_absolute o x y ∷ log)
  presses :
      {log : List Request} (o b : ℕ) (down : Bool)
      → Offers capable button devices o
      → Emulates capable devices before log
      → Emulates capable devices before (frame o ∷ press o b down ∷ log)
  scrolls :
      {log : List Request} (o : ℕ) (dx dy : ℤ)
      → Offers capable scroll devices o
      → Emulates capable devices before log
      → Emulates capable devices before (frame o ∷ scroll_discrete o dx dy ∷ log)
  presses_key :
      {log : List Request} (o k : ℕ) (down : Bool)
      → Offers capable keyboard devices o
      → Emulates capable devices before log
      → Emulates capable devices before (frame o ∷ press_key o k down ∷ log)

module _ (capable : ℕ → Capability → Bool) where
  pub device-Offers :
      (c : Capability) (ds : List Device) (o : ℕ)
      → device capable c ds ≡ some o
      → Offers capable c ds o
  unfolding device
  device-Offers c [] o e = cc
  device-Offers c (d ∷ rest) o e = elim (Bool-cases (d.resumed && capable d.object c)) [
    | inl b ↦ inl (found b, b)
    | inr b ↦ inr (device-Offers c rest o (later b))
  ]
    where
      found : (d.resumed && capable d.object c) ≡ true → d.object ≡ o
      found b = ground (arith, e, b)

      later : (d.resumed && capable d.object c) ≡ false → device capable c rest ≡ some o
      later b = ground (arith, e, b)

  module _ (code : String → ℕ) (screens : List ScreenInfo) (ds : List Device) where
    move_pointer-Emulates :
        (screen : ℕ) (x y : ℤ) (before log : List Request)
        → Emulates capable ds before log
        → Emulates capable ds before ((move_pointer capable code screens ds screen x y log).0)
    unfolding move_pointer
    move_pointer-Emulates screen x y before log h =
        elim (Option-cases (device capable pointer_absolute ds)) [
          | inl e ↦ rw (e, move_pointer) h
          | inr (o, e) ↦ elim (Option-cases (local_to_global screens screen x y)) [
            | inl g ↦ rw (e, move_pointer, g) h
            | inr (p, g) ↦
                rw (e, move_pointer, g) (moves o p.0 p.1 (device-Offers pointer_absolute ds o e) h)
          ]
        ]

    press_button-Emulates :
        (event : MouseButtonEvent) (before log : List Request)
        → Emulates capable ds before log
        → Emulates capable ds before ((press_button capable code screens ds event log).0)
    unfolding press_button
    press_button-Emulates event before log h = elim (Option-cases (device capable button ds)) [
      | inl e ↦ rw (e, press_button) h
      | inr (o, e) ↦ elim (Option-cases (evdev_button capable code screens ds event.button)) [
        | inl b ↦ rw (e, press_button, b) h
        | inr (b, q) ↦
            rw (e, press_button, q)
              (presses o b (not event.release) (device-Offers button ds o e) h)
      ]
    ]

    -- Whatever the event, and whether or not it fails: each request that emulates input goes to a
    -- resumed device with the capability for it, and is framed on that device at once.
    pub inject_one-Emulates :
        (event : InputEvent) (log : List Request)
        → Emulates capable ds log ((inject_one capable code screens ds event log).0)
    unfolding inject_one inject_button inject_wheel inject_key
    inject_one-Emulates (move_event m) log =
        move_pointer-Emulates m.screen_index m.x m.y log log nothing
    inject_one-Emulates (button_event b) log =
        let moved = move_pointer capable code screens ds b.screen_index b.x b.y log in
        let h = move_pointer-Emulates b.screen_index b.x b.y log log nothing in
        elim (Result-cases moved.1) [
          | inr (e, r) ↦ rw (r, inject_button) h
          | inl (u, r) ↦ rw (r, inject_button) (press_button-Emulates b log moved.0 h)
        ]
    inject_one-Emulates (wheel_event v) log = elim (Option-cases (device capable scroll ds)) [
      | inl e ↦ rw (e, inject_wheel) nothing
      | inr (o, e) ↦ rw (e, inject_wheel) (scrolls o _ _ (device-Offers scroll ds o e) nothing)
    ]
    inject_one-Emulates (key_event k) log = elim (Option-cases (device capable keyboard ds)) [
      | inl e ↦ rw (e, inject_key) nothing
      | inr (o, e) ↦ elim (Option-cases (evdev_key_code code k.key)) [
        | inl n ↦ rw (e, inject_key, n) nothing
        | inr (n, q) ↦
            rw (e, inject_key, q)
              (presses_key o n (not k.release) (device-Offers keyboard ds o e) nothing)
      ]
    ]
