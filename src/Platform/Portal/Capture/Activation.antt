-- ===== src/Platform/Portal/Capture/Activation.antt =====
-- src/platform/wayland_portal.cpp, PortalInputCapture: activations of the portal, and their releases.
use mksync.Prelude.{
  ℕ, suc, ◌+◌, ◌≤◌, ◌==◌, ◌≡◌, refl, ℤ, String, Bool, not, List, [], ◌∷◌, Option, none, some,
  if◌then◌else◌, if_rule, Option-cases, inl, inr, Result, arith,
}
use mksync.Core.Events.{ScreenInfo, InputEvent, MouseButton}
use mksync.Core.Events
use mksync.Platform.Portal.Errors.{Errc}
use mksync.Platform.Portal.Screens.{Zone, local_to_global}
use mksync.Platform.Portal.Points.{Doubles, LocalPoint, global_to_local}
use mksync.Platform.Portal.Capture.{
  CaptureState, Capture, EiEvent, pointer_motion, pointer_motion_absolute, button, scroll_discrete,
  scroll_delta, keyboard_key, seat_added, disconnect, other_event, capture_activated,
  capture_deactivated, capture_disabled, capture_zones_changed, move_local_cursor, press_key,
  press_button, at_point, queue, pointer_button, process_ei_event, close, take_event,
}

-- A signal of the portal, an event of libei, a turn of `nextEvent`, or a call.
pub data Call (D : Type 0) : Type 0 where
  activated : ℕ → Option (D × D) → Call D
  deactivated : ℕ → Call D
  disabled next_event shutdown : Call D
  moved_cursor : ℕ → ℤ → ℤ → Call D
  ei_event : EiEvent D → Call D
  zones_changed : List Zone → Call D

-- How often an activation is announced, and how often it is released.
abbrev pub activations : {D : Type 0} → ℕ → List (Call D) → ℕ
activations k [] = 0
activations k (activated id p ∷ rest) = (if id == k then 1 else 0) + activations k rest
activations k (deactivated id ∷ rest) = activations k rest
activations k (disabled ∷ rest) = activations k rest
activations k (next_event ∷ rest) = activations k rest
activations k (shutdown ∷ rest) = activations k rest
activations k (moved_cursor i x y ∷ rest) = activations k rest
activations k (ei_event e ∷ rest) = activations k rest
activations k (zones_changed z ∷ rest) = activations k rest

abbrev pub releases_of : {D : Type 0} → ℕ → List (ℕ × D × D) → ℕ
releases_of k [] = 0
releases_of k ((id, x, y) ∷ rest) = (if id == k then 1 else 0) + releases_of k rest

activations-cons :
    {D : Type 0} (k : ℕ) (call : Call D) (rest : List (Call D))
    → activations k (call ∷ rest) ≡ activations k (call ∷ []) + activations k rest
activations-cons k (activated id p) rest = omega arith
activations-cons k (deactivated id) rest = omega arith
activations-cons k disabled rest = omega arith
activations-cons k next_event rest = omega arith
activations-cons k shutdown rest = omega arith
activations-cons k (moved_cursor i x y) rest = omega arith
activations-cons k (ei_event e) rest = omega arith
activations-cons k (zones_changed z) rest = omega arith

module _ {D : Type 0} (d : Doubles D) (code : String → ℕ) (screens : List ScreenInfo) where
  -- The events of libei and those taken from the queue leave the activation alone.
  pub taken : (s : CaptureState D) → (take_event s).0.activation_id ≡ s.activation_id
  unfolding take_event
  taken s = ground arith

  pressed :
      (native : ℕ) (b : Bool) (s : CaptureState D)
      → (press_key d code screens native b s).activation_id ≡ s.activation_id
  unfolding press_key
  pressed native b s =
      if_rule (λ (t : CaptureState D). t.activation_id ≡ s.activation_id) _ _ _ (λ e. refl)
        (λ e. refl)

  at_point-activation_id :
      (event : LocalPoint → InputEvent) (s : CaptureState D)
      → (at_point d code screens event s).activation_id ≡ s.activation_id
  unfolding queue
  at_point-activation_id event s =
      elim (Option-cases (global_to_local d screens s.global_x s.global_y)) [
        | inl e ↦ rw (e, at_point) refl
        | inr (p, e) ↦ rw (e, at_point) refl
      ]

  press_button-activation_id :
      (b : MouseButton) (down : Bool) (s : CaptureState D)
      → (press_button d code screens b down s).activation_id ≡ s.activation_id
  press_button-activation_id Events.none down s = refl
  press_button-activation_id b down s = at_point-activation_id _ s

  pub processed :
      (e : EiEvent D) (s : CaptureState D)
      → (process_ei_event d code screens e s).activation_id ≡ s.activation_id
  unfolding process_ei_event
  processed (pointer_motion dx dy) s = at_point-activation_id _ _
  processed (pointer_motion_absolute x y) s = at_point-activation_id _ _
  processed (button b down) s = press_button-activation_id (pointer_button d code screens b) down s
  processed (scroll_discrete dx dy) s = at_point-activation_id _ _
  processed (scroll_delta dx dy) s = at_point-activation_id _ _
  processed (keyboard_key native down) s = pressed native down s
  processed disconnect s = refl
  processed seat_added s = refl
  processed other_event s = refl

module _ {D : Type 0} (d : Doubles D) (code : String → ℕ) (name : ℕ → String) where
  unfoldable pub apply : Call D → Capture D → Capture D
  unfolding capture_activated capture_deactivated capture_disabled move_local_cursor
      process_ei_event close take_event capture_zones_changed
  apply (activated id p) c = record c { state = capture_activated id p c.state }
  apply (deactivated id) c = record c { state = capture_deactivated id c.state }
  apply disabled c = record c { state = capture_disabled c.state }
  apply next_event c = record c { state = (take_event c.state).0 }
  apply shutdown c = close c
  apply (moved_cursor i x y) c = (move_local_cursor d code c.screens i x y c).0
  apply (ei_event e) c = record c { state = process_ei_event d code c.screens e c.state }
  apply (zones_changed zones) c = capture_zones_changed name zones c

  unfoldable pub run : List (Call D) → Capture D → Capture D
  unfolding apply
  run [] c = c
  run (call ∷ rest) c = run rest (apply call c)

  -- Of an activation, as many releases as announcements are asked for at most, and one less while it
  -- is the current one.
  abbrev pub IsAccounted : ℕ → Capture D → ℕ → Type 0
  IsAccounted k c count =
      releases_of k c.releases + (if c.state.activation_id == k then 1 else 0) ≤ count

  moved-IsAccounted :
      (k i : ℕ) (x y : ℤ) (c : Capture D) (n : ℕ)
      → IsAccounted (suc k) c n
      → IsAccounted (suc k) ((move_local_cursor d code c.screens i x y c).0) (0 + n)
  unfolding move_local_cursor
  moved-IsAccounted k i x y c n h =
      if_rule (λ (r : Capture D × Result Errc (Unit {0})). IsAccounted (suc k) r.0 (0 + n))
        (not c.has_session) _ _ (λ b. omega (arith, h))
        (λ b. elim (Option-cases (local_to_global c.screens i x y)) [
          | inl e ↦ rw e (omega (arith, h))
          | inr (p, e) ↦ rw e (
              if_rule (λ (r : Capture D). IsAccounted (suc k) r (0 + n))
                (c.state.activation_id == 0) _ _ (λ z. ground (arith, h, z))
                (λ z. ground (arith, h, z)))
        ])

  apply-IsAccounted :
      (k : ℕ) (call : Call D) (c : Capture D) (n : ℕ)
      → IsAccounted (suc k) c n
      → IsAccounted (suc k) (apply call c) (activations (suc k) (call ∷ []) + n)
  unfolding apply capture_zones_changed
  apply-IsAccounted k (activated id none) c n h = ground (arith, h)
  apply-IsAccounted k (activated id (some p)) c n h = ground (arith, h)
  apply-IsAccounted k (deactivated id) c n h = ground (arith, h)
  apply-IsAccounted k disabled c n h = ground (arith, h)
  apply-IsAccounted k next_event c n h = rw (taken d code c.screens c.state) (omega (arith, h))
  apply-IsAccounted k shutdown c n h = ground (arith, h)
  apply-IsAccounted k (moved_cursor i x y) c n h = moved-IsAccounted k i x y c n h
  apply-IsAccounted k (zones_changed z) c n h = omega (arith, h)
  apply-IsAccounted k (ei_event e) c n h =
      rw (processed d code c.screens e c.state) (omega (arith, h))

  pub run-IsAccounted :
      (k : ℕ) (calls : List (Call D)) (c : Capture D) (n : ℕ)
      → IsAccounted (suc k) c n
      → IsAccounted (suc k) (run calls c) (activations (suc k) calls + n)
  unfolding run
  run-IsAccounted k [] c n h = omega (arith, h)
  run-IsAccounted k (call ∷ rest) c n h =
      let now = apply-IsAccounted k call c n h in
      omega (
        arith,
        run-IsAccounted k rest (apply call c) (activations (suc k) (call ∷ []) + n) now,
        activations-cons (suc k) call rest,
      )

  abbrev pub NeverZero : Capture D → Type 0
  NeverZero c = releases_of 0 c.releases ≡ 0

  apply-NeverZero : (call : Call D) (c : Capture D) → NeverZero c → NeverZero (apply call c)
  unfolding apply move_local_cursor capture_zones_changed
  apply-NeverZero (moved_cursor i x y) c h =
      if_rule (λ (r : Capture D × Result Errc (Unit {0})). NeverZero r.0) (not c.has_session) _ _
        (λ b. h)
        (λ b. elim (Option-cases (local_to_global c.screens i x y)) [
          | inl e ↦ rw e h
          | inr (p, e) ↦ rw e (
              if_rule NeverZero (c.state.activation_id == 0) _ _ (λ z. h)
                (λ z. ground (arith, h, z)))
        ])
  apply-NeverZero (activated id p) c h = h
  apply-NeverZero (deactivated id) c h = h
  apply-NeverZero disabled c h = h
  apply-NeverZero next_event c h = h
  apply-NeverZero shutdown c h = h
  apply-NeverZero (zones_changed z) c h = h
  apply-NeverZero (ei_event e) c h = h

  pub run-NeverZero :
      (calls : List (Call D)) (c : Capture D) → NeverZero c → NeverZero (run calls c)
  unfolding run
  run-NeverZero [] c h = h
  run-NeverZero (call ∷ rest) c h = run-NeverZero rest (apply call c) (apply-NeverZero call c h)
