-- ===== src/Platform/Portal/Capture/Traces.antt =====
-- src/platform/wayland_portal.cpp, PortalInputCapture: which activations are released.
use mksync.Prelude.{
  ℕ, suc, ◌≤◌, ◌==◌, ◌≡◌, refl, ℤ, String, not, List, [], ◌∷◌, Option, none, some, if_rule,
  Bool-cases, Option-cases, inl, inr, Result, arith,
}
use mksync.Core.Events.{ScreenInfo}
use mksync.Platform.Portal.Errors.{Errc}
use mksync.Platform.Portal.Screens.{local_to_global}
use mksync.Platform.Portal.Points.{Doubles}
use mksync.Platform.Portal.Capture.{
  Capture, capture_activated, capture_deactivated, capture_disabled, capture_zones_changed,
  move_local_cursor, close, new_capture,
}
use mksync.Platform.Portal.Capture.Activation.{
  Call, activated, deactivated, disabled, next_event, shutdown, moved_cursor, ei_event,
  zones_changed, activations, releases_of, apply, run, taken, processed, run-IsAccounted,
  run-NeverZero,
}

-- What leaves an activation as it is.
abbrev pub Keeps : {D : Type 0} → ℕ → Call D → Type 0
Keeps k (activated id p) = ⊥
Keeps k (deactivated id) = k ≡ id → ⊥
Keeps k disabled = ⊥
Keeps k next_event = Unit
Keeps k shutdown = Unit
Keeps k (moved_cursor i x y) = Unit
Keeps k (ei_event e) = Unit
Keeps k (zones_changed z) = Unit

-- An activation has been announced, and nothing since then has ended it. The newest call stands
-- first.
pub data IsCurrent {D : Type 0} (k : ℕ) : List (Call D) → Type 0 where
  announced : {p : Option (D × D)} {history : List (Call D)} → IsCurrent k (activated k p ∷ history)
  still :
      {call : Call D} {history : List (Call D)}
      → IsCurrent k history
      → Keeps k call
      → IsCurrent k (call ∷ history)

-- The releases that a history may have made: each is of the activation current then, and made by a
-- move of the cursor.
pub data Traced {D : Type 0} : List (Call D) → List (ℕ × D × D) → Type 0 where
  nothing : Traced [] []
  silent :
      {call : Call D} {history : List (Call D)} {releases : List (ℕ × D × D)}
      → Traced history releases
      → Traced (call ∷ history) releases
  released :
      {i k : ℕ} {x y : ℤ} {gx gy : D} {history : List (Call D)} {releases : List (ℕ × D × D)}
      → IsCurrent k history
      → Traced history releases
      → Traced (moved_cursor i x y ∷ history) ((k, gx, gy) ∷ releases)

abbrev pub reversed : {D : Type 0} → List (Call D) → List (Call D) → List (Call D)
reversed [] history = history
reversed (call ∷ calls) history = reversed calls (call ∷ history)

record Holds {D : Type 0} (history : List (Call D)) (c : Capture D) : Type 0 where
  current : (c.state.activation_id ≡ 0 → ⊥) → IsCurrent c.state.activation_id history
  traced : Traced history c.releases

module _ {D : Type 0} (d : Doubles D) (code : String → ℕ) (name : ℕ → String) where
  moved-Holds :
      (i : ℕ) (x y : ℤ) (c : Capture D) (history : List (Call D))
      → Holds history c
      → Holds (moved_cursor i x y ∷ history) ((move_local_cursor d code c.screens i x y c).0)
  unfolding move_local_cursor
  moved-Holds i x y c history h =
      let still' : Holds (moved_cursor i x y ∷ history) c = record {
        current = λ z. still (h.current z) tt;
        traced = silent h.traced;
      } in
      if_rule (λ (r : Capture D × Result Errc (Unit {0})). Holds (moved_cursor i x y ∷ history) r.0)
        (not c.has_session) _ _ (λ b. still')
        (λ b. elim (Option-cases (local_to_global c.screens i x y)) [
          | inl e ↦ rw e still'
          | inr (p, e) ↦ rw e (
              if_rule (Holds (moved_cursor i x y ∷ history)) (c.state.activation_id == 0) _ _
                (λ z. record { current = λ q. absurd (q refl); traced = silent h.traced })
                (λ z. record {
                  current = λ q. absurd (q refl);
                  traced = released (h.current (λ q. ground (arith, z, q))) h.traced;
                }))
        ])

  -- What the history allows: the history is the list of the calls, the newest first.
  grown :
      (call : Call D) (c : Capture D) (history : List (Call D))
      → Holds history c
      → Holds (call ∷ history) (apply d code name call c)
  unfolding apply capture_activated capture_deactivated capture_disabled close capture_zones_changed
  grown (activated id none) c history h = record {
    current = λ z. announced;
    traced = silent h.traced;
  }
  grown (activated id (some p)) c history h = record {
    current = λ z. announced;
    traced = silent h.traced;
  }
  grown (deactivated id) c history h = elim (Bool-cases (c.state.activation_id == id)) [
    | inl e ↦ rw e (record { current = λ z. absurd (z refl); traced = silent h.traced })
    | inr e ↦ rw e (record {
      current = λ z. still (h.current z) (λ q. ground (arith, e, q));
      traced = silent h.traced;
    })
  ]
  grown disabled c history h = record { current = λ z. absurd (z refl); traced = silent h.traced }
  grown next_event c history h = record {
    current = rw (taken d code c.screens c.state) (λ z. still (h.current z) tt);
    traced = silent h.traced;
  }
  grown shutdown c history h = record {
    current = λ z. still (h.current z) tt;
    traced = silent h.traced;
  }
  grown (moved_cursor i x y) c history h = moved-Holds i x y c history h
  grown (zones_changed zones) c history h = record {
    current = λ z. still (h.current z) tt;
    traced = silent h.traced;
  }
  grown (ei_event e) c history h = record {
    current = rw (processed d code c.screens e c.state) (λ z. still (h.current z) tt);
    traced = silent h.traced;
  }

  run-Holds :
      (calls history : List (Call D)) (c : Capture D)
      → Holds history c
      → Holds (reversed calls history) (run d code name calls c)
  unfolding run
  run-Holds [] history c h = h
  run-Holds (call ∷ rest) history c h =
      run-Holds rest (call ∷ history) (apply d code name call c) (grown call c history h)

  -- Whatever the portal signals, libei has and the router asks for, in a session that has just
  -- started: every release is of an activation that is announced before it, and that since then has
  -- neither ended, nor been followed by another one, nor been disabled; and an activation is
  -- released at most as often as it was announced, and never under the id 0.
  pub releases_of-run :
      (screens : List ScreenInfo) (start : D) (k : ℕ) (calls : List (Call D))
      → Traced (reversed calls []) (run d code name calls (new_capture screens start)).releases
        × (releases_of (suc k) (run d code name calls (new_capture screens start)).releases
            ≤ activations (suc k) calls)
        × (releases_of 0 (run d code name calls (new_capture screens start)).releases ≡ 0)
  releases_of-run screens start k calls = (
    (run-Holds calls [] (new_capture screens start)
        (record { current = λ z. absurd (z refl); traced = nothing })).traced,
    omega (arith, run-IsAccounted d code name k calls (new_capture screens start) 0 (ground arith)),
    run-NeverZero d code name calls (new_capture screens start) refl,
  )
