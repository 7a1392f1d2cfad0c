-- ===== src/App/Input/Safety.antt =====
-- src/app/server_input.cpp: the pointer to the active screen, and the mode of the capture.
use mksync.Prelude.{
  ℕ, ◌≡◌, refl, inl, inr, Bool, true, List, [], ◌∷◌, Option, none, some, arith, Bool-cases, if_rule,
  Option-cases, pos,
}
use mksync.Core.Events.{InputEvent}
use mksync.Core.Grid.{ScreenPoint}
use mksync.App.Screens.{Node, ScreenStore, find_screen, first_local_screen, node_at}
use mksync.App.Screens.Nodes.{IsDistinct, node_at-find_screen, node_at-first_local_screen}
use mksync.App.Input.Motion.{switch_active_screen, ensure_active_local_screen}
use mksync.App.Input.{
  CaptureCall, set_remote_control_active, move_local_cursor, Services, Router, active_node,
  is_remote, move_to, update_capture_remote_control, activate_first_local_screen,
  clear_active_state, set_capture, suppress_pending_local_warp, queue_input_for_screen,
  move_local_cursor_to_active_point,
}

-- The mode that the capture was last asked for.
abbrev pub last_mode : List CaptureCall → Option Bool
last_mode [] = none
last_mode (set_remote_control_active b ∷ calls) = some b
last_mode (move_local_cursor i x y ∷ calls) = last_mode calls

-- A pointer is null or points to a screen of the store.
abbrev pub PointsInto : ScreenStore → Option ℕ → Type 0
PointsInto store none = Unit
PointsInto store (some a) = (n : Node) × (node_at a store.screens ≡ some n)

pub record IsSafe {Sender : Type 0} (store : ScreenStore) (r : Router Sender) : Type 0 where
  pub live : PointsInto store r.active_screen
  pub mode : r.has_capture ≡ true → last_mode r.calls ≡ some (is_remote (active_node store r))

module _ {Sender : Type 0} (store : ScreenStore) where
  update-IsSafe :
      (r : Router Sender)
      → PointsInto store r.active_screen
      → IsSafe store (update_capture_remote_control store r)
  unfolding update_capture_remote_control active_node
  update-IsSafe r p = elim (Bool-cases r.has_capture) [
    | inl e ↦ rw (e, update_capture_remote_control) (record { live = p; mode = λ h. refl })
    | inr e ↦ rw (e, update_capture_remote_control) (record { live = p; mode = λ h. cc })
  ]

  -- What keeps the pointer, and the mode of the capture, keeps the router safe.
  kept-IsSafe :
      (r r' : Router Sender)
      → r'.active_screen ≡ r.active_screen
      → r'.has_capture ≡ r.has_capture
      → last_mode r'.calls ≡ last_mode r.calls
      → IsSafe store r
      → IsSafe store r'
  unfolding active_node
  kept-IsSafe r r' a c m s = record { live = rw a s.live; mode = rw (c, m, a) s.mode }

  pub clear-IsSafe : (r : Router Sender) → IsSafe store (clear_active_state store r)
  unfolding clear_active_state
  clear-IsSafe r = update-IsSafe _ tt

  pub set_capture-IsSafe :
      (r : Router Sender) (capture : Bool)
      → IsSafe store r
      → IsSafe store (set_capture store r capture)
  unfolding set_capture
  set_capture-IsSafe r capture s = update-IsSafe _ s.live

  -- What a router keeps while it sends and warps.
  abbrev pub Kept : Router Sender → Router Sender → Type 0
  Kept r r' =
      (r'.active_screen ≡ r.active_screen)
      × (r'.has_capture ≡ r.has_capture)
      × (last_mode r'.calls ≡ last_mode r.calls)

  queue-Kept :
      (services : Services Sender) (r : Router Sender) (n : Node) (event : InputEvent)
      → Kept r (queue_input_for_screen services r n event).0
  unfolding queue_input_for_screen
  queue-Kept services r n event = ground arith

  move-Kept :
      (services : Services Sender) (r : Router Sender)
      → Kept r (move_local_cursor_to_active_point services store r)
  unfolding move_local_cursor_to_active_point
  move-Kept services r = ground arith

  pub suppress-Kept :
      (r : Router Sender) (p : ScreenPoint) → Kept r (suppress_pending_local_warp r p).0
  unfolding suppress_pending_local_warp
  suppress-Kept r p = ground arith

  pub kept : (r r' : Router Sender) → Kept r r' → IsSafe store r → IsSafe store r'
  kept r r' (a, c, m) s = kept-IsSafe r r' a c m s

  module _ (d : IsDistinct store.screens) where
    pub activate-IsSafe : (r : Router Sender) → IsSafe store (activate_first_local_screen store r)
    unfolding activate_first_local_screen
    activate-IsSafe r = elim (Option-cases (first_local_screen store)) [
      | inl e ↦ rw (e, activate_first_local_screen) (update-IsSafe _ tt)
      | inr (n, e) ↦
          rw (e, activate_first_local_screen)
            (update-IsSafe _ (n, node_at-first_local_screen store n d e))
    ]

    module _ (services : Services Sender) where
      pub queue-IsSafe :
          (r : Router Sender) (n : Node) (event : InputEvent)
          → IsSafe store r
          → IsSafe store (queue_input_for_screen services r n event).0
      queue-IsSafe r n event s = kept r _ (queue-Kept services r n event) s

      move-IsSafe :
          (r : Router Sender)
          → IsSafe store r
          → IsSafe store (move_local_cursor_to_active_point services store r)
      move-IsSafe r s = kept r _ (move-Kept services r) s

      pub switch-IsSafe :
          (r : Router Sender) (p : ScreenPoint)
          → IsSafe store r
          → IsSafe store (switch_active_screen services store r p)
      unfolding switch_active_screen
      switch-IsSafe r p s = elim (Option-cases (find_screen store p.key)) [
        | inl e ↦ rw (e, switch_active_screen) s
        | inr (n, e) ↦
            let r1 = record r { active_screen = some n.address; active_point = some p } in
            let there = node_at-find_screen store p.key n d e in
            let s1 = update-IsSafe r1 (n, there) in
            let r2 : Router Sender = record (update_capture_remote_control store r1) {
              pending_local_warp = none;
            } in
            let s2 = kept (update_capture_remote_control store r1) r2 (refl, refl, refl) s1 in
            rw (e, switch_active_screen)
              (if_rule (IsSafe store) n.local _ _ (λ l. move-IsSafe _ s1)
                (λ l. queue-IsSafe r2 n (move_to p) s2))
      ]

      pub ensure-IsSafe :
          (r : Router Sender) (prefer : Bool)
          → IsSafe store r
          → IsSafe store (ensure_active_local_screen services store r prefer)
      unfolding ensure_active_local_screen
      ensure-IsSafe r prefer s = elim (Option-cases (first_local_screen store)) [
        | inl e ↦ ground (arith, e, s, activate-IsSafe r)
        | inr (n, e) ↦ ground (
          arith,
          e,
          s,
          activate-IsSafe r,
          switch-IsSafe r (record { key = n.key; x = pos 0; y = pos 0 }) s,
        )
      ]
