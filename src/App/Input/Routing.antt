-- ===== src/App/Input/Routing.antt =====
-- src/app/server_input.cpp: the active screen and the mode of the capture while events are routed.
use mksync.Prelude.{
  refl, inl, inr, ◌&&◌, some, Result-cases, arith, Bool-cases, if_rule, Option-cases, pos, clamp,
  max_ℤ, sub32, add32, eqb_ℤ,
}
use mksync.Core.Events.{
  InputEvent, key_event, button_event, move_event, wheel_event, MouseMoveEvent,
}
use mksync.Core.Grid.{ScreenPoint}
use mksync.App.Screens.{Node, ScreenStore}
use mksync.App.Screens.Nodes.{IsDistinct}
use mksync.Core.Topology.{map_entry_point, hit_edge}
use mksync.App.Input.Motion.{
  try_handle_local_hotkey, stay_on_screen, move_on_remote, handle_remote_mouse_move, move_on_local,
  handle_mouse_move, route_to_remote, route_locally, handle_input_event, crossing, virtual_cursor,
  motion,
}
use mksync.App.Input.{Services, Router, active_node, move_to, suppress_pending_local_warp}
use mksync.App.Input.Safety.{
  IsSafe, activate-IsSafe, switch-IsSafe, queue-IsSafe, kept, suppress-Kept,
}

module _ {Sender : Type 0} (store : ScreenStore) where
  module _ (d : IsDistinct store.screens) where
    module _ (services : Services Sender) where
      hotkey-IsSafe :
          (r : Router Sender) (event : InputEvent)
          → IsSafe store r
          → IsSafe store (try_handle_local_hotkey services store r event).0
      unfolding try_handle_local_hotkey
      hotkey-IsSafe r event s = ground (arith, activate-IsSafe store d r)

      stay-IsSafe :
          (r : Router Sender) (n : Node) (next : ScreenPoint)
          → IsSafe store r
          → IsSafe store (stay_on_screen services r n next)
      unfolding stay_on_screen
      stay-IsSafe r n next s =
          let p : ScreenPoint = record next {
            x = clamp next.x (pos 0) (max_ℤ (pos 0) (sub32 n.info.width (pos 1)));
            y = clamp next.y (pos 0) (max_ℤ (pos 0) (sub32 n.info.height (pos 1)));
          } in
          queue-IsSafe store d services (record r { active_point = some p }) n (move_to p)
            (kept store r (record r { active_point = some p }) (refl, refl, refl) s)

      crossing-IsSafe :
          (r otherwise : Router Sender) (p : ScreenPoint)
          → IsSafe store r
          → IsSafe store otherwise
          → IsSafe store (crossing services store r p otherwise)
      unfolding crossing
      crossing-IsSafe r otherwise p s s' = elim (Option-cases (hit_edge store.topology p)) [
        | inl e ↦ rw (e, crossing) s'
        | inr (edge, e) ↦ elim (Result-cases (map_entry_point store.topology p edge)) [
          | inl (target, m) ↦ rw (e, crossing, m) (switch-IsSafe store d services r target s)
          | inr (x, m) ↦ rw (e, crossing, m) s'
        ]
      ]

      remote-IsSafe :
          (r : Router Sender) (n : Node) (event : MouseMoveEvent)
          → IsSafe store r
          → IsSafe store (move_on_remote services store r n event)
      unfolding move_on_remote
      remote-IsSafe r n event s =
          let cursor = virtual_cursor r.active_point n in
          let (dx, dy) = motion r.last_local_mouse event in
          let r' : Router Sender = record r {
            active_point = some cursor;
            last_local_mouse = some event;
          } in
          let s' = kept store r r' (refl, refl, refl) s in
          let next : ScreenPoint = record cursor { x = add32 cursor.x dx; y = add32 cursor.y dy } in
          elim (Bool-cases (eqb_ℤ dx (pos 0) && eqb_ℤ dy (pos 0))) [
            | inl z ↦ rw (z, move_on_remote) s'
            | inr z ↦
                rw (z, move_on_remote)
                  (crossing-IsSafe r' (stay_on_screen services r' n next) next s'
                    (stay-IsSafe r' n next s'))
          ]

      local-IsSafe :
          (r : Router Sender) (n : Node) (event : MouseMoveEvent)
          → IsSafe store r
          → IsSafe store (move_on_local services store r n event)
      unfolding move_on_local
      local-IsSafe r n event s =
          let point : ScreenPoint = record {
            key = record { owner_id = n.key.owner_id; screen_index = event.screen_index };
            x = event.x;
            y = event.y;
          } in
          let r1 : Router Sender = record r {
            last_local_mouse = some event;
            active_point = some point;
          } in
          let s1 = kept store r r1 (refl, refl, refl) s in
          let r2 = (suppress_pending_local_warp r1 point).0 in
          let s2 = kept store r1 r2 (suppress-Kept store r1 point) s1 in
          elim (Bool-cases (suppress_pending_local_warp r1 point).1) [
            | inl e ↦ rw (e, move_on_local) s2
            | inr e ↦ rw (e, move_on_local) (crossing-IsSafe r2 r2 point s2 s2)
          ]

      remote_move-IsSafe :
          (r : Router Sender) (event : MouseMoveEvent)
          → IsSafe store r
          → IsSafe store (handle_remote_mouse_move services store r event)
      unfolding handle_remote_mouse_move
      remote_move-IsSafe r event s = elim (Option-cases (active_node store r)) [
        | inl e ↦ rw (e, handle_remote_mouse_move) s
        | inr (n, e) ↦
            rw (e, handle_remote_mouse_move)
              (if_rule (IsSafe store) n.local _ _ (λ l. s) (λ l. remote-IsSafe r n event s))
      ]

      move_event-IsSafe :
          (r : Router Sender) (event : MouseMoveEvent)
          → IsSafe store r
          → IsSafe store (handle_mouse_move services store r event)
      unfolding handle_mouse_move
      move_event-IsSafe r event s = elim (Option-cases (active_node store r)) [
        | inl e ↦ rw (e, handle_mouse_move) s
        | inr (n, e) ↦
            rw (e, handle_mouse_move)
              (if_rule (IsSafe store) n.local _ _ (λ l. local-IsSafe r n event s)
                (λ l. remote_move-IsSafe r event s))
      ]

      to_remote-IsSafe :
          (r : Router Sender) (n : Node) (event : InputEvent)
          → IsSafe store r
          → IsSafe store (route_to_remote services store r n event)
      unfolding route_to_remote
      to_remote-IsSafe r n (move_event m) s = remote_move-IsSafe r m s
      to_remote-IsSafe r n (key_event k) s = queue-IsSafe store d services r n _ s
      to_remote-IsSafe r n (button_event b) s = queue-IsSafe store d services r n _ s
      to_remote-IsSafe r n (wheel_event w) s = queue-IsSafe store d services r n _ s

      locally-IsSafe :
          (r : Router Sender) (event : InputEvent)
          → IsSafe store r
          → IsSafe store (route_locally services store r event)
      unfolding route_locally
      locally-IsSafe r (move_event m) s = move_event-IsSafe r m s
      locally-IsSafe r (key_event k) s = s
      locally-IsSafe r (button_event b) s = s
      locally-IsSafe r (wheel_event w) s = s

      pub input-IsSafe :
          (r : Router Sender) (event : InputEvent)
          → IsSafe store r
          → IsSafe store (handle_input_event services store r event)
      unfolding handle_input_event
      input-IsSafe r event s =
          let r1 = (try_handle_local_hotkey services store r event).0 in
          let s1 = hotkey-IsSafe r event s in
          elim (Bool-cases (try_handle_local_hotkey services store r event).1) [
            | inl c ↦ rw (c, handle_input_event) s1
            | inr c ↦ elim (Option-cases (active_node store r1)) [
              | inl e ↦ rw (c, handle_input_event, e) (locally-IsSafe r1 event s1)
              | inr (n, e) ↦
                  rw (c, handle_input_event, e)
                    (if_rule (IsSafe store) n.local _ _ (λ l. locally-IsSafe r1 event s1)
                      (λ l. to_remote-IsSafe r1 n event s1))
            ]
          ]
