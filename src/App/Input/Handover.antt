-- ===== src/App/Input/Handover.antt =====
-- src/app/server_input.cpp: the cursor goes over to a remote screen, stays on it, and is called back.
use mksync.Prelude.{
  ◌≡◌, refl, inl, inr, ◌⊎◌, true, false, none, some, err, arith, Bool-cases, Option-cases, nat_key,
  ==_iff, ℤ, pos, add32, sub32, clamp, max_ℤ, ◌<ℤ◌, sub32_one, IsInt32, -ℤ_parts,
}
use mksync.StdMap.{find}
use mksync.StdMap.Laws.{find-assign}
use mksync.Core.Events.{InputEvent, MouseMoveEvent}
use mksync.Core.Grid.{ScreenPoint, Edge}
use mksync.Core.Topology.{TopologyError, hit_edge, map_entry_point}
use mksync.Core.Topology.Invariant.{IsSized}
use mksync.Core.Topology.Entry.{IsPixel, clamp-IsPixel}
use mksync.Rpc.Message.{input}
use mksync.App.Screens.{Node, ScreenStore, find_screen, first_local_screen}
use mksync.App.Screens.Nodes.{IsDistinct, node_at-first_local_screen, first_local_screen_local}
use mksync.App.Input.{
  Services, Router, active_node, is_remote, move_to, activate_first_local_screen,
  update_capture_remote_control, queue_input_for_screen,
}
use mksync.App.Input.Motion.{
  is_hotkey, try_handle_local_hotkey, handle_input_event, switch_active_screen, stay_on_screen,
  virtual_cursor, motion,
}

max_span : (w : ℤ) → pos 0 <ℤ w → IsInt32 w → max_ℤ (pos 0) (sub32 w (pos 1)) ≡ sub32 w (pos 1)
max_span w p t = rw (sub32_one w p t) (ground (arith, -ℤ_parts w (pos 1)))

module _ {Sender : Type 0} (services : Services Sender) (store : ScreenStore)
    (r : Router Sender) where
  activated_local :
      IsDistinct store.screens
      → is_remote (active_node store (activate_first_local_screen store r)) ≡ false
  unfolding activate_first_local_screen active_node update_capture_remote_control
  activated_local d = elim (Option-cases (first_local_screen store)) [
    | inl e ↦ ground (arith, e)
    | inr (n, e) ↦
        ground
          (arith, e, node_at-first_local_screen store n d e, first_local_screen_local store n d e)
  ]

  activated_senders : (activate_first_local_screen store r).senders ≡ r.senders
  unfolding activate_first_local_screen update_capture_remote_control
  activated_senders = ground arith

  -- On a store whose nodes have different addresses, pressing the local key takes control back
  -- whatever the router was doing: afterwards no remote screen is active, and nothing has been
  -- sent to a client.
  pub hotkey_returns :
      (event : InputEvent)
      → IsDistinct store.screens
      → is_hotkey event ≡ true
      → (is_remote (active_node store (handle_input_event services store r event)) ≡ false)
        × ((handle_input_event services store r event).senders ≡ r.senders)
  unfolding handle_input_event try_handle_local_hotkey
  hotkey_returns event d h = elim (Bool-cases (is_remote (active_node store r))) [
    | inl e ↦ rw (h, handle_input_event, e) (activated_local d, activated_senders)
    | inr e ↦ rw (h, handle_input_event, e) (e, refl)
  ]

  -- Where no neighbour takes the cursor, it stays on a pixel of the remote screen.
  pub stay-IsPixel :
      (n : Node) (next : ScreenPoint)
      → IsSized n.info
      → (p : ScreenPoint) × ((stay_on_screen services r n next).active_point ≡ some p)
        × (p.key ≡ next.key)
        × IsPixel p.x n.info.width
        × IsPixel p.y n.info.height
  unfolding stay_on_screen queue_input_for_screen
  stay-IsPixel n next z =
      let hi_x = max_span n.info.width z.0 z.2 in
      let hi_y = max_span n.info.height z.1 z.3 in
      (
        record next {
          x = clamp next.x (pos 0) (max_ℤ (pos 0) (sub32 n.info.width (pos 1)));
          y = clamp next.y (pos 0) (max_ℤ (pos 0) (sub32 n.info.height (pos 1)));
        },
        ground arith,
        refl,
        rw hi_x (clamp-IsPixel next.x n.info.width z.0 z.2),
        rw hi_y (clamp-IsPixel next.y n.info.height z.1 z.3),
      )

  -- A switch to a remote screen whose client can be sent to.
  pub switch_to_remote :
      (p : ScreenPoint) (t : Node) (sender sender' : Sender)
      → find_screen store p.key ≡ some t
      → t.local ≡ false
      → find (t.screen).endpoint r.senders ≡ some sender
      → services.is_live sender ≡ true
      → services.try_send sender (input (move_to p)) ≡ some sender'
      → ((switch_active_screen services store r p).active_screen ≡ some t.address)
        × ((switch_active_screen services store r p).active_point ≡ some p)
        × (find (t.screen).endpoint (switch_active_screen services store r p).senders
            ≡ some sender')
  unfolding switch_active_screen update_capture_remote_control queue_input_for_screen
  switch_to_remote p t sender sender' f l s live sent = ground (
    arith,
    f,
    l,
    s,
    live,
    sent,
    find-assign (t.screen).endpoint (t.screen).endpoint sender' r.senders,
    ==_iff (t.screen).endpoint (t.screen).endpoint,
  )

-- Where the mouse of the host is, on the screen that the event names.
abbrev pub local_point : Node → MouseMoveEvent → ScreenPoint
local_point n m = record {
  key = record { owner_id = n.key.owner_id; screen_index = m.screen_index };
  x = m.x;
  y = m.y;
}

module _ {Sender : Type 0} (services : Services Sender) (store : ScreenStore)
    (r : Router Sender) where
  -- The router with the last move of the host's mouse.
  abbrev sampled : Node → MouseMoveEvent → Router Sender
  sampled n m = record r { last_local_mouse = some m; active_point = some (local_point n m) }

  -- The virtual cursor moved by what the event reports.
  abbrev pub moved_cursor : Node → MouseMoveEvent → ScreenPoint
  moved_cursor n m =
      let cursor = virtual_cursor r.active_point n in
      record cursor {
        x = add32 cursor.x (motion r.last_local_mouse m).0;
        y = add32 cursor.y (motion r.last_local_mouse m).1;
      }

  -- No screen takes the cursor at a point: it is at no border, or the border leads nowhere.
  abbrev pub NotTaken : ScreenPoint → Type 0
  NotTaken p =
      (hit_edge store.topology p ≡ none)
      ⊎ ((edge : Edge) × (x : TopologyError) × (hit_edge store.topology p ≡ some edge)
          × (map_entry_point store.topology p edge ≡ err x))

  -- The router with the cursor on the screen and the last sample.
  abbrev tracked : Node → MouseMoveEvent → Router Sender
  tracked n m = record r {
    active_point = some (virtual_cursor r.active_point n);
    last_local_mouse = some m;
  }
