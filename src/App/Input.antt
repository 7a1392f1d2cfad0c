-- ===== src/App/Input.antt =====
-- src/app/server_input.hpp and src/app/server_input.cpp: the active screen, the cursor on it, and
-- the events that go to a remote client.
pub mod Motion
pub mod Safety
pub mod Routing
pub mod Handover
use mksync.Prelude.{
  ℕ, ◌==◌, ℤ, pos, add32, sub32, eqb_ℤ, clamp, max_ℤ, Bool, true, false, not, ◌&&◌, ◌||◌, String,
  List, [], ◌∷◌, Option, none, some, ok, err, if◌then◌else◌, is_some, nat_key,
}
use mksync.StdMap.{StdMap, find, assign}
use mksync.Core.Key
use mksync.Core.Events.{
  InputEvent, key_event, button_event, move_event, wheel_event, MouseMoveEvent, MouseButtonEvent,
  MouseWheelEvent, KeyEvent,
}
use mksync.Core.Grid.{ScreenKey, screen_key_eq, ScreenPoint, screen_point_eq, Edge}
use mksync.Core.Topology.{hit_edge, map_entry_point}
use mksync.Rpc.Message.{RpcMessage, input}
use mksync.App.Screens.{Endpoint, Node, ScreenStore, find_screen, first_local_screen, node_at}

-- The calls of `InputCapture`.
pub data CaptureCall : Type 0 where
  set_remote_control_active : Bool → CaptureCall
  move_local_cursor : ℕ → ℤ → ℤ → CaptureCall

-- What the router uses of the platform and of `ilias`: whether a capture call succeeds, given all
-- calls so far with the newest first; and `ilias::mpsc::Sender`, its test and its `trySend`.
pub record Services (Sender : Type 0) : Type 0 where
  pub succeeds : List CaptureCall → Bool
  pub is_live : Sender → Bool
  pub try_send : Sender → RpcMessage → Option Sender

-- `active_screen` is a pointer into the store. `calls` are those made to the capture.
pub record Router (Sender : Type 0) : Type 0 where
  pub senders : StdMap Endpoint Sender
  pub has_capture : Bool
  pub calls : List CaptureCall
  pub active_screen : Option ℕ
  pub active_point : Option ScreenPoint
  pub last_local_mouse : Option MouseMoveEvent
  pub pending_local_warp : Option ScreenPoint

abbrev pub is_remote : Option Node → Bool
is_remote none = false
is_remote (some n) = not n.local

module _ {Sender : Type 0} where
  -- `*mActiveScreen`, and none where it is null.
  unfoldable pub active_node : ScreenStore → Router Sender → Option Node
  active_node store r = elim r.active_screen [
    | none ↦ none
    | some address ↦ node_at address store.screens
  ]

  unfoldable pub update_capture_remote_control : ScreenStore → Router Sender → Router Sender
  update_capture_remote_control store r =
      if r.has_capture
      then record r {
        calls = set_remote_control_active (is_remote (active_node store r)) ∷ r.calls;
      }
      else r

  unfoldable pub set_capture : ScreenStore → Router Sender → Bool → Router Sender
  set_capture store r capture =
      update_capture_remote_control store (record r { has_capture = capture })

  unfoldable pub clear_active_state : ScreenStore → Router Sender → Router Sender
  clear_active_state store r = update_capture_remote_control store (record r {
    active_screen = none;
    active_point = none;
    last_local_mouse = none;
    pending_local_warp = none;
  })

  unfoldable pub activate_first_local_screen : ScreenStore → Router Sender → Router Sender
  activate_first_local_screen store r = elim (first_local_screen store) [
    | none ↦ update_capture_remote_control store (record r {
      active_screen = none;
      active_point = none;
      last_local_mouse = none;
      pending_local_warp = none;
    })
    | some n ↦ update_capture_remote_control store (record r {
      active_screen = some n.address;
      active_point = some (record { key = n.key; x = pos 0; y = pos 0 });
      last_local_mouse = none;
      pending_local_warp = none;
    })
  ]

  unfoldable pub event_at_active_point : ScreenStore → Router Sender → InputEvent → InputEvent
  event_at_active_point store r event = elim (active_node store r) [
    | none ↦ event
    | some n ↦ elim r.active_point [
      | none ↦ event
      | some p ↦
          if screen_key_eq p.key n.key
          then elim event [
            | button_event b ↦
                button_event (record b { x = p.x; y = p.y; screen_index = p.key.screen_index })
            | wheel_event w ↦ wheel_event (record w { x = p.x; y = p.y })
            | move_event m ↦ move_event m
            | key_event k ↦ key_event k
          ]
          else event
    ]
  ]

  -- The second part tells whether the point is the echo of a warp.
  unfoldable pub suppress_pending_local_warp : Router Sender → ScreenPoint → Router Sender × Bool
  suppress_pending_local_warp r point = elim r.pending_local_warp [
    | none ↦ (r, false)
    | some p ↦
        if screen_point_eq p point
        then (record r { pending_local_warp = none }, true)
        else (r, false)
  ]

-- The absolute move that a client injects.
abbrev pub move_to : ScreenPoint → InputEvent
move_to p = move_event (record {
  x = p.x;
  y = p.y;
  screen_index = p.key.screen_index;
  delta_x = pos 0;
  delta_y = pos 0;
})

module _ {Sender : Type 0} (services : Services Sender) where
  unfoldable pub queue_input_for_screen : Router Sender → Node → InputEvent → Router Sender × Bool
  queue_input_for_screen r n event =
      if n.local then (r, false) else elim (find (n.screen).endpoint r.senders) [
        | none ↦ (r, false)
        | some sender ↦
            if services.is_live sender
            then elim (services.try_send sender (input event)) [
              | none ↦ (r, false)
              | some sender' ↦
                  (record r { senders = assign (n.screen).endpoint sender' r.senders }, true)
            ]
            else (r, false)
      ]

  unfoldable pub move_local_cursor_to_active_point : ScreenStore → Router Sender → Router Sender
  move_local_cursor_to_active_point store r = elim (active_node store r) [
    | none ↦ r
    | some n ↦ elim r.active_point [
      | none ↦ r
      | some p ↦
          if r.has_capture && n.local
          then (let calls = move_local_cursor p.key.screen_index p.x p.y ∷ r.calls in
              if services.succeeds calls
              then record r { calls = calls; pending_local_warp = some p }
              else record r { calls = calls })
          else r
    ]
  ]
