-- ===== src/App/Input/Motion.antt =====
-- src/app/server_input.cpp, handleInputEvent and what it calls.
use mksync.Prelude.{
  ◌==◌, ℤ, pos, add32, sub32, eqb_ℤ, clamp, max_ℤ, Bool, true, false, not, ◌&&◌, Option, none, some,
  ok, err, if◌then◌else◌, is_some, nat_key,
}
use mksync.Core.Key
use mksync.Core.Events.{
  InputEvent, key_event, button_event, move_event, wheel_event, MouseMoveEvent,
}
use mksync.Core.Grid.{screen_key_eq, ScreenPoint}
use mksync.Core.Topology.{hit_edge, map_entry_point}
use mksync.App.Screens.{Node, ScreenStore, find_screen, first_local_screen}
use mksync.App.Input.{
  Services, Router, active_node, is_remote, move_to, update_capture_remote_control,
  activate_first_local_screen, event_at_active_point, suppress_pending_local_warp,
  queue_input_for_screen, move_local_cursor_to_active_point,
}

abbrev pub is_hotkey : InputEvent → Bool
is_hotkey (key_event k) = not k.release && k.key == Key.f12
is_hotkey (button_event b) = false
is_hotkey (move_event m) = false
is_hotkey (wheel_event w) = false

-- The virtual cursor: the active point if it is on the active screen, or its origin.
abbrev pub virtual_cursor : Option ScreenPoint → Node → ScreenPoint
virtual_cursor none n = record { key = n.key; x = pos 0; y = pos 0 }
virtual_cursor (some p) n =
    if screen_key_eq p.key n.key then p else record { key = n.key; x = pos 0; y = pos 0 }

-- The motion that an event reports: raw, or against the last sample.
abbrev pub motion : Option MouseMoveEvent → MouseMoveEvent → ℤ × ℤ
motion none event = (event.delta_x, event.delta_y)
motion (some last) event =
    if eqb_ℤ event.delta_x (pos 0) && eqb_ℤ event.delta_y (pos 0)
    then (sub32 event.x last.x, sub32 event.y last.y)
    else (event.delta_x, event.delta_y)

module _ {Sender : Type 0} (services : Services Sender) where
  unfoldable pub switch_active_screen : ScreenStore → Router Sender → ScreenPoint → Router Sender
  switch_active_screen store r point = elim (find_screen store point.key) [
    | none ↦ r
    | some n ↦
        let r' =
          update_capture_remote_control store
            (record r { active_screen = some n.address; active_point = some point }) in
        if n.local
        then move_local_cursor_to_active_point services store r'
        else (queue_input_for_screen services (record r' { pending_local_warp = none }) n
            (move_to point)).0
  ]

  -- Where the point hits an edge that maps to a screen, that screen becomes active.
  unfoldable pub crossing :
      ScreenStore → Router Sender → ScreenPoint → Router Sender → Router Sender
  crossing store r point otherwise = elim (hit_edge store.topology point) [
    | none ↦ otherwise
    | some edge ↦ elim (map_entry_point store.topology point edge) [
      | ok target ↦ switch_active_screen store r target
      | err e ↦ otherwise
    ]
  ]

  unfoldable pub ensure_active_local_screen : ScreenStore → Router Sender → Bool → Router Sender
  ensure_active_local_screen store r prefer_local_primary =
      if is_some r.active_screen
      then if prefer_local_primary
        then elim (first_local_screen store) [
          | none ↦ r
          | some n ↦ switch_active_screen store r (record { key = n.key; x = pos 0; y = pos 0 })
        ]
        else r
      else activate_first_local_screen store r

  unfoldable pub try_handle_local_hotkey :
      ScreenStore → Router Sender → InputEvent → Router Sender × Bool
  try_handle_local_hotkey store r event =
      if is_hotkey event
      then (
        (if is_remote (active_node store r) then activate_first_local_screen store r else r),
        true,
      )
      else (r, false)

  -- No neighbour takes the cursor: it stays on the screen.
  unfoldable pub stay_on_screen : Router Sender → Node → ScreenPoint → Router Sender
  stay_on_screen r n next =
      let p : ScreenPoint = record next {
        x = clamp next.x (pos 0) (max_ℤ (pos 0) (sub32 n.info.width (pos 1)));
        y = clamp next.y (pos 0) (max_ℤ (pos 0) (sub32 n.info.height (pos 1)));
      } in
      (queue_input_for_screen services (record r { active_point = some p }) n (move_to p)).0

  unfoldable pub move_on_remote :
      ScreenStore → Router Sender → Node → MouseMoveEvent → Router Sender
  unfolding stay_on_screen
  move_on_remote store r n event =
      let cursor = virtual_cursor r.active_point n in
      let (delta_x, delta_y) = motion r.last_local_mouse event in
      let r' = record r { active_point = some cursor; last_local_mouse = some event } in
      if eqb_ℤ delta_x (pos 0) && eqb_ℤ delta_y (pos 0)
      then r'
      else (let next : ScreenPoint = record cursor {
        x = add32 cursor.x delta_x;
        y = add32 cursor.y delta_y;
      } in
          crossing store r' next (stay_on_screen r' n next))

  unfoldable pub handle_remote_mouse_move :
      ScreenStore → Router Sender → MouseMoveEvent → Router Sender
  unfolding move_on_remote
  handle_remote_mouse_move store r event = elim (active_node store r) [
    | none ↦ r
    | some n ↦ if n.local then r else move_on_remote store r n event
  ]

  -- The mouse of the host on one of its screens.
  unfoldable pub move_on_local : ScreenStore → Router Sender → Node → MouseMoveEvent → Router Sender
  move_on_local store r n event =
      let point : ScreenPoint = record {
        key = record { owner_id = n.key.owner_id; screen_index = event.screen_index };
        x = event.x;
        y = event.y;
      } in
      let (r', suppressed) =
        suppress_pending_local_warp
          (record r { last_local_mouse = some event; active_point = some point }) point in
      if suppressed then r' else crossing store r' point r'

  unfoldable pub handle_mouse_move : ScreenStore → Router Sender → MouseMoveEvent → Router Sender
  unfolding move_on_local
  handle_mouse_move store r event = elim (active_node store r) [
    | none ↦ r
    | some n ↦
        if n.local then move_on_local store r n event else handle_remote_mouse_move store r event
  ]

  -- An event while a remote screen is active.
  unfoldable pub route_to_remote : ScreenStore → Router Sender → Node → InputEvent → Router Sender
  route_to_remote store r n (move_event m) = handle_remote_mouse_move store r m
  route_to_remote store r n event =
      (queue_input_for_screen services r n (event_at_active_point store r event)).0

  -- An event while no remote screen is active.
  unfoldable pub route_locally : ScreenStore → Router Sender → InputEvent → Router Sender
  route_locally store r (move_event m) = handle_mouse_move store r m
  route_locally store r event = r

  unfoldable pub handle_input_event : ScreenStore → Router Sender → InputEvent → Router Sender
  unfolding route_to_remote route_locally
  handle_input_event store r event =
      let (r', consumed) = try_handle_local_hotkey store r event in
      if consumed then r' else elim (active_node store r') [
        | none ↦ route_locally store r' event
        | some n ↦
            if n.local then route_locally store r' event else route_to_remote store r' n event
      ]
