-- ===== src/Tests/Input.antt =====
-- The cursor between a host and a laptop beside it, and the client that is sent to.
use mksync.Prelude.{
  err, ◌≡◌, ◌<◌, ◌+◌, inr, refl, ℤ, pos, Bool, true, false, List, [], ◌∷◌, none, some, arith,
  nat_key, length,
}
use mksync.StdMap.{find}
use mksync.Core.Key
use mksync.Core.Events.{InputEvent, key_event, MouseMoveEvent}
use mksync.Core.Grid.{ScreenPoint, screen_key, position_key}
use mksync.Core.Topology
use mksync.Config.AppConfig.{default_config}
use mksync.Rpc.Message.{RpcMessage, input, screens}
use mksync.App.Screens.{Node, ScreenStore, node_at, next_free_cell}
use mksync.App.Screens.FreeCell.{IsFirstFree, next_free_cell-IsFirstFree}
use mksync.App.Screens.Nodes.{IsDistinct}
use mksync.App.Screens.Invariant.{IsValid}
use mksync.App.Screens.Register.{register_screens}
use mksync.App.Screens.Registration.{AreRegistered, IsFresh, register_screens_registers}
use mksync.App.Input.{Services, Router, active_node, is_remote}
use mksync.App.Input.Motion.{handle_input_event}
use mksync.App.Input.Handover.{hotkey_returns}
use mksync.App.Client.{
  Client, read_failed, Outside, connect, construct, handle_read, connected, initialized, wrote,
  injected, announces, reads, read_fails, hello_of, run, run_turns, turn, handle_message,
}
use mksync.App.Client.Reading.{handle_read-feed, feed}
use mksync.App.Client.Connecting.{GoesWell, run-GoesWell}
use mksync.Tests.Data.{
  desk_info, desk_key, laptop_info, laptop_key, side_by_side, side_by_side-IsConsistent, origin,
  beside,
}

abbrev Channel : Type 0
Channel = List RpcMessage

abbrev services : Services Channel
services = record { succeeds = λ calls. true; is_live = λ c. true; try_send = λ c m. some (m ∷ c) }

abbrev desk_node : Node
desk_node = record {
  address = 0;
  endpoint = 1;
  screen = record { endpoint = 1; key = desk_key; cell = origin; local = true; info = desk_info };
}

abbrev laptop_node : Node
laptop_node = record {
  address = 1;
  endpoint = 7;
  screen = record {
    endpoint = 7;
    key = laptop_key;
    cell = beside;
    local = false;
    info = laptop_info;
  };
}

abbrev store : ScreenStore
store = record {
  config = default_config;
  config_path = "";
  saves = [];
  screens = desk_node ∷ laptop_node ∷ [];
  topology = side_by_side;
  endpoint_owners = (7, "mks-b") ∷ [];
  next_address = 2;
}

abbrev at_desk : Router Channel
at_desk = record {
  senders = (7, []) ∷ [];
  has_capture = true;
  calls = [];
  active_screen = some 0;
  active_point = none;
  last_local_mouse = none;
  pending_local_warp = none;
}

abbrev laptop_point : ℤ → ℤ → ScreenPoint
laptop_point x y = record { key = laptop_key; x = x; y = y }

abbrev at_laptop : Router Channel
at_laptop = record at_desk {
  active_screen = some 1;
  active_point = some (laptop_point (pos 100) (pos 100));
}

store-IsDistinct : IsDistinct store.screens
unfolding node_at
store-IsDistinct = (refl, (refl, tt))

abbrev f12_press : InputEvent
f12_press =
    key_event
      (record { key = Key.f12; modifiers = 0; native_code = 0; repeat = false; release = false })

hotkey_returns_example :
    (is_remote (active_node store (handle_input_event services store at_laptop f12_press)) ≡ false)
    × ((handle_input_event services store at_laptop f12_press).senders ≡ (7, []) ∷ [])
hotkey_returns_example = hotkey_returns services store at_laptop f12_press store-IsDistinct refl

abbrev move_right : MouseMoveEvent
move_right = record {
  x = pos 1919;
  y = pos 540;
  screen_index = 0;
  delta_x = pos 5;
  delta_y = pos 0;
}

abbrev entered : ScreenPoint
entered = laptop_point (pos 0) (pos 400)

abbrev leaving : ScreenPoint
leaving = record { key = desk_key; x = pos 1919; y = pos 540 }

abbrev diagonal : MouseMoveEvent
diagonal = record { x = pos 7; y = pos 7; screen_index = 0; delta_x = pos 5; delta_y = pos 5 }

few : 1 + length (Topology.screens side_by_side) < 2147483647
unfolding Topology.screens
few = omega arith

next_free_cell-IsFirstFree_example : IsFirstFree side_by_side 1 (next_free_cell store (pos 1))
next_free_cell-IsFirstFree_example = next_free_cell-IsFirstFree store 1 few

abbrev takes_any : List InputEvent → InputEvent → Bool
takes_any done e = true

abbrev fresh : Client
fresh = construct [] default_config

handle_read-feed_example :
    ((handle_read takes_any fresh (input f12_press ∷ screens [] ∷ [])).0.injected
      ≡ (feed takes_any fresh.injected (f12_press ∷ [])).0)
    × ((handle_read takes_any fresh (input f12_press ∷ screens [] ∷ [])).1 ≡ read_failed)
handle_read-feed_example = handle_read-feed takes_any fresh (input f12_press ∷ screens [] ∷ [])

abbrev outside : Outside
outside = record {
  has_injector = true;
  connects = true;
  host_name = some "laptop";
  writes = λ m. true;
  initializes = true;
  platform_screens = laptop_info ∷ [];
}

run-GoesWell_example :
    GoesWell outside fresh "laptop" true
      (run takes_any outside (reads (input f12_press) ∷ announces ∷ []) fresh)
run-GoesWell_example =
    run-GoesWell takes_any outside fresh "laptop" (reads (input f12_press) ∷ announces ∷ [])
      (inr refl)

-- An event may be injected before the screens are announced.
injects_first :
    run takes_any outside (reads (input f12_press) ∷ announces ∷ read_fails ∷ []) fresh ≡ (
      wrote (screens (laptop_info ∷ []))
          ∷ injected f12_press
          ∷ initialized
          ∷ wrote (hello_of fresh "laptop")
          ∷ connected
          ∷ [],
      err read_failed,
    )
unfolding run connect run_turns turn handle_message
injects_first = refl

store-IsValid : IsValid store
store-IsValid = record {
  topology = side_by_side-IsConsistent;
  distinct = store-IsDistinct;
  below = omega arith;
}

nothing_of_third : IsFresh side_by_side "mks-c" 0
unfolding find
nothing_of_third j h = refl

room : 1 + length (Topology.screens side_by_side) + 2 < 2147483647
unfolding Topology.screens
room = omega arith

register_screens_registers_example :
    AreRegistered
      (register_screens store 9 "mks-c" (laptop_info ∷ laptop_info ∷ []) false).topology
      "mks-c"
      0
      (laptop_info ∷ laptop_info ∷ [])
register_screens_registers_example =
    register_screens_registers store 9 "mks-c" (laptop_info ∷ laptop_info ∷ []) store-IsValid
      (omega arith) nothing_of_third room
