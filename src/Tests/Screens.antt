-- ===== src/Tests/Screens.antt =====
-- A laptop that was put below the host before.
use mksync.Prelude.{◌≡◌, refl, pos, false, none, some, [], ◌∷◌, arith, nat_key}
use mksync.StdMap.{find}
use mksync.Core.Grid.{GridPosition, screen_key}
use mksync.Core.Topology
use mksync.Core.Topology.{empty}
use mksync.Core.Topology.Invariant.{empty-IsConsistent}
use mksync.Config.AppConfig.{AppConfig, default_config, find_screen_layout}
use mksync.App.Screens.{ScreenStore, configured_cell, is_occupied, remove_screen}
use mksync.App.Screens.Invariant.{IsValid, new_screen}
use mksync.App.Screens.Register.{register_one}
use mksync.App.Screens.Memory.{register_one_restores}
use mksync.Tests.Data.{laptop_info, laptop_key}

abbrev below_host : GridPosition
below_host = record { x = pos 0; y = pos 1 }

abbrev kept_config : AppConfig
kept_config = record default_config {
  screens = record { owner_id = "mks-b"; screen_index = 0; cell = below_host } ∷ [];
}

abbrev store : ScreenStore
store = record {
  config = kept_config;
  config_path = "";
  saves = [];
  screens = [];
  topology = empty;
  endpoint_owners = [];
  next_address = 0;
}

store-IsValid : IsValid store
store-IsValid = record { topology = empty-IsConsistent; distinct = tt; below = tt }

not_there : find laptop_key empty.screens ≡ none
unfolding find
not_there = refl

kept_cell : configured_cell store laptop_key ≡ some below_host
unfolding configured_cell find_screen_layout
kept_cell = refl

vacant : is_occupied empty below_host ≡ false
unfolding Topology.screens
vacant = refl

register_one_restores_example :
    (find laptop_key (register_one store 7 "mks-b" 0 laptop_info 0 false false).0.topology.screens
      ≡ some (new_screen laptop_key below_host laptop_info false))
    × (configured_cell
          (remove_screen (register_one store 7 "mks-b" 0 laptop_info 0 false false).0 7 none).0
          laptop_key
        ≡ some below_host)
register_one_restores_example =
    register_one_restores store 7 "mks-b" 0 laptop_info 0 false false below_host none store-IsValid
      (omega arith) not_there kept_cell vacant
