-- ===== src/App/Screens.antt =====
-- src/app/server_types.hpp, src/app/server_screens.hpp and src/app/server_screens.cpp: the screens
-- that the server routes to, by endpoint, with their cells and the remembered layout.
pub mod Register
pub mod FreeCell
pub mod Nodes
pub mod Invariant
pub mod Registration
pub mod Memory
use mksync.Prelude.{
  ℕ, zero, suc, ◌+◌, ◌==◌, ltb, ℤ, pos, add32, str_eq, Bool, true, false, not, ◌&&◌, ◌||◌, String,
  List, [], ◌∷◌, ◌++◌, Option, none, some, Result, ok, err, if◌then◌else◌, any, length, is_some,
}
use mksync.Prelude.{nat_key}
use mksync.StdMap.{StdMap, find, assign, erase}
use mksync.Core.Events.{ScreenInfo}
use mksync.Core.Grid.{GridPosition, position_eq, ScreenKey, screen_key_eq, TopologyScreen}
use mksync.Core.Topology
use mksync.Core.Topology.{ScreenTopology, remove_owner}
use mksync.Config.AppConfig.{AppConfig, find_screen_layout, upsert_screen_layout}

-- `IPEndpoint` is compared and printed only: an endpoint is its rank in the library's order.
abbrev pub Endpoint : Type 0
Endpoint = ℕ

pub record VirtualScreen : Type 0 where
  pub endpoint : Endpoint
  pub key : ScreenKey
  pub cell : GridPosition
  pub local : Bool
  pub info : ScreenInfo

-- A node of the multimap, at an address: pointers to a screen are such addresses.
pub record Node : Type 0 where
  pub address : ℕ
  pub endpoint : Endpoint
  pub screen : VirtualScreen
  pub open screen use {key, local, info}

-- `saves` are the configurations handed to `saveConfig`, newest first; `next_address` is where the
-- next node goes, an address never used before.
pub record ScreenStore : Type 0 where
  pub config : AppConfig
  pub config_path : String
  pub saves : List AppConfig
  pub screens : List Node
  pub topology : ScreenTopology
  pub endpoint_owners : StdMap Endpoint String
  pub next_address : ℕ

abbrev pub is_occupied : ScreenTopology → GridPosition → Bool
is_occupied t cell = any (λ s. position_eq s.cell cell) (Topology.screens t)

-- `while (true)` with fuel: a cell further to the right for each occupied one.
scan_right : ℕ → ScreenTopology → GridPosition → GridPosition
scan_right zero t cell = cell
scan_right (suc fuel) t cell =
    let further = scan_right fuel t (record cell { x = add32 cell.x (pos 1) }) in
    if is_occupied t cell then further else cell

unfoldable pub next_free_cell : ScreenStore → ℤ → GridPosition
unfolding scan_right
next_free_cell store start_x =
    scan_right (suc (length (Topology.screens store.topology))) store.topology
      (record { x = start_x; y = pos 0 })

unfoldable pub configured_cell : ScreenStore → ScreenKey → Option GridPosition
configured_cell store key = find_screen_layout store.config key.owner_id key.screen_index

save_config_if_needed : ScreenStore → ScreenStore
save_config_if_needed store =
    if str_eq store.config_path ""
    then store
    else record store { saves = store.config ∷ store.saves }

unfoldable pub remember_screen_layout : ScreenStore → ScreenKey → GridPosition → ScreenStore
unfolding save_config_if_needed
remember_screen_layout store key cell = save_config_if_needed (record store {
  config =
      upsert_screen_layout store.config
        (record { owner_id = key.owner_id; screen_index = key.screen_index; cell = cell });
})

-- `multimap::emplace`: behind the nodes of the same endpoint.
unfoldable pub insert_node : Node → List Node → List Node
insert_node n [] = n ∷ []
insert_node n (m ∷ rest) =
    if ltb n.endpoint m.endpoint then n ∷ m ∷ rest else m ∷ insert_node n rest

unfoldable pub add_screen :
    ScreenStore
    → Endpoint
    → ScreenKey
    → GridPosition
    → ScreenInfo
    → Bool
    → ScreenStore × Option Node
unfolding insert_node
add_screen store endpoint key cell info local =
    elim (Topology.add_screen store.topology
      (record { key = key; cell = cell; info = info; local = local })) [
        | err e ↦ (store, none)
        | ok topology ↦
            let node : Node = record {
              address = store.next_address;
              endpoint = endpoint;
              screen = record {
                endpoint = endpoint;
                key = key;
                cell = cell;
                local = local;
                info = info;
              };
            } in
            let added = record store {
              topology = topology;
              screens = insert_node node store.screens;
              next_address = suc store.next_address;
            } in
            (remember_screen_layout added key cell, some node)
      ]

-- The owner ids of the nodes of an endpoint, each once.
unfoldable pub owner_ids : Endpoint → List String → List Node → List String
owner_ids endpoint ids [] = ids
owner_ids endpoint ids (n ∷ rest) =
    owner_ids endpoint
      (if n.endpoint == endpoint && not (any (str_eq n.key.owner_id) ids)
        then ids ++ n.key.owner_id ∷ []
        else ids)
      rest

unfoldable pub erase_endpoint : Endpoint → List Node → List Node
erase_endpoint endpoint [] = []
erase_endpoint endpoint (n ∷ rest) =
    if n.endpoint == endpoint
    then erase_endpoint endpoint rest
    else n ∷ erase_endpoint endpoint rest

unfoldable pub remove_owners : ScreenTopology → List String → ScreenTopology
remove_owners t [] = t
remove_owners t (id ∷ rest) = remove_owners (remove_owner t id) rest

abbrev pub is_at : Option ℕ → Node → Bool
is_at none n = false
is_at (some address) n = n.address == address

-- The second part tells whether the active screen was removed.
unfoldable pub remove_screen : ScreenStore → Endpoint → Option ℕ → ScreenStore × Bool
unfolding owner_ids erase_endpoint remove_owners
remove_screen store endpoint active = (
  record store {
    screens = erase_endpoint endpoint store.screens;
    topology = remove_owners store.topology (owner_ids endpoint [] store.screens);
  },
  any (λ n. n.endpoint == endpoint && is_at active n) store.screens,
)

-- What a pointer to a screen points to.
unfoldable pub node_at : ℕ → List Node → Option Node
node_at address [] = none
node_at address (n ∷ rest) = if n.address == address then some n else node_at address rest

unfoldable pub find_node : ScreenKey → List Node → Option Node
find_node key [] = none
find_node key (n ∷ rest) = if screen_key_eq n.key key then some n else find_node key rest

unfoldable pub find_screen : ScreenStore → ScreenKey → Option Node
unfolding find_node
find_screen store key = find_node key store.screens

-- The loop breaks at the first local primary screen.
pub first_local : Option Node → List Node → Option Node
first_local selected [] = selected
first_local selected (n ∷ rest) =
    let selected' : Option Node =
      if n.local && (not (is_some selected) || n.info.primary) then some n else selected in
    let later = first_local selected' rest in if n.local && n.info.primary then selected' else later

unfoldable pub first_local_screen : ScreenStore → Option Node
unfolding first_local
first_local_screen store = first_local none store.screens

unfoldable pub remember_owner : ScreenStore → Endpoint → String → ScreenStore
remember_owner store endpoint owner_id = record store {
  endpoint_owners = assign endpoint owner_id store.endpoint_owners;
}

unfoldable pub forget_owner : ScreenStore → Endpoint → ScreenStore
forget_owner store endpoint = record store {
  endpoint_owners = erase endpoint store.endpoint_owners;
}

-- `format` prints an endpoint.
unfoldable pub default_owner_id : (Endpoint → String) → ScreenStore → Endpoint → Bool → String
default_owner_id format store endpoint local =
    if local && not (str_eq store.config.machine_id "")
    then store.config.machine_id
    else elim (find endpoint store.endpoint_owners) [
      | none ↦ format endpoint
      | some id ↦ if str_eq id "" then format endpoint else id
    ]
