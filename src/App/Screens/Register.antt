-- ===== src/App/Screens/Register.antt =====
-- src/app/server_screens.cpp, registerScreens: the cell of each reported screen.
use mksync.Prelude.{
  ℕ, suc, ◌==◌, pos, Bool, true, false, not, ◌&&◌, ◌||◌, String, List, [], ◌∷◌, none, some,
  if◌then◌else◌,
}
use mksync.Prelude.{nat_key}
use mksync.Core.Events.{ScreenInfo}
use mksync.Core.Grid.{GridPosition, ScreenKey}
use mksync.App.Screens.{
  ScreenStore, Endpoint, add_screen, configured_cell, next_free_cell, is_occupied,
}

-- The first screen that is marked primary, or 0.
primary_from : ℕ → List ScreenInfo → ℕ
primary_from index [] = 0
primary_from index (info ∷ rest) = if info.primary then index else primary_from (suc index) rest

abbrev primary_index : List ScreenInfo → ℕ
primary_index screens = primary_from 0 screens

abbrev at_origin : GridPosition
at_origin = record { x = pos 0; y = pos 0 }

-- The cell of one reported screen before repair, whether the layout gave it, and whether the
-- primary has been registered then.
unfoldable pub place :
    ScreenStore → ScreenKey → ScreenInfo → ℕ → ℕ → Bool → Bool → GridPosition × Bool × Bool
place store key info index primary local registered = elim (configured_cell store key) [
  | some cell ↦ (cell, true, (local && (info.primary || index == primary)) || registered)
  | none ↦
      if local && (info.primary && not registered)
      then (at_origin, false, true)
      else if local && (index == primary && not registered)
      then (at_origin, false, true)
      else (next_free_cell store (pos 1), false, registered)
]

-- A remembered cell that has been taken is replaced by the next free one.
unfoldable pub repair : ScreenStore → Bool → GridPosition → GridPosition
repair store persisted cell =
    if persisted && is_occupied store.topology cell then next_free_cell store (pos 1) else cell

unfoldable pub register_one :
    ScreenStore → Endpoint → String → ℕ → ScreenInfo → ℕ → Bool → Bool → ScreenStore × Bool
unfolding place repair
register_one store endpoint owner_id index info primary local registered =
    let key : ScreenKey = record { owner_id = owner_id; screen_index = index } in
    let (cell, persisted, registered') = place store key info index primary local registered in
    ((add_screen store endpoint key (repair store persisted cell) info local).0, registered')

unfoldable pub register_from :
    ScreenStore → Endpoint → String → ℕ → List ScreenInfo → ℕ → Bool → Bool → ScreenStore
register_from store endpoint owner_id index [] primary local registered = store
register_from store endpoint owner_id index (info ∷ rest) primary local registered =
    let (store', registered') =
      register_one store endpoint owner_id index info primary local registered in
    register_from store' endpoint owner_id (suc index) rest primary local registered'

unfoldable pub register_screens :
    ScreenStore → Endpoint → String → List ScreenInfo → Bool → ScreenStore
unfolding register_from primary_from register_one
register_screens store endpoint owner_id screens local =
    register_from store endpoint owner_id 0 screens (primary_index screens) local false
