-- ===== src/Core/Topology.antt =====
-- src/core/topology.hpp and src/core/topology.cpp: screens on a grid of cells, the neighbour of a
-- screen across an edge, and the pixel at which the cursor enters it.
pub mod Invariant
pub mod Crossing
pub mod Entry
pub mod Add
pub mod Remove
use mksync.Prelude.{
  ℕ, ◌+◌, ◌*◌, ◌/◌, ℤ, pos, pos_part, ltb_ℤ, leb_ℤ, clamp, wrap32, add32, sub32, str_eq, Bool, true,
  false, ◌&&◌, ◌||◌, String, List, [], ◌∷◌, map, Option, none, some, Result, ok, err, ◌>>=◌,
  if◌then◌else◌,
}
use mksync.StdMap.{StdMap, find, contains, emplace, erase, filter_keys}
use mksync.Core.Events.{ScreenInfo}
use mksync.Core.Grid.{
  Edge, left, right, top, bottom, GridPosition, position_key, ScreenKey, screen_key, TopologyScreen,
  ScreenPoint,
}

pub data TopologyError : Type 0 where
  no_error invalid_screen_rect duplicate_screen cell_occupied unknown_screen missing_neighbor :
      TopologyError

pub record ScreenTopology : Type 0 where
  pub screens : StdMap ScreenKey TopologyScreen
  pub cells : StdMap GridPosition ScreenKey

abbrev pub empty : ScreenTopology
empty = record { screens = []; cells = [] }

abbrev is_valid_rect : ScreenInfo → Bool
is_valid_rect info = ltb_ℤ (pos 0) info.width && ltb_ℤ (pos 0) info.height

pub neighbor_cell : GridPosition → Edge → GridPosition
neighbor_cell cell left = record cell { x = sub32 cell.x (pos 1) }
neighbor_cell cell right = record cell { x = add32 cell.x (pos 1) }
neighbor_cell cell top = record cell { y = sub32 cell.y (pos 1) }
neighbor_cell cell bottom = record cell { y = add32 cell.y (pos 1) }

-- std::lround of the quotient of a product of spans by a span: half rounds up. The doubles of the
-- source agree with it where that product is below 2 ^ 52, so on every screen up to 2 ^ 26 pixels.
abbrev pub lround_ratio : ℕ → ℕ → ℕ
lround_ratio a s = (2 * a + s) / (2 * s)

unfoldable pub entry_coordinate : ℤ → ℤ → ℤ → ℤ
entry_coordinate source source_extent target_extent =
    if leb_ℤ source_extent (pos 1) || leb_ℤ target_extent (pos 1)
    then pos 0
    else (let source_span = sub32 source_extent (pos 1) in
        let target_span = sub32 target_extent (pos 1) in
        let clamped = clamp source (pos 0) source_span in
        let mapped =
          lround_ratio (pos_part clamped * pos_part target_span) (pos_part source_span) in
        clamp (wrap32 (pos mapped)) (pos 0) target_span)

unfoldable pub add_screen : ScreenTopology → TopologyScreen → Result TopologyError ScreenTopology
add_screen t screen =
    if is_valid_rect screen.info
    then (if contains screen.key t.screens
        then err duplicate_screen
        else if contains screen.cell t.cells
        then err cell_occupied
        else ok (record {
          screens = emplace screen.key screen t.screens;
          cells = emplace screen.cell screen.key t.cells;
        }))
    else err invalid_screen_rect

abbrev pub is_other : String → ScreenKey → Bool
is_other owner key = if str_eq key.owner_id owner then false else true

-- The cells that the loop of `removeOwner` erases on its way over the screens.
release_cells :
    String
    → StdMap ScreenKey TopologyScreen
    → StdMap GridPosition ScreenKey
    → StdMap GridPosition ScreenKey
release_cells owner [] cells = cells
release_cells owner ((key, screen) ∷ rest) cells =
    release_cells owner rest (if str_eq key.owner_id owner then erase screen.cell cells else cells)

unfoldable pub remove_owner : ScreenTopology → String → ScreenTopology
unfolding release_cells
remove_owner t owner = record {
  screens = filter_keys (is_other owner) t.screens;
  cells = release_cells owner t.screens t.cells;
}

unfoldable pub find_screen : ScreenTopology → ScreenKey → Option TopologyScreen
find_screen t key = find key t.screens

unfoldable pub screens : ScreenTopology → List TopologyScreen
screens t = map (λ e. e.1) t.screens

unfoldable pub find_neighbor : ScreenTopology → ScreenKey → Edge → Option ScreenKey
unfolding neighbor_cell
find_neighbor t key edge = elim (find key t.screens) [
  | none ↦ none
  | some screen ↦ find (neighbor_cell screen.cell edge) t.cells
]

-- The border of a screen that a point lies on or beyond.
pub border : ScreenInfo → ScreenPoint → Option Edge
border info point =
    if leb_ℤ point.x (pos 0)
    then some left
    else if leb_ℤ (sub32 info.width (pos 1)) point.x
    then some right
    else if leb_ℤ point.y (pos 0)
    then some top
    else if leb_ℤ (sub32 info.height (pos 1)) point.y
    then some bottom
    else none

unfoldable pub hit_edge : ScreenTopology → ScreenPoint → Option Edge
unfolding border
hit_edge t point = elim (find point.key t.screens) [
  | none ↦ none
  | some screen ↦ border screen.info point
]

-- The entry pixel on the target screen.
pub entry_point : ScreenInfo → ScreenInfo → ScreenKey → ScreenPoint → Edge → ScreenPoint
unfolding entry_coordinate
entry_point source target key from left = record {
  key = key;
  x = sub32 target.width (pos 1);
  y = entry_coordinate from.y source.height target.height;
}
entry_point source target key from right = record {
  key = key;
  x = pos 0;
  y = entry_coordinate from.y source.height target.height;
}
entry_point source target key from top = record {
  key = key;
  x = entry_coordinate from.x source.width target.width;
  y = sub32 target.height (pos 1);
}
entry_point source target key from bottom = record {
  key = key;
  x = entry_coordinate from.x source.width target.width;
  y = pos 0;
}

abbrev or_error {ℓ κ} : {E : Type ℓ} {A : Type κ} → Option A → E → Result E A
or_error none e = err e
or_error (some a) e = ok a

unfoldable pub map_entry_point :
    ScreenTopology → ScreenPoint → Edge → Result TopologyError ScreenPoint
unfolding entry_point
map_entry_point t from edge = do
  source ← or_error (find_screen t from.key) unknown_screen
  target_key ← or_error (find_neighbor t from.key edge) missing_neighbor
  target ← or_error (find_screen t target_key) unknown_screen
  ok (entry_point source.info target.info target_key from edge)
