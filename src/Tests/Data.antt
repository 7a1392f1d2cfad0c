-- ===== src/Tests/Data.antt =====
-- A host and a laptop beside it.
use mksync.Prelude.{◌≡◌, refl, pos, true, false, [], ◌∷◌, ok, arith}
use mksync.StdMap.{find, emplace, insert_sorted}
use mksync.Core.Events.{ScreenInfo}
use mksync.Core.Grid.{GridPosition, ScreenKey, TopologyScreen, position_key, screen_key}
use mksync.Core.Topology.{ScreenTopology, empty, add_screen}
use mksync.Core.Topology.Invariant.{IsTyped, IsConsistent, empty-IsConsistent}
use mksync.Core.Topology.Add.{add_screen-IsConsistent}

abbrev pub desk_info : ScreenInfo
desk_info = record {
  x = pos 0;
  y = pos 0;
  width = pos 1920;
  height = pos 1080;
  dpi = pos 96;
  name = "desk";
  primary = true;
}

abbrev pub laptop_info : ScreenInfo
laptop_info = record {
  x = pos 0;
  y = pos 0;
  width = pos 1280;
  height = pos 800;
  dpi = pos 120;
  name = "laptop";
  primary = true;
}

abbrev pub desk_key : ScreenKey
desk_key = record { owner_id = "mks-a"; screen_index = 0 }

abbrev pub laptop_key : ScreenKey
laptop_key = record { owner_id = "mks-b"; screen_index = 0 }

abbrev pub origin : GridPosition
origin = record { x = pos 0; y = pos 0 }

abbrev pub beside : GridPosition
beside = record { x = pos 1; y = pos 0 }

abbrev pub desk : TopologyScreen
desk = record { key = desk_key; cell = origin; info = desk_info; local = true }

abbrev pub laptop : TopologyScreen
laptop = record { key = laptop_key; cell = beside; info = laptop_info; local = false }

abbrev pub desk_only : ScreenTopology
desk_only = record { screens = (desk_key, desk) ∷ []; cells = (origin, desk_key) ∷ [] }

abbrev pub side_by_side : ScreenTopology
side_by_side = record {
  screens = (desk_key, desk) ∷ (laptop_key, laptop) ∷ [];
  cells = (origin, desk_key) ∷ (beside, laptop_key) ∷ [];
}

pub desk-IsTyped : IsTyped desk_info
desk-IsTyped = omega arith

pub laptop-IsTyped : IsTyped laptop_info
laptop-IsTyped = omega arith

add_desk : add_screen empty desk ≡ ok desk_only
unfolding add_screen find emplace insert_sorted
add_desk = refl

pub add_laptop : add_screen desk_only laptop ≡ ok side_by_side
unfolding add_screen find emplace insert_sorted
add_laptop = refl

pub desk_only-IsConsistent : IsConsistent desk_only
desk_only-IsConsistent =
    add_screen-IsConsistent empty desk desk_only empty-IsConsistent desk-IsTyped add_desk

pub side_by_side-IsConsistent : IsConsistent side_by_side
side_by_side-IsConsistent =
    add_screen-IsConsistent desk_only laptop side_by_side desk_only-IsConsistent laptop-IsTyped
      add_laptop
