-- ===== src/Tests/Core.antt =====
-- The topology at work.
use mksync.Prelude.{◌≡◌, refl, pos, ◌+ℤ◌, ◌-ℤ◌, some, ok}
use mksync.StdMap.{find}
use mksync.Core.Grid.{screen_key, right, ScreenPoint}
use mksync.Core.Topology.{
  remove_owner, entry_coordinate, map_entry_point, hit_edge, find_neighbor, find_screen,
}
use mksync.Core.Topology.Invariant.{IsConsistent}
use mksync.Core.Topology.Add.{add_screen-IsConsistent}
use mksync.Core.Topology.Remove.{remove_owner-IsConsistent}
use mksync.Core.Topology.Crossing.{map_entry_point_cases, Maps, hit_edge-Hit, Hit}
use mksync.Tests.Data.{
  desk, desk_info, laptop, desk_key, laptop_key, desk_only, side_by_side, laptop-IsTyped,
  add_laptop, desk_only-IsConsistent, side_by_side-IsConsistent,
}

abbrev at_right : ScreenPoint
at_right = record { key = desk_key; x = pos 1919; y = pos 540 }

-- From the middle of the right border of the desk to the left border of the laptop.
crosses :
    map_entry_point side_by_side at_right right
    ≡ ok (record { key = laptop_key; x = pos 0; y = pos 400 })
unfolding map_entry_point find_screen find_neighbor find entry_coordinate ◌+ℤ◌ ◌-ℤ◌
crosses = refl

add_screen-IsConsistent_example : IsConsistent side_by_side
add_screen-IsConsistent_example =
    add_screen-IsConsistent desk_only laptop side_by_side desk_only-IsConsistent laptop-IsTyped
      add_laptop

remove_owner-IsConsistent_example : IsConsistent (remove_owner side_by_side "mks-b")
remove_owner-IsConsistent_example =
    remove_owner-IsConsistent side_by_side "mks-b" side_by_side-IsConsistent

map_entry_point_cases_example : Maps side_by_side at_right right
map_entry_point_cases_example =
    map_entry_point_cases side_by_side at_right right side_by_side-IsConsistent

knows_desk : find_screen side_by_side desk_key ≡ some desk
unfolding find_screen find
knows_desk = refl

desk_to_laptop : find_neighbor side_by_side desk_key right ≡ some laptop_key
unfolding find_neighbor find ◌+ℤ◌
desk_to_laptop = refl

hit_edge-Hit_example : Hit desk_info at_right (hit_edge side_by_side at_right)
hit_edge-Hit_example = hit_edge-Hit side_by_side at_right desk side_by_side-IsConsistent knows_desk
