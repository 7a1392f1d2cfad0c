-- ===== src/Core/Topology/Invariant.antt =====
-- src/core/topology.cpp, addScreen and removeOwner: the two maps stay inverse to one another.
use mksync.Prelude.{
  ◌≡◌, inl, inr, pos, ◌<ℤ◌, IsInt32, none, some, ok, if◌then◌else◌, Option-cases, arith,
}
use mksync.StdMap.{find, insert_sorted, emplace, IsUnique}
use mksync.StdMap.Laws.{find-insert_sorted}
use mksync.Core.Events.{ScreenInfo}
use mksync.Core.Grid.{
  GridPosition, position_key, position_eq, ScreenKey, screen_key, screen_key_eq, TopologyScreen,
}
use mksync.Core.Topology.{ScreenTopology, empty, add_screen}

-- The fields are `int32_t`, and the rectangle is not empty.
abbrev pub IsTyped : ScreenInfo → Type 0
IsTyped info = IsInt32 info.width × IsInt32 info.height

abbrev pub IsSized : ScreenInfo → Type 0
IsSized info =
    (pos 0 <ℤ info.width) × (pos 0 <ℤ info.height) × IsInt32 info.width × IsInt32 info.height

pub record IsConsistent (t : ScreenTopology) : Type 0 where
  pub unique : IsUnique t.screens
  pub keyed : (k : ScreenKey) (s : TopologyScreen) → find k t.screens ≡ some s → s.key ≡ k
  pub placed :
      (k : ScreenKey) (s : TopologyScreen)
      → find k t.screens ≡ some s
      → find s.cell t.cells ≡ some k
  pub owned :
      (c : GridPosition) (k : ScreenKey)
      → find c t.cells ≡ some k
      → (s : TopologyScreen) × (find k t.screens ≡ some s) × (s.cell ≡ c)
  pub sized : (k : ScreenKey) (s : TopologyScreen) → find k t.screens ≡ some s → IsSized s.info

-- What a successful `addScreen` has checked, and what it leaves.
pub record Added (t : ScreenTopology) (screen : TopologyScreen) (u : ScreenTopology) : Type 0 where
  pub sized : (pos 0 <ℤ screen.info.width) × (pos 0 <ℤ screen.info.height)
  pub fresh : find screen.key t.screens ≡ none
  pub free : find screen.cell t.cells ≡ none
  pub screens : u.screens ≡ insert_sorted screen.key screen t.screens
  pub cells : u.cells ≡ insert_sorted screen.cell screen.key t.cells

pub add_screen-Added :
    (t : ScreenTopology) (screen : TopologyScreen) (u : ScreenTopology)
    → add_screen t screen ≡ ok u
    → Added t screen u
unfolding add_screen emplace
add_screen-Added t screen u h = elim (Option-cases (find screen.key t.screens)) [
  | inl e ↦ elim (Option-cases (find screen.cell t.cells)) [
    | inl f ↦ ground arith
    | inr (k, f) ↦ ground arith
  ]
  | inr (s, e) ↦ ground arith
]

module _ (t : ScreenTopology) (screen : TopologyScreen) (u : ScreenTopology)
    (a : Added t screen u) where
  pub find-added_screens :
      (k : ScreenKey)
      → find k u.screens ≡ (if screen_key_eq screen.key k then some screen else find k t.screens)
  find-added_screens k = rw a.screens (find-insert_sorted screen.key k screen t.screens a.fresh)

  pub find-added_cells :
      (c : GridPosition)
      → find c u.cells ≡ (if position_eq screen.cell c then some screen.key else find c t.cells)
  find-added_cells c = rw a.cells (find-insert_sorted screen.cell c screen.key t.cells a.free)

pub empty-IsConsistent : IsConsistent empty
unfolding find
empty-IsConsistent = record {
  unique = tt;
  keyed = λ k s h. cc;
  placed = λ k s h. cc;
  owned = λ c k h. cc;
  sized = λ k s h. cc;
}
