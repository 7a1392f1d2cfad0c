-- ===== src/Core/Topology/Add.antt =====
-- src/core/topology.cpp, addScreen: the two maps stay inverse to one another.
use mksync.Prelude.{◌≡◌, inl, inr, some, ok, Bool-cases, arith}
use mksync.StdMap.{find}
use mksync.StdMap.Laws.{insert_sorted-IsUnique}
use mksync.Core.Grid.{
  GridPosition, position_key, position_eq, position_eq_iff, ScreenKey, screen_key, screen_key_eq,
  screen_key_eq_iff, TopologyScreen,
}
use mksync.Core.Topology.{ScreenTopology, add_screen}
use mksync.Core.Topology.Invariant.{
  IsTyped, IsSized, IsConsistent, Added, add_screen-Added, find-added_screens, find-added_cells,
}

module _ (t : ScreenTopology) (screen : TopologyScreen) (u : ScreenTopology) (a : Added t screen u)
    (v : IsConsistent t) (typed : IsTyped screen.info) where
  added_keyed : (k : ScreenKey) (s : TopologyScreen) → find k u.screens ≡ some s → s.key ≡ k
  added_keyed k s h =
      ground (arith, find-added_screens t screen u a k, screen_key_eq_iff screen.key k, v.keyed k s)

  added-IsSized : (k : ScreenKey) (s : TopologyScreen) → find k u.screens ≡ some s → IsSized s.info
  added-IsSized k s h = elim (Bool-cases (screen_key_eq screen.key k)) [
    | inl e ↦
        let same : some screen ≡ some s = rw (find-added_screens t screen u a k, e) at h in
        ground (arith, same)
    | inr e ↦ v.sized k s (rw (find-added_screens t screen u a k, e) at h)
  ]

  added_placed :
      (k : ScreenKey) (s : TopologyScreen)
      → find k u.screens ≡ some s
      → find s.cell u.cells ≡ some k
  added_placed k s h = ground (
    arith,
    find-added_screens t screen u a k,
    find-added_cells t screen u a s.cell,
    screen_key_eq_iff screen.key k,
    position_eq_iff screen.cell s.cell,
    v.placed k s,
    a.free,
  )

  added_owned :
      (c : GridPosition) (k : ScreenKey)
      → find c u.cells ≡ some k
      → (s : TopologyScreen) × (find k u.screens ≡ some s) × (s.cell ≡ c)
  added_owned c k h = elim (Bool-cases (position_eq screen.cell c)) [
    | inl e ↦ (
      screen,
      ground (
        arith,
        find-added_cells t screen u a c,
        find-added_screens t screen u a k,
        screen_key_eq_iff screen.key k,
      ),
      (position_eq_iff _ _).0 e,
    )
    | inr e ↦
        let old = v.owned c k (ground (arith, find-added_cells t screen u a c)) in
        (
          old.0,
          ground (
            arith,
            old.1,
            find-added_screens t screen u a k,
            screen_key_eq_iff screen.key k,
            a.fresh,
          ),
          old.2,
        )
  ]

  added-IsConsistent : IsConsistent u
  added-IsConsistent = record {
    unique = rw a.screens (insert_sorted-IsUnique screen.key screen t.screens a.fresh v.unique);
    keyed = added_keyed;
    placed = added_placed;
    owned = added_owned;
    sized = added-IsSized;
  }

-- A screen with a 32-bit size that `addScreen` accepts leaves a consistent topology consistent:
-- keys and cells stay in bijection, and every screen has a rectangle that is not empty.
pub add_screen-IsConsistent :
    (t : ScreenTopology) (screen : TopologyScreen) (u : ScreenTopology)
    → IsConsistent t
    → IsTyped screen.info
    → add_screen t screen ≡ ok u
    → IsConsistent u
add_screen-IsConsistent t screen u v typed h =
    added-IsConsistent t screen u (add_screen-Added t screen u h) v typed
