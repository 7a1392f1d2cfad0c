-- ===== src/Core/Topology/Remove.antt =====
-- src/core/topology.cpp, removeOwner.
use mksync.Prelude.{
  ◌≡◌, refl, subst, inl, inr, Bool, true, false, ◌&&◌, String, [], ◌∷◌, none, some, if◌then◌else◌,
  str_eq, str_eq_iff, Bool-cases, arith, ◌≢◌, any,
}
use mksync.StdMap.{StdMap, find, erase, IsUnique}
use mksync.StdMap.Laws.{find-erase, find-filter_keys, filter_keys-IsUnique}
use mksync.Core.Grid.{
  GridPosition, position_key, position_eq, position_eq_iff, ScreenKey, screen_key,
  screen_key_eq_iff, TopologyScreen,
}
use mksync.Core.Topology.{ScreenTopology, is_other, release_cells, remove_owner}
use mksync.Core.Topology.Invariant.{IsConsistent}

-- Whether the loop erases a cell.
abbrev releases : String → GridPosition → StdMap ScreenKey TopologyScreen → Bool
releases owner c = any λ e. str_eq (e.0).owner_id owner && position_eq (e.1).cell c

find-release_cells :
    (owner : String) (c : GridPosition) (m : StdMap ScreenKey TopologyScreen)
    (cells : StdMap GridPosition ScreenKey)
    → find c (release_cells owner m cells) ≡ (if releases owner c m then none else find c cells)
unfolding release_cells
find-release_cells owner c [] cells = refl
find-release_cells owner c ((key, s) ∷ m) cells = elim (Bool-cases (str_eq key.owner_id owner)) [
  | inl e ↦
      rw e (
        ground
          (arith, find-release_cells owner c m (erase s.cell cells), find-erase s.cell c cells))
  | inr e ↦ rw e (find-release_cells owner c m cells)
]

-- A released cell is that of a screen of the owner.
releases_source :
    (owner : String) (c : GridPosition) (m : StdMap ScreenKey TopologyScreen)
    → IsUnique m
    → releases owner c m ≡ true
    → (k : ScreenKey) × (s : TopologyScreen) × (find k m ≡ some s)
      × (k.owner_id ≡ owner)
      × (s.cell ≡ c)
unfolding find
releases_source owner c [] u h = cc
releases_source owner c ((key, s) ∷ m) u h =
    elim (Bool-cases (str_eq key.owner_id owner && position_eq s.cell c)) [
      | inl e ↦ (
        key,
        s,
        ground (arith, screen_key_eq_iff key key),
        ground (arith, str_eq_iff key.owner_id owner),
        ground (arith, position_eq_iff s.cell c),
      )
      | inr e ↦
          let rest = releases_source owner c m u.1 (ground arith) in
          (
            rest.0,
            rest.1,
            ground (arith, screen_key_eq_iff key rest.0, rest.2, u.0),
            rest.3,
            rest.4,
          )
    ]

releases_all :
    (owner : String) (c : GridPosition) (k : ScreenKey) (s : TopologyScreen)
    (m : StdMap ScreenKey TopologyScreen)
    → find k m ≡ some s
    → k.owner_id ≡ owner
    → s.cell ≡ c
    → releases owner c m ≡ true
unfolding find
releases_all owner c k s [] h o e = cc
releases_all owner c k s ((key, r) ∷ m) h o e = ground (
  arith,
  screen_key_eq_iff key k,
  str_eq_iff key.owner_id owner,
  position_eq_iff r.cell c,
  releases_all owner c k s m,
)

-- `removeOwner` drops exactly the screens of the owner.
pub find_screen-remove_owner :
    (t : ScreenTopology) (owner : String) (k : ScreenKey)
    → find k (remove_owner t owner).screens
      ≡ (if str_eq k.owner_id owner then none else find k t.screens)
unfolding remove_owner
find_screen-remove_owner t owner k = ground (arith, find-filter_keys (is_other owner) k t.screens)

module _ (t : ScreenTopology) (owner : String) (v : IsConsistent t) where
  kept :
      (k : ScreenKey) (s : TopologyScreen)
      → find k (remove_owner t owner).screens ≡ some s
      → (find k t.screens ≡ some s) × (k.owner_id ≢ owner)
  kept k s h = (
    ground (arith, find_screen-remove_owner t owner k),
    λ e. ground (arith, e, find_screen-remove_owner t owner k, str_eq_iff k.owner_id owner),
  )

  -- No cell of a screen that stays is released.
  not_released :
      (k : ScreenKey) (s : TopologyScreen)
      → find k t.screens ≡ some s
      → k.owner_id ≢ owner
      → releases owner s.cell t.screens ≡ false
  not_released k s h other = elim (Bool-cases (releases owner s.cell t.screens)) [
    | inl e ↦
        let src = releases_source owner s.cell t.screens v.unique e in
        let there : find s.cell t.cells ≡ some src.0 =
          subst (λ c. find c t.cells ≡ some src.0) src.4 (v.placed src.0 src.1 src.2) in
        absurd (other (cc (there, v.placed k s h, src.3)))
    | inr e ↦ e
  ]

  removed_placed :
      (k : ScreenKey) (s : TopologyScreen)
      → find k (remove_owner t owner).screens ≡ some s
      → find s.cell (remove_owner t owner).cells ≡ some k
  unfolding remove_owner
  removed_placed k s h =
      let (there, other) = kept k s h in
      rw (find-release_cells owner s.cell t.screens t.cells, not_released k s there other)
        (v.placed k s there)

  removed_owned :
      (c : GridPosition) (k : ScreenKey)
      → find c (remove_owner t owner).cells ≡ some k
      → (s : TopologyScreen) × (find k (remove_owner t owner).screens ≡ some s) × (s.cell ≡ c)
  unfolding remove_owner
  removed_owned c k h =
      let old = v.owned c k (ground (arith, find-release_cells owner c t.screens t.cells)) in
      (
        old.0,
        ground (
          arith,
          old.1,
          find_screen-remove_owner t owner k,
          str_eq_iff k.owner_id owner,
          releases_all owner c k old.0 t.screens old.1,
          old.2,
          find-release_cells owner c t.screens t.cells,
        ),
        old.2,
      )

  -- `removeOwner` keeps a consistent topology consistent: it frees the cells of the screens that
  -- it drops, and no others.
  pub remove_owner-IsConsistent : IsConsistent (remove_owner t owner)
  unfolding remove_owner
  remove_owner-IsConsistent = record {
    unique = filter_keys-IsUnique (is_other owner) t.screens v.unique;
    keyed = λ k s h. v.keyed k s (kept k s h).0;
    placed = removed_placed;
    owned = removed_owned;
    sized = λ k s h. v.sized k s (kept k s h).0;
  }
