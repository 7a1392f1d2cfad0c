-- ===== src/App/Screens/FreeCell.antt =====
-- src/app/server_screens.cpp, nextFreeCell: the `while (true)` loop ends, at the first free cell.
use mksync.Prelude.{
  ℕ, zero, suc, ◌+◌, ◌≤◌, ◌<◌, ◌≡◌, refl, inl, inr, pos, leb_ℤ, add32, eqb_ℤ_iff, ◌+ℤ◌, true, false,
  List, [], ◌∷◌, if◌then◌else◌, arith, any, length, Bool-cases, ◌==◌, ==_iff, none, some,
  Option-cases,
}
use mathlib.Core.List.{map}
use mksync.StdMap.{StdMap, find}
use mksync.Core.Grid.{
  GridPosition, position_eq, position_eq_iff, position_key, ScreenKey, screen_key, TopologyScreen,
}
use mksync.Core.Topology.Invariant.{IsConsistent}
use mksync.Core.Topology
use mksync.Core.Topology.{ScreenTopology}
use mksync.App.Screens.{ScreenStore, is_occupied, scan_right, next_free_cell}

add32_one : (a : ℕ) → a < 2147483647 → add32 (pos a) (pos 1) ≡ pos (suc a)
unfolding ◌+ℤ◌
add32_one a h = ground arith

-- The screens at x or to the right of it.
abbrev count_from : ℕ → List TopologyScreen → ℕ
count_from a [] = 0
count_from a (s ∷ l) = if leb_ℤ (pos a) s.cell.x then suc (count_from a l) else count_from a l

count_from-le : (a : ℕ) (l : List TopologyScreen) → count_from a l ≤ length l
count_from-le a [] = omega arith
count_from-le a (s ∷ l) = ground (arith, count_from-le a l)

count_from-suc : (a : ℕ) (l : List TopologyScreen) → count_from (suc a) l ≤ count_from a l
count_from-suc a [] = omega arith
count_from-suc a (s ∷ l) = ground (arith, count_from-suc a l)

-- An occupied cell is left behind for good.
count_from-lt :
    (a : ℕ) (l : List TopologyScreen)
    → any (λ s. position_eq s.cell (record { x = pos a; y = pos 0 })) l ≡ true
    → count_from (suc a) l < count_from a l
count_from-lt a [] h = cc
count_from-lt a (s ∷ l) h =
    ground (arith, eqb_ℤ_iff s.cell.x (pos a), count_from-suc a l, count_from-lt a l)

abbrev pub in_row : ℕ → GridPosition
in_row a = record { x = pos a; y = pos 0 }

-- The first free cell of the row from `a` on.
pub record IsFirstFree (t : ScreenTopology) (a : ℕ) (cell : GridPosition) : Type 0 where
  pub column : ℕ
  pub at : cell ≡ in_row column
  pub from : a ≤ column
  pub free : is_occupied t cell ≡ false
  pub first : (c : ℕ) → a ≤ c → c < column → is_occupied t (in_row c) ≡ true

scan_right-IsFirstFree :
    (fuel : ℕ) (t : ScreenTopology) (a : ℕ)
    → count_from a (Topology.screens t) < fuel
    → a + fuel ≤ 2147483647
    → IsFirstFree t a (scan_right fuel t (in_row a))
unfolding scan_right
scan_right-IsFirstFree zero t a h b = absurd (omega arith)
scan_right-IsFirstFree (suc fuel) t a h b = elim (Bool-cases (is_occupied t (in_row a))) [
  | inr e ↦ rw e (record {
    column = a;
    at = refl;
    from = omega arith;
    free = e;
    first = λ c l r. absurd (omega arith);
  })
  | inl e ↦
      let rest =
        scan_right-IsFirstFree fuel t (suc a)
          (omega (arith, count_from-lt a (Topology.screens t) e)) (omega arith) in
      rw (e, add32_one a (omega arith))
        (record {
          column = rest.column;
          at = rest.at;
          from = omega (arith, rest.from);
          free = rest.free;
          first = λ c l r. elim (Bool-cases (c == a)) [
            | inl q ↦ rw ((==_iff c a).0 q) e
            | inr q ↦ rest.first c (ground arith) r
          ];
        })
]

-- `nextFreeCell` ends while there are fewer screens than `int32_t` has columns from the start on,
-- and its answer is the first cell of row 0 from there that no screen of the topology has.
pub next_free_cell-IsFirstFree :
    (store : ScreenStore) (a : ℕ)
    → a + length (Topology.screens store.topology) < 2147483647
    → IsFirstFree store.topology a (next_free_cell store (pos a))
unfolding next_free_cell
next_free_cell-IsFirstFree store a h =
    scan_right-IsFirstFree (suc (length (Topology.screens store.topology))) store.topology a
      (omega (arith, count_from-le a (Topology.screens store.topology))) (omega arith)

any_of_find :
    (k : ScreenKey) (s : TopologyScreen) (m : StdMap ScreenKey TopologyScreen)
    → find k m ≡ some s
    → any (λ r. position_eq r.cell s.cell) (map (λ e. e.1) m) ≡ true
unfolding find
any_of_find k s [] h = cc
any_of_find k s ((j, r) ∷ m) h = ground (arith, position_eq_iff r.cell s.cell, any_of_find k s m)

-- On a consistent topology the cell that the scan reports free is free in the map of cells.
pub find_of_free :
    (t : ScreenTopology) (cell : GridPosition)
    → IsConsistent t
    → is_occupied t cell ≡ false
    → find cell t.cells ≡ none
unfolding Topology.screens
find_of_free t cell v h = elim (Option-cases (find cell t.cells)) [
  | inl e ↦ e
  | inr (k, e) ↦
      let (s, there, at) = v.owned cell k e in
      absurd (cc (h, rw at at (any_of_find k s t.screens there)))
]
