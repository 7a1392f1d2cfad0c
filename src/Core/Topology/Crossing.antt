-- ===== src/Core/Topology/Crossing.antt =====
-- src/core/topology.cpp, hitEdge, findNeighbor and mapEntryPoint.
use mksync.Prelude.{
  ◌≡◌, refl, sym, ◌∙◌, ◌⊎◌, inl, inr, pos, ◌≤ℤ◌, ◌<ℤ◌, IsInt32, Option, none, some, ok, err,
  Option-cases, arith, ◌≢◌, sub32_one, ◌-ℤ◌, sub32-add32_one, add32-sub32_one,
}
use mksync.StdMap.{find}
use mksync.Core.Events.{ScreenInfo}
use mksync.Core.Grid.{
  Edge, left, right, top, bottom, GridPosition, position_key, ScreenKey, screen_key, TopologyScreen,
  ScreenPoint,
}
use mksync.Core.Topology.{
  ScreenTopology, unknown_screen, missing_neighbor, entry_point, border, hit_edge, map_entry_point,
  find_neighbor, find_screen, neighbor_cell,
}
use mksync.Core.Topology.Invariant.{IsConsistent, IsSized}
use mksync.Core.Topology.Entry.{IsPixel, entry_coordinate-IsPixel}

abbrev pub opposite : Edge → Edge
opposite left = right
opposite right = left
opposite top = bottom
opposite bottom = top

neighbor_cell_back :
    (c : GridPosition) (e : Edge)
    → IsInt32 c.x
    → IsInt32 c.y
    → neighbor_cell (neighbor_cell c e) (opposite e) ≡ c
unfolding neighbor_cell
neighbor_cell_back c left hx hy = cc (add32-sub32_one c.x hx)
neighbor_cell_back c right hx hy = cc (sub32-add32_one c.x hx)
neighbor_cell_back c top hx hy = cc (add32-sub32_one c.y hy)
neighbor_cell_back c bottom hx hy = cc (sub32-add32_one c.y hy)

-- The neighbour of a known screen, by its cell.
pub find_neighbor_known :
    (t : ScreenTopology) (k : ScreenKey) (e : Edge) (s : TopologyScreen)
    → find_screen t k ≡ some s
    → find_neighbor t k e ≡ find (neighbor_cell s.cell e) t.cells
unfolding find_neighbor find_screen
find_neighbor_known t k e s h =
    let there : find k t.screens ≡ some s = h in rw (there, find_neighbor)

-- The way back on a consistent topology: crossing an edge of a screen whose cell has 32-bit
-- coordinates and then the opposite edge of the neighbour leads to the screen that was left.
find_neighbor_back :
    (t : ScreenTopology) (k j : ScreenKey) (e : Edge) (s : TopologyScreen)
    → IsConsistent t
    → find_screen t k ≡ some s
    → IsInt32 s.cell.x
    → IsInt32 s.cell.y
    → find_neighbor t k e ≡ some j
    → find_neighbor t j (opposite e) ≡ some k
unfolding find_screen
find_neighbor_back t k j e s v h hx hy n =
    let there = v.owned (neighbor_cell s.cell e) j (sym (find_neighbor_known t k e s h) ∙ n) in
    rw
      (
        find_neighbor_known t j (opposite e) there.0 there.1,
        there.2,
        neighbor_cell_back s.cell e hx hy,
      )
      (v.placed k s h)

-- Where a crossing of an edge enters a screen: on its opposite side.
abbrev pub IsEntry : ScreenInfo → Edge → ScreenPoint → Type 0
IsEntry info left p = (p.x ≡ info.width -ℤ pos 1) × IsPixel p.y info.height
IsEntry info right p = (p.x ≡ pos 0) × IsPixel p.y info.height
IsEntry info top p = (p.y ≡ info.height -ℤ pos 1) × IsPixel p.x info.width
IsEntry info bottom p = (p.y ≡ pos 0) × IsPixel p.x info.width

entry_point-IsEntry :
    (source target : ScreenInfo) (k : ScreenKey) (from : ScreenPoint) (e : Edge)
    → IsSized target
    → IsEntry target e (entry_point source target k from e)
unfolding entry_point
entry_point-IsEntry source target k from left z =
    (sub32_one _ z.0 z.2, entry_coordinate-IsPixel from.y source.height target.height z.1 z.3)
entry_point-IsEntry source target k from right z =
    (refl, entry_coordinate-IsPixel from.y source.height target.height z.1 z.3)
entry_point-IsEntry source target k from top z =
    (sub32_one _ z.1 z.3, entry_coordinate-IsPixel from.x source.width target.width z.0 z.2)
entry_point-IsEntry source target k from bottom z =
    (refl, entry_coordinate-IsPixel from.x source.width target.width z.0 z.2)

-- What `mapEntryPoint` answers for a point and an edge.
abbrev pub Maps : ScreenTopology → ScreenPoint → Edge → Type 0
Maps t from e =
    ((find_screen t from.key ≡ none) × (map_entry_point t from e ≡ err unknown_screen))
    ⊎ ((find_screen t from.key ≢ none)
        × (find_neighbor t from.key e ≡ none)
        × (map_entry_point t from e ≡ err missing_neighbor))
    ⊎ ((p : ScreenPoint) × (target : TopologyScreen) × (find_neighbor t from.key e ≡ some p.key)
        × (find_screen t p.key ≡ some target)
        × (map_entry_point t from e ≡ ok p)
        × IsEntry target.info e p)

key-entry_point :
    (source target : ScreenInfo) (k : ScreenKey) (from : ScreenPoint) (e : Edge)
    → (entry_point source target k from e).key ≡ k
unfolding entry_point
key-entry_point source target k from left = refl
key-entry_point source target k from right = refl
key-entry_point source target k from top = refl
key-entry_point source target k from bottom = refl

Maps-to :
    (t : ScreenTopology) (from : ScreenPoint) (e : Edge) (s target : TopologyScreen) (k : ScreenKey)
    → find_screen t from.key ≡ some s
    → find_neighbor t from.key e ≡ some k
    → find_screen t k ≡ some target
    → IsSized target.info
    → Maps t from e
unfolding map_entry_point
Maps-to t from e s target k h n there z =
    let same = key-entry_point s.info target.info k from e in
    inr (
      inr (
        entry_point s.info target.info k from e,
        target,
        rw same n,
        rw same there,
        rw (h, n, there),
        entry_point-IsEntry s.info target.info k from e z,
      ))

-- `mapEntryPoint` on a consistent topology: it fails exactly for an unknown screen or a missing
-- neighbour, and otherwise enters the neighbour at a pixel of the side that was crossed into.
pub map_entry_point_cases :
    (t : ScreenTopology) (from : ScreenPoint) (e : Edge) → IsConsistent t → Maps t from e
unfolding map_entry_point
map_entry_point_cases t from e v = elim (Option-cases (find_screen t from.key)) [
  | inl h ↦ inl (h, rw (h, map_entry_point))
  | inr (s, h) ↦ elim (Option-cases (find_neighbor t from.key e)) [
    | inl n ↦ inr (inl ((λ none_there. cc (h, none_there)), n, rw (h, n)))
    | inr (k, n) ↦
        let there =
          v.owned (neighbor_cell s.cell e) k (sym (find_neighbor_known t from.key e s h) ∙ n) in
        Maps-to t from e s there.0 k h n (unfold find_screen in there.1) (v.sized k there.0 there.1)
  ]
]

-- What a point is to a screen, for each answer of `hitEdge`: left wins over right, then top, then
-- bottom.
abbrev pub Hit : ScreenInfo → ScreenPoint → Option Edge → Type 0
Hit info p none =
    (pos 0 <ℤ p.x) × (p.x <ℤ info.width -ℤ pos 1) × (pos 0 <ℤ p.y) × (p.y <ℤ info.height -ℤ pos 1)
Hit info p (some left) = p.x ≤ℤ pos 0
Hit info p (some right) = (pos 0 <ℤ p.x) × (info.width -ℤ pos 1 ≤ℤ p.x)
Hit info p (some top) = (pos 0 <ℤ p.x) × (p.x <ℤ info.width -ℤ pos 1) × (p.y ≤ℤ pos 0)
Hit info p (some bottom) =
    (pos 0 <ℤ p.x) × (p.x <ℤ info.width -ℤ pos 1) × (pos 0 <ℤ p.y) × (info.height -ℤ pos 1 ≤ℤ p.y)

border-Hit : (info : ScreenInfo) (p : ScreenPoint) → IsSized info → Hit info p (border info p)
unfolding border
border-Hit info p z =
    rw (sub32_one info.width z.0 z.2, sub32_one info.height z.1 z.3) (ground arith)

-- On a consistent topology `hitEdge` answers none for a point strictly inside a known screen, and
-- else the first of left, right, top and bottom whose border the point is on or beyond.
pub hit_edge-Hit :
    (t : ScreenTopology) (p : ScreenPoint) (s : TopologyScreen)
    → IsConsistent t
    → find_screen t p.key ≡ some s
    → Hit s.info p (hit_edge t p)
unfolding hit_edge
hit_edge-Hit t p s v h =
    let there : find p.key t.screens ≡ some s = unfold find_screen in h in
    rw (there, hit_edge) (border-Hit s.info p (v.sized p.key s there))
