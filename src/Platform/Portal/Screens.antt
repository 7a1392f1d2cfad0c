-- ===== src/Platform/Portal/Screens.antt =====
-- src/platform/wayland_portal.cpp: the screens of the portal's zones and of libei's regions.
pub mod OnScreen
use mksync.Prelude.{
  ℕ, zero, suc, ◌==◌, ltb, ◌||◌, ◌&&◌, ℤ, pos, clamp, add32, sub32, wrap32, String, Bool, true,
  false, not, List, [], ◌∷◌, any, Option, none, some, if◌then◌else◌,
}
use mksync.Core.Events.{ScreenInfo}

-- A zone of the portal: its place, and its size as unsigned numbers.
pub record Zone : Type 0 where
  pub x : ℤ
  pub y : ℤ
  pub width : ℕ
  pub height : ℕ

abbrev at_most_int32 : ℕ → ℤ
at_most_int32 n = if ltb n 2147483647 then pos n else pos 2147483647

-- `name` formats "portal-zone-{}". A zone without pixels has no screen and no index.
unfoldable pub zone_screens : (ℕ → String) → ℕ → List Zone → List ScreenInfo
zone_screens name index [] = []
zone_screens name index (z ∷ rest) =
    let skipped = zone_screens name index rest in
    let kept =
      record {
        x = z.x;
        y = z.y;
        width = at_most_int32 z.width;
        height = at_most_int32 z.height;
        dpi = pos 72;
        name = name index;
        primary = index == 0;
      }
      ∷ zone_screens name (suc index) rest in
    if z.width == 0 || z.height == 0 then skipped else kept

-- A region of a device: its rectangle as unsigned numbers, and the dpi that its scale makes.
pub record Region : Type 0 where
  pub x : ℕ
  pub y : ℕ
  pub width : ℕ
  pub height : ℕ
  pub dpi : ℤ

abbrev same_region : Region → Region → Bool
same_region a b = a.x == b.x && (a.y == b.y && (a.width == b.width && a.height == b.height))

-- The regions of the absolute pointers in their order, with those that have been seen. `name`
-- formats "portal-region-{}".
unfoldable pub region_screens : (ℕ → String) → ℕ → List Region → List Region → List ScreenInfo
region_screens name index seen [] = []
region_screens name index seen (r ∷ rest) =
    let skipped = region_screens name index seen rest in
    let kept =
      record {
        x = wrap32 (pos r.x);
        y = wrap32 (pos r.y);
        width = wrap32 (pos r.width);
        height = wrap32 (pos r.height);
        dpi = r.dpi;
        name = name index;
        primary = index == 0;
      }
      ∷ region_screens name (suc index) (r ∷ seen) rest in
    if r.width == 0 || (r.height == 0 || any (same_region r) seen) then skipped else kept

unfoldable pub update_screens : List ScreenInfo → List ScreenInfo → List ScreenInfo
update_screens [] old = old
update_screens (s ∷ screens) old = s ∷ screens

abbrev pub screen_at : List ScreenInfo → ℕ → Option ScreenInfo
screen_at [] i = none
screen_at (s ∷ rest) zero = some s
screen_at (s ∷ rest) (suc i) = screen_at rest i

-- The doubles of the source are these integers.
unfoldable pub local_to_global : List ScreenInfo → ℕ → ℤ → ℤ → Option (ℤ × ℤ)
local_to_global screens i x y = elim (screen_at screens i) [
  | none ↦ none
  | some s ↦ some (
    add32 s.x (clamp x (pos 0) (sub32 s.width (pos 1))),
    add32 s.y (clamp y (pos 0) (sub32 s.height (pos 1))),
  )
]
