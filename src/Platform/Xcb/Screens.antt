-- ===== src/Platform/Xcb/Screens.antt =====
-- src/platform/xcb.cpp, XcbPlatform: the screens of the display, and pixels of the display and of a
-- screen.
pub mod Nearest
pub mod Closest
pub mod Pixels
use mksync.Prelude.{
  ℕ, zero, suc, ◌+◌, ◌-◌, ◌%◌, ◌*◌, ◌==◌, ltb, ℤ, pos, negsuc, pos_part, neg_part, ◌-ℤ◌, ltb_ℤ,
  leb_ℤ, clamp, add32, sub32, Bool, true, false, ◌&&◌, String, List, [], ◌∷◌, Option, none, some,
  if◌then◌else◌,
}
use mksync.Core.Events.{ScreenInfo}

-- A window is the id that the X server gave it.
pub record XcbScreen : Type 0 where
  pub index : ℕ
  pub x_screen_number : ℕ
  pub root : ℕ
  pub info : ScreenInfo

unfoldable pub is_inside : ScreenInfo → ℤ → ℤ → Bool
is_inside info x y =
    leb_ℤ info.x x
    && (leb_ℤ info.y y && (ltb_ℤ x (add32 info.x info.width) && ltb_ℤ y (add32 info.y info.height)))

-- |a - b|, which the square of the source forgets the sign of.
abbrev pub gap : ℤ → ℤ → ℕ
gap a b = pos_part (a -ℤ b) + neg_part (a -ℤ b)

-- The `int64_t` of a sum of squares, with the wrap-around written out.
abbrev pub wrap64 : ℕ → ℤ
wrap64 n =
    let w = n % 18446744073709551616 in
    if ltb w 9223372036854775808 then pos w else negsuc (18446744073709551615 - w)

-- The square of the distance to the rectangle.
unfoldable pub distance_to : ScreenInfo → ℤ → ℤ → ℤ
distance_to info x y =
    let dx = gap x (clamp x info.x (add32 info.x info.width)) in
    let dy = gap y (clamp y info.y (add32 info.y info.height)) in wrap64 (dx * dx + dy * dy)

-- The loop of `globalToScreen`: it breaks at a screen that has the point, and else keeps the first
-- of the nearest ones. `best_distance` starts at the largest `int64_t`.
unfoldable pub nearest : List XcbScreen → ℤ → ℤ → XcbScreen → ℤ → XcbScreen
nearest [] x y best best_distance = best
nearest (s ∷ rest) x y best best_distance =
    let closer = ltb_ℤ (distance_to s.info x y) best_distance in
    let later =
      nearest rest x y (if closer then s else best)
        (if closer then distance_to s.info x y else best_distance) in
    if is_inside s.info x y then s else later

abbrev pub int64_max : ℤ
int64_max = pos 9223372036854775807

-- The index of a screen, and the point on it.
unfoldable pub global_to_screen : List XcbScreen → ℤ → ℤ → ℕ × ℤ × ℤ
unfolding nearest
global_to_screen [] x y = (0, x, y)
global_to_screen (s ∷ rest) x y =
    let best = nearest (s ∷ rest) x y s int64_max in
    (best.index, sub32 x best.info.x, sub32 y best.info.y)

-- `mScreens[screenIndex]`, if there is one.
unfoldable pub screen_at : List XcbScreen → ℕ → Option XcbScreen
screen_at [] i = none
screen_at (s ∷ rest) zero = some s
screen_at (s ∷ rest) (suc i) = screen_at rest i

unfoldable pub local_to_global : List XcbScreen → ℕ → ℤ → ℤ → Option (ℤ × ℤ)
unfolding screen_at
local_to_global screens i x y = elim (screen_at screens i) [
  | none ↦ none
  | some s ↦ some (add32 s.info.x x, add32 s.info.y y)
]

unfoldable pub root_of : List XcbScreen → ℕ → Option ℕ
unfolding screen_at
root_of screens i = elim (screen_at screens i) [ none ↦ none | some s ↦ some s.root ]

abbrev pub coordinate_fits : ℤ → Bool
coordinate_fits value = leb_ℤ (negsuc 32767) value && leb_ℤ value (pos 32767)
