-- ===== src/Platform/Wayland/Position.antt =====
-- src/platform/wayland.cpp, absolutePosition: where a pixel of a screen lies in the extent of all
-- screens.
pub mod Placed
use mksync.Prelude.{
  subst, ℕ, zero, suc, ◌<◌, ◌≡◌, refl, ℤ, pos, negsuc, pos_part, neg_part, ◌+ℤ◌, ◌-ℤ◌, ◌≤ℤ◌, ◌<ℤ◌,
  ltb_ℤ, clamp, max_ℤ, sub32, IsInt32, wrap32_self, +ℤ_parts, -ℤ_parts, eq_of_parts, List, [], ◌∷◌,
  Option, none, some, if◌then◌else◌, arith, All,
}
use mksync.Core.Events.{ScreenInfo}
use mksync.Platform.Xcb.Screens.Pixels.{Fits, OnScreen}

pub record AbsolutePosition : Type 0 where
  pub x : ℕ
  pub y : ℕ
  pub width : ℕ
  pub height : ℕ

-- The corners of the extent.
pub record Extent : Type 0 where
  pub min_x : ℤ
  pub min_y : ℤ
  pub max_x : ℤ
  pub max_y : ℤ

-- The largest and the smallest `int32_t`, where the loop starts.
abbrev pub no_extent : Extent
no_extent = record {
  min_x = pos 2147483647;
  min_y = pos 2147483647;
  max_x = negsuc 2147483647;
  max_y = negsuc 2147483647;
}

abbrev pub min_ℤ : ℤ → ℤ → ℤ
min_ℤ a b = if ltb_ℤ b a then b else a

-- The sums are in `int64_t`, which holds them.
abbrev pub grow : Extent → ScreenInfo → Extent
grow e s = record {
  min_x = min_ℤ e.min_x s.x;
  min_y = min_ℤ e.min_y s.y;
  max_x = max_ℤ e.max_x (s.x +ℤ s.width);
  max_y = max_ℤ e.max_y (s.y +ℤ s.height);
}

unfoldable pub extent : List ScreenInfo → Extent → Extent
extent [] e = e
extent (s ∷ rest) e = extent rest (grow e s)

unfoldable pub screen_of : List ScreenInfo → ℕ → Option ScreenInfo
screen_of [] i = none
screen_of (s ∷ rest) zero = some s
screen_of (s ∷ rest) (suc i) = screen_of rest i

-- The position of a coordinate in an axis of the extent, and the length of the axis.
unfoldable pub axis_position : ℤ → ℤ → ℤ → ℤ → ℤ → ℕ × ℕ
axis_position low high start size coordinate =
    let local = clamp coordinate (pos 0) (max_ℤ (pos 0) (sub32 size (pos 1))) in
    let length = clamp (high -ℤ low) (pos 1) (pos 4294967295) in
    (pos_part (clamp (start +ℤ local -ℤ low) (pos 0) (length -ℤ pos 1)), pos_part length)

unfoldable pub absolute_position : List ScreenInfo → ℕ → ℤ → ℤ → Option AbsolutePosition
unfolding screen_of extent axis_position
absolute_position screens i x y = elim (screen_of screens i) [
  | none ↦ none
  | some s ↦
      let e = extent screens no_extent in
      let (px, width) = axis_position e.min_x e.max_x s.x s.width x in
      let (py, height) = axis_position e.min_y e.max_y s.y s.height y in
      some (record { x = px; y = py; width = width; height = height })
]
