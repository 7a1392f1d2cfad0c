-- ===== src/Tests/Wayland.antt =====
-- Two Wayland outputs beside each other.
use mksync.Prelude.{
  ◌<◌, ◌≡◌, refl, ℤ, pos, negsuc, ◌+ℤ◌, ◌-ℤ◌, List, [], ◌∷◌, some, arith, false, All,
}
use mksync.Core.Events.{ScreenInfo}
use mksync.Platform.Xcb.Screens.Pixels.{Fits}
use mksync.Platform.Wayland.Position.{AbsolutePosition, absolute_position, screen_of}
use mksync.Platform.Wayland.Position.Placed.{Bounds, absolute_position-IsPlaced}

abbrev info_at : ℤ → ScreenInfo
info_at x = record {
  x = x;
  y = pos 0;
  width = pos 1920;
  height = pos 1080;
  dpi = pos 96;
  name = "output";
  primary = false;
}

abbrev outputs : List ScreenInfo
outputs = info_at (negsuc 1919) ∷ info_at (pos 0) ∷ []

outputs-Fits : All Fits outputs
unfolding ◌+ℤ◌
outputs-Fits = (
  (
    (omega arith, omega arith),
    (omega arith, omega arith),
    omega arith,
    omega arith,
    (omega arith, omega arith),
    (omega arith, omega arith),
  ),
  (
    (
      (omega arith, omega arith),
      (omega arith, omega arith),
      omega arith,
      omega arith,
      (omega arith, omega arith),
      (omega arith, omega arith),
    ),
    tt,
  ),
)

second : screen_of outputs 1 ≡ some (info_at (pos 0))
unfolding screen_of
second = refl

absolute_position-IsPlaced_example :
    (p : AbsolutePosition) × (left : ℤ) × (top : ℤ) × (right : ℤ) × (bottom : ℤ)
    × (absolute_position outputs 1 (pos 5) (pos 6) ≡ some p)
    × Bounds left top right bottom outputs
    × (pos p.x +ℤ left ≡ pos 0 +ℤ pos 5)
    × (pos p.y +ℤ top ≡ pos 0 +ℤ pos 6)
    × (pos p.width ≡ right -ℤ left)
    × (pos p.height ≡ bottom -ℤ top)
    × (p.x < p.width)
    × (p.y < p.height)
absolute_position-IsPlaced_example =
    absolute_position-IsPlaced outputs 1 (info_at (pos 0)) (pos 5) (pos 6) outputs-Fits second
      (omega arith, omega arith) (omega arith, omega arith)
      (omega arith, omega arith, omega arith, omega arith)
