-- ===== src/Platform/Xcb/Screens/Pixels.antt =====
-- src/platform/xcb.cpp: a pixel of a screen goes to the display and comes back.
use mksync.Prelude.{
  ℕ, zero, suc, ◌≡◌, refl, ℤ, pos, ◌+ℤ◌, ◌-ℤ◌, ◌≤ℤ◌, ◌<ℤ◌, IsInt32, add32, sub32, wrap32_self,
  +ℤ_parts, -ℤ_parts, eq_of_parts, true, List, [], ◌∷◌, some, arith, Bool-cases, inl, inr,
}
use mksync.Core.Events.{ScreenInfo}
use mksync.Platform.Xcb.Screens.{
  XcbScreen, is_inside, nearest, global_to_screen, screen_at, local_to_global, int64_max,
}

-- The rectangle of a screen lies within `int32_t`.
abbrev pub Fits : ScreenInfo → Type 0
Fits info =
    IsInt32 info.x
    × IsInt32 info.y
    × (pos 0 ≤ℤ info.width)
    × (pos 0 ≤ℤ info.height)
    × IsInt32 (info.x +ℤ info.width)
    × IsInt32 (info.y +ℤ info.height)

-- A pixel of the screen itself.
abbrev pub OnScreen : ScreenInfo → ℤ → ℤ → Type 0
OnScreen info x y = (pos 0 ≤ℤ x) × (x <ℤ info.width) × (pos 0 ≤ℤ y) × (y <ℤ info.height)

add32_within : (a w x : ℤ) → IsInt32 a → IsInt32 (a +ℤ w) → pos 0 ≤ℤ x → x <ℤ w → add32 a x ≡ a +ℤ x
add32_within a w x ta tw lo hi = wrap32_self (a +ℤ x) (omega (arith, +ℤ_parts a x, +ℤ_parts a w))

sub32_back : (a x : ℤ) → IsInt32 x → sub32 (a +ℤ x) a ≡ x
sub32_back a x t =
    let same : a +ℤ x -ℤ a ≡ x = omega (arith, +ℤ_parts a x, -ℤ_parts (a +ℤ x) a, eq_of_parts) in
    rw same (wrap32_self x t)

-- The display's pixel for a pixel of a screen lies inside that screen.
inside_own :
    (info : ScreenInfo) (x y : ℤ)
    → Fits info
    → OnScreen info x y
    → is_inside info (add32 info.x x) (add32 info.y y) ≡ true
unfolding is_inside
inside_own info x y (ix, iy, w, h, tx, ty) (x0, x1, y0, y1) =
    rw
      (
        add32_within info.x info.width x ix tx x0 x1,
        add32_within info.y info.height y iy ty y0 y1,
        wrap32_self (info.x +ℤ info.width) tx,
        wrap32_self (info.y +ℤ info.height) ty,
      )
      (ground (
        arith,
        +ℤ_parts info.x x,
        +ℤ_parts info.y y,
        +ℤ_parts info.x info.width,
        +ℤ_parts info.y info.height,
      ))

-- The loop ends at the only screen that has the point.
nearest_inside :
    (l : List XcbScreen) (k : ℕ) (s best : XcbScreen) (x y d : ℤ)
    → screen_at l k ≡ some s
    → is_inside s.info x y ≡ true
    → ((j : ℕ) (r : XcbScreen) → screen_at l j ≡ some r → is_inside r.info x y ≡ true → j ≡ k)
    → nearest l x y best d ≡ s
unfolding nearest screen_at
nearest_inside [] k s best x y d h inside only = cc
nearest_inside (r ∷ l) zero s best x y d h inside only = ground (arith, h, inside)
nearest_inside (r ∷ l) (suc k) s best x y d h inside only =
    elim (Bool-cases (is_inside r.info x y)) [
      | inl e ↦ absurd (omega (arith, only zero r refl e))
      | inr e ↦ rw e (
          nearest_inside l k s _ x y _ h inside
            (λ j q at in_q. omega (arith, only (suc j) q at in_q)))
    ]

-- Each screen carries its index, as the enumeration numbers them.
abbrev pub AreNumbered : List XcbScreen → Type 0
AreNumbered screens = (i : ℕ) (s : XcbScreen) → screen_at screens i ≡ some s → s.index ≡ i

-- Where a pixel of a screen goes.
goes :
    (screens : List XcbScreen) (i : ℕ) (s : XcbScreen) (x y gx gy : ℤ)
    → screen_at screens i ≡ some s
    → local_to_global screens i x y ≡ some (gx, gy)
    → (gx ≡ add32 s.info.x x) × (gy ≡ add32 s.info.y y)
unfolding local_to_global
goes screens i s x y gx gy h go = ground (arith, h, go)

-- On numbered screens within `int32_t`, a pixel of a screen goes to a pixel of the display, and if
-- no other screen has that one, comes back as the same pixel of the same screen.
pub global_to_screen-local_to_global :
    (screens : List XcbScreen) (i : ℕ) (s : XcbScreen) (x y gx gy : ℤ)
    → AreNumbered screens
    → screen_at screens i ≡ some s
    → Fits s.info
    → OnScreen s.info x y
    → IsInt32 x
    → IsInt32 y
    → local_to_global screens i x y ≡ some (gx, gy)
    → ((j : ℕ) (r : XcbScreen)
        → screen_at screens j ≡ some r
        → is_inside r.info gx gy ≡ true
        → j ≡ i)
    → global_to_screen screens gx gy ≡ (i, x, y)
unfolding global_to_screen screen_at
global_to_screen-local_to_global [] i s x y gx gy num h fits on tx ty go only = cc (h)
global_to_screen-local_to_global (front ∷ l) i s x y gx gy num h fits on tx ty go only =
    let (ex, ey) = goes (front ∷ l) i s x y gx gy h go in
    let inside : is_inside s.info gx gy ≡ true = rw (ex, ey) (inside_own s.info x y fits on) in
    let (ix, iy, w, hh, wx, wy) = fits in
    let (x0, x1, y0, y1) = on in
    rw (nearest_inside (front ∷ l) i s front gx gy int64_max h inside only) (
      ground (
        arith,
        num i s h,
        ex,
        ey,
        add32_within s.info.x s.info.width x ix wx x0 x1,
        add32_within s.info.y s.info.height y iy wy y0 y1,
        sub32_back s.info.x x tx,
        sub32_back s.info.y y ty,
      ))
