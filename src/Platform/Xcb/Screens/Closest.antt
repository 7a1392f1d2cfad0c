-- ===== src/Platform/Xcb/Screens/Closest.antt =====
-- src/platform/xcb.cpp, globalToScreen: the screen that a pixel of the display goes to.
use native.Mathlib.Nat.{mul-le-mul_left, mul-le-mul_right}
use mksync.Prelude.{
  ℕ, zero, suc, ◌+◌, ◌*◌, ◌≤◌, ◌<◌, ◌≡◌, refl, sym, subst, ℤ, pos, pos_part, neg_part, ◌+ℤ◌, ◌-ℤ◌,
  ◌≤ℤ◌, ◌<ℤ◌, +ℤ_parts, -ℤ_parts, clamp, sub32, wrap32_self, true, false, ◌⊎◌, inl, inr, List, [],
  ◌∷◌, some, All, arith,
}
use mksync.Core.Events.{ScreenInfo}
use mksync.Platform.Xcb.Screens.{
  XcbScreen, is_inside, wrap64, distance_to, nearest, int64_max, screen_at, global_to_screen,
}
use mksync.Platform.Xcb.Screens.Nearest.{
  AreFarther, IsNearest, IsIn, nearest-IsNearest, nearest-IsIn, first-IsIn,
}
use mksync.Platform.Xcb.Screens.Pixels.{Fits}

-- The rectangle of a screen has the pixel.
abbrev pub Contains : ScreenInfo → ℤ → ℤ → Type 0
Contains info x y =
    (info.x ≤ℤ x) × (x <ℤ info.x +ℤ info.width) × (info.y ≤ℤ y) × (y <ℤ info.y +ℤ info.height)

-- The rectangle with its far edges.
abbrev pub Touches : ScreenInfo → ℤ × ℤ → Type 0
Touches info (x, y) =
    (info.x ≤ℤ x) × (x ≤ℤ info.x +ℤ info.width) × (info.y ≤ℤ y) × (y ≤ℤ info.y +ℤ info.height)

abbrev pub apart : ℤ → ℤ → ℕ
apart a b = pos_part (a -ℤ b) + neg_part (a -ℤ b)

-- The square of the distance of two points.
abbrev pub squared : ℤ × ℤ → ℤ × ℤ → ℕ
squared (x, y) (a, b) = apart x a * apart x a + apart y b * apart y b

-- Some point of the rectangle is so near that no square leaves an `int64_t`.
abbrev pub IsNear : ℤ × ℤ → ScreenInfo → Type 0
IsNear at info = (p : ℤ × ℤ) × Touches info p × (squared at p < 9223372036854775807)

-- A screen has the pixel; or no screen has it, and a point of this one is as near as any point of any
-- screen.
abbrev pub IsClosest : List XcbScreen → ℤ → ℤ → XcbScreen → Type 0
IsClosest l x y r =
    Contains r.info x y
    ⊎ (All (λ s. Contains s.info x y → ⊥) l
        × (q : ℤ × ℤ) × Touches r.info q
        × All (λ s. (p : ℤ × ℤ) → Touches s.info p → squared (x, y) q ≤ squared (x, y) p) l)

squares : (a b : ℕ) → a ≤ b → a * a ≤ b * b
squares a b h =
    omega (arith, mul-le-mul_left {m = a} {n = b} a h, mul-le-mul_right {m = a} {n = b} b h)

apart-clamp : (v low high p : ℤ) → low ≤ℤ p → p ≤ℤ high → apart v (clamp v low high) ≤ apart v p
apart-clamp v low high p a b =
    ground (arith, -ℤ_parts v v, -ℤ_parts v low, -ℤ_parts v high, -ℤ_parts v p)

clamp-within :
    (v low high : ℤ) → low ≤ℤ high → (low ≤ℤ clamp v low high) × (clamp v low high ≤ℤ high)
clamp-within v low high h = (ground arith, ground arith)

module _ (x y : ℤ) where
  -- The point of the rectangle that the source measures to.
  abbrev foot : ScreenInfo → ℤ × ℤ
  foot info = (clamp x info.x (info.x +ℤ info.width), clamp y info.y (info.y +ℤ info.height))

  foot-Touches : (info : ScreenInfo) → Fits info → Touches info (foot info)
  foot-Touches info (tx, ty, w, h, ux, uy) =
      let in_x =
        clamp-within x info.x (info.x +ℤ info.width)
          (omega (arith, w, +ℤ_parts info.x info.width)) in
      let in_y =
        clamp-within y info.y (info.y +ℤ info.height)
          (omega (arith, h, +ℤ_parts info.y info.height)) in
      (in_x.0, in_x.1, in_y.0, in_y.1)

  foot-least :
      (info : ScreenInfo) (p : ℤ × ℤ)
      → Touches info p
      → squared (x, y) (foot info) ≤ squared (x, y) p
  foot-least info p (a, b, c, d) = omega (
    arith,
    squares _ _ (apart-clamp x info.x (info.x +ℤ info.width) p.0 a b),
    squares _ _ (apart-clamp y info.y (info.y +ℤ info.height) p.1 c d),
  )

  wrap64_self : (n : ℕ) → n < 9223372036854775807 → wrap64 n ≡ pos n
  wrap64_self n h = ground arith

  distance_to-squared :
      (info : ScreenInfo)
      → Fits info
      → IsNear (x, y) info
      → distance_to info x y ≡ pos (squared (x, y) (foot info))
  unfolding distance_to
  distance_to-squared info (tx, ty, w, h, ux, uy) (p, t, n) =
      rw (wrap32_self (info.x +ℤ info.width) ux, wrap32_self (info.y +ℤ info.height) uy)
        (wrap64_self (squared (x, y) (foot info)) (omega (arith, foot-least info p t, n)))

  inside-Contains :
      (info : ScreenInfo)
      → Fits info
      → (is_inside info x y ≡ true → Contains info x y)
        × (is_inside info x y ≡ false → Contains info x y → ⊥)
  unfolding is_inside
  inside-Contains info (tx, ty, w, h, ux, uy) =
      rw (wrap32_self (info.x +ℤ info.width) ux, wrap32_self (info.y +ℤ info.height) uy)
        (
          λ e. (ground (arith, e), ground (arith, e), ground (arith, e), ground (arith, e)),
          λ e (a, b, c, d). ground (arith, e, a, b, c, d),
        )

  abbrev Usable : XcbScreen → Type 0
  Usable s = Fits s.info × IsNear (x, y) s.info

  Usable-at :
      (l : List XcbScreen) (k : ℕ) (r : XcbScreen)
      → All Usable l
      → screen_at l k ≡ some r
      → Usable r
  unfolding screen_at
  Usable-at [] k r u h = absurd (cc h)
  Usable-at (s ∷ l) zero r u h = let same : s ≡ r = cc h in subst Usable same u.0
  Usable-at (s ∷ l) (suc k) r u h = Usable-at l k r u.1 h

  none_Contains :
      (d : ℤ) (l : List XcbScreen)
      → All Usable l
      → AreFarther x y d l
      → All (λ s. Contains s.info x y → ⊥) l
  none_Contains d [] u f = tt
  none_Contains d (s ∷ l) u f = ((inside-Contains s.info u.0.0).1 f.0.0, none_Contains d l u.1 f.1)

  none_nearer :
      (r : XcbScreen) (l : List XcbScreen)
      → Usable r
      → All Usable l
      → AreFarther x y (distance_to r.info x y) l
      → All
          (λ s. (p : ℤ × ℤ) → Touches s.info p → squared (x, y) (foot r.info) ≤ squared (x, y) p)
          l
  none_nearer r [] v u f = tt
  none_nearer r (s ∷ l) v u f = (
    λ p t.
        let far : pos (squared (x, y) (foot r.info)) ≤ℤ pos (squared (x, y) (foot s.info)) =
          subst (λ d. d ≤ℤ pos (squared (x, y) (foot s.info))) (distance_to-squared r.info v.0 v.1)
            (subst (λ d. distance_to r.info x y ≤ℤ d) (distance_to-squared s.info u.0.0 u.0.1)
              f.0.1) in
        omega (arith, far, foot-least s.info p t),
    none_nearer r l v u.1 f.1,
  )

  IsNearest-IsClosest :
      (l : List XcbScreen) (r : XcbScreen)
      → Usable r
      → All Usable l
      → IsNearest x y l r
      → IsClosest l x y r
  IsNearest-IsClosest l r v u (inl e) = inl ((inside-Contains r.info v.0).0 e)
  IsNearest-IsClosest l r v u (inr f) = inr (
    none_Contains (distance_to r.info x y) l u f,
    foot r.info,
    foot-Touches r.info v.0,
    none_nearer r l v u f,
  )

  first_below : (s : XcbScreen) → Usable s → distance_to s.info x y <ℤ int64_max
  first_below s (f, near) =
      subst (λ d. d <ℤ int64_max) (sym (distance_to-squared s.info f near))
        (omega (arith, foot-least s.info near.0 near.1, near.2))

  -- On at least one screen, all within `int32_t` and so near that no square leaves an `int64_t`:
  -- globalToScreen answers with the index of a screen of the list and the place of the pixel from
  -- its corner. Either that screen has the pixel; or no screen has it, and some point of that one,
  -- its far edges included, is as near as any point of any screen.
  pub global_to_screen-IsNearestPixel :
      (s : XcbScreen) (rest : List XcbScreen)
      → All (λ r. Fits r.info × IsNear (x, y) r.info) (s ∷ rest)
      → (r : XcbScreen) × IsIn x y r (s ∷ rest)
        × (global_to_screen (s ∷ rest) x y ≡ (r.index, sub32 x r.info.x, sub32 y r.info.y))
        × IsClosest (s ∷ rest) x y r
  unfolding global_to_screen
  global_to_screen-IsNearestPixel s rest u =
      let r = nearest (s ∷ rest) x y s int64_max in
      let is_in = first-IsIn x y s rest (nearest-IsIn x y (s ∷ rest) s int64_max) in
      (
        r,
        is_in,
        refl,
        IsNearest-IsClosest (s ∷ rest) r (Usable-at (s ∷ rest) is_in.0 r u is_in.1) u
            (nearest-IsNearest x y s rest (first_below s u.0)),
      )
