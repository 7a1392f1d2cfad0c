-- ===== src/Platform/Wayland/Position/Placed.antt =====
-- src/platform/wayland.cpp, absolutePosition: the place of a pixel among all screens.
use mksync.Prelude.{
  subst, sym, Bool-cases, ◌⊎◌, inl, inr, ◌∙◌, ℕ, zero, suc, ◌<◌, ◌≡◌, refl, ℤ, pos, negsuc,
  pos_part, neg_part, ◌+ℤ◌, ◌-ℤ◌, ◌≤ℤ◌, ◌<ℤ◌, ltb_ℤ, clamp, max_ℤ, sub32, IsInt32, wrap32_self,
  +ℤ_parts, -ℤ_parts, eq_of_parts, List, [], ◌∷◌, some, arith, All,
}
use mksync.Core.Events.{ScreenInfo}
use mksync.Platform.Xcb.Screens.Pixels.{Fits, OnScreen}
use mksync.Platform.Wayland.Position.{
  AbsolutePosition, Extent, no_extent, min_ℤ, grow, extent, screen_of, axis_position,
  absolute_position,
}

-- The extent within `int32_t`.
IsSmall : Extent → Type 0
IsSmall e =
    (negsuc 2147483647 ≤ℤ e.min_x)
    × (e.max_x ≤ℤ pos 2147483647)
    × (negsuc 2147483647 ≤ℤ e.min_y)
    × (e.max_y ≤ℤ pos 2147483647)

extent-IsSmall : (l : List ScreenInfo) (e : Extent) → All Fits l → IsSmall e → IsSmall (extent l e)
unfolding extent IsSmall
extent-IsSmall [] e f h = h
extent-IsSmall (s ∷ l) e f h =
    extent-IsSmall l (grow e s) f.1 (ground arith, ground arith, ground arith, ground arith)

-- The extent has all of another one, and of a screen.
Covers : Extent → Extent → Type 0
Covers e f =
    (f.min_x ≤ℤ e.min_x) × (e.max_x ≤ℤ f.max_x) × (f.min_y ≤ℤ e.min_y) × (e.max_y ≤ℤ f.max_y)

extent-Covers : (l : List ScreenInfo) (e : Extent) → Covers e (extent l e)
unfolding extent Covers
extent-Covers [] e = (omega arith, omega arith, omega arith, omega arith)
extent-Covers (s ∷ l) e =
    let (a, b, c, d) = extent-Covers l (grow e s) in
    (ground (arith, a), ground (arith, b), ground (arith, c), ground (arith, d))

Has : Extent → ScreenInfo → Type 0
Has f s =
    (f.min_x ≤ℤ s.x) × (s.x +ℤ s.width ≤ℤ f.max_x) × (f.min_y ≤ℤ s.y) × (s.y +ℤ s.height ≤ℤ f.max_y)

extent-Has :
    (l : List ScreenInfo) (e : Extent) (i : ℕ) (s : ScreenInfo)
    → screen_of l i ≡ some s
    → Has (extent l e) s
unfolding extent Has screen_of Covers
extent-Has [] e i s h = cc
extent-Has (r ∷ l) e zero s h =
    let (a, b, c, d) = extent-Covers l (grow e r) in
    let same : r ≡ s = cc h in
    subst (Has (extent l (grow e r))) same
      (ground (arith, a), ground (arith, b), ground (arith, c), ground (arith, d))
extent-Has (r ∷ l) e (suc i) s h = extent-Has l (grow e r) i s h

clamp_within : (v low high : ℤ) → low ≤ℤ v → v ≤ℤ high → clamp v low high ≡ v
clamp_within v low high a b = ground arith

neg_none : (v : ℤ) → pos 0 ≤ℤ v → neg_part v ≡ 0
neg_none v h = ground arith

max_within : (a b : ℤ) → a ≤ℤ b → max_ℤ a b ≡ b
max_within a b h = ground (arith, h, eq_of_parts a b)

-- A coordinate of a screen keeps its distance from the start of the extent.
axis :
    (low high start size coordinate : ℤ)
    → negsuc 2147483647 ≤ℤ low
    → high ≤ℤ pos 2147483647
    → low ≤ℤ start
    → start +ℤ size ≤ℤ high
    → IsInt32 size
    → pos 0 ≤ℤ coordinate
    → coordinate <ℤ size
    → (pos ((axis_position low high start size coordinate).0) +ℤ low ≡ start +ℤ coordinate)
      × (pos ((axis_position low high start size coordinate).1) ≡ high -ℤ low)
      × ((axis_position low high start size coordinate).0
          < (axis_position low high start size coordinate).1)
unfolding axis_position
axis low high start size coordinate l h a b t c d =
    let less : sub32 size (pos 1) ≡ size -ℤ pos 1 =
      wrap32_self (size -ℤ pos 1) (omega (arith, -ℤ_parts size (pos 1), t, c, d)) in
    let last : max_ℤ (pos 0) (size -ℤ pos 1) ≡ size -ℤ pos 1 =
      max_within (pos 0) (size -ℤ pos 1) (omega (arith, -ℤ_parts size (pos 1), c, d)) in
    let local : clamp coordinate (pos 0) (size -ℤ pos 1) ≡ coordinate =
      clamp_within coordinate (pos 0) (size -ℤ pos 1) c (omega (arith, -ℤ_parts size (pos 1), d)) in
    let length : clamp (high -ℤ low) (pos 1) (pos 4294967295) ≡ high -ℤ low =
      clamp_within (high -ℤ low) (pos 1) (pos 4294967295)
        (omega (arith, -ℤ_parts high low, +ℤ_parts start size, a, b, c, d))
        (omega (arith, -ℤ_parts high low, l, h)) in
    let low_enough : pos 0 ≤ℤ start +ℤ coordinate -ℤ low =
      omega (arith, -ℤ_parts (start +ℤ coordinate) low, +ℤ_parts start coordinate, b, c) in
    let inside : start +ℤ coordinate -ℤ low <ℤ high -ℤ low = omega (
      arith,
      -ℤ_parts (start +ℤ coordinate) low,
      +ℤ_parts start coordinate,
      -ℤ_parts high low,
      +ℤ_parts start size,
      a,
      d,
    ) in
    let place : clamp (start +ℤ coordinate -ℤ low) (pos 0) (high -ℤ low -ℤ pos 1)
        ≡ start +ℤ coordinate -ℤ low =
      clamp_within (start +ℤ coordinate -ℤ low) (pos 0) (high -ℤ low -ℤ pos 1) low_enough
        (omega (arith, inside, -ℤ_parts (high -ℤ low) (pos 1))) in
    rw (less, last, local, length, place)
      (
        eq_of_parts _ _ (
            omega (
              arith,
              +ℤ_parts (pos (pos_part (start +ℤ coordinate -ℤ low))) low,
              -ℤ_parts (start +ℤ coordinate) low,
              neg_none (start +ℤ coordinate -ℤ low) low_enough,
            )),
        eq_of_parts _ _ (omega (arith, neg_none (high -ℤ low) (omega (arith, low_enough, inside)))),
        omega (arith, inside, neg_none (start +ℤ coordinate -ℤ low) low_enough),
      )

-- Some screen of the list.
abbrev pub Some : (ScreenInfo → Type 0) → List ScreenInfo → Type 0
Some P [] = ⊥
Some P (s ∷ l) = P s ⊎ Some P l

-- The least place that bounds all screens along each axis: no screen reaches out of it, and each of
-- its sides has one of a screen.
pub record Bounds (left top right bottom : ℤ) (l : List ScreenInfo) : Type 0 where
  pub within :
      All
        (λ s.
          (left ≤ℤ s.x) × (s.x +ℤ s.width ≤ℤ right) × (top ≤ℤ s.y) × (s.y +ℤ s.height ≤ℤ bottom))
        l
  pub at_left : Some (λ s. s.x ≡ left) l
  pub at_top : Some (λ s. s.y ≡ top) l
  pub at_right : Some (λ s. s.x +ℤ s.width ≡ right) l
  pub at_bottom : Some (λ s. s.y +ℤ s.height ≡ bottom) l

extent-All : (l : List ScreenInfo) (e : Extent) → All (Has (extent l e)) l
unfolding extent Has Covers
extent-All [] e = tt
extent-All (s ∷ l) e =
    let (a, b, c, d) = extent-Covers l (grow e s) in
    (
      (ground (arith, a), ground (arith, b), ground (arith, c), ground (arith, d)),
      extent-All l (grow e s),
    )

-- A side of the extent is where the loop started, or is one of a screen.
min-cases : (a b : ℤ) → (min_ℤ a b ≡ a) ⊎ (b ≡ min_ℤ a b)
min-cases a b = elim (Bool-cases (ltb_ℤ b a)) [ inl e ↦ inr (rw e refl) | inr e ↦ inl (rw e refl) ]

max-cases : (a b : ℤ) → (max_ℤ a b ≡ a) ⊎ (b ≡ max_ℤ a b)
max-cases a b = elim (Bool-cases (ltb_ℤ a b)) [ inl e ↦ inr (rw e refl) | inr e ↦ inl (rw e refl) ]

-- A side that grows with each screen ends where it began, or at a screen.
side :
    (part : Extent → ℤ) (of : ScreenInfo → ℤ)
    → ((e : Extent) (s : ScreenInfo) → (part (grow e s) ≡ part e) ⊎ (of s ≡ part (grow e s)))
    → (l : List ScreenInfo) (e : Extent)
    → (part (extent l e) ≡ part e) ⊎ Some (λ s. of s ≡ part (extent l e)) l
unfolding extent
side part of step [] e = inl refl
side part of step (s ∷ l) e = elim (side part of step l (grow e s)) [
  | inr later ↦ inr (inr later)
  | inl same ↦ elim (step e s) [
    | inl kept ↦ inl (same ∙ kept)
    | inr here ↦ inr (inl (here ∙ sym same))
  ]
]

Some-screen_of :
    (P : ScreenInfo → Type 0) (l : List ScreenInfo) (i : ℕ) (s : ScreenInfo)
    → screen_of l i ≡ some s
    → P s
    → Some P l
unfolding screen_of
Some-screen_of P [] i s h p = absurd (cc h)
Some-screen_of P (r ∷ l) zero s h p = let same : s ≡ r = cc h in inl (subst P same p)
Some-screen_of P (r ∷ l) (suc i) s h p = inr (Some-screen_of P l i s h p)

Fits-screen_of :
    (l : List ScreenInfo) (i : ℕ) (s : ScreenInfo) → All Fits l → screen_of l i ≡ some s → Fits s
unfolding screen_of
Fits-screen_of [] i s f h = absurd (cc h)
Fits-screen_of (r ∷ l) zero s f h = let same : r ≡ s = cc h in subst Fits same f.0
Fits-screen_of (r ∷ l) (suc i) s f h = Fits-screen_of l i s f.1 h

-- With a pixel of some screen, the extent is the least place that has all screens.
extent-Bounds :
    (l : List ScreenInfo) (i : ℕ) (s : ScreenInfo) (x y : ℤ)
    → All Fits l
    → screen_of l i ≡ some s
    → OnScreen s x y
    → Bounds
        (extent l no_extent).min_x
        (extent l no_extent).min_y
        (extent l no_extent).max_x
        (extent l no_extent).max_y
        l
unfolding Has
extent-Bounds l i s x y fits at (x0, x1, y0, y1) =
    let e = extent l no_extent in
    let (ax, bx, ay, by) = extent-Has l no_extent i s at in
    let (fx, fy, w, h, tx, ty) = Fits-screen_of l i s fits at in
    let start_x = λ (start : e.min_x ≡ pos 2147483647). subst (λ m. m ≤ℤ s.x) start ax in
    let start_y = λ (start : e.min_y ≡ pos 2147483647). subst (λ m. m ≤ℤ s.y) start ay in
    record {
      within = extent-All l no_extent;
      at_left = elim (side (λ e. e.min_x) (λ s. s.x) (λ e s. min-cases e.min_x s.x) l no_extent) [
        | inr there ↦ there
        | inl start ↦
            Some-screen_of (λ s. s.x ≡ e.min_x) l i s at
              (eq_of_parts s.x (pos 2147483647) (omega (arith, start_x start, fx)) ∙ sym start)
      ];
      at_top = elim (side (λ e. e.min_y) (λ s. s.y) (λ e s. min-cases e.min_y s.y) l no_extent) [
        | inr there ↦ there
        | inl start ↦
            Some-screen_of (λ s. s.y ≡ e.min_y) l i s at
              (eq_of_parts s.y (pos 2147483647) (omega (arith, start_y start, fy)) ∙ sym start)
      ];
      at_right =
          elim (side (λ e. e.max_x) (λ s. s.x +ℤ s.width)
            (λ e s. max-cases e.max_x (s.x +ℤ s.width)) l no_extent) [
              | inr there ↦ there
              | inl start ↦ absurd (
                  omega (
                    arith,
                    subst (λ m. s.x +ℤ s.width ≤ℤ m) start bx,
                    fx,
                    x0,
                    x1,
                    +ℤ_parts s.x s.width,
                  ))
            ];
      at_bottom =
          elim (side (λ e. e.max_y) (λ s. s.y +ℤ s.height)
            (λ e s. max-cases e.max_y (s.y +ℤ s.height)) l no_extent) [
              | inr there ↦ there
              | inl start ↦ absurd (
                  omega (
                    arith,
                    subst (λ m. s.y +ℤ s.height ≤ℤ m) start by,
                    fy,
                    y0,
                    y1,
                    +ℤ_parts s.y s.height,
                  ))
            ];
    }

-- If all screens lie within `int32_t`, absolutePosition of a pixel of a screen gives its distance
-- from the left and the top of the least rectangle that has all screens, and the width and the height
-- of that rectangle, which the distances are less than.
pub absolute_position-IsPlaced :
    (screens : List ScreenInfo) (i : ℕ) (s : ScreenInfo) (x y : ℤ)
    → All Fits screens
    → screen_of screens i ≡ some s
    → IsInt32 s.width
    → IsInt32 s.height
    → OnScreen s x y
    → (p : AbsolutePosition) × (left : ℤ) × (top : ℤ) × (right : ℤ) × (bottom : ℤ)
      × (absolute_position screens i x y ≡ some p)
      × Bounds left top right bottom screens
      × (pos p.x +ℤ left ≡ s.x +ℤ x)
      × (pos p.y +ℤ top ≡ s.y +ℤ y)
      × (pos p.width ≡ right -ℤ left)
      × (pos p.height ≡ bottom -ℤ top)
      × (p.x < p.width)
      × (p.y < p.height)
unfolding absolute_position IsSmall Has
absolute_position-IsPlaced screens i s x y fits at tw th (x0, x1, y0, y1) =
    let e = extent screens no_extent in
    let (lx, hx, ly, hy) =
      extent-IsSmall screens no_extent fits (omega arith, omega arith, omega arith, omega arith) in
    let (ax, bx, ay, by) = extent-Has screens no_extent i s at in
    let (px, wx, qx) = axis e.min_x e.max_x s.x s.width x lx hx ax bx tw x0 x1 in
    let (py, wy, qy) = axis e.min_y e.max_y s.y s.height y ly hy ay by th y0 y1 in
    (
      record {
        x = (axis_position e.min_x e.max_x s.x s.width x).0;
        y = (axis_position e.min_y e.max_y s.y s.height y).0;
        width = (axis_position e.min_x e.max_x s.x s.width x).1;
        height = (axis_position e.min_y e.max_y s.y s.height y).1;
      },
      e.min_x,
      e.min_y,
      e.max_x,
      e.max_y,
      rw (absolute_position, at) refl,
      extent-Bounds screens i s x y fits at (x0, x1, y0, y1),
      px,
      py,
      wx,
      wy,
      qx,
      qy,
    )
