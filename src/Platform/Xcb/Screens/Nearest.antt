-- ===== src/Platform/Xcb/Screens/Nearest.antt =====
-- src/platform/xcb.cpp, globalToScreen: a point outside all screens goes to the nearest one.
use mksync.Prelude.{
  ap, subst, sym, ltb_ℤ, ◌≤ℤ◌, ◌<ℤ◌, if_rule, ℕ, zero, suc, ◌≡◌, refl, ℤ, ◌⊎◌, inl, inr, Bool, true,
  false, List, [], ◌∷◌, some, if◌then◌else◌, arith, All,
}
use mksync.Platform.Xcb.Screens.{XcbScreen, is_inside, nearest, distance_to, screen_at, int64_max}

module _ (x y : ℤ) where
  -- No screen of a list has the point, and none is nearer than the bound.
  abbrev pub AreFarther : ℤ → List XcbScreen → Type 0
  AreFarther d = All (λ s. (is_inside s.info x y ≡ false) × (d ≤ℤ distance_to s.info x y))

  -- A screen has the point, or no screen of the list has it and none is nearer than this one.
  abbrev pub IsNearest : List XcbScreen → XcbScreen → Type 0
  IsNearest l r = (is_inside r.info x y ≡ true) ⊎ AreFarther (distance_to r.info x y) l

  -- What the loop gives: a screen that has the point; or the one that it started with, if none is
  -- nearer than the bound; or the nearest, which is below the bound.
  abbrev Loops : List XcbScreen → XcbScreen → ℤ → XcbScreen → Type 0
  Loops l best d r =
      (is_inside r.info x y ≡ true)
      ⊎ ((r ≡ best) × AreFarther d l)
      ⊎ ((distance_to r.info x y <ℤ d) × AreFarther (distance_to r.info x y) l)

  weaken : (d e : ℤ) (l : List XcbScreen) → e ≤ℤ d → AreFarther d l → AreFarther e l
  weaken d e [] h f = tt
  weaken d e (s ∷ l) h f = ((f.0.0, omega arith), weaken d e l h f.1)

  ltb-< : (m n : ℤ) → ltb_ℤ m n ≡ true → m <ℤ n
  ltb-< m n h = ground arith

  ltb-≤ : (m n : ℤ) → ltb_ℤ m n ≡ false → n ≤ℤ m
  ltb-≤ m n h = ground arith

  closer :
      (s : XcbScreen) (l : List XcbScreen) (d : ℤ) (best : XcbScreen) {r : XcbScreen}
      → is_inside s.info x y ≡ false
      → distance_to s.info x y <ℤ d
      → Loops l s (distance_to s.info x y) r
      → Loops (s ∷ l) best d r
  closer s l d best {r} e c h = elim h [
    | inl i ↦ inl i
    | inr (inl (q, f)) ↦ inr (
        inr (
          subst (λ z. (distance_to z.info x y <ℤ d) × AreFarther (distance_to z.info x y) (s ∷ l))
            (sym q) (c, ((e, omega arith), f))))
    | inr (inr (n, f)) ↦ inr (inr (omega arith, ((e, omega arith), f)))
  ]

  farther :
      (s : XcbScreen) (l : List XcbScreen) (d : ℤ) (best : XcbScreen) {r : XcbScreen}
      → is_inside s.info x y ≡ false
      → d ≤ℤ distance_to s.info x y
      → Loops l best d r
      → Loops (s ∷ l) best d r
  farther s l d best {r} e c h = elim h [
    | inl i ↦ inl i
    | inr (inl (q, f)) ↦ inr (inl (q, ((e, c), f)))
    | inr (inr (n, f)) ↦ inr (inr (n, ((e, omega arith), f)))
  ]

  stepped :
      (s : XcbScreen) (l : List XcbScreen) (best : XcbScreen) (d : ℤ) (c : Bool)
      → ltb_ℤ (distance_to s.info x y) d ≡ c
      → is_inside s.info x y ≡ false
      → ((best' : XcbScreen) (d' : ℤ) → Loops l best' d' (nearest l x y best' d'))
      → Loops
          (s ∷ l)
          best
          d
          (nearest l x y (if c then s else best) (if c then distance_to s.info x y else d))
  stepped s l best d true q e ih =
      closer s l d best e (ltb-< (distance_to s.info x y) d q) (ih s (distance_to s.info x y))
  stepped s l best d false q e ih =
      farther s l d best e (ltb-≤ (distance_to s.info x y) d q) (ih best d)

  nearest-Loops :
      (l : List XcbScreen) (best : XcbScreen) (d : ℤ) → Loops l best d (nearest l x y best d)
  unfolding nearest
  nearest-Loops [] best d = inr (inl (refl, tt))
  nearest-Loops (s ∷ l) best d =
      if_rule (Loops (s ∷ l) best d) (is_inside s.info x y) s
        (nearest l x y (if ltb_ℤ (distance_to s.info x y) d then s else best)
          (if ltb_ℤ (distance_to s.info x y) d then distance_to s.info x y else d))
        (λ e. inl e)
        (λ e. stepped s l best d (ltb_ℤ (distance_to s.info x y) d) refl e (nearest-Loops l))

  pub nearest-IsNearest :
      (s : XcbScreen) (rest : List XcbScreen)
      → distance_to s.info x y <ℤ int64_max
      → IsNearest (s ∷ rest) (nearest (s ∷ rest) x y s int64_max)
  nearest-IsNearest s rest h = elim (nearest-Loops (s ∷ rest) s int64_max) [
    | inl e ↦ inl e
    | inr (inl (q, f)) ↦ absurd (omega (arith, h, f.0.1))
    | inr (inr (c, f)) ↦ inr f
  ]

  abbrev pub IsIn : XcbScreen → List XcbScreen → Type 0
  IsIn r l = (k : ℕ) × (screen_at l k ≡ some r)

  taken :
      (s : XcbScreen) (l : List XcbScreen) (best : XcbScreen) (c : Bool) {r : XcbScreen}
      → (r ≡ (if c then s else best)) ⊎ IsIn r l
      → (r ≡ best) ⊎ IsIn r (s ∷ l)
  unfolding screen_at
  taken s l best true (inl q) = inr (zero, ap some (sym q))
  taken s l best false (inl q) = inl q
  taken s l best c (inr (k, q)) = inr (suc k, q)

  -- The loop takes a screen of the list, or the one that it started with.
  pub nearest-IsIn :
      (l : List XcbScreen) (best : XcbScreen) (d : ℤ)
      → (nearest l x y best d ≡ best) ⊎ IsIn (nearest l x y best d) l
  unfolding nearest screen_at
  nearest-IsIn [] best d = inl refl
  nearest-IsIn (s ∷ l) best d =
      if_rule (λ r. (r ≡ best) ⊎ IsIn r (s ∷ l)) (is_inside s.info x y) s
        (nearest l x y (if ltb_ℤ (distance_to s.info x y) d then s else best)
          (if ltb_ℤ (distance_to s.info x y) d then distance_to s.info x y else d))
        (λ e. inr (zero, refl))
        (λ e. taken s l best (ltb_ℤ (distance_to s.info x y) d) (
          nearest-IsIn l (if ltb_ℤ (distance_to s.info x y) d then s else best)
            (if ltb_ℤ (distance_to s.info x y) d then distance_to s.info x y else d)))

  pub first-IsIn :
      (s : XcbScreen) (rest : List XcbScreen) {r : XcbScreen}
      → (r ≡ s) ⊎ IsIn r (s ∷ rest)
      → IsIn r (s ∷ rest)
  unfolding screen_at
  first-IsIn s rest (inl q) = (zero, ap some (sym q))
  first-IsIn s rest (inr i) = i
