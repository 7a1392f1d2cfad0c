-- ===== src/Platform/Xcb/Monitors/Numbering.antt =====
-- src/platform/xcb.cpp: the enumeration numbers the screens by their places, so that a pixel of an
-- enumerated screen goes to the display and comes back.
use mksync.Prelude.{
  ℕ, zero, suc, ◌+◌, ◌==◌, ◌≡◌, refl, sym, subst, ℤ, IsInt32, true, not, ◌&&◌, List, [], ◌∷◌, ◌++◌,
  some, Result, ok, err, length, arith, Bool-cases, Option-cases, inl, inr, if_rule, String,
}
use mksync.Platform.Xcb.Screens.{XcbScreen, screen_at, is_inside, local_to_global, global_to_screen}
use mksync.Platform.Xcb.Screens.Pixels.{
  AreNumbered, Fits, OnScreen, global_to_screen-local_to_global,
}
use mksync.Platform.Xcb.Monitors.{
  Monitor, RootScreen, Source, screen_of_monitor, screens_of_monitors, has_monitors,
  enumerate_randr_monitors, screen_of_root, add_roots, enumerate_screens,
}

AreNumberedFrom : ℕ → List XcbScreen → Type 0
AreNumberedFrom n [] = Unit
AreNumberedFrom n (s ∷ l) = (s.index ≡ n) × AreNumberedFrom (suc n) l

append-AreNumberedFrom :
    (n : ℕ) (l : List XcbScreen) (s : XcbScreen)
    → AreNumberedFrom n l
    → s.index ≡ n + length l
    → AreNumberedFrom n (l ++ (s ∷ []))
unfolding AreNumberedFrom
append-AreNumberedFrom n [] s h e = (omega (arith, e), tt)
append-AreNumberedFrom n (t ∷ l) s h e =
    (h.0, append-AreNumberedFrom (suc n) l s h.1 (omega (arith, e)))

screens_of_monitors-AreNumberedFrom :
    (src : Source) (monitors : List Monitor) (screens : List XcbScreen)
    → AreNumberedFrom 0 screens
    → AreNumberedFrom 0 (screens_of_monitors src monitors screens)
unfolding screens_of_monitors screen_of_monitor
screens_of_monitors-AreNumberedFrom src [] screens h = h
screens_of_monitors-AreNumberedFrom src (m ∷ rest) screens h =
    screens_of_monitors-AreNumberedFrom src rest _ (
      if_rule (AreNumberedFrom 0) (not (m.width == 0) && not (m.height == 0))
        (screens ++ (screen_of_monitor src (length screens) m ∷ [])) screens
        (λ e.
          append-AreNumberedFrom 0 screens (screen_of_monitor src (length screens) m) h
            (omega arith))
        (λ e. h))

enumerate_randr_monitors-AreNumberedFrom :
    (src : Source) → AreNumberedFrom 0 (enumerate_randr_monitors src)
unfolding enumerate_randr_monitors AreNumberedFrom
enumerate_randr_monitors-AreNumberedFrom src = elim (Bool-cases src.randr.present) [
  | inr p ↦ rw p tt
  | inl p ↦ elim (Option-cases src.randr.version) [
    | inl v ↦ rw (p, v) tt
    | inr (v, q) ↦ elim (Bool-cases (has_monitors v)) [
      | inr h ↦ rw (p, q, h) tt
      | inl h ↦ elim (Option-cases src.randr.monitors) [
        | inl m ↦ rw (p, q, h, m) tt
        | inr (l, m) ↦ rw (p, q, h, m) (screens_of_monitors-AreNumberedFrom src l [] tt)
      ]
    ]
  ]
]

-- Once there is a screen, the loop over the root screens adds none.
add_roots_full :
    (src : Source) (roots : List RootScreen) (n : ℕ) (s : XcbScreen) (l : List XcbScreen)
    → add_roots src roots n (s ∷ l) ≡ s ∷ l
unfolding add_roots
add_roots_full src [] n s l = refl
add_roots_full src (r ∷ rest) n s l = refl

add_roots-AreNumberedFrom :
    (src : Source) (roots : List RootScreen) (screens : List XcbScreen)
    → AreNumberedFrom 0 screens
    → AreNumberedFrom 0 (add_roots src roots 0 screens)
unfolding add_roots AreNumberedFrom screen_of_root
add_roots-AreNumberedFrom src roots (s ∷ l) h =
    subst (AreNumberedFrom 0) (sym (add_roots_full src roots 0 s l)) h
add_roots-AreNumberedFrom src [] [] h = tt
add_roots-AreNumberedFrom src (r ∷ rest) [] h =
    subst (AreNumberedFrom 0) (sym (add_roots_full src rest 1 (screen_of_root src 0 r) []))
      (refl, tt)

at-AreNumberedFrom :
    (n : ℕ) (l : List XcbScreen) (i : ℕ) (s : XcbScreen)
    → AreNumberedFrom n l
    → screen_at l i ≡ some s
    → s.index ≡ n + i
unfolding AreNumberedFrom screen_at
at-AreNumberedFrom n [] i s h e = cc
at-AreNumberedFrom n (t ∷ l) zero s h e = ground (arith, h, e)
at-AreNumberedFrom n (t ∷ l) (suc i) s h e = omega (arith, at-AreNumberedFrom (suc n) l i s h.1 e)

-- The screens that the enumeration gives.
given :
    (src : Source) (screens : List XcbScreen)
    → enumerate_screens src ≡ ok screens
    → add_roots src src.roots 0 (enumerate_randr_monitors src) ≡ screens
unfolding enumerate_screens
given src screens e =
    elim (add_roots src src.roots 0 (enumerate_randr_monitors src))
        as (λ l.
          elim l as (λ _. Result String (List XcbScreen)) [
            | [] ↦ err "XCB display has no screens"
            | s ∷ rest ↦ ok (s ∷ rest)
          ]
            ≡ ok screens
          → l ≡ screens) [ [] ↦ λ e. cc | s ∷ rest ↦ λ e. cc ]
      e

enumerate_screens-AreNumbered :
    (src : Source) (screens : List XcbScreen)
    → enumerate_screens src ≡ ok screens
    → AreNumbered screens
enumerate_screens-AreNumbered src screens e i s at = omega (
  arith,
  at-AreNumberedFrom 0 screens i s
      (subst (AreNumberedFrom 0) (given src screens e) (
        add_roots-AreNumberedFrom src src.roots (enumerate_randr_monitors src)
          (enumerate_randr_monitors-AreNumberedFrom src)))
      at,
)

-- A pixel of an enumerated screen within `int32_t` goes to a pixel of the display, and if no other
-- screen has that one, comes back as the same pixel of the same screen.
pub global_to_screen-enumerated :
    (src : Source) (screens : List XcbScreen) (i : ℕ) (s : XcbScreen) (x y gx gy : ℤ)
    → enumerate_screens src ≡ ok screens
    → screen_at screens i ≡ some s
    → Fits s.info
    → OnScreen s.info x y
    → IsInt32 x
    → IsInt32 y
    → local_to_global screens i x y ≡ some (gx, gy)
    → ((j : ℕ) (r : XcbScreen)
        → screen_at screens j ≡ some r
        → is_inside r.info gx gy ≡ true
        → j ≡ i)
    → global_to_screen screens gx gy ≡ (i, x, y)
global_to_screen-enumerated src screens i s x y gx gy e =
    global_to_screen-local_to_global screens i s x y gx gy
      (enumerate_screens-AreNumbered src screens e)
