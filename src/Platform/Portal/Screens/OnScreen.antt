-- ===== src/Platform/Portal/Screens/OnScreen.antt =====
-- src/platform/wayland_portal.cpp, PortalPlatform: where the points of a screen lie among all outputs.
use mksync.Prelude.{
  ℕ, ℤ, pos, ◌+ℤ◌, ◌-ℤ◌, ◌≤ℤ◌, ◌<ℤ◌, IsInt32, clamp, add32, sub32, List, some, ◌≡◌, refl, arith,
}
use mksync.Core.Events.{ScreenInfo}
use mksync.Platform.Portal.Screens.{screen_at, local_to_global}

-- A screen of a positive size whose ends are values of `int32_t`.
abbrev pub Fits : ScreenInfo → Type 0
Fits s =
    (IsInt32 s.x × IsInt32 s.width × (pos 0 <ℤ s.width) × IsInt32 (s.x +ℤ s.width))
    × (IsInt32 s.y × IsInt32 s.height × (pos 0 <ℤ s.height) × IsInt32 (s.y +ℤ s.height))

abbrev pub Between : ℤ → ℤ → ℤ → Type 0
Between o n a = (o ≤ℤ a) × (a <ℤ o +ℤ n)

last : (n : ℤ) → IsInt32 n → pos 0 <ℤ n → sub32 n (pos 1) ≡ n -ℤ pos 1
unfolding ◌-ℤ◌
last n h p = ground arith

clamped :
    (v n : ℤ)
    → pos 0 <ℤ n
    → (pos 0 ≤ℤ clamp v (pos 0) (n -ℤ pos 1)) × (clamp v (pos 0) (n -ℤ pos 1) <ℤ n)
unfolding ◌-ℤ◌
clamped v n p = ground arith

added : (o n a : ℤ) → IsInt32 o → IsInt32 (o +ℤ n) → pos 0 ≤ℤ a → a <ℤ n → Between o n (add32 o a)
unfolding ◌+ℤ◌
added o n a h k l u = ground arith

placed :
    (o n v : ℤ)
    → IsInt32 o
    → IsInt32 n
    → pos 0 <ℤ n
    → IsInt32 (o +ℤ n)
    → Between o n (add32 o (clamp v (pos 0) (sub32 n (pos 1))))
placed o n v h t p k =
    let (l, u) = clamped v n p in rw (last n t p) (added o n (clamp v (pos 0) (n -ℤ pos 1)) h k l u)

-- Whatever point is asked for on a screen of a positive size whose ends are values of int32_t, also
-- one outside: localToGlobal answers with a point of that screen.
local_to_global-IsOnScreen :
    (screens : List ScreenInfo) (i : ℕ) (s : ScreenInfo) (x y : ℤ)
    → screen_at screens i ≡ some s
    → Fits s
    → (gx : ℤ) × (gy : ℤ) × (local_to_global screens i x y ≡ some (gx, gy))
      × Between s.x s.width gx
      × Between s.y s.height gy
unfolding local_to_global
local_to_global-IsOnScreen screens i s x y h ((a, b, c, d), (a', b', c', d')) = (
  add32 s.x (clamp x (pos 0) (sub32 s.width (pos 1))),
  add32 s.y (clamp y (pos 0) (sub32 s.height (pos 1))),
  rw (h, local_to_global) refl,
  placed s.x s.width x a b c d,
  placed s.y s.height y a' b' c' d',
)
