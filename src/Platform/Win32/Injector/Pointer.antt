-- ===== src/Platform/Win32/Injector/Pointer.antt =====
-- src/platform/win32.cpp: a position of the pointer that is injected, as a capture on the same
-- monitors sees it.
use mksync.Prelude.{
  ℕ, zero, suc, ◌+◌, ==_iff, ℤ, pos, ◌+ℤ◌, ◌-ℤ◌, ◌≤ℤ◌, ◌<ℤ◌, IsInt32, add32, sub32, ◌≡◌, refl, sym,
  ap, ◌∙◌, true, false, List, [], ◌∷◌, Option, none, some, Option-cases, inl, inr, arith,
}
use mksync.Core.Events.{InputEvent}
use mksync.Platform.Xcb.Injector.Pointer.{position_of}
use mksync.Platform.Win32.Desktop.{Desktop, Point, no_error}
use mksync.Platform.Win32.Monitors.{
  Rect, MonitorInfo, Win32Monitor, make_monitor, add_monitors, enumerate_monitors, find_monitor,
  monitor_at, global_to_monitor, local_to_global,
}
use mksync.Platform.Win32.Capture.{Capture}
use mksync.Platform.Win32.Hooks.{
  MouseInfo, mouse_move, translate_mouse_event, translate_on_monitor, translate_mouse_move,
}
use mksync.Platform.Win32.Injector.{move_cursor}

abbrev after : Win32Monitor → Option (List Win32Monitor) → Option (List Win32Monitor)
after m none = none
after m (some ms) = some (m ∷ ms)

add_monitors-cons :
    (k handle : ℕ) (info : MonitorInfo) (rest : List (ℕ × Option MonitorInfo))
    → add_monitors k ((handle, some info) ∷ rest)
      ≡ after (make_monitor handle k info) (add_monitors (suc k) rest)
unfolding add_monitors
add_monitors-cons k handle info rest = elim (Option-cases (add_monitors (suc k) rest)) [
  | inl e ↦ rw (e, add_monitors) refl
  | inr (ms, e) ↦ rw (e, add_monitors) refl
]

index_in :
    (k i : ℕ) (first m : Win32Monitor) (o : Option (List Win32Monitor)) (ms : List Win32Monitor)
    → ((ms' : List Win32Monitor) (j : ℕ) (r : Win32Monitor)
        → o ≡ some ms'
        → monitor_at ms' j ≡ some r
        → r.index ≡ suc k + j)
    → first.index ≡ k
    → after first o ≡ some ms
    → monitor_at ms i ≡ some m
    → m.index ≡ k + i
index_in k i first m none ms ih e₀ e h = cc
index_in k i first m (some ms') [] ih e₀ e h = cc
index_in k zero first m (some ms') (m' ∷ rest) ih e₀ e h = ground (arith)
index_in k (suc i) first m (some ms') (m' ∷ rest) ih e₀ e h =
    let same : some ms' ≡ some rest = cc in omega (arith, ih rest i m same h)

-- The monitors of an enumeration are numbered in their order.
index_of :
    (k : ℕ) (displays : List (ℕ × Option MonitorInfo)) (ms : List Win32Monitor) (i : ℕ)
    (m : Win32Monitor)
    → add_monitors k displays ≡ some ms
    → monitor_at ms i ≡ some m
    → m.index ≡ k + i
unfolding add_monitors make_monitor
index_of k [] [] i m e h = cc
index_of k [] (m' ∷ ms) i m e h = cc
index_of k ((handle, none) ∷ rest) ms i m e h = cc
index_of k ((handle, some info) ∷ rest) ms i m e h =
    index_in k i (make_monitor handle k info) m (add_monitors (suc k) rest) ms
      (index_of (suc k) rest) refl (sym (add_monitors-cons k handle info rest) ∙ e) h

-- Among monitors of different handles a handle finds its monitor.
find_unique :
    (ms : List Win32Monitor) (i : ℕ) (m : Win32Monitor)
    → monitor_at ms i ≡ some m
    → ((j : ℕ) (r : Win32Monitor) → monitor_at ms j ≡ some r → r.handle ≡ m.handle → j ≡ i)
    → find_monitor m.handle ms ≡ some m
unfolding find_monitor
find_unique [] i m h only = cc
find_unique (m' ∷ ms) zero m h only =
    let same : m' ≡ m = cc in ground (arith, same, ==_iff m.handle m'.handle)
find_unique (m' ∷ ms) (suc i) m h only =
    let later = find_unique ms i m h (λ j r a b. omega (arith, only (suc j) r a b)) in
    ground (arith, later, only zero m' refl, ==_iff m.handle m'.handle)

-- On a coordinate: to the display and back.
back :
    (left right x : ℤ)
    → IsInt32 left
    → IsInt32 right
    → IsInt32 x
    → pos 0 ≤ℤ x
    → left +ℤ x <ℤ right
    → sub32 (add32 left x) left ≡ x
unfolding ◌+ℤ◌ ◌-ℤ◌
back left right x l r t h k = ground arith

abbrev pub event_of : Option (Capture × Option InputEvent) → Option InputEvent
event_of none = none
event_of (some (c, event)) = event

abbrev pub position : Option InputEvent → Option (ℕ × ℤ × ℤ)
position none = none
position (some event) = position_of event

-- The values of a rectangle's sides, and a pixel of it.
abbrev pub Fits : Rect → Type 0
Fits r = IsInt32 r.left × IsInt32 r.top × IsInt32 r.right × IsInt32 r.bottom

abbrev pub IsPixel : Rect → ℤ → ℤ → Type 0
IsPixel r x y = (pos 0 ≤ℤ x) × (r.left +ℤ x <ℤ r.right) × (pos 0 ≤ℤ y) × (r.top +ℤ y <ℤ r.bottom)

captured_motion :
    (c : Capture) (i : ℕ) (x y : ℤ) (info : MouseInfo)
    → c.remote_control_active ≡ false
    → position ((translate_on_monitor c mouse_move info (i, (x, y))).1) ≡ some (i, x, y)
unfolding translate_on_monitor translate_mouse_move
captured_motion c i x y info e = rw (e, translate_mouse_move) refl

enumerated :
    (displays : List (ℕ × Option MonitorInfo)) (monitors : List Win32Monitor)
    → enumerate_monitors true displays [] ≡ (monitors, true)
    → add_monitors 0 displays ≡ some monitors
unfolding enumerate_monitors
enumerated displays monitors e = ground arith

captured_at :
    {S : Type 0} (w : Desktop S) (monitors : List Win32Monitor) (i : ℕ) (m : Win32Monitor) (x y : ℤ)
    (s : S) (gx gy : ℤ)
    → w.monitor_from_point s (gx, gy) ≡ m.handle
    → find_monitor m.handle monitors ≡ some m
    → m.index ≡ i
    → sub32 gx m.rect.left ≡ x
    → sub32 gy m.rect.top ≡ y
    → global_to_monitor w s monitors (gx, gy) ≡ some (i, (x, y))
unfolding global_to_monitor
captured_at w monitors i m x y s gx gy found unique number ex ey =
    let here : find_monitor (w.monitor_from_point s (gx, gy)) monitors ≡ some m = rw found unique in
    rw (here, global_to_monitor) (ap some (λ k. (number k, (ex k, ey k))))

moved :
    {S : Type 0} (w : Desktop S) (monitors : List Win32Monitor) (i : ℕ) (m : Win32Monitor) (x y : ℤ)
    (s : S) (p : Point)
    → monitor_at monitors i ≡ some m
    → p ≡ (add32 m.rect.left x, add32 m.rect.top y)
    → (w.set_cursor_pos p s).1 ≡ true
    → move_cursor w monitors i (x, y) s ≡ ((w.set_cursor_pos p s).0, no_error)
unfolding move_cursor
moved w monitors i m x y s p h at sets = rw (placed, move_cursor, sets) refl
  where
    placed : local_to_global monitors i (x, y) ≡ some p
    placed = unfold local_to_global in rw (h, local_to_global, at) refl

-- On enumerated monitors with different handles, for a pixel of a monitor whose sides are values of
-- `int32_t`: if Windows sets the cursor, and finds this monitor where the cursor then is, the
-- injected move sets the cursor to one point, without an error, and a capture without remote control
-- that sees the mouse there gives the same screen and pixel.
pub position-move_cursor :
    {S : Type 0} (w : Desktop S) (displays : List (ℕ × Option MonitorInfo))
    (monitors : List Win32Monitor) (i : ℕ) (m : Win32Monitor) (x y : ℤ) (s : S) (c : Capture)
    (info : MouseInfo)
    → enumerate_monitors true displays [] ≡ (monitors, true)
    → monitor_at monitors i ≡ some m
    → ((j : ℕ) (r : Win32Monitor) → monitor_at monitors j ≡ some r → r.handle ≡ m.handle → j ≡ i)
    → Fits m.rect
    → IsPixel m.rect x y
    → IsInt32 x
    → IsInt32 y
    → info.pt ≡ (add32 m.rect.left x, add32 m.rect.top y)
    → (w.set_cursor_pos info.pt s).1 ≡ true
    → w.monitor_from_point ((w.set_cursor_pos info.pt s).0) info.pt ≡ m.handle
    → c.remote_control_active ≡ false
    → (move_cursor w monitors i (x, y) s ≡ ((w.set_cursor_pos info.pt s).0, no_error))
      × (position (
            event_of
              (translate_mouse_event w monitors c ((w.set_cursor_pos info.pt s).0) mouse_move info))
          ≡ some (i, x, y))
unfolding move_cursor local_to_global translate_mouse_event
position-move_cursor w displays monitors i m x y s c info e h only (l, t, r, b) (x₀, x₁, y₀, y₁) tx
      ty at sets found free =
    let s' = (w.set_cursor_pos info.pt s).0 in
    let number = index_of 0 displays monitors i m (enumerated displays monitors e) h in
    let seen =
      captured_at w monitors i m x y s' info.pt.0 info.pt.1 found (find_unique monitors i m h only)
        (omega (arith, number)) (rw at (back m.rect.left m.rect.right x l r tx x₀ x₁))
        (rw at (back m.rect.top m.rect.bottom y t b ty y₀ y₁)) in
    (
      moved w monitors i m x y s info.pt h at sets,
      rw (translate_mouse_event, seen) (captured_motion c i x y info free),
    )
