-- ===== src/Platform/Win32/Monitors.antt =====
-- src/platform/win32.cpp: Win32Monitor, and the screens of Win32Platform.
use mksync.Prelude.{
  ℕ, zero, suc, ◌==◌, ℤ, pos, wrap32, add32, sub32, Bool, true, false, not, String, List, [], ◌∷◌,
  map, Option, none, some, if◌then◌else◌,
}
use mksync.Core.Events.{ScreenInfo}
use mksync.Platform.Win32.Desktop.{Desktop, Point}

-- `RECT`.
pub record Rect : Type 0 where
  pub left : ℤ
  pub top : ℤ
  pub right : ℤ
  pub bottom : ℤ

-- What `GetMonitorInfoW` gives, with the name in UTF-8, and `GetDpiForMonitor`.
pub record MonitorInfo : Type 0 where
  pub rect : Rect
  pub primary : Bool
  pub name : String
  pub dpi : Option ℕ

pub record Win32Monitor : Type 0 where
  pub index : ℕ
  pub handle : ℕ
  pub rect : Rect
  pub screen : ScreenInfo

abbrev monitor_dpi : Option ℕ → ℤ
monitor_dpi none = pos 96
monitor_dpi (some dpi) = wrap32 (pos dpi)

unfoldable pub make_monitor : ℕ → ℕ → MonitorInfo → Win32Monitor
make_monitor handle index info = record {
  index = index;
  handle = handle;
  rect = info.rect;
  screen = record {
    x = info.rect.left;
    y = info.rect.top;
    width = sub32 info.rect.right info.rect.left;
    height = sub32 info.rect.bottom info.rect.top;
    dpi = monitor_dpi info.dpi;
    name = info.name;
    primary = info.primary;
  };
}

-- The callback of `EnumDisplayMonitors`, called with each monitor: its handle, and its information,
-- if there is any. It ends the enumeration where there is none.
unfoldable pub add_monitors : ℕ → List (ℕ × Option MonitorInfo) → Option (List Win32Monitor)
unfolding make_monitor
add_monitors index [] = some []
add_monitors index ((handle, none) ∷ rest) = none
add_monitors index ((handle, some info) ∷ rest) = elim (add_monitors (suc index) rest) [
  | none ↦ none
  | some monitors ↦ some (make_monitor handle index info ∷ monitors)
]

-- The monitors after an enumeration: those before, if it fails. `ok` is the answer of
-- `EnumDisplayMonitors` where every call of the callback returned TRUE.
unfoldable pub enumerate_monitors :
    Bool → List (ℕ × Option MonitorInfo) → List Win32Monitor → List Win32Monitor × Bool
unfolding add_monitors
enumerate_monitors ok displays old =
    if not ok
    then (old, false)
    else elim (add_monitors 0 displays) [ none ↦ (old, false) | some monitors ↦ (monitors, true) ]

unfoldable pub screens : List Win32Monitor → List ScreenInfo
screens monitors = map (λ m. m.screen) monitors

-- `mMonitorMapping` has the first monitor of each handle, since `emplace` keeps what is there.
unfoldable pub find_monitor : ℕ → List Win32Monitor → Option Win32Monitor
find_monitor handle [] = none
find_monitor handle (m ∷ rest) =
    let later = find_monitor handle rest in if handle == m.handle then some m else later

abbrev pub monitor_at : List Win32Monitor → ℕ → Option Win32Monitor
monitor_at [] i = none
monitor_at (m ∷ rest) zero = some m
monitor_at (m ∷ rest) (suc i) = monitor_at rest i

-- `none` where the code throws, for a monitor that is not in the mapping.
unfoldable pub global_to_monitor :
    {S : Type 0} → Desktop S → S → List Win32Monitor → Point → Option (ℕ × Point)
unfolding find_monitor
global_to_monitor w s monitors (x, y) =
    elim (find_monitor (w.monitor_from_point s (x, y)) monitors) [
      | none ↦ none
      | some m ↦ some (m.index, (sub32 x m.rect.left, sub32 y m.rect.top))
    ]

unfoldable pub local_to_global : List Win32Monitor → ℕ → Point → Option Point
local_to_global monitors i (x, y) = elim (monitor_at monitors i) [
  | none ↦ none
  | some m ↦ some (add32 m.rect.left x, add32 m.rect.top y)
]

-- A message to the platform's window: WM_DISPLAYCHANGE, with the enumeration that follows,
-- WM_PLATFORM_CALL, whose function is the caller's, or any other.
pub data WindowMessage : Type 0 where
  display_change : Bool → List (ℕ × Option MonitorInfo) → WindowMessage
  platform_call other_message : WindowMessage

-- The monitors after a message; `has_platform` tells whether the window has its platform already.
unfoldable pub message_proc : Bool → WindowMessage → List Win32Monitor → List Win32Monitor
unfolding enumerate_monitors
message_proc has_platform (display_change ok displays) monitors =
    if has_platform then (enumerate_monitors ok displays monitors).0 else monitors
message_proc has_platform platform_call monitors = monitors
message_proc has_platform other_message monitors = monitors
