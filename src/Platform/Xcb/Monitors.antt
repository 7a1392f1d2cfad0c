-- ===== src/Platform/Xcb/Monitors.antt =====
-- src/platform/xcb.cpp, XcbPlatform: the enumeration of the screens, and the XInput2 version.
pub mod Numbering
use mksync.Prelude.{
  ℕ, zero, suc, ◌==◌, ltb, leb, ℤ, pos, String, Bool, true, false, not, ◌&&◌, ◌||◌, List, [], ◌∷◌,
  ◌++◌, Option, none, some, Result, ok, err, if◌then◌else◌, length,
}
use mksync.Core.Events.{ScreenInfo}
use mksync.Platform.Xcb.Screens.{XcbScreen}

-- A monitor of the RandR reply; `name` is the atom's name, if there is an atom and the server gives
-- a name that is not empty.
pub record Monitor : Type 0 where
  pub x : ℤ
  pub y : ℤ
  pub width : ℕ
  pub height : ℕ
  pub width_in_millimeters : ℕ
  pub name : Option String
  pub primary : Bool

-- A root screen of the connection's setup.
pub record RootScreen : Type 0 where
  pub root : ℕ
  pub width_in_pixels : ℕ
  pub height_in_pixels : ℕ
  pub width_in_millimeters : ℕ

-- What RandR answers: whether the extension is there, its version, and the monitors.
pub record Randr : Type 0 where
  pub present : Bool
  pub version : Option (ℕ × ℕ)
  pub monitors : Option (List Monitor)

-- What the platform reads of its connection, and library calls: `lround` makes a dpi of a width in
-- pixels and in millimetres, and `format` gives the texts `monitor-…` and `screen-…`.
pub record Source : Type 0 where
  pub default_screen : ℕ
  pub root : ℕ
  pub randr : Randr
  pub roots : List RootScreen
  pub lround_dpi : ℕ → ℕ → ℤ
  pub format_monitor : ℕ → String
  pub format_screen : ℕ → String

abbrev pub dpi_of : Source → ℕ → ℕ → ℤ
dpi_of src width width_mm = if ltb 0 width_mm then src.lround_dpi width width_mm else pos 72

abbrev pub monitor_name : Source → Option String → ℕ → String
monitor_name src none index = src.format_monitor index
monitor_name src (some name) index = name

unfoldable pub screen_of_monitor : Source → ℕ → Monitor → XcbScreen
screen_of_monitor src index m = record {
  index = index;
  x_screen_number = src.default_screen;
  root = src.root;
  info = record {
    x = m.x;
    y = m.y;
    width = pos m.width;
    height = pos m.height;
    dpi = dpi_of src m.width m.width_in_millimeters;
    name = monitor_name src m.name index;
    primary = m.primary;
  };
}

-- The loop over the monitors, with the screens found so far.
unfoldable pub screens_of_monitors : Source → List Monitor → List XcbScreen → List XcbScreen
unfolding screen_of_monitor
screens_of_monitors src [] screens = screens
screens_of_monitors src (m ∷ rest) screens = screens_of_monitors src rest (
    if not (m.width == 0) && not (m.height == 0)
    then screens ++ (screen_of_monitor src (length screens) m ∷ [])
    else screens)

-- The monitor interface came with RandR 1.5.
abbrev pub has_monitors : ℕ × ℕ → Bool
has_monitors (major, minor) = not (ltb major 1 || (major == 1 && ltb minor 5))

unfoldable pub enumerate_randr_monitors : Source → List XcbScreen
unfolding screens_of_monitors
enumerate_randr_monitors src = if not src.randr.present then [] else elim src.randr.version [
  | none ↦ []
  | some version ↦ if not (has_monitors version) then [] else elim src.randr.monitors [
    | none ↦ []
    | some monitors ↦ screens_of_monitors src monitors []
  ]
]

unfoldable pub screen_of_root : Source → ℕ → RootScreen → XcbScreen
screen_of_root src index r = record {
  index = index;
  x_screen_number = index;
  root = r.root;
  info = record {
    x = pos 0;
    y = pos 0;
    width = pos r.width_in_pixels;
    height = pos r.height_in_pixels;
    dpi = dpi_of src r.width_in_pixels r.width_in_millimeters;
    name = src.format_screen index;
    primary = index == src.default_screen;
  };
}

-- The loop over the root screens, which runs while there is no screen.
unfoldable pub add_roots : Source → List RootScreen → ℕ → List XcbScreen → List XcbScreen
unfolding screen_of_root
add_roots src [] index screens = screens
add_roots src (r ∷ rest) index (s ∷ screens) = s ∷ screens
add_roots src (r ∷ rest) index [] = add_roots src rest (suc index) (screen_of_root src index r ∷ [])

-- The error stands for the exception.
unfoldable pub enumerate_screens : Source → Result String (List XcbScreen)
unfolding enumerate_randr_monitors add_roots
enumerate_screens src = elim (add_roots src src.roots 0 (enumerate_randr_monitors src)) [
  | [] ↦ err "XCB display has no screens"
  | s ∷ rest ↦ ok (s ∷ rest)
]

-- `queryXInput`, from the extension's presence and version: whether XInput2 can be used, and
-- whether raw events come during a grab.
unfoldable pub query_xinput : Bool → Option (ℕ × ℕ) → Bool × Bool
query_xinput false version = (false, false)
query_xinput true none = (false, false)
query_xinput true (some (major, minor)) = (true, ltb 2 major || (major == 2 && leb 1 minor))
