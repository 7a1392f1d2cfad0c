-- ===== src/Platform/Xcb/Capture.antt =====
-- src/platform/xcb.cpp, XcbInputCapture: its state, and the X server's answers, which are arguments of
-- the operations.
pub mod Resources
pub mod Grab
pub mod Calls
pub mod Holding
pub mod Runs
pub mod Release
use mksync.Prelude.{
  ℕ, zero, suc, ◌-◌, ◌==◌, ℤ, Bool, true, false, not, ◌&&◌, ◌||◌, List, [], ◌∷◌, Option, none, some,
  Result, ok, err, ◌>>◌, if◌then◌else◌, is_some,
}
use mksync.Platform.Xcb.Connection.{
  Errc, io_error, invalid_argument, not_connected, device_or_resource_busy, not_enough_memory,
  check,
}
use mksync.Platform.Xcb.Screens.{XcbScreen, local_to_global, coordinate_fits}

-- `XCB_GRAB_STATUS_…` of xproto.h, and any other number.
pub data GrabStatus : Type 0 where
  success already_grabbed invalid_time not_viewable frozen unknown : GrabStatus

-- What the X server holds for the connection: how many pixmaps and graphic contexts, which cursors
-- and windows, and whether it has granted the pointer and the keyboard.
pub record Held : Type 0 where
  pub pixmaps : ℕ
  pub gcs : ℕ
  pub cursors : List ℕ
  pub windows : List ℕ
  pub pointer : Bool
  pub keyboard : Bool

-- `mHiddenCursor` and `mGrabWindow` are `none` for XCB_NONE.
pub record Capture : Type 0 where
  pub connected : Bool
  pub has_key_symbols : Bool
  pub has_poller : Bool
  pub hidden_cursor : Option ℕ
  pub grab_window : Option ℕ
  pub remote_control_active : Bool
  pub pointer_grabbed : Bool
  pub keyboard_grabbed : Bool
  pub last_core_pointer : Option (ℤ × ℤ)
  pub held : Held

-- The answers to the calls of one operation: new ids, whether the server accepts a request, the
-- status of a grab (`none` if there is an error or no reply), where the pointer is, and `flush`.
pub record Answers : Type 0 where
  pub connects : Result Errc (Unit {0})
  pub selects : Result Errc (Unit {0})
  pub allocates_key_symbols : Bool
  pub makes_poller : Result Errc (Unit {0})
  pub cursor_id : ℕ
  pub window_id : ℕ
  pub creates_pixmap : Bool
  pub creates_gc : Bool
  pub fills : Bool
  pub creates_cursor : Bool
  pub creates_window : Bool
  pub maps_window : Bool
  pub grabs_pointer : Option GrabStatus
  pub grabs_keyboard : Option GrabStatus
  pub query_pointer : Option (ℤ × ℤ)
  pub warps : Bool
  pub flushes : Result Errc (Unit {0})
