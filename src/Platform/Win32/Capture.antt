-- ===== src/Platform/Win32/Capture.antt =====
-- src/platform/win32.cpp, Win32InputCapture: its state with that of the hooks, and the calls of its
-- interface.
pub mod Cursor
pub mod Calls
pub mod Loops
pub mod Holding
pub mod Kept
pub mod Seen
pub mod Runs
use mksync.Prelude.{ℕ, Bool, false, List, [], Option, none}
use mksync.Core.Events.{InputEvent}
use mksync.Platform.Win32.Desktop.{Point}

-- The handles `gKeyboardHook` and `gMouseHook`, whether `gInputCapture` is this capture, whether
-- there is a channel, the members of the capture, and the events that went into the channel, the
-- newest first. A point with its `mHas…` flag is an option.
pub record Capture : Type 0 where
  pub keyboard_hook : Option ℕ
  pub mouse_hook : Option ℕ
  pub is_current : Bool
  pub has_channel : Bool
  pub remote_control_active : Bool
  pub cursor_hidden : Bool
  pub remote_anchor : Option Point
  pub last_mouse_global : Option Point
  pub dropped_events : ℕ
  pub sent : List InputEvent

abbrev pub new_capture : Capture
new_capture = record {
  keyboard_hook = none;
  mouse_hook = none;
  is_current = false;
  has_channel = false;
  remote_control_active = false;
  cursor_hidden = false;
  remote_anchor = none;
  last_mouse_global = none;
  dropped_events = 0;
  sent = [];
}
