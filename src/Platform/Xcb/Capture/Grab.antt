-- ===== src/Platform/Xcb/Capture/Grab.antt =====
-- src/platform/xcb.cpp, XcbInputCapture: the grab of pointer and keyboard while a remote screen is
-- controlled, and its release.
use mksync.Prelude.{ℕ, Bool, true, false, Option, none, some, Result, ok, err, if◌then◌else◌}
use mksync.Platform.Xcb.Connection.{Errc, io_error, invalid_argument, device_or_resource_busy}
use mksync.Platform.Xcb.Capture.{
  GrabStatus, Capture, Answers, success, already_grabbed, invalid_time, not_viewable, frozen,
  unknown,
}
use mksync.Platform.Xcb.Capture.Resources.{
  ensure_hidden_cursor, destroy_grab_window, ensure_grab_window,
}

unfoldable pub ungrab_keyboard : Capture → Capture
ungrab_keyboard c =
    if c.keyboard_grabbed
    then record c { keyboard_grabbed = false; held = record c.held { keyboard = false } }
    else c

unfoldable pub ungrab_pointer : Capture → Capture
ungrab_pointer c =
    if c.pointer_grabbed
    then record c { pointer_grabbed = false; held = record c.held { pointer = false } }
    else c

-- The last `flush` is ignored.
unfoldable pub release_remote_control : Capture → Capture
unfolding destroy_grab_window ungrab_keyboard ungrab_pointer
release_remote_control c =
    let released = destroy_grab_window (ungrab_pointer (ungrab_keyboard c)) in
    if c.connected
    then record released { last_core_pointer = none; remote_control_active = false }
    else c

unfoldable pub is_success : Option GrabStatus → Bool
is_success (some success) = true
is_success (some already_grabbed) = false
is_success (some invalid_time) = false
is_success (some not_viewable) = false
is_success (some frozen) = false
is_success (some unknown) = false
is_success none = false

unfoldable pub grab_status_error : GrabStatus → Errc
grab_status_error already_grabbed = device_or_resource_busy
grab_status_error frozen = device_or_resource_busy
grab_status_error invalid_time = invalid_argument
grab_status_error not_viewable = invalid_argument
grab_status_error success = io_error
grab_status_error unknown = io_error

-- The pointer has been grabbed: the keyboard is asked for, and the grab goes on without it.
unfoldable pub grab_keyboard : Answers → Capture → Capture
unfolding is_success
grab_keyboard a c =
    if is_success a.grabs_keyboard
    then record c { keyboard_grabbed = true; held = record c.held { keyboard = true } }
    else c

unfoldable pub take_keyboard : Answers → Capture → Capture × Result Errc (Unit {0})
unfolding grab_keyboard release_remote_control
take_keyboard a c =
    let active = record (grab_keyboard a c) {
      remote_control_active = true;
      last_core_pointer = a.query_pointer;
    } in
    elim a.flushes [ ok u ↦ (active, ok tt) | err e ↦ (release_remote_control active, err e) ]

unfoldable pub grab : Answers → Capture → Capture × Result Errc (Unit {0})
unfolding destroy_grab_window grab_status_error take_keyboard is_success
grab a c = elim a.grabs_pointer [
  | none ↦ (destroy_grab_window c, err io_error)
  | some status ↦
      if is_success (some status)
      then take_keyboard a
          (record c { pointer_grabbed = true; held = record c.held { pointer = true } })
      else (destroy_grab_window c, err (grab_status_error status))
]

unfoldable pub with_window : Answers → Capture × Result Errc ℕ → Capture × Result Errc (Unit {0})
unfolding grab
with_window a (c, err e) = (c, err e)
with_window a (c, ok window) = grab a c

unfoldable pub with_cursor : Answers → Capture × Result Errc ℕ → Capture × Result Errc (Unit {0})
unfolding ensure_grab_window with_window
with_cursor a (c, err e) = (c, err e)
with_cursor a (c, ok cursor) = with_window a (ensure_grab_window a c)

unfoldable pub acquire_remote_control : Answers → Capture → Capture × Result Errc (Unit {0})
unfolding ensure_hidden_cursor with_cursor
acquire_remote_control a c = with_cursor a (ensure_hidden_cursor a c)
