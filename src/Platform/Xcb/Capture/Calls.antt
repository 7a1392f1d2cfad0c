-- ===== src/Platform/Xcb/Capture/Calls.antt =====
-- src/platform/xcb.cpp, XcbInputCapture: the calls of the interface, but for `nextEvent`.
use mksync.Prelude.{
  ℕ, ℤ, Bool, true, false, not, ◌&&◌, List, none, some, Result, ok, err, if◌then◌else◌,
}
use mksync.Platform.Xcb.Connection.{Errc, invalid_argument, not_connected, not_enough_memory, check}
use mksync.Platform.Xcb.Screens.{XcbScreen, local_to_global, coordinate_fits}
use mksync.Platform.Xcb.Capture.{Capture, Answers}
use mksync.Platform.Xcb.Capture.Resources.{free_hidden_cursor}
use mksync.Platform.Xcb.Capture.Grab.{release_remote_control, acquire_remote_control}

abbrev eqb : Bool → Bool → Bool
eqb true b = b
eqb false b = not b

unfoldable pub set_remote_control_active :
    Answers → Capture → Bool → Capture × Result Errc (Unit {0})
unfolding acquire_remote_control release_remote_control
set_remote_control_active a c active =
    if not c.connected
    then (c, err not_connected)
    else if eqb active c.remote_control_active
    then (c, ok tt)
    else if not active
    then (release_remote_control c, ok tt)
    else acquire_remote_control a c

unfoldable pub warp_to : Answers → Capture → ℤ × ℤ → Capture × Result Errc (Unit {0})
unfolding check
warp_to a c (x, y) =
    if coordinate_fits x && coordinate_fits y
    then elim (check a.warps) [
      | err e ↦ (c, err e)
      | ok u ↦ (record c { last_core_pointer = some (x, y) }, a.flushes)
    ]
    else (c, err invalid_argument)

unfoldable pub move_local_cursor :
    Answers → List XcbScreen → Capture → ℕ → ℤ → ℤ → Capture × Result Errc (Unit {0})
unfolding warp_to local_to_global
move_local_cursor a screens c i x y =
    if not c.connected then (c, err not_connected) else elim (local_to_global screens i x y) [
      | none ↦ (c, err invalid_argument)
      | some global ↦ warp_to a c global
    ]

-- What the connection holds is kept in the result, as it is just before the disconnection.
unfoldable pub close_connection : Capture → Capture
unfolding release_remote_control free_hidden_cursor
close_connection c =
    let freed = free_hidden_cursor (release_remote_control c) in
    record (if c.connected then freed else c) {
      has_poller = false;
      has_key_symbols = false;
      connected = false;
    }

-- `selectRawInput` has succeeded.
unfoldable pub prepare : Answers → Capture → Capture × Result Errc (Unit {0})
unfolding close_connection
prepare a c =
    if a.allocates_key_symbols
    then elim a.makes_poller [
      | err e ↦ (record c { has_key_symbols = true }, err e)
      | ok v ↦ (record c { has_key_symbols = true; has_poller = true }, ok tt)
    ]
    else (close_connection c, err not_enough_memory)

-- The old connection has been closed.
unfoldable pub open_connection : Answers → Capture → Capture × Result Errc (Unit {0})
unfolding close_connection prepare
open_connection a c =
    let opened = record c { connected = true } in
    elim a.connects [
      | err e ↦ (c, err e)
      | ok u ↦ elim a.selects [
        | err e ↦ (close_connection opened, err e)
        | ok u' ↦ prepare a opened
      ]
    ]

unfoldable pub initialize : Answers → Capture → Capture × Result Errc (Unit {0})
unfolding close_connection open_connection
initialize a c = open_connection a (close_connection c)
