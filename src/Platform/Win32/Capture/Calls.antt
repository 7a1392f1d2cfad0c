-- ===== src/Platform/Win32/Capture/Calls.antt =====
-- src/platform/win32.cpp, Win32InputCapture: the calls of the interface. Those made on the thread of
-- the platform run there at once, since the caller waits for them.
use mksync.Prelude.{
  ℕ, Bool, true, false, not, List, [], Option, none, some, Result, ok, err, if◌then◌else◌,
}
use mksync.Core.Events.{InputEvent}
use mksync.Platform.Win32.Desktop.{
  Desktop, mouse, keyboard, Point, ErrorCode, no_error, invalid_argument, io_result,
  last_error_code,
}
use mksync.Platform.Win32.Monitors.{Win32Monitor, local_to_global}
use mksync.Platform.Win32.Capture.{Capture}
use mksync.Platform.Win32.Capture.Cursor.{begin_remote_control, end_remote_control}

abbrev pub eqb : Bool → Bool → Bool
eqb true b = b
eqb false b = not b

-- What a call leaves: the capture, Windows, and its result.
abbrev pub Outcome : Type 0 → Type 0
Outcome S = Capture × S × Result ErrorCode (Unit {0})

module _ {S : Type 0} (w : Desktop S) where
  abbrev pub unhook_if : Option ℕ → S → S
  unhook_if none s = s
  unhook_if (some h) s = w.unhook h s

  unfoldable pub remove_hooks : Capture → S → Capture × S
  unfolding end_remote_control
  remove_hooks c s =
      let (c', s') = end_remote_control w c s in
      (
        record c' { mouse_hook = none; keyboard_hook = none; is_current = false },
        unhook_if c'.keyboard_hook (unhook_if c'.mouse_hook s'),
      )

  -- The mouse hook is in place. A global that is null is `none`.
  unfoldable pub install_keyboard_hook : Capture → S → Capture × S × Bool
  unfolding remove_hooks
  install_keyboard_hook c s =
      let (s', hook) = w.set_hook keyboard s in
      elim hook [
        | none ↦
            let (c', s'') = remove_hooks (record c { keyboard_hook = none }) s' in (c', s'', false)
        | some h ↦ (record c { keyboard_hook = some h }, s', true)
      ]

  unfoldable pub install_hooks : Capture → S → Capture × S × Bool
  unfolding install_keyboard_hook remove_hooks
  install_hooks c s =
      let (s', hook) = w.set_hook mouse s in
      elim hook [
        | none ↦
            let (c', s'') = remove_hooks (record c { is_current = true; mouse_hook = none }) s' in
            (c', s'', false)
        | some h ↦ install_keyboard_hook (record c { is_current = true; mouse_hook = some h }) s'
      ]

  -- A post that fails throws, from `initialize` and `shutdown`, an error with its code.
  unfoldable pub initialize : Capture → S → Outcome S
  unfolding install_hooks last_error_code
  initialize c s =
      let opened = record c { dropped_events = 0; has_channel = true; sent = [] } in
      if w.posts s
      then (let (c', s', installed) = install_hooks opened s in
          (c', s', if installed then ok tt else io_result (last_error_code w s')))
      else (opened, s, err (last_error_code w s))

  unfoldable pub shutdown : Capture → S → Outcome S
  unfolding remove_hooks last_error_code
  shutdown c s =
      if w.posts s
      then (let (c', s') = remove_hooks c s in (c', s', ok tt))
      else (c, s, err (last_error_code w s))

  -- `syncUiCall`: the function, or the error of the post.
  unfoldable pub sync_ui_call : (Capture → S → Capture × S × ErrorCode) → Capture → S → Outcome S
  unfolding last_error_code
  sync_ui_call call c s =
      if w.posts s
      then (let (c', s', e) = call c s in (c', s', io_result e))
      else (c, s, io_result (last_error_code w s))

  unfoldable pub switch_remote_control : Bool → Capture → S → Capture × S × ErrorCode
  unfolding begin_remote_control end_remote_control
  switch_remote_control active c s =
      if eqb active c.remote_control_active
      then (c, s, no_error)
      else if active
      then begin_remote_control w c s
      else (let (c', s') = end_remote_control w c s in (c', s', no_error))

  unfoldable pub set_remote_control_active : Bool → Capture → S → Outcome S
  unfolding sync_ui_call switch_remote_control
  set_remote_control_active active c s = sync_ui_call (switch_remote_control active) c s

  unfoldable pub set_cursor : List Win32Monitor → ℕ → Point → Capture → S → Capture × S × ErrorCode
  unfolding local_to_global last_error_code
  set_cursor monitors i local c s = elim (local_to_global monitors i local) [
    | none ↦ (c, s, invalid_argument)
    | some p ↦
        let (s', moved) = w.set_cursor_pos p s in
        if moved
        then (record c { last_mouse_global = some p }, s', no_error)
        else (c, s', last_error_code w s')
  ]

  unfoldable pub move_local_cursor : List Win32Monitor → ℕ → Point → Capture → S → Outcome S
  unfolding sync_ui_call set_cursor
  move_local_cursor monitors i local c s = sync_ui_call (set_cursor monitors i local) c s

-- What the channel gives, an event or the end of it, is an argument. `none` where the code throws.
unfoldable pub next_event : Option InputEvent → Capture → Capture × Option InputEvent
next_event received c =
    if not c.has_channel then (c, none) else (record c { dropped_events = 0 }, received)
