-- ===== src/Platform/Win32/Capture/Cursor.antt =====
-- src/platform/win32.cpp, Win32InputCapture: remote control, with the loops that hide and show the
-- cursor. A loop has as many rounds as its first answer asks for; the theorems show that it ends by
-- its test.
use mksync.Prelude.{
  ℕ, zero, suc, ℤ, pos, pos_part, neg_part, leb_ℤ, ltb_ℤ, true, false, not, ◌&&◌, none, some,
  if◌then◌else◌, is_some,
}
use mksync.Platform.Win32.Desktop.{Desktop, ErrorCode, no_error, last_error_code}
use mksync.Platform.Win32.Capture.{Capture}

module _ {S : Type 0} (w : Desktop S) where
  -- `while (::ShowCursor(FALSE) >= 0) {}`, from the state and the answer of a call on.
  unfoldable pub hide_loop : ℕ → S × ℤ → S × ℤ
  hide_loop zero p = p
  hide_loop (suc rounds) (s, count) = elim (leb_ℤ (pos 0) count) [
    | true ↦ hide_loop rounds (w.show_cursor false s)
    | false ↦ (s, count)
  ]

  unfoldable pub hide_cursor : S → S × ℤ
  unfolding hide_loop
  hide_cursor s = hide_loop (suc (pos_part ((w.show_cursor false s).1))) (w.show_cursor false s)

  -- `while (::ShowCursor(TRUE) < 0) {}`.
  unfoldable pub unhide_loop : ℕ → S × ℤ → S × ℤ
  unhide_loop zero p = p
  unhide_loop (suc rounds) (s, count) = elim (ltb_ℤ count (pos 0)) [
    | true ↦ unhide_loop rounds (w.show_cursor true s)
    | false ↦ (s, count)
  ]

  unfoldable pub unhide_cursor : S → S × ℤ
  unfolding unhide_loop
  unhide_cursor s = unhide_loop (suc (neg_part ((w.show_cursor true s).1))) (w.show_cursor true s)

  -- A cursor that cannot be pinned is only logged.
  unfoldable pub begin_remote_control : Capture → S → Capture × S × ErrorCode
  unfolding hide_cursor last_error_code
  begin_remote_control c s = elim (w.cursor_pos s) [
    | none ↦ (c, s, last_error_code w s)
    | some cursor ↦
        let pinned = (w.set_cursor_pos cursor s).0 in
        (
          record c {
            remote_anchor = some cursor;
            last_mouse_global = some cursor;
            cursor_hidden = true;
            remote_control_active = true;
          },
          if not c.cursor_hidden then (hide_cursor pinned).0 else pinned,
          no_error,
        )
  ]

  unfoldable pub end_remote_control : Capture → S → Capture × S
  unfolding unhide_cursor
  end_remote_control c s =
      if not c.remote_control_active && (not c.cursor_hidden && not (is_some c.remote_anchor))
      then (c, s)
      else (
        record c { remote_control_active = false; remote_anchor = none; cursor_hidden = false },
        if c.cursor_hidden then (unhide_cursor s).0 else s,
      )
