-- ===== src/Platform/Win32/Desktop.antt =====
-- src/platform/win32.cpp: the calls of the Windows API, as a parameter, and the error codes made of
-- their failures.
use mksync.Prelude.{
  ℕ, ◌==◌, ℤ, pos, ◌+ℤ◌, ◌-ℤ◌, Bool, true, false, not, List, ◌∷◌, Option, none, some, ◌≡◌, Result,
  ok, err, if◌then◌else◌,
}
use mksync.Platform.Xcb.Capture.Resources.{remove}

-- A `POINT`.
abbrev pub Point : Type 0
Point = ℤ × ℤ

-- `WH_MOUSE_LL` and `WH_KEYBOARD_LL`.
pub data HookKind : Type 0 where
  mouse keyboard : HookKind

-- The `dwFlags` of a mouse input.
pub data MouseFlag : Type 0 where
  left_down left_up right_down right_up middle_down middle_up wheel h_wheel : MouseFlag

-- An `INPUT`: a mouse input with its `mouseData`, or a key input with its `wVk`, and whether it has
-- KEYEVENTF_KEYUP and KEYEVENTF_EXTENDEDKEY.
pub data Input : Type 0 where
  mouse_input : MouseFlag → ℕ → Input
  keyboard_input : ℕ → Bool → Bool → Input

-- Windows, with a state `S` of its own: whether `PostMessageW` to the platform's window succeeds,
-- `ShowCursor`, `GetCursorPos`, `SetCursorPos`, `SetWindowsHookExW` (`none` for null),
-- `UnhookWindowsHookEx`, `SendInput`, `MonitorFromPoint` and `GetLastError`.
pub record Desktop (S : Type 0) : Type 0 where
  pub posts : S → Bool
  pub show_cursor : Bool → S → S × ℤ
  pub cursor_pos : S → Option Point
  pub set_cursor_pos : Point → S → S × Bool
  pub set_hook : HookKind → S → S × Option ℕ
  pub unhook : ℕ → S → S
  pub send_input : List Input → S → S × ℕ
  pub monitor_from_point : S → Point → ℕ
  pub last_error : S → ℕ

-- What is documented of these calls, for the display count of the cursor and the hooks that are
-- installed: `ShowCursor` counts up or down and answers with the new count; a hook is installed
-- exactly if there is a handle of it, up to `UnhookWindowsHookEx`; no other call changes either.
pub record IsDocumented {S : Type 0} (w : Desktop S) (display : S → ℤ) (hooked : S → List ℕ)
    : Type 0 where
  pub shows : (s : S) → display ((w.show_cursor true s).0) ≡ display s +ℤ pos 1
  pub hides : (s : S) → display ((w.show_cursor false s).0) ≡ display s -ℤ pos 1
  pub answers : (b : Bool) (s : S) → (w.show_cursor b s).1 ≡ display ((w.show_cursor b s).0)
  pub show_hooked : (b : Bool) (s : S) → hooked ((w.show_cursor b s).0) ≡ hooked s
  pub move_display : (p : Point) (s : S) → display ((w.set_cursor_pos p s).0) ≡ display s
  pub move_hooked : (p : Point) (s : S) → hooked ((w.set_cursor_pos p s).0) ≡ hooked s
  pub hook_display : (k : HookKind) (s : S) → display ((w.set_hook k s).0) ≡ display s
  pub hook_none :
      (k : HookKind) (s : S) → (w.set_hook k s).1 ≡ none → hooked ((w.set_hook k s).0) ≡ hooked s
  pub hook_some :
      (k : HookKind) (s : S) (h : ℕ)
      → (w.set_hook k s).1 ≡ some h
      → hooked ((w.set_hook k s).0) ≡ h ∷ hooked s
  pub unhook_display : (h : ℕ) (s : S) → display (w.unhook h s) ≡ display s
  pub unhook_hooked : (h : ℕ) (s : S) → hooked (w.unhook h s) ≡ remove h (hooked s)

-- `std::error_code`: a code of the system, where 0 is no error, or one of `std::errc`.
pub data ErrorCode : Type 0 where
  system : ℕ → ErrorCode
  invalid_argument not_connected : ErrorCode

abbrev pub no_error : ErrorCode
no_error = system 0

abbrev pub is_error : ErrorCode → Bool
is_error (system code) = not (code == 0)
is_error invalid_argument = true
is_error not_connected = true

-- `if (error) { return Err(error); } return {};`
abbrev pub io_result : ErrorCode → Result ErrorCode (Unit {0})
io_result e = if is_error e then err e else ok tt

abbrev error_gen_failure : ℕ
error_gen_failure = 31

module _ {S : Type 0} (w : Desktop S) where
  unfoldable pub last_error_code : S → ErrorCode
  last_error_code s = system (w.last_error s)

  unfoldable pub fallback_error : S → ErrorCode
  unfolding last_error_code
  fallback_error s =
      if is_error (last_error_code s) then last_error_code s else system error_gen_failure

  unfoldable pub send_inputs : List Input → ℕ → S → S × ErrorCode
  unfolding fallback_error
  send_inputs inputs size s =
      if size == 0
      then (s, no_error)
      else (let (s', count) = w.send_input inputs s in
          if count == size then (s', no_error) else (s', fallback_error s'))
