-- ===== src/Platform/Win32/Capture/Runs.antt =====
-- src/platform/win32.cpp, Win32InputCapture: any sequence of calls and of events of the hooks.
use mksync.Prelude.{
  ℕ, ℤ, pos, ◌≤ℤ◌, ◌==◌, Bool, true, false, List, [], none, some, ◌≡◌, ◌≢◌, refl, sym, subst,
  Result, ok, err, if_rule, Option-cases, inl, inr, arith,
}
use mksync.Platform.Win32.Desktop.{
  Desktop, IsDocumented, Point, ErrorCode, last_error_code, io_result,
}
use mksync.Platform.Win32.Monitors.{Win32Monitor}
use mksync.Platform.Win32.Hooks.{
  MouseMessage, MouseInfo, KeyMessage, KeyInfo, Keyboard, HookResult, mouse_hook_proc,
  keyboard_hook_proc,
}
use mksync.Platform.Win32.Capture.{Capture, new_capture}
use mksync.Platform.Win32.Capture.Cursor.{begin_remote_control, end_remote_control}
use mksync.Platform.Win32.Capture.Calls.{
  initialize, shutdown, switch_remote_control, set_remote_control_active, sync_ui_call,
  move_local_cursor, eqb,
}
use mksync.Platform.Win32.Capture.Holding.{
  Hooking, unhooked, local, IsConsistent, IsReleased, remove_hooks-IsReleased,
}
use mksync.Platform.Win32.Capture.Kept.{
  held, Controls-moved, initialize-IsConsistent, shutdown-IsConsistent,
  set_remote_control_active-IsConsistent,
}
use mksync.Platform.Win32.Capture.Seen.{
  move_local_cursor-IsConsistent, mouse_hook_proc-IsConsistent, keyboard_hook_proc-IsConsistent,
}

-- One call, or one event of a hook that does not throw. A capture is initialized only where it is
-- not hooked. In between, Windows may change in all but the display count and the hooks.
pub data Step {S : Type 0} (w : Desktop S) (display : S → ℤ) (hooked : S → List ℕ)
    : Capture → S → Capture → S → Type 0 where
  initialized :
      (c : Capture) (s : S)
      → c.is_current ≡ false
      → Step w display hooked c s ((initialize w c s).0) ((initialize w c s).1)
  shut_down :
      (c : Capture) (s : S) → Step w display hooked c s ((shutdown w c s).0) ((shutdown w c s).1)
  asked_for :
      (active : Bool) (c : Capture) (s : S)
      → Step w display hooked c s
          ((set_remote_control_active w active c s).0)
          ((set_remote_control_active w active c s).1)
  moved_cursor :
      (monitors : List Win32Monitor) (i : ℕ) (p : Point) (c : Capture) (s : S)
      → Step w display hooked c s
          ((move_local_cursor w monitors i p c s).0)
          ((move_local_cursor w monitors i p c s).1)
  mouse_event :
      (monitors : List Win32Monitor) (code takes : Bool) (message : MouseMessage) (info : MouseInfo)
      (c c' : Capture) (s s' : S) (r : HookResult)
      → mouse_hook_proc w monitors code takes message info c s ≡ some (c', s', r)
      → Step w display hooked c s c' s'
  key_event :
      (k : Keyboard) (code takes : Bool) (message : KeyMessage) (info : KeyInfo) (c : Capture)
      (s : S)
      → Step w display hooked c s ((keyboard_hook_proc k code takes message info c).0) s
  windows :
      (c : Capture) (s s' : S)
      → display s' ≡ display s
      → hooked s' ≡ hooked s
      → Step w display hooked c s c s'

pub data Reach {S : Type 0} (w : Desktop S) (display : S → ℤ) (hooked : S → List ℕ) (c : Capture)
    (s : S) : Capture → S → Type 0 where
  here : Reach w display hooked c s c s
  next :
      {c' c'' : Capture} {s' s'' : S}
      → Reach w display hooked c s c' s'
      → Step w display hooked c' s' c'' s''
      → Reach w display hooked c s c'' s''

module _ {S : Type 0} (w : Desktop S) (display : S → ℤ) (hooked : S → List ℕ)
    (doc : IsDocumented w display hooked) where
  Step-IsConsistent :
      {c : Capture} {s s' : S} {c' : Capture}
      → Step w display hooked c s c' s'
      → IsConsistent display hooked c s
      → IsConsistent display hooked c' s'
  Step-IsConsistent (initialized c s e) h = initialize-IsConsistent w display hooked doc h e
  Step-IsConsistent (shut_down c s) h = shutdown-IsConsistent w display hooked doc h
  Step-IsConsistent (asked_for active c s) h =
      set_remote_control_active-IsConsistent w display hooked doc active h
  Step-IsConsistent (moved_cursor monitors i p c s) h =
      move_local_cursor-IsConsistent w display hooked doc monitors i p h
  Step-IsConsistent (mouse_event monitors code takes message info c c' s s' r e) h =
      mouse_hook_proc-IsConsistent w display hooked doc monitors code takes message info e h
  Step-IsConsistent (key_event k code takes message info c s) h =
      keyboard_hook_proc-IsConsistent w display hooked doc k code takes message info h
  Step-IsConsistent (windows c s s' d k) h = record {
    controls = Controls-moved w display hooked doc d h.controls;
    hooking = subst (λ hs. Hooking hs c.is_current c.keyboard_hook c.mouse_hook) (sym k) h.hooking;
  }

  -- On a documented Windows, from a new capture with the cursor shown and no hook, whatever is
  -- called, as long as a hooked capture is not initialized again, and whatever the hooks see: the
  -- cursor is hidden and there is an anchor just under remote control, and otherwise the cursor is
  -- shown; either there is no hook, or the mouse and the keyboard hook are installed and are the
  -- only ones.
  pub Reach-IsConsistent :
      {s₀ s : S} {c : Capture}
      → pos 0 ≤ℤ display s₀
      → hooked s₀ ≡ []
      → Reach w display hooked new_capture s₀ c s
      → IsConsistent display hooked c s
  Reach-IsConsistent shown empty here = record {
    controls = local none none false false none 0 [] shown;
    hooking = unhooked empty;
  }
  Reach-IsConsistent shown empty (next r step) =
      Step-IsConsistent step (Reach-IsConsistent shown empty r)

  -- In the states of `Reach-IsConsistent`: if the shutdown reaches the platform's thread, no hook is
  -- left, there is no remote control and the cursor is shown.
  shutdown-IsReleased :
      {s₀ s : S} {c : Capture}
      → pos 0 ≤ℤ display s₀
      → hooked s₀ ≡ []
      → Reach w display hooked new_capture s₀ c s
      → w.posts s ≡ true
      → IsReleased display hooked ((shutdown w c s).0) ((shutdown w c s).1)
  unfolding shutdown
  shutdown-IsReleased shown empty r p =
      let h = Reach-IsConsistent shown empty r in
      rw p (
        remove_hooks-IsReleased w display hooked doc h.controls
          (held w display hooked doc h.hooking))

-- What an answer of `setRemoteControlActive` says.
abbrev pub Answered :
    {S : Type 0} → Bool → Capture → S → Capture × S × Result ErrorCode (Unit {0}) → Type 0
Answered active c s (c', s', ok u) = c'.remote_control_active ≡ active
Answered active c s (c', s', err e) = (c' ≡ c) × (s' ≡ s)

module _ {S : Type 0} (w : Desktop S) where
  abbrev Switched : Bool → Capture → S → Capture × S × ErrorCode → Type 0
  Switched active c s (c', s', e) = Answered active c s (c', s', io_result e)

  -- An error code that is not 0 is an error.
  refused :
      (active : Bool) (c : Capture) (s : S)
      → w.last_error s ≢ 0
      → Switched active c s (c, s, last_error_code w s)
  unfolding last_error_code
  refused active c s h =
      let zero_test : (w.last_error s == 0) ≡ false = ground (arith, h) in rw zero_test (refl, refl)

  asked_again : (a b : Bool) → eqb a b ≡ true → b ≡ a
  asked_again true b h = h
  asked_again false true h = cc
  asked_again false false h = refl

  ended : (c : Capture) (s : S) → (end_remote_control w c s).0.remote_control_active ≡ false
  unfolding end_remote_control
  ended c s = ground arith

  switch-Switched :
      (active : Bool) (c : Capture) (s : S)
      → (w.cursor_pos s ≡ none → w.last_error s ≢ 0)
      → Switched active c s (switch_remote_control w active c s)
  unfolding switch_remote_control begin_remote_control
  switch-Switched true c s placed =
      if_rule (Switched true c s) (eqb true c.remote_control_active) _ _
        (λ b. asked_again true c.remote_control_active b)
        (λ b. elim (Option-cases (w.cursor_pos s)) [
          | inl e ↦ rw (e, begin_remote_control) (refused true c s (placed e))
          | inr (p, e) ↦ rw (e, begin_remote_control) refl
        ])
  switch-Switched false c s placed =
      if_rule (Switched false c s) (eqb false c.remote_control_active) _ _
        (λ b. asked_again false c.remote_control_active b) (λ b. ended c s)

  -- If a failed post and a failed `GetCursorPos` leave an error code other than 0: a call of
  -- `setRemoteControlActive` that succeeds leaves remote control as it was asked for, and one that
  -- fails leaves the capture and Windows unchanged.
  pub set_remote_control_active-Answered :
      (active : Bool) (c : Capture) (s : S)
      → (w.posts s ≡ false → w.last_error s ≢ 0)
      → (w.cursor_pos s ≡ none → w.last_error s ≢ 0)
      → Answered active c s (set_remote_control_active w active c s)
  unfolding set_remote_control_active sync_ui_call
  set_remote_control_active-Answered active c s posted placed =
      if_rule (Answered active c s) (w.posts s) _ _ (λ b. switch-Switched active c s placed)
        (λ b. refused active c s (posted b))
