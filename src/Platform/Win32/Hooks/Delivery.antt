-- ===== src/Platform/Win32/Hooks/Delivery.antt =====
-- src/platform/win32.cpp, Win32InputCapture: which events reach the applications of this machine.
use mksync.Prelude.{
  Bool, true, false, not, ◌&&◌, List, Option, none, some, is_some, ◌⊎◌, ◌≡◌, refl, if◌then◌else◌,
  if_rule, Option-cases, inl, inr, arith,
}
use mksync.Platform.Win32.Desktop.{Desktop}
use mksync.Platform.Win32.Monitors.{Win32Monitor, global_to_monitor}
use mksync.Platform.Win32.Capture.{Capture}
use mksync.Platform.Win32.Hooks.{
  MouseMessage, MouseInfo, KeyMessage, KeyInfo, Keyboard, HookResult, passed_on, swallowed,
  translate_mouse_event, mouse_hook_proc, keyboard_hook_proc,
}

-- What a hook does for the applications of this machine.
abbrev pub delivery : Capture → HookResult
delivery c = if c.remote_control_active then swallowed else passed_on

-- What a hook leaves: its result is the delivery, without remote control Windows is left alone, and
-- under it an injected event changes nothing. A hook that throws leaves nothing.
abbrev pub Delivered :
    {S : Type 0} → Capture → S → Bool → Option (Capture × S × HookResult) → Type 0
Delivered c s injected none = Unit
Delivered c s injected (some (c', s', r)) =
    (r ≡ delivery c)
    × ((if c.remote_control_active then s else s') ≡ s)
    × ((if c.remote_control_active && injected then c' else c) ≡ c)
    × ((if c.remote_control_active && injected then s' else s) ≡ s)

same {ℓ} : {A : Type ℓ} (b : Bool) (x : A) → (if b then x else x) ≡ x
same true x = refl
same false x = refl

unless {ℓ} : {A : Type ℓ} {b : Bool} (x : A) {y : A} → b ≡ false → (if b then x else y) ≡ y
unless x e = rw e refl

when {ℓ} : {A : Type ℓ} {b : Bool} {x : A} (y : A) → b ≡ true → (if b then x else y) ≡ x
when y e = rw e refl

active : {b : Bool} → not b ≡ false → b ≡ true
active e = ground (arith, e)

module _ {S : Type 0} (w : Desktop S) (monitors : List Win32Monitor) where
  mouse_hook_proc-Delivered :
      (takes : Bool) (message : MouseMessage) (info : MouseInfo) (c : Capture) (s : S)
      → c.is_current ≡ true
      → Delivered c s info.injected (mouse_hook_proc w monitors true takes message info c s)
  unfolding mouse_hook_proc translate_mouse_event
  mouse_hook_proc-Delivered takes message info c s current =
      if_rule (Delivered c s info.injected) (not (true && c.is_current)) _ _
        (λ a. absurd (ground (arith, current, a)))
        (λ a.
          if_rule (Delivered c s info.injected) (c.remote_control_active && info.injected) _ _
            (λ b. (ground (arith, b), same _ s, same _ c, same _ s))
            (λ b. elim (Option-cases (global_to_monitor w s monitors info.pt)) [
              | inl e ↦ rw e tt
              | inr (at, e) ↦ rw e (
                  if_rule (Delivered c s info.injected) (not c.remote_control_active) _ _
                    (λ l. (ground (arith, l), same _ s, unless _ b, unless _ b))
                    (λ l. (ground (arith, l), when _ (active l), unless _ b, unless _ b)))
            ]))

  keyboard_hook_proc-delivers :
      (k : Keyboard) (takes : Bool) (message : KeyMessage) (info : KeyInfo) (c : Capture)
      → c.is_current ≡ true
      → (keyboard_hook_proc k true takes message info c).1 ≡ delivery c
  unfolding keyboard_hook_proc
  keyboard_hook_proc-delivers k takes message info c current =
      if_rule (λ (r : Capture × HookResult). r.1 ≡ delivery c) (not (true && c.is_current)) _ _
        (λ a. absurd (ground (arith, current, a)))
        (λ a.
          if_rule (λ (r : Capture × HookResult). r.1 ≡ delivery c)
            (c.remote_control_active && info.injected) _ _ (λ b. ground (arith, b)) (λ b. refl))

  abbrev Throws : S → MouseInfo → Option (Capture × S × HookResult) → Type 0
  Throws s info r = (is_some r ≡ true) ⊎ (global_to_monitor w s monitors info.pt ≡ none)

  mouse_hook_proc-Throws :
      (takes : Bool) (message : MouseMessage) (info : MouseInfo) (c : Capture) (s : S)
      → Throws s info (mouse_hook_proc w monitors true takes message info c s)
  unfolding mouse_hook_proc translate_mouse_event
  mouse_hook_proc-Throws takes message info c s =
      if_rule (Throws s info) (not (true && c.is_current)) _ _ (λ a. inl refl)
        (λ a.
          if_rule (Throws s info) (c.remote_control_active && info.injected) _ _ (λ b. inl refl)
            (λ b. elim (Option-cases (global_to_monitor w s monitors info.pt)) [
              | inl e ↦ inr e
              | inr (at, e) ↦ inl (
                  rw e (
                    if_rule (λ (r : Option (Capture × S × HookResult)). is_some r ≡ true)
                      (not c.remote_control_active) _ _ (λ l. refl) (λ l. refl)))
            ]))

  -- What the hooks do while a capture is hooked: under remote control both swallow every event, so
  -- that no application of this machine gets it, and an injected event of the mouse changes nothing;
  -- without, both pass every event on, and the mouse hook leaves Windows alone. The mouse hook
  -- throws only at a point of an unknown monitor.
  pub hooks_deliver :
      (k : Keyboard) (takes : Bool) (message : MouseMessage) (info : MouseInfo)
      (key_message : KeyMessage) (key_info : KeyInfo) (c : Capture) (s : S)
      → c.is_current ≡ true
      → Delivered c s info.injected (mouse_hook_proc w monitors true takes message info c s)
        × ((keyboard_hook_proc k true takes key_message key_info c).1 ≡ delivery c)
        × ((is_some (mouse_hook_proc w monitors true takes message info c s) ≡ true)
            ⊎ (global_to_monitor w s monitors info.pt ≡ none))
  hooks_deliver k takes message info key_message key_info c s current = (
    mouse_hook_proc-Delivered takes message info c s current,
    keyboard_hook_proc-delivers k takes key_message key_info c current,
    mouse_hook_proc-Throws takes message info c s,
  )
