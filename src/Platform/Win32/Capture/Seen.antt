-- ===== src/Platform/Win32/Capture/Seen.antt =====
-- src/platform/win32.cpp, Win32InputCapture: what the cursor and the hooks keep of the invariant.
use mksync.Prelude.{
  ℕ, suc, ℤ, pos, Bool, not, ◌&&◌, List, ◌∷◌, Option, none, some, ◌≡◌, refl, sym, subst, inl, inr,
  if◌then◌else◌, if_rule, Bool-cases, Option-cases,
}
use mksync.Core.Events.{InputEvent}
use mksync.Platform.Win32.Desktop.{Desktop, IsDocumented, Point}
use mksync.Platform.Win32.Monitors.{Win32Monitor, local_to_global, global_to_monitor}
use mksync.Platform.Win32.Hooks.{
  MouseMessage, MouseInfo, KeyMessage, KeyInfo, Keyboard, HookResult, mouse_hook_proc, mouse_move,
  keyboard_hook_proc, try_enqueue, translate_mouse_event, translate_on_monitor, recenter, is_at,
  translate_mouse_move, translate_keyboard_event, difference, mouse_wheel, mouse_h_wheel,
  other_message,
}
use mksync.Platform.Win32.Capture.{Capture}
use mksync.Platform.Win32.Capture.Calls.{sync_ui_call, set_cursor, move_local_cursor}
use mksync.Platform.Win32.Capture.Holding.{Hooking, Controls, local, remote}
use mksync.Platform.Win32.Capture.Kept.{Consistent}

module _ {S : Type 0} (w : Desktop S) (display : S → ℤ) (hooked : S → List ℕ)
    (doc : IsDocumented w display hooked) where
  -- Neither the hooks nor remote control depend on where the mouse was and which events were seen.
  seen-IsConsistent :
      {c : Capture} {s s' : S} (last : Option Point) (dropped : ℕ) (sent : List InputEvent)
      → display s' ≡ display s
      → hooked s' ≡ hooked s
      → Consistent w display hooked doc c s
      → Consistent w display hooked doc
          (record c { last_mouse_global = last; dropped_events = dropped; sent = sent })
          s'
  seen-IsConsistent {c} {s} {s'} last dropped sent d k h = record {
    controls = seen h.controls;
    hooking = subst (λ hs. Hooking hs c.is_current c.keyboard_hook c.mouse_hook) (sym k) h.hooking;
  }
    where
      seen :
          {c : Capture}
          → Controls display c s
          → Controls display
              (record c { last_mouse_global = last; dropped_events = dropped; sent = sent })
              s'
      seen (local k m current channel l d' t shown) =
          local k m current channel last dropped sent (rw d shown)
      seen (remote anchor k m current channel l d' t hidden) =
          remote anchor k m current channel last dropped sent (rw d hidden)

  cursor-IsConsistent :
      {c : Capture} {s : S} (monitors : List Win32Monitor) (i : ℕ) (p : Point)
      → Consistent w display hooked doc c s
      → Consistent w display hooked doc
          ((set_cursor w monitors i p c s).0)
          ((set_cursor w monitors i p c s).1)
  unfolding set_cursor
  cursor-IsConsistent {c} {s} monitors i p h = elim (Option-cases (local_to_global monitors i p)) [
    | inl e ↦ rw (e, set_cursor) h
    | inr (g, e) ↦
        let kept = λ (last : Option Point).
          seen-IsConsistent last c.dropped_events c.sent (doc.move_display g s)
            (doc.move_hooked g s) h in
        elim (Bool-cases ((w.set_cursor_pos g s).1)) [
          | inl b ↦ rw (e, set_cursor, b) (kept (some g))
          | inr b ↦ rw (e, set_cursor, b) (kept c.last_mouse_global)
        ]
  ]

  pub move_local_cursor-IsConsistent :
      {c : Capture} {s : S} (monitors : List Win32Monitor) (i : ℕ) (p : Point)
      → Consistent w display hooked doc c s
      → Consistent w display hooked doc
          ((move_local_cursor w monitors i p c s).0)
          ((move_local_cursor w monitors i p c s).1)
  unfolding move_local_cursor sync_ui_call
  move_local_cursor-IsConsistent {c} {s} monitors i p h = elim (Bool-cases (w.posts s)) [
    | inl b ↦ rw b (cursor-IsConsistent monitors i p h)
    | inr b ↦ rw b h
  ]

  enqueue-IsConsistent :
      {c : Capture} {s : S} (takes : Bool) (event : Option InputEvent)
      → Consistent w display hooked doc c s
      → Consistent w display hooked doc (try_enqueue takes event c) s
  unfolding try_enqueue
  enqueue-IsConsistent takes none h = h
  enqueue-IsConsistent {c} {s} takes (some event) h =
      if_rule (λ c'. Consistent w display hooked doc c' s) (not c.has_channel) _ _ (λ b. h)
        (λ b.
          if_rule (λ c'. Consistent w display hooked doc c' s) takes _ _
            (λ t.
              seen-IsConsistent c.last_mouse_global c.dropped_events (event ∷ c.sent) refl refl h)
            (λ f. seen-IsConsistent c.last_mouse_global (suc c.dropped_events) c.sent refl refl h))

  move-IsConsistent :
      {c : Capture} {s : S} (screen : ℕ) (p pt : Point)
      → Consistent w display hooked doc c s
      → Consistent w display hooked doc ((translate_mouse_move c screen p pt).0) s
  unfolding translate_mouse_move
  move-IsConsistent {c} {s} screen p pt h =
      let motion = seen-IsConsistent (some pt) c.dropped_events c.sent refl refl h in
      elim (Option-cases (if c.remote_control_active then c.remote_anchor else none)) [
        | inl e ↦ rw (e, translate_mouse_move) motion
        | inr (anchor, e) ↦
            rw (e, translate_mouse_move)
              (if_rule (λ (r : Capture × Option InputEvent). Consistent w display hooked doc r.0 s)
                (is_at (difference pt anchor) (pos 0, pos 0)) _ _ (λ b. h) (λ b. motion))
      ]

  translated-IsConsistent :
      {c : Capture} {s : S} (message : MouseMessage) (info : MouseInfo) (at : ℕ × Point)
      → Consistent w display hooked doc c s
      → Consistent w display hooked doc ((translate_on_monitor c message info at).0) s
  unfolding translate_on_monitor
  translated-IsConsistent mouse_move info (screen, p) h = move-IsConsistent screen p info.pt h
  translated-IsConsistent mouse_wheel info (screen, p) h = h
  translated-IsConsistent mouse_h_wheel info (screen, p) h = h
  translated-IsConsistent other_message info (screen, p) h = h
  translated-IsConsistent message info (screen, p) h = h

  recenter-IsConsistent :
      {c : Capture} {s : S} (c' : Capture) (message : MouseMessage) (pt : Point)
      → Consistent w display hooked doc c s
      → Consistent w display hooked doc c (recenter w c' message pt s)
  unfolding recenter
  recenter-IsConsistent {c} {s} c' mouse_move pt h = elim (Option-cases c'.remote_anchor) [
    | inl e ↦ rw (e, recenter) h
    | inr (anchor, e) ↦
        rw (e, recenter)
          (if_rule (λ s'. Consistent w display hooked doc c s') (is_at pt anchor) _ _ (λ b. h)
            (λ b.
              seen-IsConsistent c.last_mouse_global c.dropped_events c.sent
                (doc.move_display anchor s) (doc.move_hooked anchor s) h))
  ]
  recenter-IsConsistent c' message pt h = h

  -- Where a hook does not throw.
  abbrev Ensures : Option (Capture × S × HookResult) → Type 0
  Ensures none = Unit
  Ensures (some (c, s, r)) = Consistent w display hooked doc c s

  mouse_hook_proc-Ensures :
      {c : Capture} {s : S} (monitors : List Win32Monitor) (code takes : Bool)
      (message : MouseMessage) (info : MouseInfo)
      → Consistent w display hooked doc c s
      → Ensures (mouse_hook_proc w monitors code takes message info c s)
  unfolding mouse_hook_proc translate_mouse_event
  mouse_hook_proc-Ensures {c} {s} monitors code takes message info h =
      if_rule Ensures (not (code && c.is_current)) _ _ (λ a. h)
        (λ a.
          if_rule Ensures (c.remote_control_active && info.injected) _ _ (λ b. h)
            (λ b. elim (Option-cases (global_to_monitor w s monitors info.pt)) [
              | inl e ↦ rw e tt
              | inr (at, e) ↦ rw e (
                  let (c', event) = translate_on_monitor c message info at in
                  let h' =
                    enqueue-IsConsistent takes event (translated-IsConsistent message info at h) in
                  if_rule Ensures (not c.remote_control_active) _ _ (λ l. h')
                    (λ l. recenter-IsConsistent (try_enqueue takes event c') message info.pt h'))
            ]))

  pub mouse_hook_proc-IsConsistent :
      {c c' : Capture} {s s' : S} {r : HookResult} (monitors : List Win32Monitor)
      (code takes : Bool) (message : MouseMessage) (info : MouseInfo)
      → mouse_hook_proc w monitors code takes message info c s ≡ some (c', s', r)
      → Consistent w display hooked doc c s
      → Consistent w display hooked doc c' s'
  mouse_hook_proc-IsConsistent monitors code takes message info e h =
      subst Ensures e (mouse_hook_proc-Ensures monitors code takes message info h)

  pub keyboard_hook_proc-IsConsistent :
      {c : Capture} {s : S} (k : Keyboard) (code takes : Bool) (message : KeyMessage)
      (info : KeyInfo)
      → Consistent w display hooked doc c s
      → Consistent w display hooked doc ((keyboard_hook_proc k code takes message info c).0) s
  unfolding keyboard_hook_proc
  keyboard_hook_proc-IsConsistent {c} {s} k code takes message info h =
      let event = translate_keyboard_event k message info in
      if_rule (λ (r : Capture × HookResult). Consistent w display hooked doc r.0 s)
        (not (code && c.is_current)) _ _ (λ a. h)
        (λ a.
          if_rule (λ (r : Capture × HookResult). Consistent w display hooked doc r.0 s)
            (c.remote_control_active && info.injected) _ _ (λ b. h)
            (λ b. enqueue-IsConsistent takes event h))
