-- ===== src/Platform/Win32/Capture/Kept.antt =====
-- src/platform/win32.cpp, Win32InputCapture: what each call keeps of the invariant.
use mksync.Prelude.{
  ℕ, ℤ, Bool, true, false, List, [], ◌∷◌, Option, none, some, ◌≡◌, refl, sym, subst, ◌∙◌, inl, inr,
  Bool-cases, Option-cases,
}
use mksync.Core.Events.{InputEvent}
use mksync.Platform.Win32.Desktop.{Desktop, IsDocumented, mouse, keyboard}
use mksync.Platform.Win32.Capture.{Capture}
use mksync.Platform.Win32.Capture.Cursor.{begin_remote_control, end_remote_control}
use mksync.Platform.Win32.Capture.Calls.{
  install_hooks, install_keyboard_hook, initialize, shutdown, switch_remote_control, sync_ui_call,
  set_remote_control_active,
}
use mksync.Platform.Win32.Capture.Loops.{hide_cursor-IsHidden, unhide_cursor-IsShown}
use mksync.Platform.Win32.Capture.Holding.{
  handles, Hooking, unhooked, installed, Controls, local, remote, IsConsistent, IsReleased,
  remove_hooks-IsReleased,
}

module _ {S : Type 0} (w : Desktop S) (display : S → ℤ) (hooked : S → List ℕ)
    (doc : IsDocumented w display hooked) where
  abbrev pub Consistent : Capture → S → Type 0
  Consistent = IsConsistent display hooked

  pub released : {c : Capture} {s : S} → IsReleased display hooked c s → Consistent c s
  released r = record { controls = r.controls; hooking = r.unhooked }

  pub held :
      {hs : List ℕ} {current : Bool} {k m : Option ℕ} → Hooking hs current k m → hs ≡ handles k m
  held (unhooked e) = e
  held (installed k m e) = e

  pub Controls-moved :
      {c : Capture} {s s' : S}
      → display s' ≡ display s
      → Controls display c s
      → Controls display c s'
  Controls-moved e (local k m current channel last dropped sent shown) =
      local k m current channel last dropped sent (rw e shown)
  Controls-moved e (remote anchor k m current channel last dropped sent hidden) =
      remote anchor k m current channel last dropped sent (rw e hidden)

  pub Controls-hooks :
      {c : Capture} {s : S} (k m : Option ℕ) (current channel : Bool) (dropped : ℕ)
      (sent : List InputEvent)
      → Controls display c s
      → Controls display
          (record c {
            keyboard_hook = k;
            mouse_hook = m;
            is_current = current;
            has_channel = channel;
            dropped_events = dropped;
            sent = sent;
          })
          s
  Controls-hooks k m current channel dropped sent (local k' m' cur' ch' last d' s' shown) =
      local k m current channel last dropped sent shown
  Controls-hooks k m current channel dropped sent (remote a k' m' cur' ch' last d' s' hidden) =
      remote a k m current channel last dropped sent hidden

  with_mouse : Capture → Option ℕ → Capture
  with_mouse c m = record c { is_current = true; mouse_hook = m }

  keyboard-IsConsistent :
      {c : Capture} {s : S} (m : ℕ)
      → Controls display c s
      → hooked s ≡ m ∷ []
      → Consistent
          ((install_keyboard_hook w (with_mouse c (some m)) s).0)
          ((install_keyboard_hook w (with_mouse c (some m)) s).1)
  unfolding install_keyboard_hook with_mouse
  keyboard-IsConsistent {c} {s} m controls h =
      let s' = (w.set_hook keyboard s).0 in
      let controls' = Controls-moved (doc.hook_display keyboard s) controls in
      elim (Option-cases ((w.set_hook keyboard s).1)) [
        | inl e ↦
            rw (e, install_keyboard_hook)
              (released (
                remove_hooks-IsReleased w display hooked doc
                  (Controls-hooks none (some m) true c.has_channel c.dropped_events c.sent
                    controls')
                  (doc.hook_none keyboard s e ∙ h)))
        | inr (k, e) ↦
            rw (e, install_keyboard_hook)
              (record {
                controls =
                    Controls-hooks (some k) (some m) true c.has_channel c.dropped_events c.sent
                      controls';
                hooking = installed k m (rw (doc.hook_some keyboard s k e, h) refl);
              })
      ]

  install-IsConsistent :
      {c : Capture} {s : S}
      → Controls display c s
      → c.keyboard_hook ≡ none
      → hooked s ≡ []
      → Consistent ((install_hooks w c s).0) ((install_hooks w c s).1)
  unfolding install_hooks with_mouse
  install-IsConsistent {c} {s} controls no_keyboard h =
      let s' = (w.set_hook mouse s).0 in
      let controls' = Controls-moved (doc.hook_display mouse s) controls in
      elim (Option-cases ((w.set_hook mouse s).1)) [
        | inl e ↦
            rw (e, install_hooks)
              (released (
                remove_hooks-IsReleased w display hooked doc
                  (Controls-hooks c.keyboard_hook none true c.has_channel c.dropped_events c.sent
                    controls')
                  (doc.hook_none mouse s e ∙ (h ∙ rw no_keyboard refl))))
        | inr (m, e) ↦
            rw (e, install_hooks)
              (keyboard-IsConsistent m controls' (rw (doc.hook_some mouse s m e, h) refl))
      ]

  not_hooked :
      {hs : List ℕ} {current : Bool} {k m : Option ℕ}
      → Hooking hs current k m
      → current ≡ false
      → (k ≡ none) × (m ≡ none) × (hs ≡ [])
  not_hooked (unhooked e) h = (refl, refl, e)
  not_hooked (installed k m e) h = absurd (cc h)

  pub initialize-IsConsistent :
      {c : Capture} {s : S}
      → Consistent c s
      → c.is_current ≡ false
      → Consistent ((initialize w c s).0) ((initialize w c s).1)
  unfolding initialize
  initialize-IsConsistent {c} {s} h e =
      let (k, m, empty) = not_hooked h.hooking e in
      let controls =
        Controls-hooks c.keyboard_hook c.mouse_hook c.is_current true 0 [] h.controls in
      elim (Bool-cases (w.posts s)) [
        | inl p ↦ rw p (install-IsConsistent controls k empty)
        | inr p ↦ rw p (record { controls = controls; hooking = h.hooking })
      ]

  pub shutdown-IsConsistent :
      {c : Capture} {s : S} → Consistent c s → Consistent ((shutdown w c s).0) ((shutdown w c s).1)
  unfolding shutdown
  shutdown-IsConsistent {c} {s} h = elim (Bool-cases (w.posts s)) [
    | inl p ↦
        rw p (released (remove_hooks-IsReleased w display hooked doc h.controls (held h.hooking)))
    | inr p ↦ rw p h
  ]

  switch-IsConsistent :
      {c : Capture} {s : S} (active : Bool)
      → Controls display c s
      → Hooking (hooked s) c.is_current c.keyboard_hook c.mouse_hook
      → Consistent ((switch_remote_control w active c s).0) ((switch_remote_control w active c s).1)
  unfolding switch_remote_control begin_remote_control end_remote_control
  switch-IsConsistent false (local k m current channel last dropped sent shown) h = record {
    controls = local k m current channel last dropped sent shown;
    hooking = h;
  }
  switch-IsConsistent true (remote anchor k m current channel last dropped sent hidden) h = record {
    controls = remote anchor k m current channel last dropped sent hidden;
    hooking = h;
  }
  switch-IsConsistent {s = s} false (remote anchor k m current channel last dropped sent hidden) h =
      let (shown, kept) = unhide_cursor-IsShown w display hooked doc s in
      record {
        controls = local k m current channel last dropped sent shown;
        hooking = subst (λ hs. Hooking hs current k m) (sym kept) h;
      }
  switch-IsConsistent {s = s} true (local k m current channel last dropped sent shown) h =
      elim (Option-cases (w.cursor_pos s)) [
        | inl e ↦
            rw (e, begin_remote_control)
              (record { controls = local k m current channel last dropped sent shown; hooking = h })
        | inr (cursor, e) ↦
            let pinned = (w.set_cursor_pos cursor s).0 in
            let (hidden, kept) = hide_cursor-IsHidden w display hooked doc pinned in
            rw (e, begin_remote_control)
              (record {
                controls = remote cursor k m current channel (some cursor) dropped sent hidden;
                hooking =
                    subst (λ hs. Hooking hs current k m) (sym (kept ∙ doc.move_hooked cursor s)) h;
              })
      ]

  pub set_remote_control_active-IsConsistent :
      {c : Capture} {s : S} (active : Bool)
      → Consistent c s
      → Consistent
          ((set_remote_control_active w active c s).0)
          ((set_remote_control_active w active c s).1)
  unfolding set_remote_control_active sync_ui_call
  set_remote_control_active-IsConsistent {c} {s} active h = elim (Bool-cases (w.posts s)) [
    | inl p ↦ rw p (switch-IsConsistent active h.controls h.hooking)
    | inr p ↦ rw p h
  ]
