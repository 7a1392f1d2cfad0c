-- ===== src/Platform/Win32/Capture/Holding.antt =====
-- src/platform/win32.cpp, Win32InputCapture: what Windows holds for a capture, and how remote control
-- and the hooks are let go.
use mksync.Prelude.{
  ℕ, ℤ, pos, ◌≤ℤ◌, ◌<ℤ◌, Bool, true, false, List, [], ◌∷◌, Option, none, some, ◌≡◌, refl, ◌∙◌,
  ==_iff, arith,
}
use mksync.Core.Events.{InputEvent}
use mksync.Platform.Xcb.Capture.Resources.{remove}
use mksync.Platform.Win32.Desktop.{Desktop, IsDocumented, Point}
use mksync.Platform.Win32.Capture.{Capture}
use mksync.Platform.Win32.Capture.Cursor.{end_remote_control, unhide_cursor}
use mksync.Platform.Win32.Capture.Calls.{remove_hooks, unhook_if}
use mksync.Platform.Win32.Capture.Loops.{unhide_cursor-IsShown}

-- The hooks of two handles.
abbrev pub handles : Option ℕ → Option ℕ → List ℕ
handles none none = []
handles none (some m) = m ∷ []
handles (some k) none = k ∷ []
handles (some k) (some m) = k ∷ m ∷ []

-- No hook is held, or both are and the capture is the current one.
pub data Hooking (held : List ℕ) : Bool → Option ℕ → Option ℕ → Type 0 where
  unhooked : held ≡ [] → Hooking held false none none
  installed : (k m : ℕ) → held ≡ k ∷ m ∷ [] → Hooking held true (some k) (some m)

module _ {S : Type 0} (display : S → ℤ) where
  -- Without remote control the cursor is shown, and there is no anchor; with it the cursor is
  -- hidden, and there is one.
  pub data Controls : Capture → S → Type 0 where
    local :
        (k m : Option ℕ) (current channel : Bool) (last : Option Point) (dropped : ℕ)
        (sent : List InputEvent) {s : S}
        → pos 0 ≤ℤ display s
        → Controls
            (record {
              keyboard_hook = k;
              mouse_hook = m;
              is_current = current;
              has_channel = channel;
              remote_control_active = false;
              cursor_hidden = false;
              remote_anchor = none;
              last_mouse_global = last;
              dropped_events = dropped;
              sent = sent;
            })
            s
    remote :
        (anchor : Point) (k m : Option ℕ) (current channel : Bool) (last : Option Point)
        (dropped : ℕ) (sent : List InputEvent) {s : S}
        → display s <ℤ pos 0
        → Controls
            (record {
              keyboard_hook = k;
              mouse_hook = m;
              is_current = current;
              has_channel = channel;
              remote_control_active = true;
              cursor_hidden = true;
              remote_anchor = some anchor;
              last_mouse_global = last;
              dropped_events = dropped;
              sent = sent;
            })
            s

  pub record IsConsistent (hooked : S → List ℕ) (c : Capture) (s : S) : Type 0 where
    pub controls : Controls c s
    pub hooking : Hooking (hooked s) c.is_current c.keyboard_hook c.mouse_hook

  -- Nothing is held, the cursor is shown and there is no remote control.
  pub record IsReleased (hooked : S → List ℕ) (c : Capture) (s : S) : Type 0 where
    pub controls : Controls c s
    pub local : c.remote_control_active ≡ false
    pub unhooked : Hooking (hooked s) c.is_current c.keyboard_hook c.mouse_hook
    pub not_current : c.is_current ≡ false
    pub shown : pos 0 ≤ℤ display s
    pub nothing_held : hooked s ≡ []

remove_self : (i : ℕ) → remove i (i ∷ []) ≡ []
unfolding remove
remove_self i = ground (arith, ==_iff i i)

remove_both : (k m : ℕ) → remove k (remove m (k ∷ m ∷ [])) ≡ []
unfolding remove
remove_both k m = ground (arith, ==_iff k k, ==_iff m m, ==_iff m k)

module _ {S : Type 0} (w : Desktop S) (display : S → ℤ) (hooked : S → List ℕ)
    (doc : IsDocumented w display hooked) where
  unhooked_all :
      (k m : Option ℕ) (s : S)
      → hooked s ≡ handles k m
      → hooked (unhook_if w k (unhook_if w m s)) ≡ []
  unhooked_all none none s h = h
  unhooked_all none (some m) s h = rw (doc.unhook_hooked m s, h, remove_self m) refl
  unhooked_all (some k) none s h = rw (doc.unhook_hooked k s, h, remove_self k) refl
  unhooked_all (some k) (some m) s h =
      rw (doc.unhook_hooked k (w.unhook m s), doc.unhook_hooked m s, h, remove_both k m) refl

  unhooked_shown :
      (k m : Option ℕ) (s : S)
      → pos 0 ≤ℤ display s
      → pos 0 ≤ℤ display (unhook_if w k (unhook_if w m s))
  unhooked_shown none none s h = h
  unhooked_shown none (some m) s h = rw (doc.unhook_display m s) h
  unhooked_shown (some k) none s h = rw (doc.unhook_display k s) h
  unhooked_shown (some k) (some m) s h =
      rw (doc.unhook_display k (w.unhook m s), doc.unhook_display m s) h

  pub remove_hooks-IsReleased :
      {c : Capture} {s : S}
      → Controls display c s
      → hooked s ≡ handles c.keyboard_hook c.mouse_hook
      → IsReleased display hooked ((remove_hooks w c s).0) ((remove_hooks w c s).1)
  unfolding remove_hooks end_remote_control
  remove_hooks-IsReleased {s = s} (local k m current channel last dropped sent shown) h =
      let shown' = unhooked_shown k m s shown in
      let empty = unhooked_all k m s h in
      record {
        controls = local none none false channel last dropped sent shown';
        local = refl;
        unhooked = unhooked empty;
        not_current = refl;
        shown = shown';
        nothing_held = empty;
      }
  remove_hooks-IsReleased {s = s} (remote anchor k m current channel last dropped sent hidden) h =
      let (shown, kept) = unhide_cursor-IsShown w display hooked doc s in
      let s' = (unhide_cursor w s).0 in
      let shown' = unhooked_shown k m s' shown in
      let empty = unhooked_all k m s' (kept ∙ h) in
      record {
        controls = local none none false channel last dropped sent shown';
        local = refl;
        unhooked = unhooked empty;
        not_current = refl;
        shown = shown';
        nothing_held = empty;
      }
