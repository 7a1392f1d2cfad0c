-- ===== src/Platform/Win32/Capture/Loops.antt =====
-- src/platform/win32.cpp, Win32InputCapture: the loops over `ShowCursor` on a documented Windows.
use mksync.Prelude.{
  ℕ, zero, suc, ◌≡◌, ℤ, pos, negsuc, pos_part, neg_part, leb_ℤ, ltb_ℤ, ◌≤ℤ◌, ◌<ℤ◌, ◌-ℤ◌, ◌+ℤ◌, true,
  false, List, arith, Bool-cases, int_laws, refl, ◌∙◌, inl, inr,
}
use mksync.Platform.Win32.Desktop.{Desktop, IsDocumented}
use mksync.Platform.Win32.Capture.Cursor.{hide_loop, hide_cursor, unhide_loop, unhide_cursor}

count_down : (a : ℤ) (n : ℕ) → a <ℤ pos (suc n) → a -ℤ pos 1 <ℤ pos n
count_down a n h = omega int_laws

below : (a : ℤ) → leb_ℤ (pos 0) a ≡ false → a <ℤ pos 0
below a h = ground arith

above : (a : ℤ) → ltb_ℤ a (pos 0) ≡ false → pos 0 ≤ℤ a
above a h = ground arith

reached : (a : ℤ) → negsuc 0 <ℤ a → pos 0 ≤ℤ a
reached a h = ground arith

count_up : (a : ℤ) (n : ℕ) → negsuc (suc n) <ℤ a → negsuc n <ℤ a +ℤ pos 1
count_up a n h = omega int_laws

enough_down : (a : ℤ) → a <ℤ pos (suc (pos_part a))
enough_down a = ground arith

enough_up : (a : ℤ) → negsuc (suc (neg_part a)) <ℤ a
enough_up a = ground arith

module _ {S : Type 0} (w : Desktop S) (display : S → ℤ) (hooked : S → List ℕ) where
  -- A cursor that is shown has a display count of at least 0.
  abbrev pub IsHidden : S → S → Type 0
  IsHidden s t = (display t <ℤ pos 0) × (hooked t ≡ hooked s)

  abbrev pub IsShown : S → S → Type 0
  IsShown s t = (pos 0 ≤ℤ display t) × (hooked t ≡ hooked s)

  module _ (doc : IsDocumented w display hooked) where
    hide_loop-IsHidden :
        (rounds : ℕ) (s : S) (count : ℤ)
        → count ≡ display s
        → count <ℤ pos rounds
        → IsHidden s ((hide_loop w rounds (s, count)).0)
    unfolding hide_loop
    hide_loop-IsHidden zero s count e h = (rw (← e) h, refl)
    hide_loop-IsHidden (suc rounds) s count e h = elim (Bool-cases (leb_ℤ (pos 0) count)) [
      | inl t ↦
          let p = w.show_cursor false s in
          let counted : p.1 ≡ count -ℤ pos 1 = rw e (doc.answers false s ∙ doc.hides s) in
          let rest =
            hide_loop-IsHidden rounds p.0 p.1 (doc.answers false s)
              (rw counted (count_down count rounds h)) in
          rw (t, hide_loop) (rest.0, rest.1 ∙ doc.show_hooked false s)
      | inr f ↦ rw (f, hide_loop) (rw (← e) (below count f), refl)
    ]

    unhide_loop-IsShown :
        (rounds : ℕ) (s : S) (count : ℤ)
        → count ≡ display s
        → negsuc rounds <ℤ count
        → IsShown s ((unhide_loop w rounds (s, count)).0)
    unfolding unhide_loop
    unhide_loop-IsShown zero s count e h = (rw (← e) (reached count h), refl)
    unhide_loop-IsShown (suc rounds) s count e h = elim (Bool-cases (ltb_ℤ count (pos 0))) [
      | inl t ↦
          let p = w.show_cursor true s in
          let counted : p.1 ≡ count +ℤ pos 1 = rw e (doc.answers true s ∙ doc.shows s) in
          let rest =
            unhide_loop-IsShown rounds p.0 p.1 (doc.answers true s)
              (rw counted (count_up count rounds h)) in
          rw (t, unhide_loop) (rest.0, rest.1 ∙ doc.show_hooked true s)
      | inr f ↦ rw (f, unhide_loop) (rw (← e) (above count f), refl)
    ]

    -- The loop that hides the cursor ends by its test, with the cursor hidden.
    pub hide_cursor-IsHidden : (s : S) → IsHidden s ((hide_cursor w s).0)
    unfolding hide_cursor
    hide_cursor-IsHidden s =
        let p = w.show_cursor false s in
        let rest =
          hide_loop-IsHidden (suc (pos_part p.1)) p.0 p.1 (doc.answers false s) (enough_down p.1) in
        (rest.0, rest.1 ∙ doc.show_hooked false s)

    -- The loop that shows it again ends by its test, with the cursor shown.
    pub unhide_cursor-IsShown : (s : S) → IsShown s ((unhide_cursor w s).0)
    unfolding unhide_cursor
    unhide_cursor-IsShown s =
        let p = w.show_cursor true s in
        let rest =
          unhide_loop-IsShown (suc (neg_part p.1)) p.0 p.1 (doc.answers true s) (enough_up p.1) in
        (rest.0, rest.1 ∙ doc.show_hooked true s)
