-- ===== src/Platform/Xcb/Capture/Holding.antt =====
-- src/platform/xcb.cpp, XcbInputCapture: the states that its operations lead to.
use mksync.Prelude.{
  Option-cases, arith, Bool-cases, Result-cases, inl, inr, ℕ, ℤ, Bool, true, false, List, [], ◌∷◌,
  Option, none, some, ◌≡◌, refl, Result, ok, err,
}
use mksync.Platform.Xcb.Connection.{Errc, io_error, check}
use mksync.Platform.Xcb.Capture.{
  Capture, Held, Answers, success, already_grabbed, invalid_time, not_viewable, frozen, unknown,
}
use mksync.Platform.Xcb.Capture.Resources.{
  remove, fill_and_create_cursor, ensure_hidden_cursor, destroy_grab_window, ensure_grab_window,
}
use mksync.Platform.Xcb.Capture.Grab.{
  is_success, ungrab_keyboard, ungrab_pointer, release_remote_control, grab_keyboard, take_keyboard,
  grab, grab_status_error, with_window, with_cursor, acquire_remote_control,
}

abbrev pub as_list : Option ℕ → List ℕ
as_list none = []
as_list (some id) = id ∷ []

-- Nothing is held but the hidden cursor.
abbrev pub only_cursor : Option ℕ → Held
only_cursor cursor = record {
  pixmaps = 0;
  gcs = 0;
  cursors = as_list cursor;
  windows = [];
  pointer = false;
  keyboard = false;
}

-- `connected`, and then `mHiddenCursor`, with no grab.
abbrev pub idle : Bool → Option ℕ → Option (ℤ × ℤ) → Bool → Bool → Capture
idle connected cursor last symbols poller = record {
  connected = connected;
  has_key_symbols = symbols;
  has_poller = poller;
  hidden_cursor = cursor;
  grab_window = none;
  remote_control_active = false;
  pointer_grabbed = false;
  keyboard_grabbed = false;
  last_core_pointer = last;
  held = only_cursor cursor;
}

-- A cursor, a window and the pointer are held, and perhaps the keyboard.
abbrev pub active : ℕ → ℕ → Bool → Option (ℤ × ℤ) → Bool → Bool → Capture
active cursor window keyboard last symbols poller = record {
  connected = true;
  has_key_symbols = symbols;
  has_poller = poller;
  hidden_cursor = some cursor;
  grab_window = some window;
  remote_control_active = true;
  pointer_grabbed = true;
  keyboard_grabbed = keyboard;
  last_core_pointer = last;
  held = record {
    pixmaps = 0;
    gcs = 0;
    cursors = cursor ∷ [];
    windows = window ∷ [];
    pointer = true;
    keyboard = keyboard;
  };
}

pub data IsConsistent : Capture → Type 0 where
  is_closed : IsConsistent (idle false none none false false)
  is_idle :
      (cursor : Option ℕ) (last : Option (ℤ × ℤ)) (symbols poller : Bool)
      → IsConsistent (idle true cursor last symbols poller)
  is_active :
      (cursor window : ℕ) (keyboard : Bool) (last : Option (ℤ × ℤ)) (symbols poller : Bool)
      → IsConsistent (active cursor window keyboard last symbols poller)

abbrev pub initial : Capture
initial = idle false none none false false

pub remove_one : (id : ℕ) → remove id (id ∷ []) ≡ []
unfolding remove
remove_one id = ground arith

pub release-idle :
    (cursor window : ℕ) (keyboard : Bool) (last : Option (ℤ × ℤ)) (symbols poller : Bool)
    → release_remote_control (active cursor window keyboard last symbols poller)
      ≡ idle true (some cursor) none symbols poller
unfolding release_remote_control destroy_grab_window ungrab_pointer ungrab_keyboard
release-idle cursor window true last symbols poller = rw (remove_one window) refl
release-idle cursor window false last symbols poller = rw (remove_one window) refl

-- An answer of acquireRemoteControl: an error with nothing but the cursor held, or the grab.
pub data Outcome (symbols poller : Bool) : Capture × Result Errc (Unit {0}) → Type 0 where
  failed :
      (cursor : Option ℕ) (last : Option (ℤ × ℤ)) (e : Errc)
      → Outcome symbols poller (idle true cursor last symbols poller, err e)
  grabbed :
      (cursor window : ℕ) (keyboard : Bool) (last : Option (ℤ × ℤ))
      → Outcome symbols poller (active cursor window keyboard last symbols poller, ok tt)

-- An answer of ensureHiddenCursor: an error, or the cursor, with no pixmap and no context left.
data Hidden (last : Option (ℤ × ℤ)) (symbols poller : Bool) : Capture × Result Errc ℕ → Type 0 where
  no_cursor : (e : Errc) → Hidden last symbols poller (idle true none last symbols poller, err e)
  has_cursor :
      (id : ℕ) → Hidden last symbols poller (idle true (some id) last symbols poller, ok id)

module _ (a : Answers) (last : Option (ℤ × ℤ)) (symbols poller : Bool) where
  ensure_hidden_cursor-Hidden :
      (cursor : Option ℕ)
      → Hidden last symbols poller (ensure_hidden_cursor a (idle true cursor last symbols poller))
  unfolding ensure_hidden_cursor fill_and_create_cursor check
  ensure_hidden_cursor-Hidden (some id) = has_cursor id
  ensure_hidden_cursor-Hidden none = elim (Bool-cases a.creates_pixmap) [
    | inr p ↦ rw (p) (no_cursor io_error)
    | inl p ↦ elim (Bool-cases a.creates_gc) [
      | inr g ↦ rw (p, g) (no_cursor io_error)
      | inl g ↦ elim (Bool-cases a.fills) [
        | inr f ↦ rw (p, g, f) (no_cursor io_error)
        | inl f ↦ elim (Bool-cases a.creates_cursor) [
          | inr k ↦ rw (p, g, f, k) (no_cursor io_error)
          | inl k ↦ rw (p, g, f, k) (has_cursor a.cursor_id)
        ]
      ]
    ]
  ]

  take_keyboard-Outcome :
      (cursor window : ℕ)
      → Outcome symbols poller (
          take_keyboard a (record (idle true (some cursor) last symbols poller) {
            grab_window = some window;
            pointer_grabbed = true;
            held = record (only_cursor (some cursor)) { windows = window ∷ []; pointer = true };
          }))
  unfolding take_keyboard grab_keyboard
  take_keyboard-Outcome cursor window = elim (Bool-cases (is_success a.grabs_keyboard)) [
    | inl k ↦ elim (Result-cases a.flushes) [
      | inl (u, f) ↦ rw (f, k) (grabbed cursor window true a.query_pointer)
      | inr (e, f) ↦
          rw (f, k, release-idle cursor window true a.query_pointer symbols poller)
            (failed (some cursor) none e)
    ]
    | inr k ↦ elim (Result-cases a.flushes) [
      | inl (u, f) ↦ rw (f, k) (grabbed cursor window false a.query_pointer)
      | inr (e, f) ↦
          rw (f, k, release-idle cursor window false a.query_pointer symbols poller)
            (failed (some cursor) none e)
    ]
  ]

  grab-Outcome :
      (cursor window : ℕ)
      → Outcome symbols poller (
          grab a (record (idle true (some cursor) last symbols poller) {
            grab_window = some window;
            held = record (only_cursor (some cursor)) { windows = window ∷ [] };
          }))
  unfolding grab is_success destroy_grab_window
  grab-Outcome cursor window = elim (Option-cases a.grabs_pointer) [
    | inl n ↦ rw (n, remove_one window) (failed (some cursor) last io_error)
    | inr (s, g) ↦
        elim s as (λ s. a.grabs_pointer ≡ some s → _) [
          | success ↦ λ g. rw (g) (take_keyboard-Outcome cursor window)
          | already_grabbed ↦ λ g.
              rw (g, remove_one window)
                (failed (some cursor) last (grab_status_error already_grabbed))
          | invalid_time ↦ λ g.
              rw (g, remove_one window) (failed (some cursor) last (grab_status_error invalid_time))
          | not_viewable ↦ λ g.
              rw (g, remove_one window) (failed (some cursor) last (grab_status_error not_viewable))
          | frozen ↦
              λ g. rw (g, remove_one window) (failed (some cursor) last (grab_status_error frozen))
          | unknown ↦
              λ g. rw (g, remove_one window) (failed (some cursor) last (grab_status_error unknown))
        ]
          g
  ]

  with_window-Outcome :
      (cursor : ℕ)
      → Outcome symbols poller
          (with_window a (ensure_grab_window a (idle true (some cursor) last symbols poller)))
  unfolding with_window ensure_grab_window check
  with_window-Outcome cursor = elim (Bool-cases a.creates_window) [
    | inr w ↦ rw (w) (failed (some cursor) last io_error)
    | inl w ↦ elim (Bool-cases a.maps_window) [
      | inr m ↦ rw (w, m, remove_one a.window_id) (failed (some cursor) last io_error)
      | inl m ↦ rw (w, m) (grab-Outcome cursor a.window_id)
    ]
  ]

  with_cursor-Outcome :
      {r : Capture × Result Errc ℕ}
      → Hidden last symbols poller r
      → Outcome symbols poller (with_cursor a r)
  unfolding with_cursor
  with_cursor-Outcome (no_cursor e) = failed none last e
  with_cursor-Outcome (has_cursor id) = with_window-Outcome id

  -- From a state without a grab, acquireRemoteControl leads to one without a grab and an error, or
  -- to the grab.
  pub acquire_remote_control-Outcome :
      (cursor : Option ℕ)
      → Outcome symbols poller (acquire_remote_control a (idle true cursor last symbols poller))
  unfolding acquire_remote_control
  acquire_remote_control-Outcome cursor = with_cursor-Outcome (ensure_hidden_cursor-Hidden cursor)

pub Outcome-IsConsistent :
    {symbols poller : Bool} {c : Capture} {r : Result Errc (Unit {0})}
    → Outcome symbols poller (c, r)
    → IsConsistent c
Outcome-IsConsistent (failed cursor last e) = is_idle cursor last _ _
Outcome-IsConsistent (grabbed cursor window keyboard last) =
    is_active cursor window keyboard last _ _
