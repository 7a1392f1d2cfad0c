-- ===== src/Platform/Xcb/Injector/Keyboard.antt =====
-- src/platform/xcb.cpp: a key event that is injected, as a capture with the same keyboard sees it.
use mksync.Prelude.{
  ℕ, ◌<◌, ◌==◌, ◌≡◌, ◌≢◌, refl, Bool, false, not, List, ◌∷◌, Option, none, some, ok, if◌then◌else◌,
  ==_iff, Bool-cases, inl, inr,
}
use mksync.Core.Key
use mksync.Core.Events.{InputEvent, KeyEvent, move_event, button_event, wheel_event, key_event}
use mksync.Platform.Xcb.Connection.{check}
use mksync.Platform.Xcb.Keysyms.{key_sym_for}
use mksync.Platform.Xcb.Keysyms.Defined.{IsKeysymdef}
use mksync.Platform.Xcb.Keysyms.Inverse.{is_one_way, translate_key_sym-key_sym_for}
use mksync.Platform.Xcb.Events.{Display, translate_key}
use mksync.Platform.Xcb.Injector.{FakeInput, fake_key, Target, fake_input, key_code_for, inject_key}
use mksync.Platform.Xcb.Injector.Wheel.{IsWilling}

-- The key of a key event, and whether it is a release.
abbrev pub key_of : InputEvent → Option (ℕ × Bool)
key_of (key_event k) = some (k.key, k.release)
key_of (move_event m) = none
key_of (button_event b) = none
key_of (wheel_event w) = none

not_zero : (code : ℕ) → code ≢ 0 → (code == 0) ≡ false
not_zero code h = elim (Bool-cases (code == 0)) [
  | inl e ↦ absurd (h ((==_iff code 0).0 e))
  | inr e ↦ e
]

injected :
    (t : Target) (event : KeyEvent) (s code : ℕ) (rest : List ℕ) (log : List FakeInput)
    → IsWilling t
    → key_sym_for t.code event.key ≡ some s
    → t.key_codes_of s ≡ some (code ∷ rest)
    → code ≢ 0
    → inject_key t event log ≡ (fake_key code (not event.release) ∷ log, ok tt)
unfolding inject_key key_code_for fake_input check
injected t event s code rest log willing k codes nz =
    rw
      (
        inject_key,
        key_code_for,
        k,
        codes,
        not_zero code nz,
        willing.0 log (fake_key code (not event.release)),
        willing.1 (fake_key code (not event.release) ∷ log),
      )
      refl

-- If the headers define the keysyms as documented, the server accepts every request, and the
-- keyboard gives a key's keysym a first key code which has that keysym: the injection of the key
-- makes one request, with that code, and a capture on this keyboard turns the code into the same
-- key, pressed or released as it was; but for F13 to F24 and the media keys, which are lost.
pub key_of-inject_key :
    (t : Target) (d : Display) (event : KeyEvent) (s code : ℕ) (rest : List ℕ)
    (log : List FakeInput)
    → IsKeysymdef t.code
    → d.code ≡ t.code
    → IsWilling t
    → event.key < 256
    → key_sym_for t.code event.key ≡ some s
    → t.key_codes_of s ≡ some (code ∷ rest)
    → code ≢ 0
    → d.key_sym_of code ≡ s
    → (inject_key t event log ≡ (fake_key code (not event.release) ∷ log, ok tt))
      × (key_of (translate_key d code event.release)
          ≡ some (if is_one_way event.key then Key.none else event.key, event.release))
unfolding translate_key
key_of-inject_key t d event s code rest log defined same willing small k codes nz back = (
  injected t event s code rest log willing k codes nz,
  rw (same, back, translate_key_sym-key_sym_for t.code defined event.key s small k) refl,
)
