-- ===== src/Platform/Win32/Keys/Inverse.antt =====
-- src/platform/win32_key.hpp: a key that is injected on one Windows machine, as another one captures
-- its virtual key.
use mksync.Prelude.{
  ℕ, ◌+◌, ◌<◌, leb, ◌≡◌, refl, sym, ◌∙◌, ◌==◌, ==_iff, Bool, true, ◌||◌, String, none, some,
  if◌then◌else◌,
}
use mksync.Core.Key
use mksync.Platform.KeyTable.{switch, switch_code, is_between, all}
use mksync.Platform.KeyTable.Documented.{
  documented_code, is_listed, IsDocumented, all_below, all_below_sound, switch_code-documented,
  value_of-documented,
}
use mksync.Platform.Win32.Keys.{
  Win32Key, virtual_key_cases, win32_cases, is_extended_key, virtual_key_to_key, key_to_win32,
}
use mksync.Platform.Win32.Keys.Defined.{virtual_keys, winuser}

-- What a key comes back as.
abbrev pub win32_echo : ℕ → ℕ
win32_echo key =
    if is_between Key.digit1 Key.digit9 key
    then key + 10
    else if Key.keypad_enter == key
    then Key.enter
    else if is_between Key.f13 Key.f24 key
        || (is_between Key.mute Key.volume_down key || leb Key.media_play_pause key)
    then Key.none
    else key

abbrev comes_back : ℕ → Bool
comes_back key = elim (key_to_win32 winuser key 0) [
  | none ↦ true
  | some w ↦ virtual_key_to_key winuser w.virtual_key == win32_echo key
]

all_come_back : all_below 256 comes_back ≡ true
unfolding key_to_win32 is_extended_key virtual_key_to_key switch_code switch documented_code
all_come_back = refl

cases_listed : all (λ e. is_listed virtual_keys e.0) virtual_key_cases ≡ true
unfolding is_listed
cases_listed = refl

names_listed : all (λ e. is_listed virtual_keys e.1) win32_cases ≡ true
unfolding is_listed
names_listed = refl

came_back :
    (k : ℕ) (w : Win32Key)
    → key_to_win32 winuser k 0 ≡ some w
    → comes_back k ≡ true
    → virtual_key_to_key winuser w.virtual_key ≡ win32_echo k
came_back k w e h =
    (==_iff (virtual_key_to_key winuser w.virtual_key) (win32_echo k)).0 (rw (e, comes_back) at h)

module _ (code : String → ℕ) (defined : IsDocumented virtual_keys code) where
  virtual_key_to_key-documented : (v : ℕ) → virtual_key_to_key code v ≡ virtual_key_to_key winuser v
  unfolding virtual_key_to_key
  virtual_key_to_key-documented v =
      rw
        (switch_code-documented virtual_keys code defined Key.none virtual_key_cases v cases_listed)
        refl

  key_to_win32-documented : (k : ℕ) → key_to_win32 code k 0 ≡ key_to_win32 winuser k 0
  unfolding key_to_win32 is_listed
  key_to_win32-documented k =
      rw
        (
          defined "VK_F1" refl,
          defined "VK_F13" refl,
          defined "VK_NUMPAD1" refl,
          value_of-documented virtual_keys code defined win32_cases k names_listed,
        )
        refl

  -- If <Windows.h> defines the virtual keys as documented, a key that has a virtual key comes back
  -- from it as the same key, with these exceptions: Digit1 to Digit9 come back as ten usages
  -- further, that is as Enter to RightBrace, KeypadEnter as Enter, and F13 to F24 and the media keys
  -- as no key.
  pub virtual_key_to_key-key_to_win32 :
      (k : ℕ) (w : Win32Key)
      → k < 256
      → key_to_win32 code k 0 ≡ some w
      → virtual_key_to_key code w.virtual_key ≡ win32_echo k
  virtual_key_to_key-key_to_win32 k w h e =
      virtual_key_to_key-documented w.virtual_key
      ∙ came_back k w (sym (key_to_win32-documented k) ∙ e)
          (all_below_sound 256 comes_back k all_come_back h)
