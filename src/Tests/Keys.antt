-- ===== src/Tests/Keys.antt =====
-- The key tables on values for the macros.
use Prim.Native.String.{[] as empty_text, ◌∷◌ as char_then}
use Prim.Native.Char.{code}
use mksync.Prelude.{
  false, ℕ, ◌+◌, ◌*◌, ◌==◌, ==_iff, ◌≡◌, refl, true, not, ◌||◌, String, some, str_eq, str_eq_iff,
  arith,
}
use mksync.Core.Key
use mksync.Platform.KeyTable.{switch, all, all-switch, AreDistinct}
use mksync.Platform.Win32.Keys.{key_to_win32, virtual_key_to_key}
use mksync.Platform.Win32.Keys.Defined.{winuser}
use mksync.Platform.Win32.Keys.Inverse.{win32_echo, virtual_key_to_key-key_to_win32}
use mksync.Platform.Wayland.Keymap.{evdev_names, evdev_key_code, key_from_evdev}
use mksync.Platform.Wayland.Keymap.Inverse.{canonical, key_from_evdev-evdev_key_code}

-- A number for each text, which differs where the texts of the table do.
unfoldable text_code : String → ℕ
text_code empty_text = 0
text_code (char_then c s) = code c + 128 * text_code s

codes_differ :
    all
      (λ e. all (λ f. not (text_code e.1 == text_code f.1) || str_eq e.1 f.1) evdev_names)
      evdev_names
    ≡ true
unfolding text_code
codes_differ = refl

text_code-AreDistinct : AreDistinct text_code evdev_names
text_code-AreDistinct k j s t ks jt e =
    let row =
      all-switch
        (λ e. all (λ f. not (text_code e.1 == text_code f.1) || str_eq e.1 f.1) evdev_names)
        evdev_names k s codes_differ ks in
    let cell =
      all-switch (λ f. not (text_code s == text_code f.1) || str_eq s f.1) evdev_names j t row jt in
    differ_or_same (text_code s) (text_code t) e cell
  where
    differ_or_same : (m n : ℕ) → m ≡ n → (not (m == n) || str_eq s t) ≡ true → s ≡ t
    differ_or_same m n e h = ground (arith, e, h, str_eq_iff s t, ==_iff m n)

escape_named : switch Key.esc evdev_names ≡ some "KEY_ESC"
unfolding switch
escape_named = refl

key_from_evdev-evdev_key_code_example :
    (evdev_key_code text_code Key.esc ≡ some (text_code "KEY_ESC"))
    × (key_from_evdev text_code (text_code "KEY_ESC") ≡ canonical Key.esc)
key_from_evdev-evdev_key_code_example =
    key_from_evdev-evdev_key_code text_code Key.esc "KEY_ESC" text_code-AreDistinct escape_named

digit_named :
    key_to_win32 winuser Key.digit1 0 ≡ some (record { virtual_key = 0x31; extended = false })
unfolding key_to_win32
digit_named = refl

virtual_key_to_key-key_to_win32_example : virtual_key_to_key winuser 0x31 ≡ win32_echo Key.digit1
virtual_key_to_key-key_to_win32_example =
    virtual_key_to_key-key_to_win32 winuser (λ name listed. refl) Key.digit1
      (record { virtual_key = 0x31; extended = false }) (omega arith) digit_named
