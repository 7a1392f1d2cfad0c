-- ===== src/Platform/Wayland/Keymap.antt =====
-- src/platform/wayland_keymap.hpp: keys and Linux input event codes. `code` gives the values of the
-- macros of <linux/input-event-codes.h>.
pub mod Inverse
use mksync.Prelude.{
  ℕ, zero, suc, ◌==◌, Bool, false, String, List, [], ◌∷◌, ◌++◌, Option, none, some, if◌then◌else◌,
}
use mksync.Core.Key
use mksync.Platform.KeyTable.{switch, value_of}

abbrev letters : List (ℕ × String)
letters =
    (Key.a, "KEY_A")
    ∷ (Key.b, "KEY_B")
    ∷ (Key.c, "KEY_C")
    ∷ (Key.d, "KEY_D")
    ∷ (Key.e, "KEY_E")
    ∷ (Key.f, "KEY_F")
    ∷ (Key.g, "KEY_G")
    ∷ (Key.h, "KEY_H")
    ∷ (Key.i, "KEY_I")
    ∷ (Key.j, "KEY_J")
    ∷ (Key.k, "KEY_K")
    ∷ (Key.l, "KEY_L")
    ∷ (Key.m, "KEY_M")
    ∷ (Key.n, "KEY_N")
    ∷ (Key.o, "KEY_O")
    ∷ (Key.p, "KEY_P")
    ∷ (Key.q, "KEY_Q")
    ∷ (Key.r, "KEY_R")
    ∷ (Key.s, "KEY_S")
    ∷ (Key.t, "KEY_T")
    ∷ (Key.u, "KEY_U")
    ∷ (Key.v, "KEY_V")
    ∷ (Key.w, "KEY_W")
    ∷ (Key.x, "KEY_X")
    ∷ (Key.y, "KEY_Y")
    ∷ (Key.z, "KEY_Z")
    ∷ []

abbrev digits : List (ℕ × String)
digits =
    (Key.digit1, "KEY_1")
    ∷ (Key.digit2, "KEY_2")
    ∷ (Key.digit3, "KEY_3")
    ∷ (Key.digit4, "KEY_4")
    ∷ (Key.digit5, "KEY_5")
    ∷ (Key.digit6, "KEY_6")
    ∷ (Key.digit7, "KEY_7")
    ∷ (Key.digit8, "KEY_8")
    ∷ (Key.digit9, "KEY_9")
    ∷ (Key.digit0, "KEY_0")
    ∷ []

abbrev symbols : List (ℕ × String)
symbols =
    (Key.enter, "KEY_ENTER")
    ∷ (Key.esc, "KEY_ESC")
    ∷ (Key.backspace, "KEY_BACKSPACE")
    ∷ (Key.tab, "KEY_TAB")
    ∷ (Key.space, "KEY_SPACE")
    ∷ (Key.minus, "KEY_MINUS")
    ∷ (Key.equal, "KEY_EQUAL")
    ∷ (Key.left_brace, "KEY_LEFTBRACE")
    ∷ (Key.right_brace, "KEY_RIGHTBRACE")
    ∷ (Key.backslash, "KEY_BACKSLASH")
    ∷ (Key.hash_tilde, "KEY_102ND")
    ∷ (Key.semicolon, "KEY_SEMICOLON")
    ∷ (Key.apostrophe, "KEY_APOSTROPHE")
    ∷ (Key.grave, "KEY_GRAVE")
    ∷ (Key.comma, "KEY_COMMA")
    ∷ (Key.dot, "KEY_DOT")
    ∷ (Key.slash, "KEY_SLASH")
    ∷ (Key.caps_lock, "KEY_CAPSLOCK")
    ∷ []

abbrev function_keys : List (ℕ × String)
function_keys =
    (Key.f1, "KEY_F1")
    ∷ (Key.f2, "KEY_F2")
    ∷ (Key.f3, "KEY_F3")
    ∷ (Key.f4, "KEY_F4")
    ∷ (Key.f5, "KEY_F5")
    ∷ (Key.f6, "KEY_F6")
    ∷ (Key.f7, "KEY_F7")
    ∷ (Key.f8, "KEY_F8")
    ∷ (Key.f9, "KEY_F9")
    ∷ (Key.f10, "KEY_F10")
    ∷ (Key.f11, "KEY_F11")
    ∷ (Key.f12, "KEY_F12")
    ∷ (Key.f13, "KEY_F13")
    ∷ (Key.f14, "KEY_F14")
    ∷ (Key.f15, "KEY_F15")
    ∷ (Key.f16, "KEY_F16")
    ∷ (Key.f17, "KEY_F17")
    ∷ (Key.f18, "KEY_F18")
    ∷ (Key.f19, "KEY_F19")
    ∷ (Key.f20, "KEY_F20")
    ∷ (Key.f21, "KEY_F21")
    ∷ (Key.f22, "KEY_F22")
    ∷ (Key.f23, "KEY_F23")
    ∷ (Key.f24, "KEY_F24")
    ∷ []

abbrev navigation : List (ℕ × String)
navigation =
    (Key.sys_rq, "KEY_SYSRQ")
    ∷ (Key.scroll_lock, "KEY_SCROLLLOCK")
    ∷ (Key.pause, "KEY_PAUSE")
    ∷ (Key.insert, "KEY_INSERT")
    ∷ (Key.home, "KEY_HOME")
    ∷ (Key.page_up, "KEY_PAGEUP")
    ∷ (Key.delete, "KEY_DELETE")
    ∷ (Key.end, "KEY_END")
    ∷ (Key.page_down, "KEY_PAGEDOWN")
    ∷ (Key.right, "KEY_RIGHT")
    ∷ (Key.left, "KEY_LEFT")
    ∷ (Key.down, "KEY_DOWN")
    ∷ (Key.up, "KEY_UP")
    ∷ []

abbrev keypad : List (ℕ × String)
keypad =
    (Key.num_lock, "KEY_NUMLOCK")
    ∷ (Key.keypad_slash, "KEY_KPSLASH")
    ∷ (Key.keypad_asterisk, "KEY_KPASTERISK")
    ∷ (Key.keypad_minus, "KEY_KPMINUS")
    ∷ (Key.keypad_plus, "KEY_KPPLUS")
    ∷ (Key.keypad_enter, "KEY_KPENTER")
    ∷ (Key.keypad1, "KEY_KP1")
    ∷ (Key.keypad2, "KEY_KP2")
    ∷ (Key.keypad3, "KEY_KP3")
    ∷ (Key.keypad4, "KEY_KP4")
    ∷ (Key.keypad5, "KEY_KP5")
    ∷ (Key.keypad6, "KEY_KP6")
    ∷ (Key.keypad7, "KEY_KP7")
    ∷ (Key.keypad8, "KEY_KP8")
    ∷ (Key.keypad9, "KEY_KP9")
    ∷ (Key.keypad0, "KEY_KP0")
    ∷ (Key.keypad_dot, "KEY_KPDOT")
    ∷ (Key.key102nd, "KEY_102ND")
    ∷ (Key.compose, "KEY_COMPOSE")
    ∷ (Key.power, "KEY_POWER")
    ∷ (Key.keypad_equal, "KEY_KPEQUAL")
    ∷ (Key.keypad_comma, "KEY_KPCOMMA")
    ∷ []

abbrev editing : List (ℕ × String)
editing =
    (Key.open_key, "KEY_OPEN")
    ∷ (Key.help, "KEY_HELP")
    ∷ (Key.props, "KEY_PROPS")
    ∷ (Key.front, "KEY_FRONT")
    ∷ (Key.stop, "KEY_STOP")
    ∷ (Key.again, "KEY_AGAIN")
    ∷ (Key.undo, "KEY_UNDO")
    ∷ (Key.cut, "KEY_CUT")
    ∷ (Key.copy, "KEY_COPY")
    ∷ (Key.paste, "KEY_PASTE")
    ∷ (Key.find, "KEY_FIND")
    ∷ []

abbrev international : List (ℕ × String)
international =
    (Key.ro, "KEY_RO")
    ∷ (Key.katakana_hiragana, "KEY_KATAKANAHIRAGANA")
    ∷ (Key.yen, "KEY_YEN")
    ∷ (Key.henkan, "KEY_HENKAN")
    ∷ (Key.muhenkan, "KEY_MUHENKAN")
    ∷ (Key.keypad_jp_comma, "KEY_KPJPCOMMA")
    ∷ (Key.hangeul, "KEY_HANGEUL")
    ∷ (Key.hanja, "KEY_HANJA")
    ∷ (Key.katakana, "KEY_KATAKANA")
    ∷ (Key.hiragana, "KEY_HIRAGANA")
    ∷ (Key.zenkaku_hankaku, "KEY_ZENKAKUHANKAKU")
    ∷ []

abbrev modifiers : List (ℕ × String)
modifiers =
    (Key.left_ctrl, "KEY_LEFTCTRL")
    ∷ (Key.right_ctrl, "KEY_RIGHTCTRL")
    ∷ (Key.left_shift, "KEY_LEFTSHIFT")
    ∷ (Key.right_shift, "KEY_RIGHTSHIFT")
    ∷ (Key.left_alt, "KEY_LEFTALT")
    ∷ (Key.right_alt, "KEY_RIGHTALT")
    ∷ (Key.left_meta, "KEY_LEFTMETA")
    ∷ (Key.right_meta, "KEY_RIGHTMETA")
    ∷ []

abbrev media : List (ℕ × String)
media =
    (Key.mute, "KEY_MUTE")
    ∷ (Key.media_mute, "KEY_MUTE")
    ∷ (Key.volume_up, "KEY_VOLUMEUP")
    ∷ (Key.media_volume_up, "KEY_VOLUMEUP")
    ∷ (Key.volume_down, "KEY_VOLUMEDOWN")
    ∷ (Key.media_volume_down, "KEY_VOLUMEDOWN")
    ∷ (Key.media_play_pause, "KEY_PLAYPAUSE")
    ∷ (Key.media_stop_cd, "KEY_STOPCD")
    ∷ (Key.media_previous_song, "KEY_PREVIOUSSONG")
    ∷ (Key.media_next_song, "KEY_NEXTSONG")
    ∷ (Key.media_eject_cd, "KEY_EJECTCD")
    ∷ (Key.media_www, "KEY_WWW")
    ∷ (Key.media_back, "KEY_BACK")
    ∷ (Key.media_forward, "KEY_FORWARD")
    ∷ (Key.media_stop, "KEY_STOP")
    ∷ (Key.media_find, "KEY_FIND")
    ∷ (Key.media_scroll_up, "KEY_SCROLLUP")
    ∷ (Key.media_scroll_down, "KEY_SCROLLDOWN")
    ∷ (Key.media_edit, "KEY_EDIT")
    ∷ (Key.media_sleep, "KEY_SLEEP")
    ∷ (Key.media_coffee, "KEY_COFFEE")
    ∷ (Key.media_refresh, "KEY_REFRESH")
    ∷ (Key.media_calc, "KEY_CALC")
    ∷ []

-- The cases of the switch in `evdevKeyCode`.
abbrev pub evdev_names : List (ℕ × String)
evdev_names =
    letters
    ++ (digits
        ++ (symbols
            ++ (function_keys
                ++ (navigation
                    ++ (keypad ++ (editing ++ (international ++ (modifiers ++ media))))))))

abbrev pub is_code : Option ℕ → ℕ → Bool
is_code none key_code = false
is_code (some native) key_code = native == key_code

module _ (code : String → ℕ) where
  unfoldable pub evdev_key_code : ℕ → Option ℕ
  evdev_key_code key = value_of code (switch key evdev_names)

  -- The loop of `keyFromEvdev`, with the usages left to try and the next one.
  unfoldable pub scan_usages : ℕ → ℕ → ℕ → ℕ
  scan_usages zero usage key_code = Key.none
  scan_usages (suc left) usage key_code =
      let later = scan_usages left (suc usage) key_code in
      if is_code (evdev_key_code usage) key_code then usage else later

  unfoldable pub key_from_evdev : ℕ → ℕ
  key_from_evdev key_code = scan_usages (suc Key.media_calc) 0 key_code
