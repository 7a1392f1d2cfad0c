-- ===== src/Platform/Win32/Keys.antt =====
-- src/platform/win32_key.hpp: keys and Win32 virtual keys. `code` gives the values of the macros of
-- <Windows.h>.
pub mod Defined
pub mod Inverse
pub mod Modifiers
use mksync.Prelude.{
  ℕ, ◌+◌, ◌-◌, ◌==◌, leb, ltb, Bool, true, false, ◌||◌, String, List, [], ◌∷◌, ◌++◌, Option, none,
  some, if◌then◌else◌,
}
use mksync.Core.Key
use mksync.Platform.KeyTable.{switch, switch_code, value_of, is_between}

pub record Win32Key : Type 0 where
  pub virtual_key : ℕ
  pub extended : Bool

-- The cases of `virtualKeyToKey`.
abbrev symbol_virtual_keys : List (String × ℕ)
symbol_virtual_keys =
    ("VK_RETURN", Key.enter)
    ∷ ("VK_ESCAPE", Key.esc)
    ∷ ("VK_BACK", Key.backspace)
    ∷ ("VK_TAB", Key.tab)
    ∷ ("VK_SPACE", Key.space)
    ∷ ("VK_OEM_MINUS", Key.minus)
    ∷ ("VK_OEM_PLUS", Key.equal)
    ∷ ("VK_OEM_4", Key.left_brace)
    ∷ ("VK_OEM_6", Key.right_brace)
    ∷ ("VK_OEM_5", Key.backslash)
    ∷ ("VK_OEM_1", Key.semicolon)
    ∷ ("VK_OEM_7", Key.apostrophe)
    ∷ ("VK_OEM_3", Key.grave)
    ∷ ("VK_OEM_COMMA", Key.comma)
    ∷ ("VK_OEM_PERIOD", Key.dot)
    ∷ ("VK_OEM_2", Key.slash)
    ∷ ("VK_CAPITAL", Key.caps_lock)
    ∷ []

abbrev function_virtual_keys : List (String × ℕ)
function_virtual_keys =
    ("VK_F1", Key.f1)
    ∷ ("VK_F2", Key.f2)
    ∷ ("VK_F3", Key.f3)
    ∷ ("VK_F4", Key.f4)
    ∷ ("VK_F5", Key.f5)
    ∷ ("VK_F6", Key.f6)
    ∷ ("VK_F7", Key.f7)
    ∷ ("VK_F8", Key.f8)
    ∷ ("VK_F9", Key.f9)
    ∷ ("VK_F10", Key.f10)
    ∷ ("VK_F11", Key.f11)
    ∷ ("VK_F12", Key.f12)
    ∷ ("VK_SNAPSHOT", Key.sys_rq)
    ∷ ("VK_SCROLL", Key.scroll_lock)
    ∷ ("VK_PAUSE", Key.pause)
    ∷ []

abbrev navigation_virtual_keys : List (String × ℕ)
navigation_virtual_keys =
    ("VK_INSERT", Key.insert)
    ∷ ("VK_HOME", Key.home)
    ∷ ("VK_PRIOR", Key.page_up)
    ∷ ("VK_DELETE", Key.delete)
    ∷ ("VK_END", Key.end)
    ∷ ("VK_NEXT", Key.page_down)
    ∷ ("VK_RIGHT", Key.right)
    ∷ ("VK_LEFT", Key.left)
    ∷ ("VK_DOWN", Key.down)
    ∷ ("VK_UP", Key.up)
    ∷ []

abbrev keypad_virtual_keys : List (String × ℕ)
keypad_virtual_keys =
    ("VK_NUMLOCK", Key.num_lock)
    ∷ ("VK_DIVIDE", Key.keypad_slash)
    ∷ ("VK_MULTIPLY", Key.keypad_asterisk)
    ∷ ("VK_SUBTRACT", Key.keypad_minus)
    ∷ ("VK_ADD", Key.keypad_plus)
    ∷ ("VK_NUMPAD0", Key.keypad0)
    ∷ ("VK_NUMPAD1", Key.keypad1)
    ∷ ("VK_NUMPAD2", Key.keypad2)
    ∷ ("VK_NUMPAD3", Key.keypad3)
    ∷ ("VK_NUMPAD4", Key.keypad4)
    ∷ ("VK_NUMPAD5", Key.keypad5)
    ∷ ("VK_NUMPAD6", Key.keypad6)
    ∷ ("VK_NUMPAD7", Key.keypad7)
    ∷ ("VK_NUMPAD8", Key.keypad8)
    ∷ ("VK_NUMPAD9", Key.keypad9)
    ∷ ("VK_DECIMAL", Key.keypad_dot)
    ∷ []

abbrev modifier_virtual_keys : List (String × ℕ)
modifier_virtual_keys =
    ("VK_LCONTROL", Key.left_ctrl)
    ∷ ("VK_RCONTROL", Key.right_ctrl)
    ∷ ("VK_LSHIFT", Key.left_shift)
    ∷ ("VK_RSHIFT", Key.right_shift)
    ∷ ("VK_LMENU", Key.left_alt)
    ∷ ("VK_RMENU", Key.right_alt)
    ∷ ("VK_LWIN", Key.left_meta)
    ∷ ("VK_RWIN", Key.right_meta)
    ∷ []

abbrev pub virtual_key_cases : List (String × ℕ)
virtual_key_cases =
    symbol_virtual_keys ++ function_virtual_keys ++ navigation_virtual_keys ++ keypad_virtual_keys
    ++ modifier_virtual_keys

-- The cases of `keyToWin32`, but for the one of Digit0.
abbrev symbol_keys : List (ℕ × String)
symbol_keys =
    (Key.enter, "VK_RETURN")
    ∷ (Key.esc, "VK_ESCAPE")
    ∷ (Key.backspace, "VK_BACK")
    ∷ (Key.tab, "VK_TAB")
    ∷ (Key.space, "VK_SPACE")
    ∷ (Key.minus, "VK_OEM_MINUS")
    ∷ (Key.equal, "VK_OEM_PLUS")
    ∷ (Key.left_brace, "VK_OEM_4")
    ∷ (Key.right_brace, "VK_OEM_6")
    ∷ (Key.backslash, "VK_OEM_5")
    ∷ (Key.semicolon, "VK_OEM_1")
    ∷ (Key.apostrophe, "VK_OEM_7")
    ∷ (Key.grave, "VK_OEM_3")
    ∷ (Key.comma, "VK_OEM_COMMA")
    ∷ (Key.dot, "VK_OEM_PERIOD")
    ∷ (Key.slash, "VK_OEM_2")
    ∷ (Key.caps_lock, "VK_CAPITAL")
    ∷ []

abbrev navigation_keys : List (ℕ × String)
navigation_keys =
    (Key.sys_rq, "VK_SNAPSHOT")
    ∷ (Key.scroll_lock, "VK_SCROLL")
    ∷ (Key.pause, "VK_PAUSE")
    ∷ (Key.insert, "VK_INSERT")
    ∷ (Key.home, "VK_HOME")
    ∷ (Key.page_up, "VK_PRIOR")
    ∷ (Key.delete, "VK_DELETE")
    ∷ (Key.end, "VK_END")
    ∷ (Key.page_down, "VK_NEXT")
    ∷ (Key.right, "VK_RIGHT")
    ∷ (Key.left, "VK_LEFT")
    ∷ (Key.down, "VK_DOWN")
    ∷ (Key.up, "VK_UP")
    ∷ []

abbrev keypad_keys : List (ℕ × String)
keypad_keys =
    (Key.num_lock, "VK_NUMLOCK")
    ∷ (Key.keypad_slash, "VK_DIVIDE")
    ∷ (Key.keypad_asterisk, "VK_MULTIPLY")
    ∷ (Key.keypad_minus, "VK_SUBTRACT")
    ∷ (Key.keypad_plus, "VK_ADD")
    ∷ (Key.keypad_enter, "VK_RETURN")
    ∷ (Key.keypad0, "VK_NUMPAD0")
    ∷ (Key.keypad_dot, "VK_DECIMAL")
    ∷ []

abbrev modifier_keys : List (ℕ × String)
modifier_keys =
    (Key.left_ctrl, "VK_LCONTROL")
    ∷ (Key.left_shift, "VK_LSHIFT")
    ∷ (Key.left_alt, "VK_LMENU")
    ∷ (Key.left_meta, "VK_LWIN")
    ∷ (Key.right_ctrl, "VK_RCONTROL")
    ∷ (Key.right_shift, "VK_RSHIFT")
    ∷ (Key.right_alt, "VK_RMENU")
    ∷ (Key.right_meta, "VK_RWIN")
    ∷ []

abbrev media_keys : List (ℕ × String)
media_keys =
    (Key.volume_up, "VK_VOLUME_UP")
    ∷ (Key.media_volume_up, "VK_VOLUME_UP")
    ∷ (Key.volume_down, "VK_VOLUME_DOWN")
    ∷ (Key.media_volume_down, "VK_VOLUME_DOWN")
    ∷ (Key.mute, "VK_VOLUME_MUTE")
    ∷ (Key.media_mute, "VK_VOLUME_MUTE")
    ∷ (Key.media_play_pause, "VK_MEDIA_PLAY_PAUSE")
    ∷ (Key.media_stop_cd, "VK_MEDIA_STOP")
    ∷ (Key.media_previous_song, "VK_MEDIA_PREV_TRACK")
    ∷ (Key.media_next_song, "VK_MEDIA_NEXT_TRACK")
    ∷ []

abbrev pub win32_cases : List (ℕ × String)
win32_cases = symbol_keys ++ navigation_keys ++ keypad_keys ++ modifier_keys ++ media_keys

abbrev pub extended_cases : List (ℕ × Bool)
extended_cases =
    (Key.right_ctrl, true)
    ∷ (Key.right_alt, true)
    ∷ (Key.insert, true)
    ∷ (Key.delete, true)
    ∷ (Key.home, true)
    ∷ (Key.end, true)
    ∷ (Key.page_up, true)
    ∷ (Key.page_down, true)
    ∷ (Key.right, true)
    ∷ (Key.left, true)
    ∷ (Key.down, true)
    ∷ (Key.up, true)
    ∷ (Key.keypad_slash, true)
    ∷ (Key.keypad_enter, true)
    ∷ []

unfoldable pub is_extended_key : ℕ → Bool
unfolding switch
is_extended_key key = elim (switch key extended_cases) [ none ↦ false | some b ↦ b ]

module _ (code : String → ℕ) where
  -- `map_virtual_key` is `MapVirtualKeyW` with MAPVK_VSC_TO_VK_EX.
  unfoldable pub normalize_virtual_key : (ℕ → ℕ) → ℕ → ℕ → ℕ
  normalize_virtual_key map_virtual_key vk_code scan_code =
      if vk_code == code "VK_SHIFT" || (vk_code == code "VK_CONTROL" || vk_code == code "VK_MENU")
      then map_virtual_key scan_code
      else vk_code

  -- 0x41 is 'A', 0x5a is 'Z', 0x30 is '0' and 0x39 is '9'.
  unfoldable pub virtual_key_to_key : ℕ → ℕ
  unfolding switch_code
  virtual_key_to_key vk_code =
      if is_between 0x41 0x5a vk_code
      then Key.a + (vk_code - 0x41)
      else if is_between 0x30 0x39 vk_code
      then Key.digit0 + (vk_code - 0x30)
      else switch_code code Key.none virtual_key_cases vk_code

  abbrev plain : ℕ → Option Win32Key
  plain virtual_key = some (record { virtual_key = virtual_key; extended = false })

  -- The default case: the native code of the event, if it is a `WORD` other than 0.
  abbrev from_native : ℕ → ℕ → Option Win32Key
  from_native key native_code =
      if native_code == 0 || ltb 65535 native_code
      then none
      else some (record { virtual_key = native_code; extended = is_extended_key key })

  abbrev or_native : ℕ → ℕ → Option ℕ → Option Win32Key
  or_native key native_code none = from_native key native_code
  or_native key native_code (some virtual_key) =
      some (record { virtual_key = virtual_key; extended = is_extended_key key })

  -- The `switch`.
  abbrev virtual_key_of : ℕ → Option ℕ
  virtual_key_of key =
      if Key.digit0 == key then some 0x30 else value_of code (switch key win32_cases)

  unfoldable pub key_to_win32 : ℕ → ℕ → Option Win32Key
  unfolding switch is_extended_key
  key_to_win32 key native_code =
      if is_between Key.a Key.z key
      then plain (0x41 + (key - Key.a))
      else if is_between Key.digit1 Key.digit9 key
      then plain (0x31 + (key - Key.digit1))
      else if is_between Key.f1 Key.f12 key
      then plain (code "VK_F1" + (key - Key.f1))
      else if is_between Key.f13 Key.f24 key
      then plain (code "VK_F13" + (key - Key.f13))
      else if is_between Key.keypad1 Key.keypad9 key
      then plain (code "VK_NUMPAD1" + (key - Key.keypad1))
      else or_native key native_code (virtual_key_of key)
