-- ===== src/Platform/Win32/Keys/Defined.antt =====
-- The values that <Windows.h> gives to the virtual keys that win32_key.hpp names.
use mksync.Prelude.{ℕ, String, List, [], ◌∷◌}
use mksync.Platform.KeyTable.Documented.{documented_code}

abbrev pub virtual_keys : List (String × ℕ)
virtual_keys =
    ("VK_RETURN", 0x0d)
    ∷ ("VK_ESCAPE", 0x1b)
    ∷ ("VK_BACK", 0x08)
    ∷ ("VK_TAB", 0x09)
    ∷ ("VK_SPACE", 0x20)
    ∷ ("VK_OEM_MINUS", 0xbd)
    ∷ ("VK_OEM_PLUS", 0xbb)
    ∷ ("VK_OEM_4", 0xdb)
    ∷ ("VK_OEM_6", 0xdd)
    ∷ ("VK_OEM_5", 0xdc)
    ∷ ("VK_OEM_1", 0xba)
    ∷ ("VK_OEM_7", 0xde)
    ∷ ("VK_OEM_3", 0xc0)
    ∷ ("VK_OEM_COMMA", 0xbc)
    ∷ ("VK_OEM_PERIOD", 0xbe)
    ∷ ("VK_OEM_2", 0xbf)
    ∷ ("VK_CAPITAL", 0x14)
    ∷ ("VK_F1", 0x70)
    ∷ ("VK_F2", 0x71)
    ∷ ("VK_F3", 0x72)
    ∷ ("VK_F4", 0x73)
    ∷ ("VK_F5", 0x74)
    ∷ ("VK_F6", 0x75)
    ∷ ("VK_F7", 0x76)
    ∷ ("VK_F8", 0x77)
    ∷ ("VK_F9", 0x78)
    ∷ ("VK_F10", 0x79)
    ∷ ("VK_F11", 0x7a)
    ∷ ("VK_F12", 0x7b)
    ∷ ("VK_F13", 0x7c)
    ∷ ("VK_SNAPSHOT", 0x2c)
    ∷ ("VK_SCROLL", 0x91)
    ∷ ("VK_PAUSE", 0x13)
    ∷ ("VK_INSERT", 0x2d)
    ∷ ("VK_HOME", 0x24)
    ∷ ("VK_PRIOR", 0x21)
    ∷ ("VK_DELETE", 0x2e)
    ∷ ("VK_END", 0x23)
    ∷ ("VK_NEXT", 0x22)
    ∷ ("VK_RIGHT", 0x27)
    ∷ ("VK_LEFT", 0x25)
    ∷ ("VK_DOWN", 0x28)
    ∷ ("VK_UP", 0x26)
    ∷ ("VK_NUMLOCK", 0x90)
    ∷ ("VK_DIVIDE", 0x6f)
    ∷ ("VK_MULTIPLY", 0x6a)
    ∷ ("VK_SUBTRACT", 0x6d)
    ∷ ("VK_ADD", 0x6b)
    ∷ ("VK_NUMPAD0", 0x60)
    ∷ ("VK_NUMPAD1", 0x61)
    ∷ ("VK_NUMPAD2", 0x62)
    ∷ ("VK_NUMPAD3", 0x63)
    ∷ ("VK_NUMPAD4", 0x64)
    ∷ ("VK_NUMPAD5", 0x65)
    ∷ ("VK_NUMPAD6", 0x66)
    ∷ ("VK_NUMPAD7", 0x67)
    ∷ ("VK_NUMPAD8", 0x68)
    ∷ ("VK_NUMPAD9", 0x69)
    ∷ ("VK_DECIMAL", 0x6e)
    ∷ ("VK_LCONTROL", 0xa2)
    ∷ ("VK_RCONTROL", 0xa3)
    ∷ ("VK_LSHIFT", 0xa0)
    ∷ ("VK_RSHIFT", 0xa1)
    ∷ ("VK_LMENU", 0xa4)
    ∷ ("VK_RMENU", 0xa5)
    ∷ ("VK_LWIN", 0x5b)
    ∷ ("VK_RWIN", 0x5c)
    ∷ ("VK_VOLUME_UP", 0xaf)
    ∷ ("VK_VOLUME_DOWN", 0xae)
    ∷ ("VK_VOLUME_MUTE", 0xad)
    ∷ ("VK_MEDIA_PLAY_PAUSE", 0xb3)
    ∷ ("VK_MEDIA_STOP", 0xb2)
    ∷ ("VK_MEDIA_PREV_TRACK", 0xb1)
    ∷ ("VK_MEDIA_NEXT_TRACK", 0xb0)
    ∷ []

abbrev pub winuser : String → ℕ
winuser = documented_code virtual_keys
