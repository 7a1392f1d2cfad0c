-- ===== src/Platform/Xcb/Keysyms/Defined.antt =====
-- The values that <X11/keysymdef.h> and <X11/XF86keysym.h> give to the keysyms that xcb.cpp names.
use mksync.Platform.KeyTable.Documented.{documented_code, IsDocumented}
use mksync.Prelude.{ℕ, String, List, [], ◌∷◌}

abbrev pub documented : List (String × ℕ)
documented =
    ("XK_a", 0x61)
    ∷ ("XK_z", 0x7a)
    ∷ ("XK_A", 0x41)
    ∷ ("XK_Z", 0x5a)
    ∷ ("XK_0", 0x30)
    ∷ ("XK_1", 0x31)
    ∷ ("XK_9", 0x39)
    ∷ ("XK_Return", 0xff0d)
    ∷ ("XK_KP_Enter", 0xff8d)
    ∷ ("XK_Escape", 0xff1b)
    ∷ ("XK_BackSpace", 0xff08)
    ∷ ("XK_Tab", 0xff09)
    ∷ ("XK_space", 0x20)
    ∷ ("XK_minus", 0x2d)
    ∷ ("XK_equal", 0x3d)
    ∷ ("XK_bracketleft", 0x5b)
    ∷ ("XK_bracketright", 0x5d)
    ∷ ("XK_backslash", 0x5c)
    ∷ ("XK_semicolon", 0x3b)
    ∷ ("XK_apostrophe", 0x27)
    ∷ ("XK_grave", 0x60)
    ∷ ("XK_comma", 0x2c)
    ∷ ("XK_period", 0x2e)
    ∷ ("XK_slash", 0x2f)
    ∷ ("XK_Caps_Lock", 0xffe5)
    ∷ ("XK_F1", 0xffbe)
    ∷ ("XK_F2", 0xffbf)
    ∷ ("XK_F3", 0xffc0)
    ∷ ("XK_F4", 0xffc1)
    ∷ ("XK_F5", 0xffc2)
    ∷ ("XK_F6", 0xffc3)
    ∷ ("XK_F7", 0xffc4)
    ∷ ("XK_F8", 0xffc5)
    ∷ ("XK_F9", 0xffc6)
    ∷ ("XK_F10", 0xffc7)
    ∷ ("XK_F11", 0xffc8)
    ∷ ("XK_F12", 0xffc9)
    ∷ ("XK_F13", 0xffca)
    ∷ ("XK_Print", 0xff61)
    ∷ ("XK_Scroll_Lock", 0xff14)
    ∷ ("XK_Pause", 0xff13)
    ∷ ("XK_Insert", 0xff63)
    ∷ ("XK_Home", 0xff50)
    ∷ ("XK_Page_Up", 0xff55)
    ∷ ("XK_Delete", 0xffff)
    ∷ ("XK_End", 0xff57)
    ∷ ("XK_Page_Down", 0xff56)
    ∷ ("XK_Right", 0xff53)
    ∷ ("XK_Left", 0xff51)
    ∷ ("XK_Down", 0xff54)
    ∷ ("XK_Up", 0xff52)
    ∷ ("XK_Num_Lock", 0xff7f)
    ∷ ("XK_KP_Divide", 0xffaf)
    ∷ ("XK_KP_Multiply", 0xffaa)
    ∷ ("XK_KP_Subtract", 0xffad)
    ∷ ("XK_KP_Add", 0xffab)
    ∷ ("XK_KP_0", 0xffb0)
    ∷ ("XK_KP_1", 0xffb1)
    ∷ ("XK_KP_2", 0xffb2)
    ∷ ("XK_KP_3", 0xffb3)
    ∷ ("XK_KP_4", 0xffb4)
    ∷ ("XK_KP_5", 0xffb5)
    ∷ ("XK_KP_6", 0xffb6)
    ∷ ("XK_KP_7", 0xffb7)
    ∷ ("XK_KP_8", 0xffb8)
    ∷ ("XK_KP_9", 0xffb9)
    ∷ ("XK_KP_Decimal", 0xffae)
    ∷ ("XK_Control_L", 0xffe3)
    ∷ ("XK_Control_R", 0xffe4)
    ∷ ("XK_Shift_L", 0xffe1)
    ∷ ("XK_Shift_R", 0xffe2)
    ∷ ("XK_Alt_L", 0xffe9)
    ∷ ("XK_Alt_R", 0xffea)
    ∷ ("XK_Super_L", 0xffeb)
    ∷ ("XK_Super_R", 0xffec)
    ∷ ("XF86XK_AudioRaiseVolume", 0x1008ff13)
    ∷ ("XF86XK_AudioLowerVolume", 0x1008ff11)
    ∷ ("XF86XK_AudioMute", 0x1008ff12)
    ∷ ("XF86XK_AudioPlay", 0x1008ff14)
    ∷ ("XF86XK_AudioStop", 0x1008ff15)
    ∷ ("XF86XK_AudioPrev", 0x1008ff16)
    ∷ ("XF86XK_AudioNext", 0x1008ff17)
    ∷ []

abbrev pub keysymdef : String → ℕ
keysymdef = documented_code documented

-- The headers define each of these keysyms as documented.
abbrev pub IsKeysymdef : (String → ℕ) → Type 0
IsKeysymdef code = IsDocumented documented code
