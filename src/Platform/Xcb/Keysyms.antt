-- ===== src/Platform/Xcb/Keysyms.antt =====
-- src/platform/xcb.cpp: keys and X11 keysyms, as `translateKeySym` and `keySymFor` map them. `code`
-- gives the values of the macros of <X11/keysymdef.h> and <X11/XF86keysym.h>.
pub mod Defined
pub mod Inverse
use mksync.Prelude.{
  ℕ, ◌+◌, ◌-◌, ◌==◌, leb, Bool, ◌&&◌, String, List, [], ◌∷◌, ◌++◌, Option, none, some,
  if◌then◌else◌,
}
use mksync.Core.Key
use mksync.Platform.KeyTable.{switch, switch_code, value_of, is_between}

-- The cases of `translateKeySym`.
abbrev symbol_syms : List (String × ℕ)
symbol_syms =
    ("XK_0", Key.digit0)
    ∷ ("XK_Return", Key.enter)
    ∷ ("XK_KP_Enter", Key.keypad_enter)
    ∷ ("XK_Escape", Key.esc)
    ∷ ("XK_BackSpace", Key.backspace)
    ∷ ("XK_Tab", Key.tab)
    ∷ ("XK_space", Key.space)
    ∷ ("XK_minus", Key.minus)
    ∷ ("XK_equal", Key.equal)
    ∷ ("XK_bracketleft", Key.left_brace)
    ∷ ("XK_bracketright", Key.right_brace)
    ∷ ("XK_backslash", Key.backslash)
    ∷ ("XK_semicolon", Key.semicolon)
    ∷ ("XK_apostrophe", Key.apostrophe)
    ∷ ("XK_grave", Key.grave)
    ∷ ("XK_comma", Key.comma)
    ∷ ("XK_period", Key.dot)
    ∷ ("XK_slash", Key.slash)
    ∷ ("XK_Caps_Lock", Key.caps_lock)
    ∷ []

abbrev function_syms : List (String × ℕ)
function_syms =
    ("XK_F1", Key.f1)
    ∷ ("XK_F2", Key.f2)
    ∷ ("XK_F3", Key.f3)
    ∷ ("XK_F4", Key.f4)
    ∷ ("XK_F5", Key.f5)
    ∷ ("XK_F6", Key.f6)
    ∷ ("XK_F7", Key.f7)
    ∷ ("XK_F8", Key.f8)
    ∷ ("XK_F9", Key.f9)
    ∷ ("XK_F10", Key.f10)
    ∷ ("XK_F11", Key.f11)
    ∷ ("XK_F12", Key.f12)
    ∷ ("XK_Print", Key.sys_rq)
    ∷ ("XK_Scroll_Lock", Key.scroll_lock)
    ∷ ("XK_Pause", Key.pause)
    ∷ []

abbrev navigation_syms : List (String × ℕ)
navigation_syms =
    ("XK_Insert", Key.insert)
    ∷ ("XK_Home", Key.home)
    ∷ ("XK_Page_Up", Key.page_up)
    ∷ ("XK_Delete", Key.delete)
    ∷ ("XK_End", Key.end)
    ∷ ("XK_Page_Down", Key.page_down)
    ∷ ("XK_Right", Key.right)
    ∷ ("XK_Left", Key.left)
    ∷ ("XK_Down", Key.down)
    ∷ ("XK_Up", Key.up)
    ∷ []

abbrev keypad_syms : List (String × ℕ)
keypad_syms =
    ("XK_Num_Lock", Key.num_lock)
    ∷ ("XK_KP_Divide", Key.keypad_slash)
    ∷ ("XK_KP_Multiply", Key.keypad_asterisk)
    ∷ ("XK_KP_Subtract", Key.keypad_minus)
    ∷ ("XK_KP_Add", Key.keypad_plus)
    ∷ ("XK_KP_0", Key.keypad0)
    ∷ ("XK_KP_1", Key.keypad1)
    ∷ ("XK_KP_2", Key.keypad2)
    ∷ ("XK_KP_3", Key.keypad3)
    ∷ ("XK_KP_4", Key.keypad4)
    ∷ ("XK_KP_5", Key.keypad5)
    ∷ ("XK_KP_6", Key.keypad6)
    ∷ ("XK_KP_7", Key.keypad7)
    ∷ ("XK_KP_8", Key.keypad8)
    ∷ ("XK_KP_9", Key.keypad9)
    ∷ ("XK_KP_Decimal", Key.keypad_dot)
    ∷ []

abbrev modifier_syms : List (String × ℕ)
modifier_syms =
    ("XK_Control_L", Key.left_ctrl)
    ∷ ("XK_Control_R", Key.right_ctrl)
    ∷ ("XK_Shift_L", Key.left_shift)
    ∷ ("XK_Shift_R", Key.right_shift)
    ∷ ("XK_Alt_L", Key.left_alt)
    ∷ ("XK_Alt_R", Key.right_alt)
    ∷ ("XK_Super_L", Key.left_meta)
    ∷ ("XK_Super_R", Key.right_meta)
    ∷ []

abbrev pub keysym_cases : List (String × ℕ)
keysym_cases = symbol_syms ++ function_syms ++ navigation_syms ++ keypad_syms ++ modifier_syms

-- The cases of `keySymFor`.
abbrev symbol_names : List (ℕ × String)
symbol_names =
    (Key.digit0, "XK_0")
    ∷ (Key.enter, "XK_Return")
    ∷ (Key.keypad_enter, "XK_KP_Enter")
    ∷ (Key.esc, "XK_Escape")
    ∷ (Key.backspace, "XK_BackSpace")
    ∷ (Key.tab, "XK_Tab")
    ∷ (Key.space, "XK_space")
    ∷ (Key.minus, "XK_minus")
    ∷ (Key.equal, "XK_equal")
    ∷ (Key.left_brace, "XK_bracketleft")
    ∷ (Key.right_brace, "XK_bracketright")
    ∷ (Key.backslash, "XK_backslash")
    ∷ (Key.semicolon, "XK_semicolon")
    ∷ (Key.apostrophe, "XK_apostrophe")
    ∷ (Key.grave, "XK_grave")
    ∷ (Key.comma, "XK_comma")
    ∷ (Key.dot, "XK_period")
    ∷ (Key.slash, "XK_slash")
    ∷ (Key.caps_lock, "XK_Caps_Lock")
    ∷ []

abbrev navigation_names : List (ℕ × String)
navigation_names =
    (Key.sys_rq, "XK_Print")
    ∷ (Key.scroll_lock, "XK_Scroll_Lock")
    ∷ (Key.pause, "XK_Pause")
    ∷ (Key.insert, "XK_Insert")
    ∷ (Key.home, "XK_Home")
    ∷ (Key.page_up, "XK_Page_Up")
    ∷ (Key.delete, "XK_Delete")
    ∷ (Key.end, "XK_End")
    ∷ (Key.page_down, "XK_Page_Down")
    ∷ (Key.right, "XK_Right")
    ∷ (Key.left, "XK_Left")
    ∷ (Key.down, "XK_Down")
    ∷ (Key.up, "XK_Up")
    ∷ []

abbrev keypad_names : List (ℕ × String)
keypad_names =
    (Key.num_lock, "XK_Num_Lock")
    ∷ (Key.keypad_slash, "XK_KP_Divide")
    ∷ (Key.keypad_asterisk, "XK_KP_Multiply")
    ∷ (Key.keypad_minus, "XK_KP_Subtract")
    ∷ (Key.keypad_plus, "XK_KP_Add")
    ∷ (Key.keypad0, "XK_KP_0")
    ∷ (Key.keypad_dot, "XK_KP_Decimal")
    ∷ []

abbrev modifier_names : List (ℕ × String)
modifier_names =
    (Key.left_ctrl, "XK_Control_L")
    ∷ (Key.right_ctrl, "XK_Control_R")
    ∷ (Key.left_shift, "XK_Shift_L")
    ∷ (Key.right_shift, "XK_Shift_R")
    ∷ (Key.left_alt, "XK_Alt_L")
    ∷ (Key.right_alt, "XK_Alt_R")
    ∷ (Key.left_meta, "XK_Super_L")
    ∷ (Key.right_meta, "XK_Super_R")
    ∷ []

abbrev media_names : List (ℕ × String)
media_names =
    (Key.volume_up, "XF86XK_AudioRaiseVolume")
    ∷ (Key.media_volume_up, "XF86XK_AudioRaiseVolume")
    ∷ (Key.volume_down, "XF86XK_AudioLowerVolume")
    ∷ (Key.media_volume_down, "XF86XK_AudioLowerVolume")
    ∷ (Key.mute, "XF86XK_AudioMute")
    ∷ (Key.media_mute, "XF86XK_AudioMute")
    ∷ (Key.media_play_pause, "XF86XK_AudioPlay")
    ∷ (Key.media_stop_cd, "XF86XK_AudioStop")
    ∷ (Key.media_stop, "XF86XK_AudioStop")
    ∷ (Key.media_previous_song, "XF86XK_AudioPrev")
    ∷ (Key.media_next_song, "XF86XK_AudioNext")
    ∷ []

abbrev pub key_cases : List (ℕ × String)
key_cases = symbol_names ++ navigation_names ++ keypad_names ++ modifier_names ++ media_names

module _ (code : String → ℕ) where
  unfoldable pub translate_key_sym : ℕ → ℕ
  unfolding switch_code
  translate_key_sym key_sym =
      if is_between (code "XK_a") (code "XK_z") key_sym
      then Key.a + (key_sym - code "XK_a")
      else if is_between (code "XK_A") (code "XK_Z") key_sym
      then Key.a + (key_sym - code "XK_A")
      else if is_between (code "XK_1") (code "XK_9") key_sym
      then Key.digit1 + (key_sym - code "XK_1")
      else switch_code code Key.none keysym_cases key_sym

  unfoldable pub key_sym_for : ℕ → Option ℕ
  unfolding switch
  key_sym_for key =
      if is_between Key.a Key.z key
      then some (code "XK_a" + (key - Key.a))
      else if is_between Key.digit1 Key.digit9 key
      then some (code "XK_1" + (key - Key.digit1))
      else if is_between Key.f1 Key.f12 key
      then some (code "XK_F1" + (key - Key.f1))
      else if is_between Key.f13 Key.f24 key
      then some (code "XK_F13" + (key - Key.f13))
      else if is_between Key.keypad1 Key.keypad9 key
      then some (code "XK_KP_1" + (key - Key.keypad1))
      else value_of code (switch key key_cases)
