-- ===== src/Core/Key/Keypad.antt =====
-- src/core/key.hpp, `Key`: the keypad, further function keys and editing keys, as USB HID usages.
use mksync.Prelude.{ℕ}

abbrev pub num_lock : ℕ
num_lock = 0x53

abbrev pub keypad_slash : ℕ
keypad_slash = 0x54

abbrev pub keypad_asterisk : ℕ
keypad_asterisk = 0x55

abbrev pub keypad_minus : ℕ
keypad_minus = 0x56

abbrev pub keypad_plus : ℕ
keypad_plus = 0x57

abbrev pub keypad_enter : ℕ
keypad_enter = 0x58

abbrev pub keypad1 : ℕ
keypad1 = 0x59

abbrev pub keypad2 : ℕ
keypad2 = 0x5a

abbrev pub keypad3 : ℕ
keypad3 = 0x5b

abbrev pub keypad4 : ℕ
keypad4 = 0x5c

abbrev pub keypad5 : ℕ
keypad5 = 0x5d

abbrev pub keypad6 : ℕ
keypad6 = 0x5e

abbrev pub keypad7 : ℕ
keypad7 = 0x5f

abbrev pub keypad8 : ℕ
keypad8 = 0x60

abbrev pub keypad9 : ℕ
keypad9 = 0x61

abbrev pub keypad0 : ℕ
keypad0 = 0x62

abbrev pub keypad_dot : ℕ
keypad_dot = 0x63

abbrev pub key102nd : ℕ
key102nd = 0x64

abbrev pub compose : ℕ
compose = 0x65

abbrev pub power : ℕ
power = 0x66

abbrev pub keypad_equal : ℕ
keypad_equal = 0x67

abbrev pub f13 : ℕ
f13 = 0x68

abbrev pub f14 : ℕ
f14 = 0x69

abbrev pub f15 : ℕ
f15 = 0x6a

abbrev pub f16 : ℕ
f16 = 0x6b

abbrev pub f17 : ℕ
f17 = 0x6c

abbrev pub f18 : ℕ
f18 = 0x6d

abbrev pub f19 : ℕ
f19 = 0x6e

abbrev pub f20 : ℕ
f20 = 0x6f

abbrev pub f21 : ℕ
f21 = 0x70

abbrev pub f22 : ℕ
f22 = 0x71

abbrev pub f23 : ℕ
f23 = 0x72

abbrev pub f24 : ℕ
f24 = 0x73

abbrev pub open_key : ℕ
open_key = 0x74

abbrev pub help : ℕ
help = 0x75

abbrev pub props : ℕ
props = 0x76

abbrev pub front : ℕ
front = 0x77

abbrev pub stop : ℕ
stop = 0x78

abbrev pub again : ℕ
again = 0x79

abbrev pub undo : ℕ
undo = 0x7a

abbrev pub cut : ℕ
cut = 0x7b

abbrev pub copy : ℕ
copy = 0x7c

abbrev pub paste : ℕ
paste = 0x7d

abbrev pub find : ℕ
find = 0x7e

abbrev pub mute : ℕ
mute = 0x7f

abbrev pub volume_up : ℕ
volume_up = 0x80

abbrev pub volume_down : ℕ
volume_down = 0x81

abbrev pub locking_caps_lock : ℕ
locking_caps_lock = 0x82
