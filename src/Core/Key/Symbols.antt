-- ===== src/Core/Key/Symbols.antt =====
-- src/core/key.hpp, `Key`: control keys, symbols and the first twelve function keys, as USB HID usages.
use mksync.Prelude.{ℕ}

abbrev pub enter : ℕ
enter = 0x28

abbrev pub esc : ℕ
esc = 0x29

abbrev pub backspace : ℕ
backspace = 0x2a

abbrev pub tab : ℕ
tab = 0x2b

abbrev pub space : ℕ
space = 0x2c

abbrev pub minus : ℕ
minus = 0x2d

abbrev pub equal : ℕ
equal = 0x2e

abbrev pub left_brace : ℕ
left_brace = 0x2f

abbrev pub right_brace : ℕ
right_brace = 0x30

abbrev pub backslash : ℕ
backslash = 0x31

abbrev pub hash_tilde : ℕ
hash_tilde = 0x32

abbrev pub semicolon : ℕ
semicolon = 0x33

abbrev pub apostrophe : ℕ
apostrophe = 0x34

abbrev pub grave : ℕ
grave = 0x35

abbrev pub comma : ℕ
comma = 0x36

abbrev pub dot : ℕ
dot = 0x37

abbrev pub slash : ℕ
slash = 0x38

abbrev pub caps_lock : ℕ
caps_lock = 0x39

abbrev pub f1 : ℕ
f1 = 0x3a

abbrev pub f2 : ℕ
f2 = 0x3b

abbrev pub f3 : ℕ
f3 = 0x3c

abbrev pub f4 : ℕ
f4 = 0x3d

abbrev pub f5 : ℕ
f5 = 0x3e

abbrev pub f6 : ℕ
f6 = 0x3f

abbrev pub f7 : ℕ
f7 = 0x40

abbrev pub f8 : ℕ
f8 = 0x41

abbrev pub f9 : ℕ
f9 = 0x42

abbrev pub f10 : ℕ
f10 = 0x43

abbrev pub f11 : ℕ
f11 = 0x44

abbrev pub f12 : ℕ
f12 = 0x45
