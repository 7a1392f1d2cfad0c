-- ===== src/Core/Key/International.antt =====
-- src/core/key.hpp, `Key`: locking and international keys, as USB HID usages.
use mksync.Prelude.{ℕ}

abbrev pub locking_num_lock : ℕ
locking_num_lock = 0x83

abbrev pub locking_scroll_lock : ℕ
locking_scroll_lock = 0x84

abbrev pub keypad_comma : ℕ
keypad_comma = 0x85

abbrev pub keypad_equal_sign : ℕ
keypad_equal_sign = 0x86

abbrev pub ro : ℕ
ro = 0x87

abbrev pub katakana_hiragana : ℕ
katakana_hiragana = 0x88

abbrev pub yen : ℕ
yen = 0x89

abbrev pub henkan : ℕ
henkan = 0x8a

abbrev pub muhenkan : ℕ
muhenkan = 0x8b

abbrev pub keypad_jp_comma : ℕ
keypad_jp_comma = 0x8c

abbrev pub intl7 : ℕ
intl7 = 0x8d

abbrev pub intl8 : ℕ
intl8 = 0x8e

abbrev pub intl9 : ℕ
intl9 = 0x8f

abbrev pub hangeul : ℕ
hangeul = 0x90

abbrev pub hanja : ℕ
hanja = 0x91

abbrev pub katakana : ℕ
katakana = 0x92

abbrev pub hiragana : ℕ
hiragana = 0x93

abbrev pub zenkaku_hankaku : ℕ
zenkaku_hankaku = 0x94

abbrev pub lang6 : ℕ
lang6 = 0x95

abbrev pub lang7 : ℕ
lang7 = 0x96

abbrev pub lang8 : ℕ
lang8 = 0x97

abbrev pub lang9 : ℕ
lang9 = 0x98

abbrev pub alternate_erase : ℕ
alternate_erase = 0x99

abbrev pub sys_req_attention : ℕ
sys_req_attention = 0x9a

abbrev pub cancel : ℕ
cancel = 0x9b

abbrev pub clear : ℕ
clear = 0x9c

abbrev pub prior : ℕ
prior = 0x9d

abbrev pub return : ℕ
return = 0x9e

abbrev pub separator : ℕ
separator = 0x9f

abbrev pub out : ℕ
out = 0xa0

abbrev pub oper : ℕ
oper = 0xa1

abbrev pub clear_again : ℕ
clear_again = 0xa2

abbrev pub cr_sel_props : ℕ
cr_sel_props = 0xa3

abbrev pub ex_sel : ℕ
ex_sel = 0xa4
