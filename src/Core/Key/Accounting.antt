-- ===== src/Core/Key/Accounting.antt =====
-- src/core/key.hpp, `Key`: the further keys of a keypad, as USB HID usages.
use mksync.Prelude.{ℕ}

abbrev pub keypad00 : ℕ
keypad00 = 0xb0

abbrev pub keypad000 : ℕ
keypad000 = 0xb1

abbrev pub thousands_separator : ℕ
thousands_separator = 0xb2

abbrev pub decimal_separator : ℕ
decimal_separator = 0xb3

abbrev pub currency_unit : ℕ
currency_unit = 0xb4

abbrev pub currency_sub_unit : ℕ
currency_sub_unit = 0xb5

abbrev pub keypad_left_paren : ℕ
keypad_left_paren = 0xb6

abbrev pub keypad_right_paren : ℕ
keypad_right_paren = 0xb7

abbrev pub keypad_left_brace : ℕ
keypad_left_brace = 0xb8

abbrev pub keypad_right_brace : ℕ
keypad_right_brace = 0xb9

abbrev pub keypad_tab : ℕ
keypad_tab = 0xba

abbrev pub keypad_backspace : ℕ
keypad_backspace = 0xbb

abbrev pub keypad_a : ℕ
keypad_a = 0xbc

abbrev pub keypad_b : ℕ
keypad_b = 0xbd

abbrev pub keypad_c : ℕ
keypad_c = 0xbe

abbrev pub keypad_d : ℕ
keypad_d = 0xbf

abbrev pub keypad_e : ℕ
keypad_e = 0xc0

abbrev pub keypad_f : ℕ
keypad_f = 0xc1

abbrev pub keypad_xor : ℕ
keypad_xor = 0xc2

abbrev pub keypad_caret : ℕ
keypad_caret = 0xc3

abbrev pub keypad_percent : ℕ
keypad_percent = 0xc4

abbrev pub keypad_less : ℕ
keypad_less = 0xc5

abbrev pub keypad_greater : ℕ
keypad_greater = 0xc6

abbrev pub keypad_ampersand : ℕ
keypad_ampersand = 0xc7

abbrev pub keypad_double_amp : ℕ
keypad_double_amp = 0xc8

abbrev pub keypad_pipe : ℕ
keypad_pipe = 0xc9

abbrev pub keypad_double_pipe : ℕ
keypad_double_pipe = 0xca

abbrev pub keypad_colon : ℕ
keypad_colon = 0xcb

abbrev pub keypad_hash : ℕ
keypad_hash = 0xcc

abbrev pub keypad_space : ℕ
keypad_space = 0xcd

abbrev pub keypad_at : ℕ
keypad_at = 0xce

abbrev pub keypad_exclaim : ℕ
keypad_exclaim = 0xcf

abbrev pub keypad_mem_store : ℕ
keypad_mem_store = 0xd0

abbrev pub keypad_mem_recall : ℕ
keypad_mem_recall = 0xd1

abbrev pub keypad_mem_clear : ℕ
keypad_mem_clear = 0xd2

abbrev pub keypad_mem_add : ℕ
keypad_mem_add = 0xd3

abbrev pub keypad_mem_sub : ℕ
keypad_mem_sub = 0xd4

abbrev pub keypad_mem_mult : ℕ
keypad_mem_mult = 0xd5

abbrev pub keypad_mem_div : ℕ
keypad_mem_div = 0xd6

abbrev pub keypad_plus_minus : ℕ
keypad_plus_minus = 0xd7

abbrev pub keypad_clear : ℕ
keypad_clear = 0xd8

abbrev pub keypad_clear_entry : ℕ
keypad_clear_entry = 0xd9

abbrev pub keypad_binary : ℕ
keypad_binary = 0xda

abbrev pub keypad_octal : ℕ
keypad_octal = 0xdb

abbrev pub keypad_decimal : ℕ
keypad_decimal = 0xdc

abbrev pub keypad_hexadecimal : ℕ
keypad_hexadecimal = 0xdd
