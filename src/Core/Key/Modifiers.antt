-- ===== src/Core/Key/Modifiers.antt =====
-- src/core/key.hpp, `Key`: the modifier keys, as USB HID usages.
use mksync.Prelude.{ℕ}

abbrev pub left_ctrl : ℕ
left_ctrl = 0xe0

abbrev pub left_shift : ℕ
left_shift = 0xe1

abbrev pub left_alt : ℕ
left_alt = 0xe2

abbrev pub left_meta : ℕ
left_meta = 0xe3

abbrev pub right_ctrl : ℕ
right_ctrl = 0xe4

abbrev pub right_shift : ℕ
right_shift = 0xe5

abbrev pub right_alt : ℕ
right_alt = 0xe6

abbrev pub right_meta : ℕ
right_meta = 0xe7
