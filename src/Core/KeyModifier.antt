-- ===== src/Core/KeyModifier.antt =====
-- src/core/key.hpp, `KeyModifier`: masks over a byte, and its operators.
use Prim.Native.Nat.{bit_and, bit_or}
use mksync.Prelude.{ℕ, ◌-◌}

abbrev pub none : ℕ
none = 0x00

abbrev pub left_ctrl : ℕ
left_ctrl = 0x01

abbrev pub left_shift : ℕ
left_shift = 0x02

abbrev pub left_alt : ℕ
left_alt = 0x04

abbrev pub left_meta : ℕ
left_meta = 0x08

abbrev pub right_ctrl : ℕ
right_ctrl = 0x10

abbrev pub right_shift : ℕ
right_shift = 0x20

abbrev pub right_alt : ℕ
right_alt = 0x40

abbrev pub right_meta : ℕ
right_meta = 0x80

-- `|`, `&` and `~` on bytes.
abbrev pub union : ℕ → ℕ → ℕ
union a b = bit_or a b

abbrev pub intersection : ℕ → ℕ → ℕ
intersection a b = bit_and a b

abbrev pub complement : ℕ → ℕ
complement a = 255 - a
