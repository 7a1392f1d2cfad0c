-- ===== src/Core/Key/Navigation.antt =====
-- src/core/key.hpp, `Key`: the navigation block, as USB HID usages.
use mksync.Prelude.{ℕ}

abbrev pub sys_rq : ℕ
sys_rq = 0x46

abbrev pub scroll_lock : ℕ
scroll_lock = 0x47

abbrev pub pause : ℕ
pause = 0x48

abbrev pub insert : ℕ
insert = 0x49

abbrev pub home : ℕ
home = 0x4a

abbrev pub page_up : ℕ
page_up = 0x4b

abbrev pub delete : ℕ
delete = 0x4c

abbrev pub end : ℕ
end = 0x4d

abbrev pub page_down : ℕ
page_down = 0x4e

abbrev pub right : ℕ
right = 0x4f

abbrev pub left : ℕ
left = 0x50

abbrev pub down : ℕ
down = 0x51

abbrev pub up : ℕ
up = 0x52
