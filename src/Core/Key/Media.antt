-- ===== src/Core/Key/Media.antt =====
-- src/core/key.hpp, `Key`: the media keys, as USB HID usages.
use mksync.Prelude.{ℕ}

abbrev pub media_play_pause : ℕ
media_play_pause = 0xe8

abbrev pub media_stop_cd : ℕ
media_stop_cd = 0xe9

abbrev pub media_previous_song : ℕ
media_previous_song = 0xea

abbrev pub media_next_song : ℕ
media_next_song = 0xeb

abbrev pub media_eject_cd : ℕ
media_eject_cd = 0xec

abbrev pub media_volume_up : ℕ
media_volume_up = 0xed

abbrev pub media_volume_down : ℕ
media_volume_down = 0xee

abbrev pub media_mute : ℕ
media_mute = 0xef

abbrev pub media_www : ℕ
media_www = 0xf0

abbrev pub media_back : ℕ
media_back = 0xf1

abbrev pub media_forward : ℕ
media_forward = 0xf2

abbrev pub media_stop : ℕ
media_stop = 0xf3

abbrev pub media_find : ℕ
media_find = 0xf4

abbrev pub media_scroll_up : ℕ
media_scroll_up = 0xf5

abbrev pub media_scroll_down : ℕ
media_scroll_down = 0xf6

abbrev pub media_edit : ℕ
media_edit = 0xf7

abbrev pub media_sleep : ℕ
media_sleep = 0xf8

abbrev pub media_coffee : ℕ
media_coffee = 0xf9

abbrev pub media_refresh : ℕ
media_refresh = 0xfa

abbrev pub media_calc : ℕ
media_calc = 0xfb
