-- ===== src/Platform/Xcb/Keysyms/Inverse.antt =====
-- src/platform/xcb.cpp: a key that is injected on one X11 machine, as another one captures it.
use mksync.Prelude.{
  ℕ, ◌<◌, leb, ◌≡◌, refl, sym, ◌∙◌, ◌==◌, ==_iff, Bool, true, ◌||◌, String, none, some,
  if◌then◌else◌,
}
use mksync.Core.Key
use mksync.Platform.KeyTable.{switch, switch_code, is_between, all}
use mksync.Platform.KeyTable.Documented.{
  documented_code, is_listed, all_below, all_below_sound, switch_code-documented,
  value_of-documented,
}
use mksync.Platform.Xcb.Keysyms.{keysym_cases, key_cases, translate_key_sym, key_sym_for}
use mksync.Platform.Xcb.Keysyms.Defined.{documented, keysymdef, IsKeysymdef}

-- The keys that have a keysym to be injected by and that `translateKeySym` does not know.
abbrev pub is_one_way : ℕ → Bool
is_one_way key =
    is_between Key.f13 Key.f24 key
    || is_between Key.mute Key.volume_down key
    || leb Key.media_play_pause key

abbrev comes_back : ℕ → Bool
comes_back key = elim (key_sym_for keysymdef key) [
  | none ↦ true
  | some s ↦ translate_key_sym keysymdef s == (if is_one_way key then Key.none else key)
]

all_come_back : all_below 256 comes_back ≡ true
unfolding key_sym_for translate_key_sym switch_code switch documented_code
all_come_back = refl

cases_listed : all (λ e. is_listed documented e.0) keysym_cases ≡ true
unfolding is_listed
cases_listed = refl

names_listed : all (λ e. is_listed documented e.1) key_cases ≡ true
unfolding is_listed
names_listed = refl

came_back :
    (k s : ℕ)
    → key_sym_for keysymdef k ≡ some s
    → comes_back k ≡ true
    → translate_key_sym keysymdef s ≡ (if is_one_way k then Key.none else k)
came_back k s e h =
    (==_iff (translate_key_sym keysymdef s) (if is_one_way k then Key.none else k)).0
      (rw (e, comes_back) at h)

module _ (code : String → ℕ) (defined : IsKeysymdef code) where
  translate_key_sym-keysymdef : (s : ℕ) → translate_key_sym code s ≡ translate_key_sym keysymdef s
  unfolding translate_key_sym is_listed
  translate_key_sym-keysymdef s =
      rw
        (
          defined "XK_a" refl,
          defined "XK_z" refl,
          defined "XK_A" refl,
          defined "XK_Z" refl,
          defined "XK_1" refl,
          defined "XK_9" refl,
          switch_code-documented documented code defined Key.none keysym_cases s cases_listed,
        )
        refl

  key_sym_for-keysymdef : (k : ℕ) → key_sym_for code k ≡ key_sym_for keysymdef k
  unfolding key_sym_for is_listed
  key_sym_for-keysymdef k =
      rw
        (
          defined "XK_a" refl,
          defined "XK_1" refl,
          defined "XK_F1" refl,
          defined "XK_F13" refl,
          defined "XK_KP_1" refl,
          value_of-documented documented code defined key_cases k names_listed,
        )
        refl

  -- If the headers define the keysyms as documented, every key that can be injected through a
  -- keysym is captured as the same key, but for F13 to F24 and the media keys, which are lost.
  pub translate_key_sym-key_sym_for :
      (k s : ℕ)
      → k < 256
      → key_sym_for code k ≡ some s
      → translate_key_sym code s ≡ (if is_one_way k then Key.none else k)
  translate_key_sym-key_sym_for k s h e =
      translate_key_sym-keysymdef s
      ∙ came_back k s (sym (key_sym_for-keysymdef k) ∙ e)
          (all_below_sound 256 comes_back k all_come_back h)
