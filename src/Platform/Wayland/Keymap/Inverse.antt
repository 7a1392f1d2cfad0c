-- ===== src/Platform/Wayland/Keymap/Inverse.antt =====
-- src/platform/wayland_keymap.hpp: the reverse map.
use mksync.Prelude.{
  ℕ, zero, suc, ◌+◌, ◌≤◌, ◌<◌, leb, ◌≡◌, refl, ◌∙◌, ◌==◌, ==_iff, str_eq, str_eq_iff, Bool, true,
  false, not, ◌||◌, String, List, [], ◌∷◌, Option, none, some, arith, Bool-cases, Option-cases, inl,
  inr, ◌≢◌, ap,
}
use mksync.Core.Key
use mksync.Platform.KeyTable.{switch, all, all-switch, AreDistinct}
use mksync.Platform.Wayland.Keymap.{
  evdev_names, is_code, evdev_key_code, scan_usages, key_from_evdev,
}

-- The keys that share a code with a smaller usage.
abbrev pub aliases : List (ℕ × ℕ)
aliases =
    (Key.key102nd, Key.hash_tilde)
    ∷ (Key.media_mute, Key.mute)
    ∷ (Key.media_volume_up, Key.volume_up)
    ∷ (Key.media_volume_down, Key.volume_down)
    ∷ (Key.media_stop, Key.stop)
    ∷ (Key.media_find, Key.find)
    ∷ []

abbrev pub canonical : ℕ → ℕ
canonical key = elim (switch key aliases) [ none ↦ key | some smaller ↦ smaller ]

abbrev is_name : Option String → String → Bool
is_name none name = false
is_name (some s) name = str_eq s name

canonical_named : all (λ e. is_name (switch (canonical e.0) evdev_names) e.1) evdev_names ≡ true
unfolding switch
canonical_named = refl

canonical_least :
    all (λ e. all (λ f. not (str_eq e.1 f.1) || leb (canonical e.0) f.0) evdev_names) evdev_names
    ≡ true
unfolding switch
canonical_least = refl

canonical_bound : all (λ e. leb (canonical e.0) Key.media_calc) evdev_names ≡ true
unfolding switch
canonical_bound = refl

is_name-true : (o : Option String) (s : String) → is_name o s ≡ true → o ≡ some s
is_name-true none s h = cc
is_name-true (some t) s h = ground (arith, str_eq_iff t s)

module _ (code : String → ℕ) where
  scan_first :
      (key_code left usage k : ℕ)
      → usage ≤ k
      → k < usage + left
      → is_code (evdev_key_code code k) key_code ≡ true
      → ((j : ℕ) → usage ≤ j → j < k → is_code (evdev_key_code code j) key_code ≡ false)
      → scan_usages code left usage key_code ≡ k
  unfolding scan_usages
  scan_first c zero usage k low high hit before = absurd (omega arith)
  scan_first c (suc left) usage k low high hit before = elim (Bool-cases (usage == k)) [
    | inl e ↦ ground (arith, ==_iff usage k, e, hit)
    | inr e ↦
        let below : usage < k = ground (arith, e) in
        rw (before usage (omega arith) below) (
          scan_first c left (suc usage) k below (omega arith) hit
            (λ j lo hi. before j (omega arith) hi))
  ]

  scan_none :
      (key_code left usage : ℕ)
      → ((j : ℕ) → usage ≤ j → j < usage + left → is_code (evdev_key_code code j) key_code ≡ false)
      → scan_usages code left usage key_code ≡ Key.none
  unfolding scan_usages
  scan_none c zero usage h = refl
  scan_none c (suc left) usage h =
      rw (h usage (omega arith) (omega arith))
        (scan_none c left (suc usage) (λ j lo hi. h j (omega arith) (omega arith)))

  named :
      (k : ℕ) (name : String)
      → switch k evdev_names ≡ some name
      → evdev_key_code code k ≡ some (code name)
  unfolding evdev_key_code
  named k name h = rw h

  -- A key with the code of another has its name, and no smaller usage than its first key.
  other_key :
      (k j : ℕ) (name : String)
      → AreDistinct code evdev_names
      → switch k evdev_names ≡ some name
      → is_code (evdev_key_code code j) (code name) ≡ true
      → canonical k ≤ j
  unfolding evdev_key_code
  other_key k j name distinct h hit = elim (Option-cases (switch j evdev_names)) [
    | inl e ↦ absurd (cc (rw e at hit))
    | inr (s, e) ↦
        let same : code s ≡ code name = (==_iff (code s) (code name)).0 (rw e at hit) in
        let least =
          all-switch (λ f. not (str_eq name f.1) || leb (canonical k) f.0) evdev_names j s
            (all-switch
              (λ e. all (λ f. not (str_eq e.1 f.1) || leb (canonical e.0) f.0) evdev_names)
              evdev_names k name canonical_least h)
            e in
        ground (arith, distinct j k s name e h same, str_eq_iff name s, least)
  ]

  -- If the code macros that the table names have different values, the code of a key comes back as
  -- that key; the six keys that share a code with a smaller usage come back as the smaller one.
  pub key_from_evdev-evdev_key_code :
      (k : ℕ) (name : String)
      → AreDistinct code evdev_names
      → switch k evdev_names ≡ some name
      → (evdev_key_code code k ≡ some (code name)) × (key_from_evdev code (code name) ≡ canonical k)
  unfolding key_from_evdev
  key_from_evdev-evdev_key_code k name distinct h = (
    named k name h,
    scan_first (code name) (suc Key.media_calc) 0 (canonical k) (omega arith)
        (ground (
          arith,
          all-switch (λ e. leb (canonical e.0) Key.media_calc) evdev_names k name canonical_bound h,
        ))
        (let there = is_name-true (switch (canonical k) evdev_names) name (
            all-switch (λ e. is_name (switch (canonical e.0) evdev_names) e.1) evdev_names k name
              canonical_named h) in
          rw (named (canonical k) name there) ((==_iff (code name) (code name)).1 refl))
        (λ j lo hi. elim (Bool-cases (is_code (evdev_key_code code j) (code name))) [
          | inl e ↦ absurd (omega (arith, other_key k j name distinct h e))
          | inr e ↦ e
        ]),
  )

  -- A code that no key has comes back as no key.
  pub key_from_evdev_unknown :
      (key_code : ℕ)
      → ((k : ℕ) → evdev_key_code code k ≢ some key_code)
      → key_from_evdev code key_code ≡ Key.none
  unfolding key_from_evdev
  key_from_evdev_unknown c h = scan_none c (suc Key.media_calc) 0 (λ j lo hi. no_hit j)
    where
      no_hit : (j : ℕ) → is_code (evdev_key_code code j) c ≡ false
      no_hit j = elim (Option-cases (evdev_key_code code j)) [
        | inl e ↦ rw e refl
        | inr (n, e) ↦ elim (Bool-cases (n == c)) [
          | inl same ↦ absurd (h j (e ∙ ap some ((==_iff n c).0 same)))
          | inr other ↦ rw e other
        ]
      ]
